-- ===== src/Aggregation/Combine/Tests.antt =====
-- The combination of concrete buckets.
use checkmate.Prelude.{ℕ, ◌≡◌, refl, ◌+◌, List, [], ◌∷◌, ◌++◌, Option, none, some}
use checkmate.Aggregation.Incremental.{minimum, maximum}
use checkmate.Aggregation.Tiers.{SourceTier, raw, hourly, NormalizedBucket}
use checkmate.Aggregation.Combine.{
  tier_priority, add_bucket, add_buckets, least, greatest, combine_buckets,
}
use checkmate.Aggregation.Combine.Summaries.{summary}
use checkmate.Aggregation.Combine.Split.{combine_split}

abbrev merge : List (Option ℕ) → Option ℕ
merge [] = none
merge (r ∷ rs) = r

abbrev bucket : ℕ → ℕ → Option ℕ → SourceTier → NormalizedBucket ℕ
bucket healthy unhealthy latency tier = record {
  bucket_start = 0;
  bucket_end_ms = 10;
  run_count = healthy + unhealthy;
  healthy_count = healthy;
  degraded_count = 0;
  unhealthy_count = unhealthy;
  latency_sum_ms = latency;
  min_latency_ms = latency;
  max_latency_ms = latency;
  p95_latency_ms = latency;
  aggregated_result = none;
  source_tier = tier;
}

abbrev first : List (NormalizedBucket ℕ)
first = bucket 1 0 (some 30) raw ∷ bucket 0 1 none hourly ∷ []

abbrev second : List (NormalizedBucket ℕ)
second = bucket 1 0 (some 20) raw ∷ []

combined : summary (combine_buckets merge 0 10 (first ++ second)) ≡ record {
  run_count = 3;
  healthy_count = 2;
  degraded_count = 0;
  unhealthy_count = 1;
  latency_sum_ms = some 50;
  min_latency_ms = some 20;
  max_latency_ms = some 30;
  p95_latency_ms = some 30;
  source_tier = hourly;
}
unfolding combine_buckets add_buckets add_bucket least greatest minimum maximum tier_priority
combined = refl

combine_split_example :
    summary (
      combine_buckets merge 0 60
        (combine_buckets merge 0 20 first ∷ combine_buckets merge 20 40 second ∷ []))
    ≡ summary (combine_buckets merge 0 60 (first ++ second))
combine_split_example = combine_split merge 0 60 0 20 20 40 0 60 first second
