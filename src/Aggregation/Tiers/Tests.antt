-- ===== src/Aggregation/Tiers/Tests.antt =====
-- The merging of tiers at concrete buckets.
use checkmate.Prelude.{ℕ, ◌≡◌, ◌⊎◌, ◌↔◌, refl, false, List, [], ◌∷◌, map, none, In, arith}
use checkmate.Prelude.Sorting.{IsSortedBy, sort_by, insert_by}
use checkmate.Aggregation.Tiers.{
  SourceTier, raw, hourly, daily, NormalizedBucket, time_ranges, extend_coverage, coverage,
  does_overlap, overlaps_raw, overlaps_hourly, merge_tiered_buckets,
}
use checkmate.Aggregation.Tiers.Merging.{overlaps_some, merge_tiered_buckets_iff}

abbrev bucket : ℕ → ℕ → SourceTier → NormalizedBucket ℕ
bucket from to tier = record {
  bucket_start = from;
  bucket_end_ms = to;
  run_count = 1;
  healthy_count = 1;
  degraded_count = 0;
  unhealthy_count = 0;
  latency_sum_ms = none;
  min_latency_ms = none;
  max_latency_ms = none;
  p95_latency_ms = none;
  aggregated_result = none;
  source_tier = tier;
}

abbrev raws : List (NormalizedBucket ℕ)
raws = bucket 110 120 raw ∷ bucket 100 110 raw ∷ []

abbrev hourlies : List (NormalizedBucket ℕ)
hourlies = bucket 60 100 hourly ∷ bucket 100 140 hourly ∷ []

abbrev dailies : List (NormalizedBucket ℕ)
dailies = bucket 0 60 daily ∷ bucket 60 140 daily ∷ []

starts :
    map (λ b. b.bucket_start) (merge_tiered_buckets raws hourlies dailies) ≡ 0 ∷ 60 ∷ 100 ∷ 110 ∷ []
unfolding merge_tiered_buckets sort_by insert_by overlaps_raw overlaps_hourly does_overlap coverage
    extend_coverage time_ranges
starts = refl

merge_tiered_buckets_iff_example :
    let b = bucket 60 100 hourly in
    (In b (merge_tiered_buckets raws hourlies dailies) ↔ (
      In b raws
      ⊎ (In b hourlies × (overlaps_some b raws ≡ false))
      ⊎ (In b dailies × (overlaps_some b raws ≡ false) × (overlaps_some b hourlies ≡ false))))
    × IsSortedBy (λ c. c.bucket_start) (merge_tiered_buckets raws hourlies dailies)
merge_tiered_buckets_iff_example =
    merge_tiered_buckets_iff raws hourlies dailies (bucket 60 100 hourly) (omega arith)
