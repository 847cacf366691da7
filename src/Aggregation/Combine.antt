-- ===== src/Aggregation/Combine.antt =====
-- healthcheck-backend/src/aggregation-utils.ts: several buckets combined to one.
pub mod Summaries
pub mod Split
mod Tests
use checkmate.Prelude.{
  ℕ, ◌+◌, Bool, true, false, List, [], ◌∷◌, ◌++◌, Option, none, some, ltb, leb, if◌then◌else◌,
}
use checkmate.Aggregation.Incremental.{minimum, maximum}
use checkmate.Aggregation.Tiers.{SourceTier, raw, hourly, daily, NormalizedBucket}

-- `TIER_PRIORITY`.
unfoldable pub tier_priority : SourceTier → ℕ
tier_priority raw = 0
tier_priority hourly = 1
tier_priority daily = 2

-- The variables of the loop of `combineBuckets`.
pub record Totals (R : Type 0) : Type 0 where
  pub run_count : ℕ
  pub healthy_count : ℕ
  pub degraded_count : ℕ
  pub unhealthy_count : ℕ
  pub latency_sum_ms : ℕ
  pub has_latency_data : Bool
  pub min_values : List ℕ
  pub max_values : List ℕ
  pub p95_values : List ℕ
  pub lowest_priority_tier : SourceTier
  pub aggregated_results : List (Option R)

abbrev pub no_totals : {R : Type 0} → Totals R
no_totals = record {
  run_count = 0;
  healthy_count = 0;
  degraded_count = 0;
  unhealthy_count = 0;
  latency_sum_ms = 0;
  has_latency_data = false;
  min_values = [];
  max_values = [];
  p95_values = [];
  lowest_priority_tier = raw;
  aggregated_results = [];
}

abbrev pub push_some : List ℕ → Option ℕ → List ℕ
push_some xs none = xs
push_some xs (some x) = xs ++ x ∷ []

abbrev pub add_some : ℕ → Option ℕ → ℕ
add_some n none = n
add_some n (some x) = n + x

abbrev pub or_defined : Bool → Option ℕ → Bool
or_defined b none = b
or_defined b (some x) = true

abbrev pub lower_tier : SourceTier → SourceTier → SourceTier
lower_tier lowest tier = if ltb (tier_priority lowest) (tier_priority tier) then tier else lowest

-- The body of the loop.
unfoldable pub add_bucket : {R : Type 0} → Totals R → NormalizedBucket R → Totals R
add_bucket t b = record {
  run_count = t.run_count + b.run_count;
  healthy_count = t.healthy_count + b.healthy_count;
  degraded_count = t.degraded_count + b.degraded_count;
  unhealthy_count = t.unhealthy_count + b.unhealthy_count;
  latency_sum_ms = add_some t.latency_sum_ms b.latency_sum_ms;
  has_latency_data = or_defined t.has_latency_data b.latency_sum_ms;
  min_values = push_some t.min_values b.min_latency_ms;
  max_values = push_some t.max_values b.max_latency_ms;
  p95_values = push_some t.p95_values b.p95_latency_ms;
  lowest_priority_tier = lower_tier t.lowest_priority_tier b.source_tier;
  aggregated_results = t.aggregated_results ++ b.aggregated_result ∷ [];
}

unfoldable pub add_buckets : {R : Type 0} → Totals R → List (NormalizedBucket R) → Totals R
add_buckets t [] = t
add_buckets t (b ∷ bs) = add_buckets (add_bucket t b) bs

-- `Math.min(...values)` and `Math.max(...values)`, on no value `undefined`.
unfoldable pub least : List ℕ → Option ℕ
unfolding minimum
least [] = none
least (x ∷ xs) = elim (least xs) [ none ↦ some x | some y ↦ some (minimum x y) ]

unfoldable pub greatest : List ℕ → Option ℕ
unfolding maximum
greatest [] = none
greatest (x ∷ xs) = elim (greatest xs) [ none ↦ some x | some y ↦ some (maximum x y) ]

-- `combineBuckets`. `merge` is `mergeAggregatedBucketResults` with the registries; with no
-- bucket at all it is not called.
unfoldable pub combine_buckets :
    {R : Type 0}
    → (List (Option R) → Option R)
    → ℕ
    → ℕ
    → List (NormalizedBucket R)
    → NormalizedBucket R
unfolding add_buckets
combine_buckets merge target_start target_end buckets =
    let t = add_buckets no_totals buckets in
    record {
      bucket_start = target_start;
      bucket_end_ms = target_end;
      run_count = t.run_count;
      healthy_count = t.healthy_count;
      degraded_count = t.degraded_count;
      unhealthy_count = t.unhealthy_count;
      latency_sum_ms = if t.has_latency_data then some t.latency_sum_ms else none;
      min_latency_ms = least t.min_values;
      max_latency_ms = greatest t.max_values;
      p95_latency_ms = greatest t.p95_values;
      aggregated_result = elim buckets [ [] ↦ none | b ∷ bs ↦ merge t.aggregated_results ];
      source_tier = t.lowest_priority_tier;
    }
