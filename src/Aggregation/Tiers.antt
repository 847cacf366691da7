-- ===== src/Aggregation/Tiers.antt =====
-- healthcheck-backend/src/aggregation-utils.ts: buckets of several tiers merged to one series.
--
-- Times are natural numbers of milliseconds. The type `R` is that of the aggregated results, which
-- merging the tiers only carries along.
pub mod Coverage
pub mod Merging
mod Tests
use checkmate.Prelude.{
  ℕ, Bool, true, false, not, ◌&&◌, List, [], ◌∷◌, ◌++◌, map, Option, filter, ltb, leb,
  if◌then◌else◌,
}
use checkmate.Prelude.Sorting.{sort_by}

pub data SourceTier : Type 0 where
  raw hourly daily : SourceTier

pub record NormalizedBucket (R : Type 0) : Type 0 where
  pub bucket_start : ℕ
  pub bucket_end_ms : ℕ
  pub run_count : ℕ
  pub healthy_count : ℕ
  pub degraded_count : ℕ
  pub unhealthy_count : ℕ
  pub latency_sum_ms : Option ℕ
  pub min_latency_ms : Option ℕ
  pub max_latency_ms : Option ℕ
  pub p95_latency_ms : Option ℕ
  pub aggregated_result : Option R
  pub source_tier : SourceTier

pub record TimeRange : Type 0 where
  pub start : ℕ
  pub end : ℕ

abbrev pub range_of : {R : Type 0} → NormalizedBucket R → TimeRange
range_of b = record { start = b.bucket_start; end = b.bucket_end_ms }

-- `rawTimeRanges` and `hourlyTimeRanges`.
unfoldable pub time_ranges : {R : Type 0} → List (NormalizedBucket R) → List TimeRange
time_ranges buckets = sort_by (λ r. r.start) (map range_of buckets)

-- The loop that fills `rawCoverage`, whose last range is `last`.
unfoldable pub extend_coverage : TimeRange → List TimeRange → List TimeRange
extend_coverage last [] = last ∷ []
extend_coverage last (range ∷ ranges) =
    let joined =
      extend_coverage
        (record {
          start = last.start;
          end = if leb last.end range.end then range.end else last.end;
        })
        ranges in
    let apart = extend_coverage range ranges in
    if leb range.start last.end then joined else last ∷ apart

unfoldable pub coverage : List TimeRange → List TimeRange
unfolding extend_coverage
coverage [] = []
coverage (range ∷ ranges) = extend_coverage range ranges

abbrev pub overlaps : TimeRange → TimeRange → Bool
overlaps bucket range = ltb bucket.start range.end && ltb range.start bucket.end

-- `doesBucketOverlapWithRaw` and `doesBucketOverlapWithHourly`: the loop ends early at a range that
-- starts after the bucket.
unfoldable pub does_overlap : TimeRange → List TimeRange → Bool
does_overlap bucket [] = false
does_overlap bucket (range ∷ ranges) =
    let rest = does_overlap bucket ranges in
    if overlaps bucket range then true else if leb bucket.end range.start then false else rest

unfoldable pub overlaps_raw : {R : Type 0} → List (NormalizedBucket R) → NormalizedBucket R → Bool
overlaps_raw raw_buckets b = does_overlap (range_of b) (coverage (time_ranges raw_buckets))

unfoldable pub overlaps_hourly :
    {R : Type 0} → List (NormalizedBucket R) → NormalizedBucket R → Bool
overlaps_hourly hourly_buckets b = does_overlap (range_of b) (time_ranges hourly_buckets)

-- With no bucket at all the result is empty, so the source's test for that is not repeated.
unfoldable pub merge_tiered_buckets :
    {R : Type 0}
    → List (NormalizedBucket R)
    → List (NormalizedBucket R)
    → List (NormalizedBucket R)
    → List (NormalizedBucket R)
merge_tiered_buckets raw_buckets hourly_buckets daily_buckets =
    sort_by (λ b. b.bucket_start)
      (raw_buckets
        ++ (filter (λ b. not (overlaps_raw raw_buckets b)) hourly_buckets
            ++ filter
                (λ b. not (overlaps_raw raw_buckets b) && not (overlaps_hourly hourly_buckets b))
                daily_buckets))
