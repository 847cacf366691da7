-- ===== src/History/Days.antt =====
-- retention-job.ts: the grouping of aggregates by day, and the daily aggregate of a group.
use checkmate.Prelude.{
  ℕ, ◌+◌, ◌≡◌, refl, String, true, ◌&&◌, List, [], ◌∷◌, ◌++◌, arith, All, All-append, All-parts,
  ◌==◌, if◌then◌else◌, Bool-cases, inl, inr,
}
use checkmate.Prelude.Text.{◌===◌, ===_iff}
use checkmate.History.Tables.{Aggregate, Calendar}
use checkmate.History.Rollup.{
  DailyBucket, DailyTotals, no_daily_totals, add_totals, sum_up, daily_aggregate, add_to_bucket,
  group_by_day,
}
use checkmate.History.Counting.{
  Column, all_runs, healthy_runs, degraded_runs, unhealthy_runs, column_of, is_assigned, total,
  occurrences, occurrences-append,
}

abbrev totals_of : Column → DailyTotals → ℕ
totals_of all_runs t = t.run_count
totals_of healthy_runs t = t.healthy_count
totals_of degraded_runs t = t.degraded_count
totals_of unhealthy_runs t = t.unhealthy_count

totals_of-none : (column : Column) → totals_of column no_daily_totals ≡ 0
totals_of-none all_runs = refl
totals_of-none healthy_runs = refl
totals_of-none degraded_runs = refl
totals_of-none unhealthy_runs = refl

module _ {R N : Type 0} where
  -- All aggregates of the buckets.
  abbrev pub members : List (DailyBucket R N) → List (Aggregate R N)
  members [] = []
  members (b ∷ buckets) = b.aggregates ++ members buckets

  occurrences-add_to_bucket :
      (id day : ℕ) (a : Aggregate R N) (buckets : List (DailyBucket R N))
      → occurrences id (members (add_to_bucket day a buckets))
        ≡ occurrences id (a ∷ []) + occurrences id (members buckets)
  unfolding add_to_bucket
  occurrences-add_to_bucket id day a [] = omega arith
  occurrences-add_to_bucket id day a (b ∷ buckets) = elim (Bool-cases (b.bucket_start == day)) [
    | inl e ↦
        rw (add_to_bucket, e)
          (omega (
            arith,
            occurrences-append id (b.aggregates ++ a ∷ []) (members buckets),
            occurrences-append id b.aggregates (a ∷ []),
            occurrences-append id b.aggregates (members buckets),
          ))
    | inr e ↦
        rw (add_to_bucket, e)
          (omega (
            arith,
            occurrences-append id b.aggregates (members (add_to_bucket day a buckets)),
            occurrences-append id b.aggregates (members buckets),
            occurrences-add_to_bucket id day a buckets,
          ))
  ]

  -- The grouping neither drops nor doubles an aggregate.
  pub occurrences-group_by_day :
      (calendar : Calendar) (id : ℕ) (rows : List (Aggregate R N))
      (buckets : List (DailyBucket R N))
      → occurrences id (members (group_by_day calendar rows buckets))
        ≡ occurrences id rows + occurrences id (members buckets)
  unfolding group_by_day
  occurrences-group_by_day calendar id [] buckets = omega arith
  occurrences-group_by_day calendar id (a ∷ rows) buckets =
      let day = calendar.day_start a.bucket_start in
      omega (
        arith,
        occurrences-group_by_day calendar id rows (add_to_bucket day a buckets),
        occurrences-add_to_bucket id day a buckets,
      )

  All-add_to_bucket {κ} :
      (P : Aggregate R N → Type κ) (day : ℕ) (a : Aggregate R N) (buckets : List (DailyBucket R N))
      → P a
      → All P (members buckets)
      → All P (members (add_to_bucket day a buckets))
  unfolding add_to_bucket
  All-add_to_bucket P day a [] h hs = (h, tt)
  All-add_to_bucket P day a (b ∷ buckets) h hs =
      let (here, rest) = All-parts P b.aggregates (members buckets) hs in
      elim (Bool-cases (b.bucket_start == day)) [
        | inl e ↦
            rw (add_to_bucket, e)
              (All-append P (b.aggregates ++ a ∷ []) (members buckets)
                (All-append P b.aggregates (a ∷ []) here (h, tt)) rest)
        | inr e ↦
            rw (add_to_bucket, e)
              (All-append P b.aggregates (members (add_to_bucket day a buckets)) here
                (All-add_to_bucket P day a buckets h rest))
      ]

  pub All-group_by_day {κ} :
      (P : Aggregate R N → Type κ) (calendar : Calendar) (rows : List (Aggregate R N))
      (buckets : List (DailyBucket R N))
      → All P rows
      → All P (members buckets)
      → All P (members (group_by_day calendar rows buckets))
  unfolding group_by_day
  All-group_by_day P calendar [] buckets h hs = hs
  All-group_by_day P calendar (a ∷ rows) buckets (h, h') hs =
      let day = calendar.day_start a.bucket_start in
      All-group_by_day P calendar rows (add_to_bucket day a buckets) h'
        (All-add_to_bucket P day a buckets h hs)

  sum_of : Column → List (Aggregate R N) → ℕ
  sum_of column [] = 0
  sum_of column (a ∷ rows) = column_of column a + sum_of column rows

  totals_of-add_totals :
      (column : Column) (a : Aggregate R N) (t : DailyTotals)
      → totals_of column (add_totals a t) ≡ totals_of column t + column_of column a
  totals_of-add_totals all_runs a t = refl
  totals_of-add_totals healthy_runs a t = refl
  totals_of-add_totals degraded_runs a t = refl
  totals_of-add_totals unhealthy_runs a t = refl

  totals_of-sum_up :
      (column : Column) (rows : List (Aggregate R N)) (t : DailyTotals)
      → totals_of column (sum_up rows t) ≡ totals_of column t + sum_of column rows
  unfolding sum_up sum_of
  totals_of-sum_up column [] t = omega arith
  totals_of-sum_up column (a ∷ rows) t =
      omega (arith, totals_of-sum_up column rows (add_totals a t), totals_of-add_totals column a t)

  pub id-daily_aggregate :
      (id : ℕ) (s c : String) (b : DailyBucket R N) → (daily_aggregate id s c b).id ≡ id
  unfolding daily_aggregate
  id-daily_aggregate id s c b = refl

  column_of-daily :
      (column : Column) (id : ℕ) (s c : String) (b : DailyBucket R N)
      → column_of column (daily_aggregate id s c b)
        ≡ totals_of column (sum_up b.aggregates no_daily_totals)
  unfolding daily_aggregate
  column_of-daily all_runs id s c b = refl
  column_of-daily healthy_runs id s c b = refl
  column_of-daily degraded_runs id s c b = refl
  column_of-daily unhealthy_runs id s c b = refl

  total-assigned :
      (column : Column) (s c s' c' : String) (rows : List (Aggregate R N))
      → All (λ a. is_assigned s' c' a ≡ true) rows
      → total column s c rows ≡ (if s' === s && c' === c then sum_of column rows else 0)
  unfolding sum_of
  total-assigned column s c s' c' [] h = ground arith
  total-assigned column s c s' c' (a ∷ rows) (h, hs) = ground (
    arith,
    ===_iff a.system_id s',
    ===_iff a.configuration_id c',
    ===_iff a.system_id s,
    ===_iff a.configuration_id c,
    ===_iff s' s,
    ===_iff c' c,
    total-assigned column s c s' c' rows hs,
  )

  -- The daily aggregate counts what its group counts.
  pub total-daily_aggregate :
      (column : Column) (s c : String) (id : ℕ) (s' c' : String) (b : DailyBucket R N)
      → All (λ a. is_assigned s' c' a ≡ true) b.aggregates
      → total column s c (daily_aggregate id s' c' b ∷ []) ≡ total column s c b.aggregates
  unfolding daily_aggregate
  total-daily_aggregate column s c id s' c' b h = ground (
    arith,
    total-assigned column s c s' c' b.aggregates h,
    column_of-daily column id s' c' b,
    totals_of-sum_up column b.aggregates no_daily_totals,
    totals_of-none column,
  )
