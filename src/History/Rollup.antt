-- ===== src/History/Rollup.antt =====
-- healthcheck-backend/src/retention-job.ts, `rollupHourlyAggregates`: hours rolled up into days.
--
-- `new_id` stands for the id that the database makes for a row of a table. A bucket is looked up by
-- the start of its day, the source by that time's text.
use checkmate.Prelude.{
  ℕ, ◌+◌, ◌*◌, ◌/◌, String, Bool, ◌&&◌, List, [], ◌∷◌, ◌++◌, Option, none, some, Result, ok, err,
  filter, ltb, ◌==◌, if◌then◌else◌,
}
use checkmate.Prelude.Text.{◌===◌}
use checkmate.Aggregation.Incremental.{minimum, maximum}
use checkmate.History.Tables.{
  hourly, daily, same_size, Aggregate, Calendar, InsertError, insert, delete_by_id,
}

-- An entry of `dailyBuckets`.
pub record DailyBucket (R N : Type 0) : Type 0 where
  pub bucket_start : ℕ
  pub aggregates : List (Aggregate R N)

-- The variables of the loop over a bucket's aggregates.
pub record DailyTotals : Type 0 where
  pub run_count : ℕ
  pub healthy_count : ℕ
  pub degraded_count : ℕ
  pub unhealthy_count : ℕ
  pub latency_sum_ms : ℕ

abbrev pub no_daily_totals : DailyTotals
no_daily_totals = record {
  run_count = 0;
  healthy_count = 0;
  degraded_count = 0;
  unhealthy_count = 0;
  latency_sum_ms = 0;
}

-- `Math.round(a / b)` for `b > 0`: halves go up.
unfoldable pub round_quotient : ℕ → ℕ → ℕ
round_quotient a b = (2 * a + b) / (2 * b)

-- `Math.min(...values)` and `Math.max(...values)`, of no values `undefined`.
unfoldable pub extreme_of : (ℕ → ℕ → ℕ) → List ℕ → Option ℕ
extreme_of choose [] = none
extreme_of choose (v ∷ vs) = elim (extreme_of choose vs) [
  | none ↦ some v
  | some w ↦ some (choose v w)
]

module _ {R N : Type 0} where
  abbrev latency_of : Aggregate R N → ℕ
  latency_of a = elim a.latency_sum_ms [
    | some s ↦ s
    | none ↦ elim a.avg_latency_ms [ some avg ↦ avg * a.run_count | none ↦ 0 ]
  ]

  abbrev pub add_totals : Aggregate R N → DailyTotals → DailyTotals
  add_totals a t = record {
    run_count = t.run_count + a.run_count;
    healthy_count = t.healthy_count + a.healthy_count;
    degraded_count = t.degraded_count + a.degraded_count;
    unhealthy_count = t.unhealthy_count + a.unhealthy_count;
    latency_sum_ms = t.latency_sum_ms + latency_of a;
  }

  unfoldable pub sum_up : List (Aggregate R N) → DailyTotals → DailyTotals
  sum_up [] t = t
  sum_up (a ∷ rest) t = sum_up rest (add_totals a t)

  -- `.map(..).filter(v !== null)`.
  abbrev pub values_of : (Aggregate R N → Option ℕ) → List (Aggregate R N) → List ℕ
  values_of column [] = []
  values_of column (a ∷ rest) = elim (column a) [
    | none ↦ values_of column rest
    | some v ↦ v ∷ values_of column rest
  ]

  unfoldable pub daily_aggregate : ℕ → String → String → DailyBucket R N → Aggregate R N
  daily_aggregate id system_id configuration_id bucket =
      let t = sum_up bucket.aggregates no_daily_totals in
      record {
        id = id;
        configuration_id = configuration_id;
        system_id = system_id;
        bucket_start = bucket.bucket_start;
        bucket_size = daily;
        run_count = t.run_count;
        healthy_count = t.healthy_count;
        degraded_count = t.degraded_count;
        unhealthy_count = t.unhealthy_count;
        latency_sum_ms = if ltb 0 t.latency_sum_ms then some t.latency_sum_ms else none;
        avg_latency_ms =
            if ltb 0 t.run_count then some (round_quotient t.latency_sum_ms t.run_count) else none;
        min_latency_ms = extreme_of minimum (values_of (λ a. a.min_latency_ms) bucket.aggregates);
        max_latency_ms = extreme_of maximum (values_of (λ a. a.max_latency_ms) bucket.aggregates);
        p95_latency_ms = extreme_of maximum (values_of (λ a. a.p95_latency_ms) bucket.aggregates);
        aggregated_result = none;
        tdigest_state = none;
      }

  -- The hourly aggregates of an assignment that start before the cutoff.
  abbrev pub is_old_hourly : String → String → ℕ → Aggregate R N → Bool
  is_old_hourly system_id configuration_id cutoff a =
      a.system_id === system_id
      && (a.configuration_id === configuration_id
          && (same_size a.bucket_size hourly && ltb a.bucket_start cutoff))

  unfoldable pub add_to_bucket : ℕ → Aggregate R N → List (DailyBucket R N) → List (DailyBucket R N)
  add_to_bucket day a [] = record { bucket_start = day; aggregates = a ∷ [] } ∷ []
  add_to_bucket day a (b ∷ buckets) =
      if b.bucket_start == day
      then record b { aggregates = b.aggregates ++ a ∷ [] } ∷ buckets
      else b ∷ add_to_bucket day a buckets

  unfoldable pub group_by_day :
      Calendar → List (Aggregate R N) → List (DailyBucket R N) → List (DailyBucket R N)
  group_by_day calendar [] buckets = buckets
  group_by_day calendar (a ∷ rest) buckets =
      group_by_day calendar rest (add_to_bucket (calendar.day_start a.bucket_start) a buckets)

  unfoldable pub delete_processed :
      List (Aggregate R N) → List (Aggregate R N) → List (Aggregate R N)
  delete_processed [] rows = rows
  delete_processed (a ∷ rest) rows = delete_processed rest (delete_by_id a.id rows)

  -- The loop over the buckets. An insert that fails ends it; what was done stays.
  unfoldable pub roll_up_buckets :
      (List (Aggregate R N) → ℕ)
      → String
      → String
      → List (DailyBucket R N)
      → List (Aggregate R N)
      → List (Aggregate R N) × Result InsertError (Unit {0})
  roll_up_buckets new_id system_id configuration_id [] rows = (rows, ok tt)
  roll_up_buckets new_id system_id configuration_id (b ∷ buckets) rows =
      elim (insert (daily_aggregate (new_id rows) system_id configuration_id b) rows) [
        | err e ↦ (rows, err e)
        | ok inserted ↦
            roll_up_buckets new_id system_id configuration_id buckets
              (delete_processed b.aggregates inserted)
      ]

  -- No old aggregates give no buckets, where the source returns at once.
  unfoldable pub rollup_hourly_aggregates :
      Calendar
      → (List (Aggregate R N) → ℕ)
      → ℕ
      → String
      → String
      → ℕ
      → List (Aggregate R N)
      → List (Aggregate R N) × Result InsertError (Unit {0})
  rollup_hourly_aggregates calendar new_id now system_id configuration_id retention_days rows =
      let cutoff = calendar.day_start (calendar.days_before retention_days now) in
      let old_hourly = filter (is_old_hourly system_id configuration_id cutoff) rows in
      roll_up_buckets new_id system_id configuration_id (group_by_day calendar old_hourly []) rows
