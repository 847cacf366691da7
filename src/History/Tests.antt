-- ===== src/History/Tests.antt =====
-- Runs that are recorded, hours that are rolled up, and a day that is there already.
use checkmate.Prelude.{
  ℕ, ◌+◌, ◌*◌, ◌-◌, ◌/◌, ◌≤◌, ◌≡◌, ◌↔◌, refl, inl, inr, false, List, [], ◌∷◌, Option, none, some,
  ok, arith, filter, In, All, ltb,
}
use checkmate.Health.Evaluator.{Status, healthy, unhealthy}
use checkmate.Aggregation.Incremental.{minimum, maximum}
use checkmate.History.Tables.{
  Aggregate, BucketSize, hourly, daily, Calendar, HealthCheckRun, SystemHealthCheck,
  default_retention_config, insert, upsert, delete_by_id,
}
use checkmate.History.Digest.{DigestLibrary, centroids_of, serialize_t_digest, deserialize_t_digest}
use checkmate.History.Collectors.{AggregatedResult, merge_collectors, merge_collector_results}
use checkmate.History.Realtime.{
  IncrementParams, digest_of, latency_update, new_row, updated_row, increment_hourly_aggregate,
}
use checkmate.History.Rollup.{
  round_quotient, extreme_of, sum_up, daily_aggregate, is_old_hourly, add_to_bucket, group_by_day,
  delete_processed, roll_up_buckets, rollup_hourly_aggregates,
}
use checkmate.History.Retention.{
  History, delete_expired_raw_runs, delete_expired_aggregates, retain_assignment, run_retention_job,
}
use checkmate.History.Counting.{healthy_runs, total, occurrences, IsKeyed, IsFresh}
use checkmate.History.Recording.{
  HistoryEvent, recorded, rolled_up, history_after, every_run_counted_once,
}
use checkmate.History.Kept.{rollup_keeps, rollup_complete}
use checkmate.History.Expiry.{is_expired_for, runs_kept_iff, blocked_assignment_kept}

history : Unit {0}
unfolding default_retention_config insert upsert delete_by_id centroids_of serialize_t_digest
    deserialize_t_digest merge_collectors merge_collector_results digest_of latency_update new_row
    updated_row increment_hourly_aggregate round_quotient extreme_of sum_up daily_aggregate
    add_to_bucket group_by_day delete_processed roll_up_buckets rollup_hourly_aggregates
    delete_expired_raw_runs delete_expired_aggregates retain_assignment run_retention_job
history = tt

-- Days of 24 time units, hours of one, in a time zone without shifts.
abbrev calendar : Calendar
calendar = record {
  hour_start = λ t. t;
  day_start = λ t. t / 24 * 24;
  days_before = λ days t. t - 24 * days;
}

-- Digests that are the list of their latencies.
abbrev lib : DigestLibrary ℕ
lib = record {
  Digest = List ℕ;
  empty = [];
  to_array = λ d. [];
  push_centroid = λ cs d. d;
  push = λ latency d. latency ∷ d;
  p95 = λ d. 0;
  is_positive = λ n. ltb 0 n;
}

abbrev Row : Type 0
Row = Aggregate (AggregatedResult ℕ) ℕ

abbrev next_id : List Row → ℕ
next_id [] = 0
next_id (a ∷ rows) = a.id + 1 + next_id rows

occurrences_beyond : (k : ℕ) (rows : List Row) → next_id rows ≤ k → occurrences k rows ≡ 0
occurrences_beyond k [] h = refl
occurrences_beyond k (a ∷ rows) h = ground (arith, occurrences_beyond k rows (omega (arith, h)))

next_id-IsFresh : IsFresh next_id
next_id-IsFresh rows = occurrences_beyond (next_id rows) rows (omega arith)

abbrev run : Status → Option ℕ → ℕ → IncrementParams ℕ
run status latency time = record {
  system_id = "shop";
  configuration_id = "ping";
  status = status;
  latency_ms = latency;
  run_timestamp = time;
  run_collectors = none;
  collector_registry = none;
}

-- Three runs in two hours of the same day, and the rollup after a day without retention.
abbrev events : List (HistoryEvent ℕ)
events =
    recorded (run healthy (some 10) 25)
    ∷ recorded (run unhealthy none 25)
    ∷ recorded (run healthy (some 40) 26)
    ∷ rolled_up 60 "shop" "ping" 0
    ∷ []

abbrev row : ℕ → BucketSize → ℕ → Row
row id size start = record {
  id = id;
  configuration_id = "ping";
  system_id = "shop";
  bucket_start = start;
  bucket_size = size;
  run_count = 2;
  healthy_count = 1;
  degraded_count = 0;
  unhealthy_count = 1;
  latency_sum_ms = some 30;
  avg_latency_ms = some 15;
  min_latency_ms = some 10;
  max_latency_ms = some 20;
  p95_latency_ms = some 20;
  aggregated_result = none;
  tdigest_state = none;
}

one_day :
    history_after lib calendar next_id events []
    ≡ record (row 29 daily 24) {
      id = 3;
      run_count = 3;
      healthy_count = 2;
      latency_sum_ms = some 50;
      avg_latency_ms = some 17;
      max_latency_ms = some 40;
      p95_latency_ms = some 0;
    }
      ∷ []
unfolding history minimum maximum
one_day = refl

every_run_counted_once_example :
    total healthy_runs "shop" "ping" (history_after lib calendar next_id events []) ≡ 2
every_run_counted_once_example =
    every_run_counted_once lib calendar next_id next_id-IsFresh events healthy_runs "shop" "ping"

-- Two hours of the first day, one of the second, and the third day, which is young.
abbrev rows : List Row
rows = row 0 hourly 3 ∷ row 1 hourly 5 ∷ row 2 hourly 30 ∷ row 3 hourly 70 ∷ []

rows-IsKeyed : IsKeyed rows
rows-IsKeyed id = ground arith

rollup_keeps_example :
    In (row 3 hourly 70) (rollup_hourly_aggregates calendar next_id 71 "shop" "ping" 1 rows).0
rollup_keeps_example =
    rollup_keeps calendar next_id 71 "shop" "ping" 1 rows rows-IsKeyed (row 3 hourly 70)
      (inr (inr (inr (inl refl)))) refl

rolled_ok : (rollup_hourly_aggregates calendar next_id 71 "shop" "ping" 1 rows).1 ≡ ok tt
unfolding history
rolled_ok = refl

young_there :
    In (row 2 hourly 30) (rollup_hourly_aggregates calendar next_id 71 "shop" "ping" 1 rows).0
unfolding history
young_there = inl refl

rollup_complete_example : is_old_hourly "shop" "ping" 24 (row 2 hourly 30) ≡ false
rollup_complete_example =
    rollup_complete calendar next_id 71 "shop" "ping" 1 rows rolled_ok (row 2 hourly 30) young_there

abbrev assignment : SystemHealthCheck
assignment = record { system_id = "shop"; configuration_id = "ping"; retention_config = none }

abbrev stored : ℕ → HealthCheckRun
stored time = record {
  configuration_id = "ping";
  system_id = "shop";
  status = healthy;
  latency_ms = none;
  timestamp = time;
}

-- The job on day 400: raw runs are kept for 7 days, hours for 30.
abbrev before : List Row → History (AggregatedResult ℕ) ℕ
before aggregates = record { runs = stored 9000 ∷ stored 9500 ∷ []; aggregates = aggregates }

runs_kept_iff_example :
    In (stored 9500) (run_retention_job calendar next_id 9600 (assignment ∷ []) (before rows)).runs
    ↔ (In (stored 9500) (stored 9000 ∷ stored 9500 ∷ [])
        × All (λ a. is_expired_for calendar 9600 (stored 9500) a ≡ false) (assignment ∷ []))
runs_kept_iff_example =
    runs_kept_iff calendar next_id 9600 (assignment ∷ []) (before rows) (stored 9500)

-- The day of the first hour was written, and its hours not deleted.
abbrev interrupted : List Row
interrupted = row 0 hourly 3 ∷ row 1 hourly 30 ∷ row 2 daily 0 ∷ []

first_hour :
    filter (is_old_hourly "shop" "ping" 8880) interrupted ≡ row 0 hourly 3 ∷ row 1 hourly 30 ∷ []
first_hour = refl

blocked_assignment_kept_example :
    (retain_assignment calendar next_id 9600 assignment (before interrupted)).aggregates
    ≡ interrupted
unfolding default_retention_config
blocked_assignment_kept_example =
    blocked_assignment_kept calendar next_id 9600 assignment (before interrupted) (row 0 hourly 3)
      (row 1 hourly 30 ∷ []) first_hour refl
