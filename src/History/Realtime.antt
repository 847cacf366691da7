-- ===== src/History/Realtime.antt =====
-- healthcheck-backend/src/realtime-aggregation.ts: the aggregate of the hour, updated run by run.
--
-- The reading of the row and the upsert are one step here.
use checkmate.Prelude.{
  ℕ, ◌+◌, ◌/◌, String, List, [], ◌∷◌, Option, none, some, find, get_or_else, and_then,
}
use mathlib.Core.Option.{map}
use checkmate.Health.Evaluator.{Status, healthy, unhealthy, degraded}
use checkmate.Aggregation.Incremental.{minimum, maximum}
use checkmate.History.Tables.{Aggregate, hourly, Calendar, in_bucket, upsert}
use checkmate.History.Digest.{DigestLibrary, serialize_t_digest, deserialize_t_digest}
use checkmate.History.Collectors.{
  CollectorData, AggregatedResult, CollectorRegistry, merge_collector_results,
}

-- The parameters of `incrementHourlyAggregate`; of the result, the data of its collectors.
pub record IncrementParams (D : Type 0) : Type 0 where
  pub system_id : String
  pub configuration_id : String
  pub status : Status
  pub latency_ms : Option ℕ
  pub run_timestamp : ℕ
  pub run_collectors : Option (List (String × CollectorData D))
  pub collector_registry : Option (CollectorRegistry D)

-- `latencyUpdate`.
pub record LatencyUpdate (N : Type 0) : Type 0 where
  pub latency_sum_incr : ℕ
  pub min : ℕ
  pub max : ℕ
  pub tdigest_state : List N
  pub p95 : ℕ

abbrev pub is_status : Status → Status → ℕ
is_status healthy healthy = 1
is_status unhealthy unhealthy = 1
is_status degraded degraded = 1
is_status wanted status = 0

-- `min` and `max` of a row that may be missing or have none.
abbrev extreme : (ℕ → ℕ → ℕ) → Option ℕ → ℕ → ℕ
extreme choose none latency = latency
extreme choose (some old) latency = choose old latency

-- A digest that is stored and not empty, or a new one.
unfoldable pub digest_of : {N : Type 0} (lib : DigestLibrary N) → Option (List N) → lib.Digest
digest_of lib none = lib.empty
digest_of lib (some []) = lib.empty
digest_of lib (some (n ∷ ns)) = deserialize_t_digest lib (n ∷ ns)

module _ {N D : Type 0} (lib : DigestLibrary N) where
  abbrev stored_state : Option (Aggregate (AggregatedResult D) N) → Option (List N)
  stored_state none = none
  stored_state (some row) = row.tdigest_state

  unfoldable pub latency_update :
      Option (Aggregate (AggregatedResult D) N) → Option ℕ → Option (LatencyUpdate N)
  latency_update existing none = none
  latency_update existing (some latency) =
      let digest = lib.push latency (digest_of lib (stored_state existing)) in
      some (record {
        latency_sum_incr = latency;
        min = extreme minimum (and_then existing (λ row. row.min_latency_ms)) latency;
        max = extreme maximum (and_then existing (λ row. row.max_latency_ms)) latency;
        tdigest_state = serialize_t_digest lib digest;
        p95 = lib.p95 digest;
      })

  -- The row that is inserted.
  unfoldable pub new_row :
      ℕ
      → IncrementParams D
      → ℕ
      → Option (LatencyUpdate N)
      → Option (AggregatedResult D)
      → Aggregate (AggregatedResult D) N
  new_row id params start update aggregated = record {
    id = id;
    configuration_id = params.configuration_id;
    system_id = params.system_id;
    bucket_start = start;
    bucket_size = hourly;
    run_count = 1;
    healthy_count = is_status healthy params.status;
    degraded_count = is_status degraded params.status;
    unhealthy_count = is_status unhealthy params.status;
    latency_sum_ms = params.latency_ms;
    avg_latency_ms = params.latency_ms;
    min_latency_ms = map (λ u. u.min) update;
    max_latency_ms = map (λ u. u.max) update;
    p95_latency_ms = map (λ u. u.p95) update;
    aggregated_result = aggregated;
    tdigest_state = map (λ u. u.tdigest_state) update;
  }

  abbrev with_latency :
      Option (LatencyUpdate N) → Aggregate (AggregatedResult D) N → Aggregate (AggregatedResult D) N
  with_latency none row = row
  with_latency (some u) row =
      let latency_sum = get_or_else row.latency_sum_ms 0 + u.latency_sum_incr in
      record row {
        latency_sum_ms = some latency_sum;
        avg_latency_ms = some (latency_sum / (row.run_count + 1));
        min_latency_ms = some u.min;
        max_latency_ms = some u.max;
        p95_latency_ms = some u.p95;
        tdigest_state = some u.tdigest_state;
      }

  abbrev with_result :
      Option (AggregatedResult D)
      → Aggregate (AggregatedResult D) N
      → Aggregate (AggregatedResult D) N
  with_result none row = row
  with_result (some r) row = record row { aggregated_result = some r }

  -- The clause `set`: every expression reads the row as it was.
  unfoldable pub updated_row :
      IncrementParams D
      → Option (LatencyUpdate N)
      → Option (AggregatedResult D)
      → Aggregate (AggregatedResult D) N
      → Aggregate (AggregatedResult D) N
  updated_row params update aggregated row =
      record (with_result aggregated (with_latency update row)) {
        run_count = row.run_count + 1;
        healthy_count = row.healthy_count + is_status healthy params.status;
        degraded_count = row.degraded_count + is_status degraded params.status;
        unhealthy_count = row.unhealthy_count + is_status unhealthy params.status;
      }

  -- `new_id` is the id that the database makes for a row that is inserted.
  unfoldable pub increment_hourly_aggregate :
      Calendar
      → ℕ
      → IncrementParams D
      → List (Aggregate (AggregatedResult D) N)
      → List (Aggregate (AggregatedResult D) N)
  increment_hourly_aggregate calendar new_id params rows =
      let start = calendar.hour_start params.run_timestamp in
      let existing = find (in_bucket params.configuration_id params.system_id start hourly) rows in
      let update = latency_update existing params.latency_ms in
      let aggregated =
        merge_collector_results params.status params.latency_ms
          (and_then existing (λ row. row.aggregated_result)) params.run_collectors
          params.collector_registry in
      upsert (new_row new_id params start update aggregated) (updated_row params update aggregated)
        rows
