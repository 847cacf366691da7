-- ===== src/History/Tables.antt =====
-- healthcheck-backend/src/schema.ts: the tables of runs and of aggregates, with what the database
-- does on an insert, and the methods of `Date` in the server's time zone.
use checkmate.Prelude.{
  ℕ, String, Bool, true, false, not, ◌&&◌, List, [], ◌∷◌, ◌++◌, Option, Result, ok, err, any,
  filter, ◌==◌, if◌then◌else◌,
}
use checkmate.Prelude.Text.{◌===◌}
use checkmate.Health.Evaluator.{Status}

-- `bucketSizeEnum`.
pub data BucketSize : Type 0 where
  hourly daily : BucketSize

abbrev pub same_size : BucketSize → BucketSize → Bool
same_size hourly hourly = true
same_size hourly daily = false
same_size daily hourly = false
same_size daily daily = true

-- A row of `healthCheckAggregates`. A uuid is a number, which is only compared; `R` stands for the
-- results of the collectors and `N` for the numbers of a t-digest.
pub record Aggregate (R N : Type 0) : Type 0 where
  pub id : ℕ
  pub configuration_id : String
  pub system_id : String
  pub bucket_start : ℕ
  pub bucket_size : BucketSize
  pub run_count : ℕ
  pub healthy_count : ℕ
  pub degraded_count : ℕ
  pub unhealthy_count : ℕ
  pub latency_sum_ms : Option ℕ
  pub avg_latency_ms : Option ℕ
  pub min_latency_ms : Option ℕ
  pub max_latency_ms : Option ℕ
  pub p95_latency_ms : Option ℕ
  pub aggregated_result : Option R
  pub tdigest_state : Option (List N)

-- A row of `healthCheckRuns`, without its id and its result.
pub record HealthCheckRun : Type 0 where
  pub configuration_id : String
  pub system_id : String
  pub status : Status
  pub latency_ms : Option ℕ
  pub timestamp : ℕ

pub record RetentionConfig : Type 0 where
  pub raw_retention_days : ℕ
  pub hourly_retention_days : ℕ
  pub daily_retention_days : ℕ

unfoldable pub default_retention_config : RetentionConfig
default_retention_config = record {
  raw_retention_days = 7;
  hourly_retention_days = 30;
  daily_retention_days = 365;
}

-- A row of `systemHealthChecks`, as far as the retention job reads it.
pub record SystemHealthCheck : Type 0 where
  pub system_id : String
  pub configuration_id : String
  pub retention_config : Option RetentionConfig

-- The methods of `Date` that are called: times in milliseconds, in the server's time zone.
pub record Calendar : Type 0 where
  -- `setMinutes(0, 0, 0)`.
  pub hour_start : ℕ → ℕ
  -- `setHours(0, 0, 0, 0)`.
  pub day_start : ℕ → ℕ
  -- `setDate(getDate() - days)`, the days first.
  pub days_before : ℕ → ℕ → ℕ

module _ {R N : Type 0} where
  -- The columns of the unique index.
  abbrev pub in_bucket : String → String → ℕ → BucketSize → Aggregate R N → Bool
  in_bucket configuration_id system_id start size a =
      a.system_id === system_id
      && (a.configuration_id === configuration_id
          && (a.bucket_start == start && same_size a.bucket_size size))

  abbrev pub conflicts : Aggregate R N → Aggregate R N → Bool
  conflicts new = in_bucket new.configuration_id new.system_id new.bucket_start new.bucket_size

-- The violation of the unique index.
pub data InsertError : Type 0 where
  unique_violation : InsertError

module _ {R N : Type 0} where
  -- `db.insert(..).values(..)` without a clause for conflicts.
  unfoldable pub insert :
      Aggregate R N → List (Aggregate R N) → Result InsertError (List (Aggregate R N))
  insert new rows = if any (conflicts new) rows then err unique_violation else ok (rows ++ new ∷ [])

  -- `db.insert(..).values(..).onConflictDoUpdate(..)`: the row in the way is updated in place.
  unfoldable pub upsert :
      Aggregate R N → (Aggregate R N → Aggregate R N) → List (Aggregate R N) → List (Aggregate R N)
  upsert new update [] = new ∷ []
  upsert new update (row ∷ rows) =
      if conflicts new row then update row ∷ rows else row ∷ upsert new update rows

  -- `db.delete(..).where(eq(id, ..))`.
  unfoldable pub delete_by_id : ℕ → List (Aggregate R N) → List (Aggregate R N)
  delete_by_id id rows = filter (λ row. not (row.id == id)) rows
