-- ===== src/History/Retention.antt =====
-- healthcheck-backend/src/retention-job.ts: the job that runs once a day.
--
-- Of the errors of the database only the violation of the unique index is modelled.
use checkmate.Prelude.{ℕ, String, Bool, not, ◌&&◌, List, [], ◌∷◌, ok, err, filter, ltb, get_or_else}
use checkmate.Prelude.Text.{◌===◌}
use checkmate.History.Tables.{
  daily, same_size, Aggregate, HealthCheckRun, SystemHealthCheck, default_retention_config,
  Calendar,
}
use checkmate.History.Rollup.{rollup_hourly_aggregates}

-- The two tables that the job writes.
pub record History (R N : Type 0) : Type 0 where
  pub runs : List HealthCheckRun
  pub aggregates : List (Aggregate R N)

abbrev pub is_expired_run : String → String → ℕ → HealthCheckRun → Bool
is_expired_run system_id configuration_id cutoff run =
    run.system_id === system_id
    && (run.configuration_id === configuration_id && ltb run.timestamp cutoff)

unfoldable pub delete_expired_raw_runs :
    Calendar → ℕ → String → String → ℕ → List HealthCheckRun → List HealthCheckRun
delete_expired_raw_runs calendar now system_id configuration_id retention_days runs =
    filter
      (λ run.
        not
          (is_expired_run system_id configuration_id (calendar.days_before retention_days now) run))
      runs

module _ {R N : Type 0} where
  abbrev pub is_expired_aggregate : String → String → ℕ → Aggregate R N → Bool
  is_expired_aggregate system_id configuration_id cutoff a =
      a.system_id === system_id
      && (a.configuration_id === configuration_id
          && (same_size a.bucket_size daily && ltb a.bucket_start cutoff))

  unfoldable pub delete_expired_aggregates :
      Calendar → ℕ → String → String → ℕ → List (Aggregate R N) → List (Aggregate R N)
  delete_expired_aggregates calendar now system_id configuration_id retention_days rows =
      filter
        (λ a. not (
          is_expired_aggregate system_id configuration_id (calendar.days_before retention_days now)
            a))
        rows

  -- The body of the loop over the assignments, with its `catch`.
  unfoldable pub retain_assignment :
      Calendar → (List (Aggregate R N) → ℕ) → ℕ → SystemHealthCheck → History R N → History R N
  retain_assignment calendar new_id now assignment h =
      let config = get_or_else assignment.retention_config default_retention_config in
      let runs =
        delete_expired_raw_runs calendar now assignment.system_id assignment.configuration_id
          config.raw_retention_days h.runs in
      let (rolled_up, outcome) =
        rollup_hourly_aggregates calendar new_id now assignment.system_id
          assignment.configuration_id config.hourly_retention_days h.aggregates in
      record {
        runs = runs;
        aggregates = elim outcome [
          | err e ↦ rolled_up
          | ok done ↦
              delete_expired_aggregates calendar now assignment.system_id
                assignment.configuration_id config.daily_retention_days rolled_up
        ];
      }

  unfoldable pub run_retention_job :
      Calendar → (List (Aggregate R N) → ℕ) → ℕ → List SystemHealthCheck → History R N → History R N
  run_retention_job calendar new_id now [] h = h
  run_retention_job calendar new_id now (assignment ∷ assignments) h =
      run_retention_job calendar new_id now assignments
        (retain_assignment calendar new_id now assignment h)
