-- ===== src/History/Expiry.antt =====
-- retention-job.ts: what the job deletes and what it keeps, and when it gives up.
use checkmate.Prelude.{
  ℕ, ◌≡◌, ◌↔◌, refl, sym, ap, subst, ◌∙◌, inl, inr, String, Bool, true, false, not, List, [], ◌∷◌,
  ◌++◌, err, arith, filter, any, In, In-filter, All, get_or_else, ◌==◌, Bool-cases,
}
use checkmate.History.Tables.{
  Aggregate, daily, Calendar, HealthCheckRun, SystemHealthCheck, RetentionConfig,
  default_retention_config, unique_violation, in_bucket, insert, conflicts,
}
use checkmate.History.Rollup.{
  DailyBucket, daily_aggregate, is_old_hourly, add_to_bucket, group_by_day, roll_up_buckets,
  rollup_hourly_aggregates,
}
use checkmate.History.Retention.{
  History, is_expired_run, delete_expired_raw_runs, retain_assignment, run_retention_job,
}

abbrev pub config_of : SystemHealthCheck → RetentionConfig
config_of assignment = get_or_else assignment.retention_config default_retention_config

-- The run belongs to the assignment and is older than its raw retention.
abbrev pub is_expired_for : Calendar → ℕ → HealthCheckRun → SystemHealthCheck → Bool
is_expired_for calendar now run assignment =
    is_expired_run assignment.system_id assignment.configuration_id
      (calendar.days_before (config_of assignment).raw_retention_days now) run

module _ {R N : Type 0} (calendar : Calendar) (new_id : List (Aggregate R N) → ℕ) (now : ℕ) where
  runs-retain_assignment :
      (assignment : SystemHealthCheck) (h : History R N) (run : HealthCheckRun)
      → In run (retain_assignment calendar new_id now assignment h).runs
        ↔ (In run h.runs × (is_expired_for calendar now run assignment ≡ false))
  unfolding retain_assignment delete_expired_raw_runs
  runs-retain_assignment assignment h run =
      let kept = In-filter (λ r. not (is_expired_for calendar now r assignment)) run h.runs in
      (λ m. ((kept.0 m).0, ground (arith, (kept.0 m).1)), λ m. kept.1 (m.0, ground (arith, m.1)))

  -- The job keeps just the raw runs that are not expired for any assignment.
  pub runs_kept_iff :
      (assignments : List SystemHealthCheck) (h : History R N) (run : HealthCheckRun)
      → In run (run_retention_job calendar new_id now assignments h).runs
        ↔ (In run h.runs × All (λ a. is_expired_for calendar now run a ≡ false) assignments)
  unfolding run_retention_job
  runs_kept_iff [] h run = (λ m. (m, tt), λ m. m.0)
  runs_kept_iff (a ∷ assignments) h run =
      let first = runs-retain_assignment a h run in
      let rest = runs_kept_iff assignments (retain_assignment calendar new_id now a h) run in
      (
        λ m. let (m', all) = rest.0 m in let (here, fresh) = first.0 m' in (here, (fresh, all)),
        λ m.
            let (here, all) = m in
            let (fresh, others) = all in rest.1 (first.1 (here, fresh), others),
      )

  -- The first bucket keeps its place and its start.
  group_by_day-head :
      (rows : List (Aggregate R N)) (b : DailyBucket R N) (buckets : List (DailyBucket R N))
      → (b' : DailyBucket R N) × (buckets' : List (DailyBucket R N)) × (group_by_day calendar rows
            (b ∷ buckets)
          ≡ b' ∷ buckets')
        × (b'.bucket_start ≡ b.bucket_start)
  unfolding group_by_day add_to_bucket
  group_by_day-head [] b buckets = (b, buckets, refl, refl)
  group_by_day-head (a ∷ rows) b buckets =
      elim (Bool-cases (b.bucket_start == calendar.day_start a.bucket_start)) [
        | inl e ↦
            rw (group_by_day, add_to_bucket, e)
              (group_by_day-head rows (record b { aggregates = b.aggregates ++ a ∷ [] }) buckets)
        | inr e ↦
            rw (group_by_day, add_to_bucket, e)
              (group_by_day-head rows b
                (add_to_bucket (calendar.day_start a.bucket_start) a buckets))
      ]

  conflicts-daily_aggregate :
      (id : ℕ) (s c : String) (b : DailyBucket R N) (rows : List (Aggregate R N))
      → any (conflicts (daily_aggregate id s c b)) rows
        ≡ any (in_bucket c s b.bucket_start daily) rows
  unfolding daily_aggregate
  conflicts-daily_aggregate id s c b rows = refl

  -- Where the first of the old hours falls on a day that has its daily aggregate already, the rollup
  -- fails at once and changes nothing.
  rollup_blocked :
      (s c : String) (retention_days : ℕ) (rows : List (Aggregate R N)) (a : Aggregate R N)
      (rest : List (Aggregate R N))
      → filter
          (is_old_hourly s c (calendar.day_start (calendar.days_before retention_days now)))
          rows
        ≡ a ∷ rest
      → any (in_bucket c s (calendar.day_start a.bucket_start) daily) rows ≡ true
      → rollup_hourly_aggregates calendar new_id now s c retention_days rows
        ≡ (rows, err unique_violation)
  unfolding rollup_hourly_aggregates roll_up_buckets insert group_by_day add_to_bucket
  rollup_blocked s c retention_days rows a rest old taken =
      let day = calendar.day_start a.bucket_start in
      let (b, buckets, grouped, start) =
        group_by_day-head rest (record { bucket_start = day; aggregates = a ∷ [] }) [] in
      let clash : any (conflicts (daily_aggregate (new_id rows) s c b)) rows ≡ true =
        conflicts-daily_aggregate (new_id rows) s c b rows
        ∙ subst (λ d. any (in_bucket c s d daily) rows ≡ true) (sym start) taken in
      rw
        (
          rollup_hourly_aggregates, old, group_by_day, add_to_bucket, grouped, roll_up_buckets,
          insert, clash,
        )
        refl

  -- Where the first of an assignment's old hours falls on a day that has its daily aggregate already,
  -- the job changes none of the assignment's aggregates: neither are hours rolled up nor expired days
  -- deleted.
  pub blocked_assignment_kept :
      (assignment : SystemHealthCheck) (h : History R N) (a : Aggregate R N)
      (rest : List (Aggregate R N))
      → filter
          (is_old_hourly assignment.system_id assignment.configuration_id (
            calendar.day_start
              (calendar.days_before (config_of assignment).hourly_retention_days now)))
          h.aggregates
        ≡ a ∷ rest
      → any
          (in_bucket assignment.configuration_id assignment.system_id
            (calendar.day_start a.bucket_start)
            daily)
          h.aggregates
        ≡ true
      → (retain_assignment calendar new_id now assignment h).aggregates ≡ h.aggregates
  unfolding retain_assignment
  blocked_assignment_kept assignment h a rest old taken =
      let blocked =
        rollup_blocked assignment.system_id assignment.configuration_id
          (config_of assignment).hourly_retention_days h.aggregates a rest old taken in
      rw (retain_assignment, blocked) (ap (λ r. r.0) blocked)
