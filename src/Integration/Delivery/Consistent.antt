-- ===== src/Integration/Delivery/Consistent.antt =====
-- delivery-coordinator.ts: jobs and logs fit together, whatever is routed, delivered and retried.
use checkmate.Prelude.{
  ℕ, zero, suc, ◌+◌, ◌/◌, ◌≤◌, ◌<◌, ◌≡◌, refl, sym, ap, subst, inl, inr, Bool, true, List, [], ◌∷◌,
  some, arith, All, ◌==◌, if◌then◌else◌,
}
use checkmate.Integration.Tables.{
  DeliveryStatus, pending, success, failed, retrying, DeliveryLog, DeliveryJobData, find_log,
}
use checkmate.Integration.Delivery.{QueuedJob, Integration, enqueued}
use checkmate.Integration.Attempts.{retry_delay}
use checkmate.Integration.Delivery.Counting.{
  total_by, is_open, is_row, is_open_row, jobs_of, jobs_of-append, lost_of, total_by-update_log,
  All-update_log, find_log-All, total_by-find_log, is_open_row-le, is_open_row-found,
}
use checkmate.Integration.Delivery.Worker.{pick}
use checkmate.Integration.Delivery.Changes.{IsEnd, IsExecuted}

-- What the attempts of a log say about its status.
abbrev pub FitsStatus : DeliveryStatus → ℕ → Type 0
FitsStatus pending attempts = attempts ≡ 0
FitsStatus retrying attempts = attempts < 3
FitsStatus success attempts = attempts ≤ 3
FitsStatus failed attempts = attempts ≡ 3

abbrev pub IsSound : DeliveryLog → Type 0
IsSound log = FitsStatus log.status log.attempts

few_attempts :
    (status : DeliveryStatus) (attempts attempts' : ℕ)
    → FitsStatus status attempts
    → is_open status ≡ true
    → attempts' ≡ attempts + 1
    → attempts' ≤ 3
few_attempts pending attempts attempts' fits o e = omega arith
few_attempts retrying attempts attempts' fits o e = omega arith
few_attempts success attempts attempts' fits o e = absurd (cc)
few_attempts failed attempts attempts' fits o e = absurd (cc)

module _ {C : Type 0} where
  -- Ids of logs stand once; a log that is open has one job or has lost it, and another neither, where
  -- the jobs that wait and those at hand are counted; the attempts fit.
  abbrev pub IsAccounted : (ℕ → ℕ) → Integration C → Type 0
  IsAccounted at_hand s =
      ((id : ℕ) → total_by (is_row id) s.logs ≤ 1)
      × ((id : ℕ)
          → at_hand id + jobs_of id s.waiting + lost_of id s.lost
            ≡ total_by (is_open_row id) s.logs)
      × All IsSound s.logs

  abbrev pub IsConsistent : Integration C → Type 0
  IsConsistent s = IsAccounted (λ id. 0) s

  abbrev pub is_job : ℕ → DeliveryJobData C → ℕ
  is_job id job = if job.log_id == id then 1 else 0

module _ {C : Type 0} where
  pub jobs_of-enqueued :
      (id : ℕ) (job : DeliveryJobData C) (delay : ℕ) (jobs : List (QueuedJob C))
      → jobs_of id (enqueued job delay jobs) ≡ jobs_of id jobs + is_job id job
  jobs_of-enqueued id job delay jobs =
      omega (
        arith,
        jobs_of-append id jobs (record { job = job; start_delay = delay; attempts = 0 } ∷ []),
      )

  pub jobs_of-pick :
      (id place : ℕ) (job : QueuedJob C) (jobs : List (QueuedJob C))
      → jobs_of id ((pick place job jobs).0 ∷ (pick place job jobs).1) ≡ jobs_of id (job ∷ jobs)
  jobs_of-pick id zero job jobs = refl
  jobs_of-pick id (suc place) job [] = refl
  jobs_of-pick id (suc place) job (next ∷ jobs) = ground (arith, jobs_of-pick id place next jobs)

  -- The row of a job.
  pub row_of_job :
      (s : Integration C) (job : DeliveryJobData C)
      → ((id : ℕ) → total_by (is_row id) s.logs ≤ 1)
      → All IsSound s.logs
      → 1 ≤ total_by (is_open_row job.log_id) s.logs
      → (row : DeliveryLog) × (find_log job.log_id s.logs ≡ some row)
        × (row.id ≡ job.log_id)
        × IsSound row
        × (is_open row.status ≡ true)
  row_of_job s job keyed sound h =
      let (row, found) =
        total_by-find_log job.log_id s.logs (omega (arith, is_open_row-le job.log_id s.logs, h)) in
      let (fits, same) = find_log-All IsSound job.log_id s.logs row found sound in
      (
        row,
        found,
        same,
        fits,
        ground (arith, is_open_row-found job.log_id s.logs row (keyed job.log_id) found, h),
      )

  -- The end of a delivery: the row that it leaves is sound, and it is open where the job waits again or
  -- its run has thrown.
  pub ended :
      (s s' : Integration C) (job : DeliveryJobData C) (row row' : DeliveryLog) (returned : Bool)
      → FitsStatus row.status row.attempts
      → is_open row.status ≡ true
      → row'.attempts ≡ row.attempts + 1
      → IsEnd job row' s s' returned
      → (id : ℕ)
      → FitsStatus row'.status row'.attempts
        × ((if returned then 0 else is_job id job) + jobs_of id s'.waiting
            ≡ jobs_of id s.waiting + (if is_open row'.status then is_job id job else 0))
  ended s s' job row row' returned fits open_now attempts (inl (e, w, r)) id =
      rw (e, w, r)
        (few_attempts row.status row.attempts row'.attempts fits open_now attempts, omega arith)
  ended s s' job row row' returned fits open_now attempts (inr (inl (e, many, w, r))) id =
      let few = few_attempts row.status row.attempts row'.attempts fits open_now attempts in
      rw (e, w, r) (omega (arith, many, few), omega arith)
  ended s s' job row row' returned fits open_now attempts (inr (inr (inl (e, few, w, r)))) id =
      rw (e, w, r)
        (few, omega (arith, jobs_of-enqueued id job (retry_delay row'.attempts / 1000) s.waiting))
  ended s s' job row row' returned fits open_now attempts (inr (inr (inr (e, few, w, r)))) id =
      rw (e, w, r) (few, omega arith)

  -- An attempt at the job at hand keeps the account, with the job still at hand where its run throws.
  pub executed-keeps :
      (s s' : Integration C) (job : DeliveryJobData C) (row : DeliveryLog) (returned : Bool)
      → IsAccounted (λ id. is_job id job) s
      → find_log job.log_id s.logs ≡ some row
      → row.id ≡ job.log_id
      → IsSound row
      → is_open row.status ≡ true
      → IsExecuted row job s s' returned
      → IsAccounted (λ id. if returned then 0 else is_job id job) s'
  executed-keeps s s' job row returned (keyed, owned, sound) found same fits open_now
        (change, keeps, logs, lost, attempts, end) =
      let counted : (weight : DeliveryLog → ℕ)
          → total_by weight s'.logs + weight row ≡ total_by weight s.logs + weight (change row) =
        λ weight.
          subst (λ l. total_by weight l + weight row ≡ total_by weight s.logs + weight (change row))
            (sym logs)
            (total_by-update_log weight job.log_id change s.logs row (keyed job.log_id) found) in
      (
        λ id. ground (arith, counted (is_row id), keeps row, keyed id),
        λ id. ground (
          arith,
          counted (is_open_row id),
          keeps row,
          owned id,
          ap (lost_of id) lost,
          (ended s s' job row (change row) returned fits open_now attempts end id).1,
        ),
        rw logs (
            All-update_log IsSound job.log_id change s.logs row (keyed job.log_id) found
              (ended s s' job row (change row) returned fits open_now attempts end 0).0 sound),
      )
