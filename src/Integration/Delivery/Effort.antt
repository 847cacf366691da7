-- ===== src/Integration/Delivery/Effort.antt =====
-- delivery-coordinator.ts: how a turn of the worker lowers what is left to do, and which jobs it leaves
-- in the queue.
use checkmate.Prelude.{
  ℕ, zero, suc, ◌+◌, ◌-◌, ◌*◌, ◌/◌, ◌≤◌, ◌<◌, ◌≡◌, refl, ap, subst, inl, inr, Bool, true, List, [],
  ◌∷◌, ◌++◌, some, arith, All, All-append, ltb, if◌then◌else◌, if_cases, Option-cases, Bool-cases,
}
use checkmate.Integration.Tables.{
  DeliveryStatus, pending, success, failed, retrying, DeliveryLog, DeliveryJobData, UndefinedWrite,
  find_log,
}
use checkmate.Integration.Attempts.{retry_delay}
use checkmate.Integration.Delivery.{QueuedJob, Integration, execute_delivery}
use checkmate.Integration.Delivery.Worker.{
  pick, Turn, give_back, default_max_retries, run_job, work,
}
use checkmate.Integration.Delivery.Counting.{
  total_by, is_open, is_row, attempts_left, jobs_of, total_by-update_log,
}
use checkmate.Integration.Delivery.Changes.{IsExecuted, execute_delivery-IsExecuted}
use checkmate.Integration.Delivery.Consistent.{
  FitsStatus, IsSound, IsAccounted, IsConsistent, is_job, jobs_of-pick, row_of_job,
}

module _ {C : Type 0} where
  -- The runs that the queue still gives its jobs.
  abbrev pub runs_left : List (QueuedJob C) → ℕ
  runs_left [] = 0
  runs_left (queued ∷ jobs) = suc (default_max_retries - queued.attempts) + runs_left jobs

  -- Each attempt that is left may put a job with four runs into the queue.
  abbrev pub effort : Integration C → ℕ
  effort s = 4 * total_by attempts_left s.logs + runs_left s.waiting

  runs_left-append :
      (xs ys : List (QueuedJob C)) → runs_left (xs ++ ys) ≡ runs_left xs + runs_left ys
  runs_left-append [] ys = omega arith
  runs_left-append (x ∷ xs) ys = omega (arith, runs_left-append xs ys)

  runs_left-pick :
      (place : ℕ) (job : QueuedJob C) (jobs : List (QueuedJob C))
      → runs_left ((pick place job jobs).0 ∷ (pick place job jobs).1) ≡ runs_left (job ∷ jobs)
  runs_left-pick zero job jobs = refl
  runs_left-pick (suc place) job [] = refl
  runs_left-pick (suc place) job (next ∷ jobs) = omega (arith, runs_left-pick place next jobs)

  give_back-effort :
      (queued : QueuedJob C) (s : Integration C)
      → effort (give_back queued s) ≤ effort s + (default_max_retries - queued.attempts)
  unfolding give_back
  give_back-effort queued s =
      ground
        (arith, runs_left-append s.waiting (record queued { attempts = queued.attempts + 1 } ∷ []))

fewer_left :
    (status status' : DeliveryStatus) (attempts attempts' : ℕ)
    → FitsStatus status attempts
    → is_open status ≡ true
    → attempts' ≡ attempts + 1
    → (if is_open status' then 3 - attempts' else 0) + 1
      ≤ (if is_open status then 3 - attempts else 0)
fewer_left pending status' attempts attempts' fits o e = ground arith
fewer_left retrying status' attempts attempts' fits o e = ground arith
fewer_left success status' attempts attempts' fits o e = absurd (cc)
fewer_left failed status' attempts attempts' fits o e = absurd (cc)

pub All-pick :
    {A : Type 0} (P : A → Type 0) (place : ℕ) (x : A) (xs : List A)
    → P x
    → All P xs
    → P (pick place x xs).0 × All P (pick place x xs).1
All-pick P zero x xs h hs = (h, hs)
All-pick P (suc place) x [] h hs = (h, hs)
All-pick P (suc place) x (y ∷ ys) h (k, ks) =
    let (p, ps) = All-pick P place y ys k ks in (p, (h, ps))

module _ {C : Type 0} (P : DeliveryJobData C → Type 0) where
  abbrev pub AllJobs : List (QueuedJob C) → Type 0
  AllJobs jobs = All (λ queued. P queued.job) jobs

  give_back-AllJobs :
      (queued : QueuedJob C) (s : Integration C)
      → P queued.job
      → AllJobs s.waiting
      → AllJobs (give_back queued s).waiting
  unfolding give_back
  give_back-AllJobs queued s p all =
      if_cases (λ (r : Integration C). AllJobs r.waiting) (ltb queued.attempts default_max_retries)
        (All-append (λ (q : QueuedJob C). P q.job) s.waiting
          (record queued { attempts = queued.attempts + 1 } ∷ []) all (p, tt))
        all

  -- An attempt lowers the effort, or else puts back its own job as a new one.
  executed-effort :
      (s s' : Integration C) (job : DeliveryJobData C) (row : DeliveryLog) (returned : Bool)
      → total_by (is_row job.log_id) s.logs ≤ 1
      → find_log job.log_id s.logs ≡ some row
      → IsSound row
      → is_open row.status ≡ true
      → IsExecuted row job s s' returned
      → P job
      → AllJobs s.waiting
      → (effort s' ≤ effort s) × AllJobs s'.waiting × (s'.lost ≡ s.lost)
  executed-effort s s' job row returned keyed found fits o
        (change, keeps, logs, lost, attempts, end) p all =
      let fresh : List (QueuedJob C) =
        record { job = job; start_delay = retry_delay (change row).attempts / 1000; attempts = 0 }
        ∷ [] in
      let fewer : total_by attempts_left s'.logs + 1 ≤ total_by attempts_left s.logs = rw logs (
        omega (
          arith,
          total_by-update_log attempts_left job.log_id change s.logs row keyed found,
          fewer_left row.status (change row).status row.attempts (change row).attempts fits o
              attempts,
        )) in
      elim end [
        | inl (e, w, r) ↦ rw w (omega (arith, fewer), all, lost)
        | inr (inl (e, many, w, r)) ↦ rw w (omega (arith, fewer), all, lost)
        | inr (inr (inl (e, few, w, r))) ↦ rw w (
          omega (arith, fewer, runs_left-append s.waiting fresh),
          All-append (λ (q : QueuedJob C). P q.job) s.waiting fresh all (p, tt),
          lost,
        )
        | inr (inr (inr (e, few, w, r))) ↦ rw w (omega (arith, fewer), all, lost)
      ]

  module _ (undefined_write : UndefinedWrite) (turn : Turn) where
    -- A run of a job, where it is the only one at hand.
    run_job-effort :
        (queued : QueuedJob C) (s : Integration C)
        → IsAccounted (λ id. is_job id queued.job) s
        → P queued.job
        → AllJobs s.waiting
        → let s' = run_job undefined_write turn queued s in
          (effort s' ≤ effort s + (default_max_retries - queued.attempts)) × AllJobs s'.waiting
    unfolding run_job execute_delivery
    run_job-effort queued s (keyed, owned, sound) p all =
        elim (Option-cases (turn.get_provider queued.job.provider_id)) [
          | inl e ↦
              rw (run_job, execute_delivery, e)
                (give_back-effort queued s, give_back-AllJobs queued s p all)
          | inr (provider, e) ↦
              let (row, found, same, fits, open_now) =
                row_of_job s queued.job keyed sound (ground (arith, owned queued.job.log_id)) in
              let result =
                execute_delivery undefined_write turn.get_provider turn.accepts turn.now
                  turn.outcome queued.job s in
              let (few, jobs, lost) =
                executed-effort s result.0 queued.job row result.1 (keyed queued.job.log_id) found
                  fits open_now
                  (execute_delivery-IsExecuted undefined_write turn.accepts turn.now queued.job s
                    row found turn.get_provider provider turn.outcome e)
                  p all in
              elim (Bool-cases result.1) [
                | inl r ↦ rw (run_job, r) (omega (arith, few), jobs)
                | inr r ↦
                    rw (run_job, r)
                      (
                        omega (arith, few, give_back-effort queued result.0),
                        give_back-AllJobs queued result.0 p jobs,
                      )
              ]
        ]

    pub work-effort :
        (s : Integration C) (job : QueuedJob C) (jobs : List (QueuedJob C))
        → s.waiting ≡ job ∷ jobs
        → IsConsistent s
        → AllJobs s.waiting
        → let s' = work undefined_write turn s in (effort s' < effort s) × AllJobs s'.waiting
    unfolding work
    work-effort s job jobs e (keyed, owned, sound) all =
        let picked = (pick turn.place job jobs).0 in
        let rest : Integration C = record s { waiting = (pick turn.place job jobs).1 } in
        let here : AllJobs (job ∷ jobs) = subst AllJobs e all in
        let (p, others) =
          All-pick (λ (q : QueuedJob C). P q.job) turn.place job jobs here.0 here.1 in
        let (few, left) =
          run_job-effort picked rest
            (
              keyed,
              λ id. omega (arith, jobs_of-pick id turn.place job jobs, ap (jobs_of id) e, owned id),
              sound,
            )
            p others in
        rw (work, e) (omega (arith, few, runs_left-pick turn.place job jobs, ap runs_left e), left)
