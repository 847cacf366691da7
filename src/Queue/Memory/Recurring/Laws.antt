-- ===== src/Queue/Memory/Recurring/Laws.antt =====
-- memory-queue.ts: a recurring job that is cancelled, and one that is scheduled anew.
use checkmate.Prelude.{
  ℕ, ◌≡◌, refl, inl, inr, false, not, String, List, [], ◌∷◌, ◌++◌, Option, none, some, arith,
  length, filter, Bool-cases, All, All-of_In,
}
use checkmate.Prelude.Text.{◌===◌, ===_iff, ===_refl}
use checkmate.Prelude.Map.{get, get-set}
use checkmate.Queue.Memory.State.{Queue, InternalQueueJob}
use checkmate.Queue.Memory.Recurring.{
  interval_seconds, RecurringJobMetadata, Timer, is_run_of, clear_timer, remove_pending, set_timer,
  clear_existing, schedule_recurring, cancel_recurring, get_recurring_job_details, no_recurring,
}
use checkmate.Queue.Memory.Recurring.Callbacks.{RecurringEvent}
use checkmate.Queue.Memory.Recurring.Timers.{
  HasNoTimer, clear_timer-HasNoTimer, clear_existing-timers,
}
use checkmate.Queue.Memory.Recurring.Steps.{recurring_after, recurring_after-IsOrderly}

module _ {T : Type 0} where
  no_runs_left :
      (job_id : String) (jobs : List (InternalQueueJob T))
      → All (λ j. is_run_of job_id j ≡ false) (filter (λ j. not (is_run_of job_id j)) jobs)
  no_runs_left job_id [] = tt
  no_runs_left job_id (j ∷ jobs) = elim (Bool-cases (is_run_of job_id j)) [
    | inl e ↦ rw e (no_runs_left job_id jobs)
    | inr e ↦ rw e (e, no_runs_left job_id jobs)
  ]

  -- After any calls, callbacks and steps of a queue that began without recurring jobs, and then the
  -- cancellation of one: no timer of it is set, no run of it waits in the list of jobs, and it has no
  -- details.
  pub cancelled_is_silent :
      (next_run : String → ℕ → Option ℕ) (q : Queue T) (events : List (RecurringEvent T))
      (job_id : String) (metadata : RecurringJobMetadata T)
      → get job_id (recurring_after next_run events (no_recurring q)).recurring_jobs ≡ some metadata
      → let after = cancel_recurring job_id (recurring_after next_run events (no_recurring q)) in
        All (λ t. (t.job_id === job_id) ≡ false) after.timers
        × All (λ j. is_run_of job_id j ≡ false) after.queue.jobs
        × (get_recurring_job_details job_id after ≡ none)
  unfolding cancel_recurring remove_pending get_recurring_job_details no_recurring
  cancelled_is_silent next_run q events job_id m found =
      let r = recurring_after next_run events (no_recurring q) in
      let orderly = recurring_after-IsOrderly next_run events (no_recurring q) (λ t i. absurd i) in
      rw (cancel_recurring, found)
        (
          All-of_In (λ t. (t.job_id === job_id) ≡ false) (clear_timer m.timer_id r.timers)
              (clear_timer-HasNoTimer job_id m r.recurring_jobs r.timers orderly found),
          no_runs_left job_id r.queue.jobs,
          rw
              (
                get_recurring_job_details,
                get-set job_id job_id (record m { enabled = false; timer_id = none })
                    r.recurring_jobs,
                ===_refl job_id,
              )
              refl,
        )

  one_of_job :
      (job_id : String) (timers : List (Timer T)) (new : Timer T)
      → new.job_id ≡ job_id
      → HasNoTimer job_id timers
      → length (filter (λ t. t.job_id === job_id) (timers ++ new ∷ [])) ≡ 1
  one_of_job job_id [] new same none_set = ground (arith, ===_iff new.job_id job_id, same)
  one_of_job job_id (t ∷ timers) new same none_set =
      let rest = one_of_job job_id timers new same (λ u i. none_set u (inr i)) in
      ground (arith, none_set t (inl refl), rest)

  -- After any calls, callbacks and steps of a queue that began without recurring jobs, a job that is
  -- scheduled by an interval has exactly one timer, whether or not it was scheduled before.
  pub interval_has_one_timer :
      (next_run : String → ℕ → Option ℕ) (q : Queue T) (events : List (RecurringEvent T)) (now : ℕ)
      (suffix job_id : String) (payload : T) (priority seconds : ℕ)
      → length (
          filter
            (λ t. t.job_id === job_id)
            (schedule_recurring next_run now suffix job_id payload priority
              (interval_seconds seconds)
              (recurring_after next_run events (no_recurring q))).0.timers)
        ≡ 1
  unfolding schedule_recurring set_timer no_recurring
  interval_has_one_timer next_run q events now suffix job_id payload priority seconds =
      let r = recurring_after next_run events (no_recurring q) in
      let orderly = recurring_after-IsOrderly next_run events (no_recurring q) (λ t i. absurd i) in
      one_of_job job_id (clear_existing job_id r).timers _ refl
        (clear_existing-timers job_id r orderly).0
