-- ===== src/Queue/Memory/Recurring/Callbacks.antt =====
-- memory-queue.ts: the callbacks of the timers of recurring jobs, and the steps of the event loop.
use checkmate.Prelude.{
  ℕ, ◌+◌, Bool, false, not, ◌&&◌, String, Option, none, some, filter, find, any, map, leb, ◌==◌,
  is_some, if◌then◌else◌,
}
use checkmate.Prelude.Text.{◌++ₛ◌}
use checkmate.Queue.Memory.Operations.{Event, enqueue, step, stop}
use checkmate.Queue.Memory.Recurring.{
  every, wake, run, RecurringSchedule, Timer, RecurringQueue, run_options, clear_timer,
  schedule_next_cron_run, schedule_recurring, cancel_recurring, get_recurring_job_details,
}

module _ {T : Type 0} where
  -- A run is enqueued; where the queue is full it is lost.
  abbrev pub enqueue_run : ℕ → String → Timer T → RecurringQueue T → RecurringQueue T
  enqueue_run now suffix t r = record r {
    queue =
        (enqueue now "" t.payload (run_options (t.job_id ++ₛ ":" ++ₛ suffix) t.priority) r.queue).0;
  }

  abbrev pub is_enabled : String → RecurringQueue T → Bool
  is_enabled job_id r = is_some (get_recurring_job_details job_id r)

  -- The timer's callback; an interval stays set.
  unfoldable pub call_timer :
      (String → ℕ → Option ℕ) → ℕ → String → Timer T → RecurringQueue T → RecurringQueue T
  call_timer next_run now suffix t r = elim t.kind [
    | every period ↦
        let kept = record r {
          timers =
              map (λ u. if u.id == t.id then record u { due = u.due + period } else u) r.timers;
        } in
        if r.queue.stopped then kept else enqueue_run now suffix t kept
    | wake pattern ↦
        schedule_next_cron_run next_run now t.job_id pattern
          (record r { timers = clear_timer (some t.id) r.timers })
    | run pattern ↦
        let gone = record r { timers = clear_timer (some t.id) r.timers } in
        if not r.queue.stopped && is_enabled t.job_id r
        then schedule_next_cron_run next_run now t.job_id pattern (enqueue_run now suffix t gone)
        else gone
  ]

  -- `stop` up to its wait: all timers are cleared and all recurring jobs disabled.
  unfoldable pub stop_recurring : RecurringQueue T → RecurringQueue T
  stop_recurring r = record r {
    queue = stop r.queue;
    timers =
        filter
          (λ t. not (
            any (λ e. elim (e.1).timer_id [ none ↦ false | some id ↦ t.id == id ])
              r.recurring_jobs))
          r.timers;
    recurring_jobs =
        map (λ e. (e.0, record (e.1) { enabled = false; timer_id = none })) r.recurring_jobs;
  }

-- The calls that concern recurring jobs, the callbacks of their timers, and the other steps of the
-- queue.
pub data RecurringEvent (T : Type 0) : Type 0 where
  scheduled :
      (now : ℕ) (suffix job_id : String) (payload : T) (priority : ℕ) (schedule : RecurringSchedule)
      → RecurringEvent T
  cancelled : (job_id : String) → RecurringEvent T
  called : (now : ℕ) (suffix : String) (id : ℕ) → RecurringEvent T
  stepped : Event T → RecurringEvent T
  all_stopped : RecurringEvent T

unfoldable pub recurring_step :
    {T : Type 0} → (String → ℕ → Option ℕ) → RecurringEvent T → RecurringQueue T → RecurringQueue T
recurring_step next_run (scheduled now suffix job_id payload priority schedule) r =
    (schedule_recurring next_run now suffix job_id payload priority schedule r).0
recurring_step next_run (cancelled job_id) r = cancel_recurring job_id r
recurring_step next_run (called now suffix id) r =
    elim (find (λ t. t.id == id && leb t.due now) r.timers) [
      | none ↦ r
      | some t ↦ call_timer next_run now suffix t r
    ]
recurring_step next_run (stepped e) r = record r { queue = step e r.queue }
recurring_step next_run all_stopped r = stop_recurring r
