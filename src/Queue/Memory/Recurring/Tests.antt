-- ===== src/Queue/Memory/Recurring/Tests.antt =====
-- Recurring jobs that are scheduled, run and cancelled.
use checkmate.Prelude.{
  ℕ, ◌+◌, ◌≡◌, refl, String, true, false, List, [], ◌∷◌, Option, none, some, length, filter, map,
  All, if◌then◌else◌,
}
use checkmate.Prelude.Text.{◌===◌}
use checkmate.Queue.Memory.State.{Queue, new_queue, insert_job}
use checkmate.Queue.Memory.Operations.{enqueue, delay_of, duplicate_of, new_job, add_job}
use checkmate.Queue.Memory.Processing.{process_next}
use checkmate.Queue.Memory.Recurring.{
  interval_seconds, cron_pattern, RecurringJobMetadata, is_run_of, remove_pending, set_timer,
  schedule_next_cron_run, clear_existing, schedule_recurring, cancel_recurring, list_recurring_jobs,
  get_recurring_job_details, no_recurring,
}
use checkmate.Queue.Memory.Recurring.Callbacks.{
  call_timer, stop_recurring, RecurringEvent, scheduled, called, recurring_step,
}
use checkmate.Queue.Memory.Recurring.Steps.{recurring_after}
use checkmate.Queue.Memory.Recurring.Laws.{cancelled_is_silent, interval_has_one_timer}

recurring : Unit {0}
unfolding new_queue insert_job enqueue delay_of duplicate_of new_job add_job process_next
    remove_pending set_timer schedule_next_cron_run clear_existing schedule_recurring
    cancel_recurring list_recurring_jobs get_recurring_job_details call_timer stop_recurring
    no_recurring recurring_step
recurring = tt

abbrev empty : Queue ℕ
unfolding recurring
empty = new_queue (record { concurrency = 2; max_queue_size = 9; scale = λ n. n })

-- A cron pattern that is due every hundred milliseconds.
abbrev next_run : String → ℕ → Option ℕ
next_run pattern now = if pattern === "bad" then none else some (now + 100)

abbrev events : List (RecurringEvent ℕ)
events =
    scheduled 0 "a1" "daily" 7 0 (interval_seconds 60)
    ∷ scheduled 0 "b1" "often" 8 0 (cron_pattern "good")
    ∷ called 100 "b2" 1
    ∷ scheduled 200 "a2" "daily" 9 0 (interval_seconds 30)
    ∷ []

waiting :
    map (λ j. j.id) (recurring_after next_run events (no_recurring empty)).queue.jobs
    ≡ "often:b2" ∷ "daily:a2" ∷ []
unfolding recurring empty
waiting = refl

-- A job that is cancelled is still listed.
still_listed :
    list_recurring_jobs
      (cancel_recurring "daily" (recurring_after next_run events (no_recurring empty)))
    ≡ "daily" ∷ "often" ∷ []
unfolding recurring empty
still_listed = refl

abbrev daily : RecurringJobMetadata ℕ
daily = record {
  payload = 9;
  priority = 0;
  schedule = interval_seconds 30;
  enabled = true;
  timer_id = some 3;
}

cancelled_is_silent_example :
    let after = cancel_recurring "daily" (recurring_after next_run events (no_recurring empty)) in
    All (λ t. (t.job_id === "daily") ≡ false) after.timers
    × All (λ j. is_run_of "daily" j ≡ false) after.queue.jobs
    × (get_recurring_job_details "daily" after ≡ none)
unfolding recurring empty
cancelled_is_silent_example = cancelled_is_silent next_run empty events "daily" daily refl

interval_has_one_timer_example :
    length (
      filter
        (λ t. t.job_id === "daily")
        (schedule_recurring next_run 300 "a3" "daily" 5 0
          (interval_seconds 10)
          (recurring_after next_run events (no_recurring empty))).0.timers)
    ≡ 1
interval_has_one_timer_example =
    interval_has_one_timer next_run empty events 300 "a3" "daily" 5 0 10
