-- ===== src/Queue/Memory/Recurring.antt =====
-- memory-queue.ts: the recurring jobs, by interval or by cron pattern.
--
-- The timers of the recurring jobs stand in a list under their numbers. `next_run` is the cron parser:
-- the next time of a pattern after a time, or none where it throws. `suffix` is the text of the time
-- and the random number that make a job's id unique.
pub mod Callbacks
pub mod Timers
pub mod Steps
pub mod Laws
mod Tests
use text.Mathlib.Text.{starts_with}
use checkmate.Prelude.{
  ℕ, suc, ◌+◌, ◌-◌, ◌*◌, Bool, true, false, not, ◌&&◌, String, List, [], ◌∷◌, ◌++◌, Option, none,
  some, filter, find, any, map, ltb, leb, ◌==◌, is_some, if◌then◌else◌,
}
use checkmate.Prelude.Text.{◌===◌, ◌++ₛ◌}
use checkmate.Prelude.Map.{get, set, keys}
use checkmate.Queue.Memory.State.{InternalQueueJob, ConsumerGroupState, Queue}
use checkmate.Queue.Memory.Operations.{
  EnqueueOptions, Enqueued, queue_is_full, returned, Event, enqueue, step, stop,
}

pub data RecurringSchedule : Type 0 where
  interval_seconds : ℕ → RecurringSchedule
  cron_pattern : String → RecurringSchedule

pub record RecurringJobMetadata (T : Type 0) : Type 0 where
  pub payload : T
  pub priority : ℕ
  pub schedule : RecurringSchedule
  pub enabled : Bool
  pub timer_id : Option ℕ

-- An interval with its period, or a timeout that wakes the scheduling of a cron pattern or runs it.
pub data TimerKind : Type 0 where
  every : ℕ → TimerKind
  wake : String → TimerKind
  run : String → TimerKind

pub record Timer (T : Type 0) : Type 0 where
  pub id : ℕ
  pub job_id : String
  pub payload : T
  pub priority : ℕ
  pub kind : TimerKind
  pub due : ℕ

-- The queue with `recurringJobs` and its timers that are set.
pub record RecurringQueue (T : Type 0) : Type 0 where
  pub queue : Queue T
  pub recurring_jobs : List (String × RecurringJobMetadata T)
  pub timers : List (Timer T)
  pub next_timer : ℕ

-- A queue as it is made: without recurring jobs.
unfoldable pub no_recurring : {T : Type 0} → Queue T → RecurringQueue T
no_recurring q = record { queue = q; recurring_jobs = []; timers = []; next_timer = 0 }

abbrev pub max_timeout : ℕ
max_timeout = 2147483647

abbrev pub run_options : String → ℕ → EnqueueOptions
run_options id priority = record { priority = some priority; start_delay = none; job_id = some id }

module _ {T : Type 0} where
  -- `clearTimeout` and `clearInterval`, of the timer that the metadata have.
  abbrev pub clear_timer : Option ℕ → List (Timer T) → List (Timer T)
  clear_timer none timers = timers
  clear_timer (some id) timers = filter (λ t. not (t.id == id)) timers

  -- A run of the recurring job: its id begins with the job's and a colon.
  abbrev pub is_run_of : String → InternalQueueJob T → Bool
  is_run_of job_id job = starts_with job.id (job_id ++ₛ ":")

  -- The runs that wait are removed, and their ids from what the groups have processed.
  unfoldable pub remove_pending : String → Queue T → Queue T
  remove_pending job_id q = record q {
    jobs = filter (λ j. not (is_run_of job_id j)) q.jobs;
    groups =
        map
          (λ e. (
            e.0,
            record (e.1) {
              processed_job_ids =
                  filter
                    (λ id. not (is_some (find (λ j. is_run_of job_id j && j.id === id) q.jobs)))
                    (e.1).processed_job_ids;
            },
          ))
          q.groups;
  }

  -- A new timer, whose id the metadata of its job keep.
  unfoldable pub set_timer :
      String → RecurringJobMetadata T → TimerKind → ℕ → RecurringQueue T → RecurringQueue T
  set_timer job_id metadata kind due r = record r {
    recurring_jobs = set job_id (record metadata { timer_id = some r.next_timer }) r.recurring_jobs;
    timers =
        r.timers
        ++ record {
          id = r.next_timer;
          job_id = job_id;
          payload = metadata.payload;
          priority = metadata.priority;
          kind = kind;
          due = due;
        }
          ∷ [];
    next_timer = suc r.next_timer;
  }

  -- `scheduleNextCronRun`. A pattern that the parser refuses is logged.
  unfoldable pub schedule_next_cron_run :
      (String → ℕ → Option ℕ) → ℕ → String → String → RecurringQueue T → RecurringQueue T
  schedule_next_cron_run next_run now job_id pattern r =
      if r.queue.stopped then r else elim (get job_id r.recurring_jobs) [
        | none ↦ r
        | some metadata ↦ if not metadata.enabled then r else elim (next_run pattern now) [
          | none ↦ r
          | some next ↦
              if ltb max_timeout (next - now)
              then set_timer job_id metadata (wake pattern) (now + max_timeout) r
              else set_timer job_id metadata (run pattern) (now + (next - now)) r
        ]
      ]

  -- What `scheduleRecurring` does first where the job exists.
  unfoldable pub clear_existing : String → RecurringQueue T → RecurringQueue T
  clear_existing job_id r = elim (get job_id r.recurring_jobs) [
    | none ↦ r
    | some metadata ↦ record r {
      queue = remove_pending job_id r.queue;
      timers = clear_timer metadata.timer_id r.timers;
    }
  ]

  -- `scheduleRecurring`; an interval's first run is enqueued at once, and may be refused.
  unfoldable pub schedule_recurring :
      (String → ℕ → Option ℕ)
      → ℕ
      → String
      → String
      → T
      → ℕ
      → RecurringSchedule
      → RecurringQueue T
      → RecurringQueue T × Enqueued
  schedule_recurring next_run now suffix job_id payload priority (cron_pattern pattern) r =
      let cleared = clear_existing job_id r in
      let metadata : RecurringJobMetadata T = record {
        payload = payload;
        priority = priority;
        schedule = cron_pattern pattern;
        enabled = true;
        timer_id = none;
      } in
      (
        schedule_next_cron_run next_run now job_id pattern
            (record cleared { recurring_jobs = set job_id metadata cleared.recurring_jobs }),
        returned job_id,
      )
  schedule_recurring next_run now suffix job_id payload priority (interval_seconds seconds) r =
      let cleared = clear_existing job_id r in
      let period = r.queue.config.scale (seconds * 1000) in
      let metadata : RecurringJobMetadata T = record {
        payload = payload;
        priority = priority;
        schedule = interval_seconds seconds;
        enabled = true;
        timer_id = none;
      } in
      let timed = set_timer job_id metadata (every period) (now + period) cleared in
      let (q, outcome) =
        enqueue now "" payload (run_options (job_id ++ₛ ":" ++ₛ suffix) priority) timed.queue in
      (
        record timed { queue = q },
        elim outcome [ queue_is_full ↦ queue_is_full | returned id ↦ returned job_id ],
      )

  -- `cancelRecurring`.
  unfoldable pub cancel_recurring : String → RecurringQueue T → RecurringQueue T
  cancel_recurring job_id r = elim (get job_id r.recurring_jobs) [
    | none ↦ r
    | some metadata ↦ record r {
      queue = remove_pending job_id r.queue;
      timers = clear_timer metadata.timer_id r.timers;
      recurring_jobs =
          set job_id (record metadata { enabled = false; timer_id = none }) r.recurring_jobs;
    }
  ]

  unfoldable pub list_recurring_jobs : RecurringQueue T → List String
  list_recurring_jobs r = keys r.recurring_jobs

  -- `getRecurringJobDetails`.
  unfoldable pub get_recurring_job_details :
      String → RecurringQueue T → Option (RecurringJobMetadata T)
  get_recurring_job_details job_id r = elim (get job_id r.recurring_jobs) [
    | none ↦ none
    | some metadata ↦ if metadata.enabled then some metadata else none
  ]
