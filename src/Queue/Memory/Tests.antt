-- ===== src/Queue/Memory/Tests.antt =====
-- The in-memory queue at concrete events.
use checkmate.Prelude.{
  ℕ, ◌+◌, ◌≤◌, ◌≡◌, ◌≢◌, ◌⊎◌, ◌↔◌, inl, refl, Bool, true, false, if◌then◌else◌, List, [], ◌∷◌, none,
  some, String, arith, length, In, map,
}
use checkmate.Queue.Memory.State.{
  InternalQueueJob, Consumer, ConsumerGroupState, Run, QueueConfig, Queue, new_queue, has_processed,
  get_elem?, insert_job, acquire, release, remove_at,
}
use checkmate.Queue.Memory.Processing.{
  select_consumer, next_job, take_job, dispatch, dispatch_all, acquire_all, fully_processed,
  process_next, start, pow2, drop_id, forget_job, schedule_delayed, succeed, retry, fail, finish,
  settle,
}
use checkmate.Queue.Memory.Operations.{
  EnqueueOptions, queue_is_full, enqueue, Event, enqueued, consumed, started, settled, fired, step,
  run, delay_of, duplicate_of, new_job, add_job, new_group, consume, expire, fire, get_stats,
}
use checkmate.Queue.Memory.Permits.{concurrency_bounded}
use checkmate.Queue.Memory.Dispatch.{pending, IsDue, process_next-IsDue}
use checkmate.Queue.Memory.Bounds.{enqueue_bounded}
use checkmate.Queue.Memory.Liveness.{count_runs, process_next_starts}

abbrev config : QueueConfig
config = record { concurrency = 1; max_queue_size = 3; scale = λ ms. ms }

abbrev priority_of : ℕ → EnqueueOptions
priority_of p = record { priority = some p; start_delay = none; job_id = none }

-- Three jobs that find no consumer.
abbrev three_jobs : List (Event ℕ)
three_jobs =
    enqueued 0 "a" 10 (priority_of 1)
    ∷ enqueued 0 "b" 20 (priority_of 5)
    ∷ enqueued 0 "c" 30 (priority_of 1)
    ∷ []

abbrev ids : Queue ℕ → List String
ids q = map (λ j. j.id) q.jobs

by_priority : ids (run three_jobs (new_queue config)) ≡ "b" ∷ "a" ∷ "c" ∷ []
unfolding run step enqueue new_queue duplicate_of add_job delay_of process_next insert_job new_job
by_priority = refl

-- Two groups: the second run waits for the permit of the first.
abbrev two_groups : List (Event ℕ)
two_groups =
    consumed 0 "c1" "emails" none
    ∷ consumed 0 "c2" "checks" (some 1)
    ∷ enqueued 0 "a" 10 (priority_of 1)
    ∷ started
    ∷ []

-- The handler of the first group throws: the job is back in the list, and is run again once the
-- delay of two seconds is over.
abbrev with_retry : List (Event ℕ)
with_retry =
    consumed 0 "c1" "emails" none
    ∷ enqueued 0 "a" 10 (priority_of 1)
    ∷ started
    ∷ settled 5 0 false
    ∷ fired 100 0
    ∷ fired 2005 0
    ∷ started
    ∷ settled 2010 0 true
    ∷ []

retried :
    get_stats (run with_retry (new_queue config))
    ≡ record { pending = 0; processing = 0; completed = 1; failed = 0; consumer_groups = 1 }
unfolding get_stats run step settle get_elem? start fire enqueue consume new_queue process_next
    duplicate_of add_job delay_of insert_job acquire_all dispatch_all dispatch select_consumer
    expire new_group new_job drop_id fail finish forget_job fully_processed next_job pow2 retry
    schedule_delayed succeed take_job acquire has_processed release remove_at
retried = refl

concurrency_bounded_example :
    let q = run two_groups (new_queue config) in
    (q.processing ≡ length q.running)
    × (q.processing + length q.granted ≤ 1)
    × (q.waiting ≢ [] → q.processing + length q.granted ≡ 1)
concurrency_bounded_example = concurrency_bounded config two_groups

abbrev job : InternalQueueJob ℕ
job = record { ref = 0; id = "a"; payload = 10; priority = 1; timestamp = 0; available_at = 0 }

abbrev consumer : Consumer
consumer = record { id = "c1"; max_retries = 3 }

abbrev group : ConsumerGroupState
group = record { consumers = consumer ∷ []; next_consumer_index = 0; processed_job_ids = [] }

abbrev idle : Queue ℕ
idle = record (new_queue config) { jobs = job ∷ []; groups = ("emails", group) ∷ [] }

abbrev first_run : Run ℕ
first_run = record { job = job; consumer = consumer; group_id = "emails" }

process_next-IsDue_example : In first_run [] ⊎ IsDue 7 (job ∷ []) (("emails", group) ∷ []) first_run
unfolding process_next new_queue acquire_all dispatch_all dispatch select_consumer next_job acquire
process_next-IsDue_example = process_next-IsDue 7 idle first_run (inl refl)

-- A run of the group waits already, for another job.
abbrev one_waits : Queue ℕ
one_waits = record idle { granted = record first_run { job = record job { id = "0" } } ∷ [] }

process_next_starts_example :
    (r : Run ℕ) × (r.group_id ≡ "emails")
    × In r.job one_waits.jobs
    × (has_processed group r.job.id ≡ false)
    × (r.job.available_at ≤ 7)
    × (select_consumer group ≡ some r.consumer)
    × ((p : Run ℕ → Bool)
        → count_runs p (pending one_waits) + (if p r then 1 else 0)
          ≤ count_runs p (pending (process_next 7 one_waits)))
unfolding new_queue has_processed
process_next_starts_example =
    process_next_starts 7 one_waits "emails" group job (inl refl) (λ e. absurd (cc)) (inl refl) refl
      (omega arith)

enqueue_bounded_example :
    let (q', r) = enqueue 0 "d" 40 (priority_of 2) idle in
    ((r ≡ queue_is_full) ↔ (3 ≤ 1)) × (r ≡ queue_is_full → q' ≡ idle) × (1 ≤ 3 → length q'.jobs ≤ 3)
unfolding new_queue
enqueue_bounded_example = enqueue_bounded 0 "d" 40 (priority_of 2) idle
