-- ===== src/Queue/Memory/Operations.antt =====
-- memory-queue.ts: the methods of the queue, and the events of the loop that runs them.
use checkmate.Prelude.{
  ℕ, suc, ◌+◌, ◌*◌, Bool, true, not, ◌&&◌, List, [], ◌∷◌, ◌++◌, Option, none, some, String, length,
  any, leb, ltb, ◌==◌, if◌then◌else◌, get_or_else,
}
use checkmate.Prelude.Text.{◌===◌}
use checkmate.Prelude.Map.{get, set}
use checkmate.Queue.Memory.State.{
  InternalQueueJob, Consumer, ConsumerGroupState, Queue, insert_job, get_elem?, remove_at,
}
use checkmate.Queue.Memory.Processing.{process_next, start, schedule_delayed, settle}

pub record EnqueueOptions : Type 0 where
  pub priority : Option ℕ
  pub start_delay : Option ℕ
  pub job_id : Option String

pub data Enqueued : Type 0 where
  queue_is_full : Enqueued
  returned : String → Enqueued

-- `options?.startDelay`, which is falsy for zero.
unfoldable pub delay_of : EnqueueOptions → Option ℕ
delay_of o = elim o.start_delay [ none ↦ none | some d ↦ if d == 0 then none else some d ]

-- `options?.jobId && this.jobs.some(...)`: the empty text is falsy.
unfoldable pub duplicate_of :
    {T : Type 0} → EnqueueOptions → List (InternalQueueJob T) → Option String
duplicate_of o jobs = elim o.job_id [
  | none ↦ none
  | some id ↦ if not (id === "") && any (λ j. j.id === id) jobs then some id else none
]

unfoldable pub new_job :
    {T : Type 0} → ℕ → String → T → EnqueueOptions → Queue T → InternalQueueJob T
unfolding delay_of
new_job now uuid item o q = record {
  ref = q.next_ref;
  id = get_or_else o.job_id uuid;
  payload = item;
  priority = get_or_else o.priority 0;
  timestamp = now;
  available_at = elim (delay_of o) [ none ↦ now | some d ↦ now + q.config.scale (d * 1000) ];
}

-- The last part of `enqueue`, where the job is put in and its processing is triggered.
unfoldable pub add_job : {T : Type 0} → ℕ → EnqueueOptions → InternalQueueJob T → Queue T → Queue T
add_job now o job q =
    let q' = record q { jobs = insert_job job q.jobs; next_ref = suc q.next_ref } in
    if q'.stopped then q' else elim (delay_of o) [
      | none ↦ process_next now q'
      | some d ↦ schedule_delayed (now + q'.config.scale (d * 1000)) q'
    ]

-- `enqueue`; `uuid` is what `crypto.randomUUID` returns.
unfoldable pub enqueue :
    {T : Type 0} → ℕ → String → T → EnqueueOptions → Queue T → Queue T × Enqueued
enqueue now uuid item o q =
    if leb q.config.max_queue_size (length q.jobs)
    then (q, queue_is_full)
    else elim (duplicate_of o q.jobs) [
      | some id ↦ (q, returned id)
      | none ↦ let job = new_job now uuid item o q in (add_job now o job q, returned job.id)
    ]

unfoldable pub new_group : ConsumerGroupState
new_group = record { consumers = []; next_consumer_index = 0; processed_job_ids = [] }

-- `consume`.
unfoldable pub consume : {T : Type 0} → ℕ → String → String → Option ℕ → Queue T → Queue T
unfolding new_group
consume now uuid consumer_group max_retries q =
    let g = get_or_else (get consumer_group q.groups) new_group in
    let c : Consumer = record { id = uuid; max_retries = get_or_else max_retries 3 } in
    let q' = record q {
      groups = set consumer_group (record g { consumers = g.consumers ++ c ∷ [] }) q.groups;
    } in
    if q'.stopped then q' else process_next now q'

-- The callback of `scheduleDelayed`.
unfoldable pub expire : {T : Type 0} → ℕ → Queue T → Queue T
expire now q = if q.stopped then q else process_next now q

-- The `i`-th timer goes off, if it is due.
unfoldable pub fire : {T : Type 0} → ℕ → ℕ → Queue T → Queue T
fire now i q = elim (get_elem? i q.timers) [
  | none ↦ q
  | some due ↦ if leb due now then expire now (record q { timers = remove_at i q.timers }) else q
]

-- The callback of the heartbeat's interval.
unfoldable pub heartbeat : {T : Type 0} → ℕ → Queue T → Queue T
heartbeat now q =
    if not q.stopped && (ltb 0 (length q.jobs) && ltb 0 (length q.groups))
    then process_next now q
    else q

-- `stop` up to its wait.
unfoldable pub stop : {T : Type 0} → Queue T → Queue T
stop q = record q { stopped = true }

-- The condition of the wait in `stop`.
unfoldable pub drained : {T : Type 0} → Queue T → Bool
drained q = q.processing == 0

pub record QueueStats : Type 0 where
  pub pending : ℕ
  pub processing : ℕ
  pub completed : ℕ
  pub failed : ℕ
  pub consumer_groups : ℕ

unfoldable pub get_stats : {T : Type 0} → Queue T → QueueStats
get_stats q = record {
  pending = length q.jobs;
  processing = q.processing;
  completed = q.completed;
  failed = q.failed;
  consumer_groups = length q.groups;
}

-- The calls of the queue's methods, and the callbacks of its timers and promises, that the event
-- loop runs one at a time. `started` and `settled` are the two halves of `processJob`.
pub data Event (T : Type 0) : Type 0 where
  enqueued : (now : ℕ) (uuid : String) (item : T) (o : EnqueueOptions) → Event T
  consumed : (now : ℕ) (uuid group : String) (max_retries : Option ℕ) → Event T
  started : Event T
  settled : (now i : ℕ) (succeeded : Bool) → Event T
  fired : (now i : ℕ) → Event T
  beat : (now : ℕ) → Event T
  ended : Event T

unfoldable pub step : {T : Type 0} → Event T → Queue T → Queue T
step (enqueued now uuid item o) q = (enqueue now uuid item o q).0
step (consumed now uuid group max_retries) q = consume now uuid group max_retries q
step started q = start q
step (settled now i succeeded) q = settle now i succeeded q
step (fired now i) q = fire now i q
step (beat now) q = heartbeat now q
step ended q = stop q

unfoldable pub run : {T : Type 0} → List (Event T) → Queue T → Queue T
run [] q = q
run (e ∷ es) q = run es (step e q)
