-- ===== src/Queue/Memory/Processing.antt =====
-- memory-queue.ts: `processNext` and `processJob`.
use checkmate.Prelude.{
  ℕ, zero, suc, ◌+◌, ◌-◌, ◌*◌, ◌%◌, Bool, true, false, not, ◌&&◌, ◌||◌, List, [], ◌∷◌, ◌++◌, Option,
  none, some, String, length, filter, every, find, leb, ltb, ◌==◌, if◌then◌else◌,
}
use checkmate.Prelude.Text.{◌===◌}
use checkmate.Prelude.Map.{values}
use checkmate.Queue.Memory.State.{
  InternalQueueJob, Consumer, ConsumerGroupState, Run, Queue, has_processed, insert_job, acquire,
  release, get_elem?, remove_at,
}

-- The round robin: the consumer at the group's index, modulo their number.
unfoldable pub select_consumer : ConsumerGroupState → Option Consumer
unfolding get_elem?
select_consumer g = elim g.consumers [
  | [] ↦ none
  | c ∷ cs ↦ get_elem? (g.next_consumer_index % length (c ∷ cs)) (c ∷ cs)
]

-- The job that a group takes next.
unfoldable pub next_job :
    {T : Type 0} → ℕ → List (InternalQueueJob T) → ConsumerGroupState → Option (InternalQueueJob T)
unfolding has_processed
next_job now jobs g = find (λ j. not (has_processed g j.id) && leb j.available_at now) jobs

unfoldable pub take_job :
    {T : Type 0} → InternalQueueJob T → ConsumerGroupState → ConsumerGroupState
take_job job g = record g {
  next_consumer_index = suc g.next_consumer_index;
  processed_job_ids = job.id ∷ g.processed_job_ids;
}

-- The body of the loop of `processNext` for one group: its new state and the run it starts.
unfoldable pub dispatch :
    {T : Type 0}
    → ℕ
    → List (InternalQueueJob T)
    → String
    → ConsumerGroupState
    → ConsumerGroupState × Option (Run T)
dispatch now jobs group_id g = elim (select_consumer g) [
  | none ↦ (g, none)
  | some c ↦ elim (next_job now jobs g) [
    | none ↦ (g, none)
    | some job ↦ (take_job job g, some (record { job = job; consumer = c; group_id = group_id }))
  ]
]

-- The loop over the groups.
unfoldable pub dispatch_all :
    {T : Type 0}
    → ℕ
    → List (InternalQueueJob T)
    → List (String × ConsumerGroupState)
    → List (String × ConsumerGroupState) × List (Run T)
dispatch_all now jobs [] = ([], [])
dispatch_all now jobs ((group_id, g) ∷ groups) =
    let (g', started) = dispatch now jobs group_id g in
    let (groups', runs) = dispatch_all now jobs groups in
    ((group_id, g') ∷ groups', elim started [ none ↦ runs | some r ↦ r ∷ runs ])

unfoldable pub acquire_all : {T : Type 0} → List (Run T) → Queue T → Queue T
acquire_all [] q = q
acquire_all (r ∷ rs) q = acquire_all rs (acquire r q)

unfoldable pub fully_processed :
    {T : Type 0} → List (String × ConsumerGroupState) → InternalQueueJob T → Bool
fully_processed groups job = every (λ g. has_processed g job.id) (values groups)

-- `processNext` at the time `now`.
unfoldable pub process_next : {T : Type 0} → ℕ → Queue T → Queue T
process_next now q =
    if length q.jobs == 0 || length q.groups == 0
    then q
    else let (groups, runs) = dispatch_all now q.jobs q.groups in
      acquire_all runs
        (record q { groups = groups; jobs = filter (λ j. not (fully_processed groups j)) q.jobs })

-- A run that holds a permit goes on: `this.processing++`, and its handler is called.
unfoldable pub start : {T : Type 0} → Queue T → Queue T
start q = elim q.granted [
  | [] ↦ q
  | r ∷ rs ↦ record q { granted = rs; running = q.running ++ r ∷ []; processing = q.processing + 1 }
]

unfoldable pub pow2 : ℕ → ℕ
pow2 zero = 1
pow2 (suc n) = 2 * pow2 n

unfoldable pub drop_id : String → List String → List String
drop_id id ids = filter (λ j. not (j === id)) ids

unfoldable pub forget_job :
    String → String → List (String × ConsumerGroupState) → List (String × ConsumerGroupState)
unfolding drop_id
forget_job group_id id [] = []
forget_job group_id id ((k, g) ∷ groups) =
    let rest = forget_job group_id id groups in
    if k === group_id
    then (k, record g { processed_job_ids = drop_id id g.processed_job_ids }) ∷ groups
    else (k, g) ∷ rest

-- `scheduleDelayed`.
unfoldable pub schedule_delayed : {T : Type 0} → ℕ → Queue T → Queue T
schedule_delayed due q = record q { timers = q.timers ++ due ∷ [] }

unfoldable pub succeed : {T : Type 0} → Queue T → Queue T
succeed q = record q { completed = q.completed + 1 }

-- The `catch` of `processJob` where the job has attempts left.
unfoldable pub retry : {T : Type 0} → ℕ → Run T → Queue T → Queue T
unfolding insert_job forget_job schedule_delayed pow2
retry now r q =
    let tries = suc (q.attempts r.job.ref) in
    schedule_delayed (now + q.config.scale (pow2 tries * 1000)) (record q {
      attempts = λ o. if o == r.job.ref then tries else q.attempts o;
      groups = forget_job r.group_id r.job.id q.groups;
      jobs = insert_job r.job q.jobs;
    })

unfoldable pub fail : {T : Type 0} → Queue T → Queue T
fail q = record q { failed = q.failed + 1 }

-- The `finally` of `processJob`.
unfoldable pub finish : {T : Type 0} → ℕ → Bool → Queue T → Queue T
finish now is_retrying q =
    let q' = release (record q { processing = q.processing - 1 }) in
    if not is_retrying && (ltb 0 (length q'.jobs) && not q'.stopped)
    then process_next now q'
    else q'

-- The handler of the `i`-th running job ends at the time `now`, with success or by throwing.
unfoldable pub settle : {T : Type 0} → ℕ → ℕ → Bool → Queue T → Queue T
settle now i succeeded q = elim (get_elem? i q.running) [
  | none ↦ q
  | some r ↦
      let q' = record q { running = remove_at i q.running } in
      if succeeded
      then finish now false (succeed q')
      else if ltb (q'.attempts r.job.ref) r.consumer.max_retries
      then finish now true (retry now r q')
      else finish now false (fail q')
]
