-- ===== src/Queue/Memory/State.antt =====
-- memory-queue.ts: the queue's state, its list of jobs and its semaphore.
--
-- A job is an object that the list of jobs and the runs share: its counter of attempts is kept in
-- `attempts` under the object's number `ref`. A call of `processJob` is a `Run`. It stands in
-- `waiting` while it waits in the semaphore, in `granted` when it holds a permit and has not gone on
-- yet, and in `running` while its handler works. Priorities and times are natural numbers; the
-- product with `delayMultiplier` is the function `scale`.
use checkmate.Prelude.{
  ℕ, zero, suc, ◌+◌, ◌-◌, Bool, false, List, [], ◌∷◌, ◌++◌, Option, none, some, String, any, ltb,
  if◌then◌else◌,
}
use checkmate.Prelude.Text.{◌===◌}

pub record InternalQueueJob (T : Type 0) : Type 0 where
  pub ref : ℕ
  pub id : String
  pub payload : T
  pub priority : ℕ
  pub timestamp : ℕ
  pub available_at : ℕ

-- A consumer of a group; what its handler does is an input of the step `settle`.
pub record Consumer : Type 0 where
  pub id : String
  pub max_retries : ℕ

pub record ConsumerGroupState : Type 0 where
  pub consumers : List Consumer
  pub next_consumer_index : ℕ
  pub processed_job_ids : List String

-- A call of `processJob`.
pub record Run (T : Type 0) : Type 0 where
  pub job : InternalQueueJob T
  pub consumer : Consumer
  pub group_id : String

pub record QueueConfig : Type 0 where
  pub concurrency : ℕ
  pub max_queue_size : ℕ
  pub scale : ℕ → ℕ

pub record Queue (T : Type 0) : Type 0 where
  pub config : QueueConfig
  pub jobs : List (InternalQueueJob T)
  pub groups : List (String × ConsumerGroupState)
  pub permits : ℕ
  pub waiting : List (Run T)
  pub granted : List (Run T)
  pub running : List (Run T)
  pub stopped : Bool
  pub processing : ℕ
  pub completed : ℕ
  pub failed : ℕ
  pub attempts : ℕ → ℕ
  pub next_ref : ℕ
  -- The times at which the delayed calls of `processNext` are due.
  pub timers : List ℕ

unfoldable pub new_queue : {T : Type 0} → QueueConfig → Queue T
new_queue c = record {
  config = c;
  jobs = [];
  groups = [];
  permits = c.concurrency;
  waiting = [];
  granted = [];
  running = [];
  stopped = false;
  processing = 0;
  completed = 0;
  failed = 0;
  attempts = λ r. 0;
  next_ref = 0;
  timers = [];
}

unfoldable pub has_processed : ConsumerGroupState → String → Bool
has_processed g id = any (λ j. j === id) g.processed_job_ids

-- `findIndex` for the first job of a lower priority, and `splice` or `push`.
unfoldable pub insert_job :
    {T : Type 0} → InternalQueueJob T → List (InternalQueueJob T) → List (InternalQueueJob T)
insert_job job [] = job ∷ []
insert_job job (existing ∷ jobs) =
    if ltb existing.priority job.priority
    then job ∷ existing ∷ jobs
    else existing ∷ insert_job job jobs

-- `Semaphore.acquire`, called by a run.
unfoldable pub acquire : {T : Type 0} → Run T → Queue T → Queue T
acquire r q =
    if ltb 0 q.permits
    then record q { permits = q.permits - 1; granted = q.granted ++ r ∷ [] }
    else record q { waiting = q.waiting ++ r ∷ [] }

-- `Semaphore.release`.
unfoldable pub release : {T : Type 0} → Queue T → Queue T
release q = elim q.waiting [
  | [] ↦ record q { permits = q.permits + 1 }
  | r ∷ rs ↦ record q { waiting = rs; granted = q.granted ++ r ∷ [] }
]

-- The item at an index.
unfoldable pub get_elem? : {A : Type 0} → ℕ → List A → Option A
get_elem? n [] = none
get_elem? zero (x ∷ xs) = some x
get_elem? (suc n) (x ∷ xs) = get_elem? n xs

-- The list without the item at an index.
unfoldable pub remove_at : {A : Type 0} → ℕ → List A → List A
remove_at n [] = []
remove_at zero (x ∷ xs) = xs
remove_at (suc n) (x ∷ xs) = x ∷ remove_at n xs
