-- ===== src/Integration/Delivery/Worker.antt =====
-- delivery-coordinator.ts: the consumer of `startWorker`, over the retries of the queue
-- (queue-memory-backend/src/memory-queue.ts, `processJob`), and the coordinator's history.
--
-- The queue gives its jobs in any order. Providers and the queue's willingness may change from event to
-- event.
use checkmate.Prelude.{
  ℕ, zero, suc, ◌+◌, String, Bool, List, [], ◌∷◌, ◌++◌, Option, ltb, if◌then◌else◌,
}
use checkmate.Integration.Tables.{DeliveryLog, Provider, EventPayload, UndefinedWrite}
use checkmate.Integration.Delivery.{
  DeliveryOutcome, QueuedJob, Integration, execute_delivery, retry_delivery, route_event,
}

-- An item, and the others: that at a place, or else the last one.
abbrev pub pick : {A : Type 0} → ℕ → A → List A → A × List A
pick zero x xs = (x, xs)
pick (suc i) x [] = (x, [])
pick (suc i) x (y ∷ ys) = let (z, rest) = pick i y ys in (z, x ∷ rest)

-- `maxRetries` of a consumer that sets none, as the worker's.
abbrev pub default_max_retries : ℕ
default_max_retries = 3

-- A turn of the worker: the time, the place of its job in the queue, the provider's answer, the
-- providers that are registered, and the logs whose jobs the queue takes.
pub record Turn : Type 0 where
  pub now : ℕ
  pub place : ℕ
  pub outcome : DeliveryOutcome
  pub get_provider : String → Option Provider
  pub accepts : ℕ → Bool

-- An event is emitted, the worker has a turn, or a retry of a log is asked for.
pub data DeliveryEvent : Type 0 where
  emitted : (String → Option Provider) → (ℕ → Bool) → EventPayload → DeliveryEvent
  worked : Turn → DeliveryEvent
  retry_asked : (ℕ → Bool) → ℕ → ℕ → DeliveryEvent

module _ {C : Type 0} where
  -- The queue's own `catch`, for a job whose run throws: one more attempt, or the end of the job.
  unfoldable pub give_back : QueuedJob C → Integration C → Integration C
  give_back queued s =
      if ltb queued.attempts default_max_retries
      then record s { waiting = s.waiting ++ record queued { attempts = queued.attempts + 1 } ∷ [] }
      else record s { lost = s.lost ++ queued.job.log_id ∷ [] }

module _ {C : Type 0} (undefined_write : UndefinedWrite) where
  unfoldable pub run_job : Turn → QueuedJob C → Integration C → Integration C
  run_job turn queued s =
      let (after, returned) =
        execute_delivery undefined_write turn.get_provider turn.accepts turn.now turn.outcome
          queued.job s in
      if returned then after else give_back queued after

  unfoldable pub work : Turn → Integration C → Integration C
  work turn s = elim s.waiting [
    | [] ↦ s
    | job ∷ jobs ↦
        let (picked, rest) = pick turn.place job jobs in
        run_job turn picked (record s { waiting = rest })
  ]

  module _ (new_id : List DeliveryLog → ℕ) where
    unfoldable pub delivery_step : DeliveryEvent → Integration C → Integration C
    delivery_step (emitted get_provider accepts event) s =
        (route_event get_provider accepts new_id event s).0
    delivery_step (worked turn) s = work turn s
    delivery_step (retry_asked accepts now log_id) s =
        (retry_delivery undefined_write accepts now log_id s).0

    abbrev pub deliveries_after : List DeliveryEvent → Integration C → Integration C
    deliveries_after [] s = s
    deliveries_after (e ∷ events) s = deliveries_after events (delivery_step e s)
