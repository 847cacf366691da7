-- ===== src/Integration/Delivery.antt =====
-- integration-backend/src/delivery-coordinator.ts: events are routed to subscriptions, and the
-- deliveries are made by a worker of a queue.
--
-- The providers that are registered are a function from ids. A provider's answer is an argument of the
-- operations, and so is `accepts`: whether the queue takes the job of a log, or `enqueue` throws, as it
-- does where the queue is full, stopped or not there yet. Broadcasts and queries of the database do not
-- fail, and log messages are left out.
pub mod Matching
pub mod Routing
pub mod Counting
pub mod Changes
pub mod Worker
pub mod Consistent
pub mod Placed
pub mod Reached
pub mod Owned
pub mod Effort
pub mod Draining
mod Tests
use checkmate.Prelude.{
  ℕ, zero, suc, ◌+◌, ◌-◌, ◌/◌, String, Bool, true, false, not, ◌&&◌, List, [], ◌∷◌, ◌++◌, Option,
  none, some, filter, find, ltb, ◌==◌, if◌then◌else◌, get_or_else,
}
use checkmate.Prelude.Text.{◌===◌, includes}
use checkmate.Access.Value.{Value, Fields, get_field}
use checkmate.Integration.Attempts.{
  max_retries, retry_delays, get_elem?, last_delay, retry_delay, begin_attempt, mark_retrying,
  attempts_of, is_failed, mark_successful, mark_failed, reset_log,
}
use checkmate.Integration.Subscriptions.{find_matching_subscriptions}
use checkmate.Integration.Tables.{
  Subscription, DeliveryStatus, pending, success, failed, retrying, DeliveryLog, Provider,
  EventPayload, DeliveryJobData, UndefinedWrite, update_log, find_log,
}

-- What a provider does with a delivery: it succeeds, perhaps with an id of the target system, it
-- reports a failure, perhaps with a message, or it throws.
pub data DeliveryOutcome : Type 0 where
  delivered : Option String → DeliveryOutcome
  refused : Option String → DeliveryOutcome
  thrown : String → DeliveryOutcome

-- `INTEGRATION_DELIVERY_COMPLETED`, with the id of the log, whether it succeeded, and the external id
-- or the message.
pub data Signal : Type 0 where
  delivery_succeeded : ℕ → Option String → Signal
  delivery_failed : ℕ → String → Signal

-- A job of the queue, with its start delay in seconds and the attempts that the queue has counted.
pub record QueuedJob (C : Type 0) : Type 0 where
  pub job : DeliveryJobData C
  pub start_delay : ℕ
  pub attempts : ℕ

-- `lost` is not stored anywhere: it has the ids of the logs whose job the queue did not take or gave
-- up, so that no job of them waits.
pub record Integration (C : Type 0) : Type 0 where
  pub subscriptions : List (Subscription C)
  pub logs : List DeliveryLog
  pub waiting : List (QueuedJob C)
  pub lost : List ℕ
  pub signals : List Signal

-- `queue.enqueue`, where the queue takes the job.
abbrev pub enqueued : {C : Type 0} → DeliveryJobData C → ℕ → List (QueuedJob C) → List (QueuedJob C)
enqueued job start_delay jobs =
    jobs ++ record { job = job; start_delay = start_delay; attempts = 0 } ∷ []

abbrev pub retry_job : {C : Type 0} → ℕ → ℕ → DeliveryLog → Subscription C → DeliveryJobData C
retry_job now log_id log sub = record {
  log_id = log_id;
  subscription_id = sub.id;
  subscription_name = sub.name;
  provider_id = sub.provider_id;
  provider_config = sub.provider_config;
  event_id = log.event_type;
  payload = log.event_payload;
  timestamp = now;
}

module _ (undefined_write : UndefinedWrite) where
  module _ {C : Type 0} where
    -- `if (result.success)`.
    unfoldable pub complete_delivery :
        Option String → DeliveryJobData C → Integration C → Integration C
    complete_delivery external_id job s = record s {
      logs = update_log job.log_id (mark_successful undefined_write external_id) s.logs;
      signals = s.signals ++ delivery_succeeded job.log_id external_id ∷ [];
    }

    -- The `catch`; with `false` where the queue does not take the job again.
    unfoldable pub fail_delivery :
        (ℕ → Bool) → ℕ → String → DeliveryJobData C → Integration C → Integration C × Bool
    fail_delivery accepts now message job s =
        let attempts = attempts_of (find_log job.log_id s.logs) in
        if ltb attempts max_retries
        then (let logs =
              update_log job.log_id (mark_retrying message (now + retry_delay attempts)) s.logs in
            if accepts job.log_id
            then (
              record s {
                logs = logs;
                waiting = enqueued job (retry_delay attempts / 1000) s.waiting;
              },
              true,
            )
            else (record s { logs = logs }, false))
        else (
          record s {
            logs = update_log job.log_id (mark_failed undefined_write message) s.logs;
            signals = s.signals ++ delivery_failed job.log_id message ∷ [];
          },
          true,
        )

    abbrev pub settle_delivery :
        (ℕ → Bool) → ℕ → DeliveryOutcome → DeliveryJobData C → Integration C → Integration C × Bool
    settle_delivery accepts now (delivered external_id) job s =
        (complete_delivery external_id job s, true)
    settle_delivery accepts now (refused error) job s =
        fail_delivery accepts now (get_or_else error "Delivery failed without error message") job s
    settle_delivery accepts now (thrown message) job s = fail_delivery accepts now message job s

    -- With `false` where it throws.
    unfoldable pub execute_delivery :
        (String → Option Provider)
        → (ℕ → Bool)
        → ℕ
        → DeliveryOutcome
        → DeliveryJobData C
        → Integration C
        → Integration C × Bool
    execute_delivery get_provider accepts now outcome job s = elim (get_provider job.provider_id) [
      | none ↦ (s, false)
      | some provider ↦
          settle_delivery accepts now outcome job
            (record s { logs = update_log job.log_id (begin_attempt now) s.logs })
    ]

    -- `retryDelivery`, with its answer's `success` and `message`, or `none` where it throws.
    unfoldable pub retry_delivery :
        (ℕ → Bool) → ℕ → ℕ → Integration C → Integration C × Option (Bool × String)
    retry_delivery accepts now log_id s = elim (find_log log_id s.logs) [
      | none ↦ (s, some (false, "Delivery log not found"))
      | some log ↦
          if not (is_failed log.status)
          then (s, some (false, "Can only retry failed deliveries"))
          else elim (find (λ (sub : Subscription C). sub.id === log.subscription_id)
              s.subscriptions) [
                | none ↦ (s, some (false, "Subscription not found"))
                | some sub ↦
                    let logs = update_log log_id (reset_log undefined_write) s.logs in
                    if accepts log_id
                    then (
                      record s {
                        logs = logs;
                        waiting = enqueued (retry_job now log_id log sub) 0 s.waiting;
                      },
                      some (true, "Delivery re-queued"),
                    )
                    else (record s { logs = logs; lost = s.lost ++ log_id ∷ [] }, none)
              ]
    ]

module _ {C : Type 0} where
  abbrev pub new_log : ℕ → EventPayload → Subscription C → DeliveryLog
  new_log id event sub = record {
    id = id;
    subscription_id = sub.id;
    event_type = event.event_id;
    event_payload = event.payload;
    status = pending;
    attempts = 0;
    last_attempt_at = none;
    next_retry_at = none;
    external_id = none;
    error_message = none;
  }

  abbrev pub new_delivery_job : ℕ → EventPayload → Subscription C → DeliveryJobData C
  new_delivery_job log_id event sub = record {
    log_id = log_id;
    subscription_id = sub.id;
    subscription_name = sub.name;
    provider_id = sub.provider_id;
    provider_config = sub.provider_config;
    event_id = event.event_id;
    payload = event.payload;
    timestamp = event.timestamp;
  }

  -- The loop over the matching subscriptions; `new_id` is `randomUUID`. With `false` where the queue
  -- does not take a job, which ends the loop.
  unfoldable pub queue_deliveries :
      (ℕ → Bool)
      → (List DeliveryLog → ℕ)
      → EventPayload
      → List (Subscription C)
      → Integration C
      → Integration C × Bool
  queue_deliveries accepts new_id event [] s = (s, true)
  queue_deliveries accepts new_id event (sub ∷ subscriptions) s =
      let log_id = new_id s.logs in
      let logs = s.logs ++ new_log log_id event sub ∷ [] in
      let rest = queue_deliveries accepts new_id event subscriptions (record s {
        logs = logs;
        waiting = enqueued (new_delivery_job log_id event sub) 0 s.waiting;
      }) in
      if accepts log_id
      then rest
      else (record s { logs = logs; lost = s.lost ++ log_id ∷ [] }, false)

  unfoldable pub route_event :
      (String → Option Provider)
      → (ℕ → Bool)
      → (List DeliveryLog → ℕ)
      → EventPayload
      → Integration C
      → Integration C × Bool
  route_event get_provider accepts new_id event s =
      queue_deliveries accepts new_id event
        (find_matching_subscriptions get_provider event.event_id event.payload s.subscriptions) s
