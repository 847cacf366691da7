-- ===== src/Integration/Delivery/Tests.antt =====
-- One event for two subscriptions of three, its deliveries, and the jobs that the queue loses.
use checkmate.Prelude.{
  ℕ, zero, suc, ◌+◌, ◌<◌, ◌⊎◌, In, ◌≡◌, ◌==◌, refl, String, Bool, true, false, List, [], ◌∷◌,
  Option, none, some, All, arith, map, if◌then◌else◌,
}
use checkmate.Prelude.Text.{◌===◌}
use checkmate.Access.Value.{Value, Fields, get_field}
use checkmate.Integration.Tables.{
  Subscription, DeliveryLog, Provider, EventPayload, UndefinedWrite, update_log,
}
use checkmate.Integration.Delivery.{
  DeliveryOutcome, delivered, refused, thrown, QueuedJob, Integration, complete_delivery,
  fail_delivery, execute_delivery, retry_delivery, queue_deliveries, route_event,
}
use checkmate.Integration.Attempts.{
  retry_delay, begin_attempt, mark_successful, mark_retrying, mark_failed, reset_log,
}
use checkmate.Integration.Subscriptions.{find_matching_subscriptions}
use checkmate.Integration.Delivery.Worker.{
  Turn, give_back, run_job, work, DeliveryEvent, emitted, worked, delivery_step, deliveries_after,
}
use checkmate.Integration.Delivery.Counting.{total_by, is_row, is_open}
use checkmate.Integration.Delivery.Matching.{IsSelection, Matches}
use checkmate.Integration.Delivery.Routing.{IsRouted, event-IsRouted}
use checkmate.Integration.Delivery.Placed.{IsFresh}
use checkmate.Integration.Delivery.Reached.{no_deliveries}
use checkmate.Integration.Delivery.Owned.{IsOwned, deliveries-IsOwned}
use checkmate.Integration.Delivery.Draining.{IsClosed, IsWilling, work_all, deliveries_end}

unit : Unit {0}
unfolding update_log get_field retry_delay begin_attempt mark_successful mark_retrying mark_failed
    reset_log complete_delivery fail_delivery execute_delivery retry_delivery
    find_matching_subscriptions queue_deliveries route_event give_back run_job work delivery_step
unit = tt

-- The database leaves a column that is set to `undefined`.
abbrev leaves : UndefinedWrite
leaves = record { text_column = λ t. t; time_column = λ t. t }

abbrev providers : String → Option Provider
providers id = if id === "hooks.webhook" then some (record { supported_events = none }) else none

abbrev highest : List DeliveryLog → ℕ
highest [] = 0
highest (log ∷ logs) = log.id + highest logs

abbrev new_id : List DeliveryLog → ℕ
new_id logs = highest logs + 1

above : (k : ℕ) (logs : List DeliveryLog) → highest logs < k → total_by (is_row k) logs ≡ 0
above k [] h = refl
above k (log ∷ logs) h = ground (arith, above k logs)

new_id-IsFresh : IsFresh new_id
new_id-IsFresh logs = above (new_id logs) logs (omega arith)

abbrev subscription : String → Option (List String) → Subscription Unit
subscription id systems = record {
  id = id;
  name = id;
  provider_id = "hooks.webhook";
  provider_config = tt;
  event_id = "incident.created";
  system_filter = systems;
  enabled = true;
}

abbrev subscriptions : List (Subscription Unit)
subscriptions =
    subscription "all" none
    ∷ subscription "mail" (some ("mail" ∷ []))
    ∷ subscription "web" (some ("web" ∷ []))
    ∷ []

abbrev event : EventPayload
event = record {
  event_id = "incident.created";
  payload = Fields.field "systemId" (Value.str "web") Fields.end;
  timestamp = 5;
}

abbrev takes_all : ℕ → Bool
takes_all id = true

-- The queue takes the job of the first log only.
abbrev takes_one : ℕ → Bool
takes_one id = id == 1

abbrev turn : ℕ → ℕ → DeliveryOutcome → Turn
turn now place outcome = record {
  now = now;
  place = place;
  outcome = outcome;
  get_provider = providers;
  accepts = takes_all;
}

abbrev history : List DeliveryEvent
history =
    emitted providers takes_all event
    ∷ worked (turn 7 1 (refused none))
    ∷ worked (turn 9 0 (delivered (some "X-1")))
    ∷ []

abbrev before : Integration Unit
before = no_deliveries subscriptions

abbrev after : Integration Unit
after = deliveries_after leaves new_id history before

two_deliveries :
    map
      (λ (queued : QueuedJob Unit). queued.job.subscription_id)
      (route_event providers takes_all new_id event before).0.waiting
    ≡ "all" ∷ "web" ∷ []
unfolding unit
two_deliveries = refl

-- The first delivery is made; the second one waits for a minute.
one_waits :
    map {B = String × ℕ}
      (λ (queued : QueuedJob Unit). (queued.job.subscription_id, queued.start_delay))
      after.waiting
    ≡ ("web", 60) ∷ []
unfolding unit
one_waits = refl

event-IsRouted_example :
    let result = route_event providers takes_one new_id event before in
    (found : List (Subscription Unit)) × IsSelection
      (Matches providers event)
      before.subscriptions
      found
    × IsRouted takes_one event found before result.0 result.1
event-IsRouted_example = event-IsRouted providers takes_one new_id event before

deliveries-IsOwned_example : All (IsOwned after) after.logs
deliveries-IsOwned_example = deliveries-IsOwned leaves new_id new_id-IsFresh subscriptions history

abbrev quiet : ℕ → List Turn
quiet zero = []
quiet (suc n) = turn 500000 0 (delivered none) ∷ quiet n

-- One more attempt of the second delivery fails, the next one fails for good, and nothing is left to
-- do at the others.
abbrev turns : List Turn
turns = turn 70000 0 (thrown "timeout") ∷ turn 400000 3 (refused (some "busy")) ∷ quiet 10

willing : (id : ℕ) → takes_all id ≡ true
willing id = refl

quiet-IsWilling : (n : ℕ) → All (IsWilling after) (quiet n)
unfolding unit
quiet-IsWilling zero = tt
quiet-IsWilling (suc n) = ((willing, (refl, tt)), quiet-IsWilling n)

deliveries_end_example :
    ((work_all leaves turns after).waiting ≡ [])
    × All (λ log. IsClosed log ⊎ In log.id after.lost) (work_all leaves turns after).logs
unfolding unit
deliveries_end_example =
    deliveries_end leaves new_id new_id-IsFresh subscriptions history turns
      ((willing, (refl, tt)), ((willing, (refl, tt)), quiet-IsWilling 10)) (omega arith)

-- The delivery fails for good; its message stays when it is asked for again, since the column is set to
-- `undefined`.
abbrev failed_then_retried : Integration Unit
failed_then_retried = (retry_delivery leaves takes_all 500000 2 (work_all leaves turns after)).0

message_stays :
    map (λ (log : DeliveryLog). log.error_message) failed_then_retried.logs
    ≡ none ∷ some "busy" ∷ []
unfolding unit
message_stays = refl

-- The queue does not take the second job: its log stays pending, no job of it waits, and a retry of it
-- is refused.
abbrev half_routed : Integration Unit
half_routed = (route_event providers takes_one new_id event before).0

second_is_lost :
    (half_routed.lost ≡ 2 ∷ [])
    × (map (λ (log : DeliveryLog). is_open log.status) half_routed.logs ≡ true ∷ true ∷ [])
    × ((retry_delivery leaves takes_all 9 2 half_routed).1
        ≡ some (false, "Can only retry failed deliveries"))
unfolding unit
second_is_lost = (refl, refl, refl)

-- A job whose provider is not registered is given up after four runs.
abbrev missing : Turn
missing = record {
  now = 9;
  place = 0;
  outcome = thrown "";
  get_provider = λ id. none;
  accepts = takes_all;
}

given_up :
    ((work_all leaves (missing ∷ missing ∷ missing ∷ missing ∷ []) after).lost ≡ 2 ∷ [])
    × ((work_all leaves (missing ∷ missing ∷ missing ∷ []) after).lost ≡ [])
unfolding unit
given_up = (refl, refl)
