-- ===== src/Integration/Tables.antt =====
-- integration-backend/src/schema.ts and provider-types.ts: subscriptions, delivery logs, providers,
-- and the jobs of delivery-coordinator.ts.
--
-- `C` is the type of provider configurations. Random ids and times are numbers. A payload is an
-- object of Access.Value.
use checkmate.Prelude.{ℕ, String, Bool, List, [], ◌∷◌, Option, if◌then◌else◌, ◌==◌, find}
use checkmate.Access.Value.{Fields}

pub record Subscription (C : Type 0) : Type 0 where
  pub id : String
  pub name : String
  pub provider_id : String
  pub provider_config : C
  pub event_id : String
  pub system_filter : Option (List String)
  pub enabled : Bool

pub data DeliveryStatus : Type 0 where
  pending success failed retrying : DeliveryStatus

pub record DeliveryLog : Type 0 where
  pub id : ℕ
  pub subscription_id : String
  pub event_type : String
  pub event_payload : Fields
  pub status : DeliveryStatus
  pub attempts : ℕ
  pub last_attempt_at : Option ℕ
  pub next_retry_at : Option ℕ
  pub external_id : Option String
  pub error_message : Option String

pub record Provider : Type 0 where
  pub supported_events : Option (List String)

-- `IntegrationEventPayload`.
pub record EventPayload : Type 0 where
  pub event_id : String
  pub payload : Fields
  pub timestamp : ℕ

pub record DeliveryJobData (C : Type 0) : Type 0 where
  pub log_id : ℕ
  pub subscription_id : String
  pub subscription_name : String
  pub provider_id : String
  pub provider_config : C
  pub event_id : String
  pub payload : Fields
  pub timestamp : ℕ

-- What a column holds after a `set` to `undefined`, by what it held: the database library's choice.
pub record UndefinedWrite : Type 0 where
  pub text_column : Option String → Option String
  pub time_column : Option ℕ → Option ℕ

-- `update(deliveryLogs).set(...).where(eq(deliveryLogs.id, id))`.
unfoldable pub update_log : ℕ → (DeliveryLog → DeliveryLog) → List DeliveryLog → List DeliveryLog
update_log id change [] = []
update_log id change (log ∷ logs) =
    (if log.id == id then change log else log) ∷ update_log id change logs

-- The first row of `select().from(deliveryLogs).where(eq(deliveryLogs.id, id))`.
abbrev pub find_log : ℕ → List DeliveryLog → Option DeliveryLog
find_log id logs = find (λ log. log.id == id) logs
