-- ===== src/Integration/Attempts.antt =====
-- integration-backend/src/delivery-coordinator.ts: the bound on the attempts of a delivery, their
-- delays, and what the code sets in a log.
use checkmate.Prelude.{
  ℕ, zero, suc, ◌+◌, ◌-◌, String, Bool, true, false, List, [], ◌∷◌, Option, none, some, ◌==◌,
  if◌then◌else◌, get_or_else,
}
use checkmate.Integration.Tables.{
  DeliveryStatus, pending, success, failed, retrying, DeliveryLog, UndefinedWrite,
}

abbrev pub max_retries : ℕ
max_retries = 3

-- Milliseconds.
abbrev pub retry_delays : List ℕ
retry_delays = 60000 ∷ 300000 ∷ 900000 ∷ []

abbrev pub get_elem? : List ℕ → ℕ → Option ℕ
get_elem? [] i = none
get_elem? (x ∷ xs) zero = some x
get_elem? (x ∷ xs) (suc i) = get_elem? xs i

-- `RETRY_DELAYS.at(-1)`.
abbrev pub last_delay : ℕ
last_delay = 900000

-- `RETRY_DELAYS.at(attempts - 1) ?? RETRY_DELAYS.at(-1) ?? RETRY_DELAYS[0]`; without attempts the first
-- index is -1 too.
unfoldable pub retry_delay : ℕ → ℕ
retry_delay attempts =
    if attempts == 0
    then last_delay
    else get_or_else (get_elem? retry_delays (attempts - 1)) last_delay

unfoldable pub begin_attempt : ℕ → DeliveryLog → DeliveryLog
begin_attempt now log = record log {
  status = retrying;
  attempts = log.attempts + 1;
  last_attempt_at = some now;
}

unfoldable pub mark_retrying : String → ℕ → DeliveryLog → DeliveryLog
mark_retrying message next_retry_at log = record log {
  status = retrying;
  error_message = some message;
  next_retry_at = some next_retry_at;
}

abbrev pub attempts_of : Option DeliveryLog → ℕ
attempts_of none = 1
attempts_of (some log) = log.attempts

abbrev pub is_failed : DeliveryStatus → Bool
is_failed pending = false
is_failed success = false
is_failed failed = true
is_failed retrying = false

module _ (undefined_write : UndefinedWrite) where
  unfoldable pub mark_successful : Option String → DeliveryLog → DeliveryLog
  mark_successful external_id log = record log {
    status = success;
    external_id = elim external_id [
      | none ↦ undefined_write.text_column log.external_id
      | some e ↦ some e
    ];
    error_message = undefined_write.text_column log.error_message;
    next_retry_at = undefined_write.time_column log.next_retry_at;
  }

  unfoldable pub mark_failed : String → DeliveryLog → DeliveryLog
  mark_failed message log = record log {
    status = failed;
    error_message = some message;
    next_retry_at = undefined_write.time_column log.next_retry_at;
  }

  unfoldable pub reset_log : DeliveryLog → DeliveryLog
  reset_log log = record log {
    status = pending;
    attempts = 0;
    error_message = undefined_write.text_column log.error_message;
    next_retry_at = undefined_write.time_column log.next_retry_at;
  }
