-- ===== src/Health/Evaluator.antt =====
-- healthcheck-common/src/schemas.ts (the thresholds) and healthcheck-backend/src/state-evaluator.ts.
pub mod Laws
pub mod Window
mod Tests
use checkmate.Prelude.{
  ℕ, suc, ◌+◌, String, Bool, true, false, not, List, [], ◌∷◌, Option, none, some, leb, ◌==◌,
  if◌then◌else◌, length, take, filter, get_or_else,
}

-- `HealthCheckStatusSchema`.
pub data Status : Type 0 where
  healthy unhealthy degraded : Status

abbrev pub is_healthy : Status → Bool
is_healthy healthy = true
is_healthy unhealthy = false
is_healthy degraded = false

-- `RunForEvaluation`; the timestamp in milliseconds.
pub record RunForEvaluation : Type 0 where
  pub status : Status
  pub timestamp : ℕ

-- `ConsecutiveThresholds`: the three nested counts side by side.
pub record ConsecutiveThresholds : Type 0 where
  pub healthy_min_success_count : ℕ
  pub degraded_min_failure_count : ℕ
  pub unhealthy_min_failure_count : ℕ

pub record WindowThresholds : Type 0 where
  pub window_size : ℕ
  pub degraded_min_failure_count : ℕ
  pub unhealthy_min_failure_count : ℕ

-- The union discriminated by `mode`.
pub data StateThresholds : Type 0 where
  consecutive : ConsecutiveThresholds → StateThresholds
  window : WindowThresholds → StateThresholds

unfoldable pub default_state_thresholds : StateThresholds
default_state_thresholds = consecutive (record {
  healthy_min_success_count = 1;
  degraded_min_failure_count = 2;
  unhealthy_min_failure_count = 5;
})

-- The loop of `evaluateConsecutive`: the counters are (consecutiveFailures, consecutiveSuccesses),
-- and a `break` returns them.
pub streak : List RunForEvaluation → ℕ → ℕ → ℕ × ℕ
streak [] failures successes = (failures, successes)
streak (run ∷ runs) failures successes =
    let one_more_success = streak runs failures (suc successes) in
    let one_more_failure = streak runs (suc failures) successes in
    if is_healthy run.status
    then if failures == 0 then one_more_success else (failures, successes)
    else if successes == 0
    then one_more_failure
    else (failures, successes)

-- `runs[0].status` under the caller's guard that there is a run.
abbrev latest_status : List RunForEvaluation → Status
latest_status [] = healthy
latest_status (run ∷ runs) = run.status

pub evaluate_consecutive : List RunForEvaluation → ConsecutiveThresholds → Status
unfolding streak
evaluate_consecutive runs thresholds =
    let (failures, successes) = streak runs 0 0 in
    if leb thresholds.unhealthy_min_failure_count failures
    then unhealthy
    else if leb thresholds.degraded_min_failure_count failures
    then degraded
    else if leb thresholds.healthy_min_success_count successes
    then healthy
    else latest_status runs

abbrev pub is_failure : RunForEvaluation → Bool
is_failure run = not (is_healthy run.status)

pub evaluate_window : List RunForEvaluation → WindowThresholds → Status
evaluate_window runs thresholds =
    let failures = length (filter is_failure (take thresholds.window_size runs)) in
    if leb thresholds.unhealthy_min_failure_count failures
    then unhealthy
    else if leb thresholds.degraded_min_failure_count failures
    then degraded
    else healthy

abbrev evaluate_mode : List RunForEvaluation → StateThresholds → Status
evaluate_mode runs (consecutive thresholds) = evaluate_consecutive runs thresholds
evaluate_mode runs (window thresholds) = evaluate_window runs thresholds

unfoldable pub evaluate_health_status : List RunForEvaluation → Option StateThresholds → Status
unfolding evaluate_consecutive evaluate_window default_state_thresholds
evaluate_health_status runs thresholds =
    if length runs == 0
    then healthy
    else evaluate_mode runs (get_or_else thresholds default_state_thresholds)
