-- ===== src/Health/Evaluator/Window.antt =====
-- state-evaluator.ts, window mode: the verdict is a monotone function of a bounded history.
use checkmate.Prelude.{
  ℕ, zero, suc, ◌≤◌, ◌≡◌, refl, true, List, [], ◌∷◌, ◌++◌, ap, arith, length, take, filter,
}
use checkmate.Health.Evaluator.{
  Status, healthy, unhealthy, degraded, is_healthy, RunForEvaluation, WindowThresholds, is_failure,
  evaluate_window,
}

abbrev pub severity : Status → ℕ
severity healthy = 0
severity degraded = 1
severity unhealthy = 2

-- Two histories run by run: where the second is healthy, so is the first.
abbrev pub AtMost : List RunForEvaluation → List RunForEvaluation → Type 0
AtMost [] ys = Unit
AtMost (x ∷ xs) [] = ⊥
AtMost (x ∷ xs) (y ∷ ys) = (is_healthy y.status ≡ true → is_healthy x.status ≡ true) × AtMost xs ys

failures_mono :
    (n : ℕ) (xs ys : List RunForEvaluation)
    → AtMost xs ys
    → length (filter is_failure (take n xs)) ≤ length (filter is_failure (take n ys))
failures_mono zero xs ys h = omega arith
failures_mono (suc n) [] ys h = omega arith
failures_mono (suc n) (x ∷ xs) [] h = absurd h
failures_mono (suc n) (x ∷ xs) (y ∷ ys) (h, hs) = ground (arith, failures_mono n xs ys hs)

-- Whatever the thresholds: a history that is at least as long as another, and fails wherever the
-- other one does, has a verdict that is at least as severe.
pub evaluate_window_mono :
    (xs ys : List RunForEvaluation) (t : WindowThresholds)
    → AtMost xs ys
    → severity (evaluate_window xs t) ≤ severity (evaluate_window ys t)
unfolding evaluate_window
evaluate_window_mono xs ys t h = ground (arith, failures_mono t.window_size xs ys h)

take-append :
    (n : ℕ) (xs ys zs : List RunForEvaluation)
    → n ≤ length xs
    → take n (xs ++ ys) ≡ take n (xs ++ zs)
take-append zero xs ys zs h = refl
take-append (suc n) [] ys zs h = absurd (omega arith)
take-append (suc n) (x ∷ xs) ys zs h = ap (λ l. x ∷ l) (take-append n xs ys zs (omega arith))

-- Runs beyond the window do not matter.
pub evaluate_window_bounded :
    (recent older older' : List RunForEvaluation) (t : WindowThresholds)
    → t.window_size ≤ length recent
    → evaluate_window (recent ++ older) t ≡ evaluate_window (recent ++ older') t
unfolding evaluate_window
evaluate_window_bounded recent older older' t h =
    ground (arith, take-append t.window_size recent older older' h)
