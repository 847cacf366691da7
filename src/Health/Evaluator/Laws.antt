-- ===== src/Health/Evaluator/Laws.antt =====
-- state-evaluator.ts, consecutive mode: what the streak of newest runs decides.
use checkmate.Prelude.{
  ℕ, suc, ◌+◌, ◌≤◌, ◌<◌, ◌≡◌, refl, Bool, true, false, List, [], ◌∷◌, ◌++◌, arith, leb,
  if◌then◌else◌, length, All,
}
use checkmate.Health.Evaluator.{
  Status, healthy, unhealthy, degraded, is_healthy, RunForEvaluation, ConsecutiveThresholds, streak,
  is_failure, evaluate_consecutive,
}

-- The number of newest runs that pass a test, up to the first that does not.
unfoldable pub leading : (RunForEvaluation → Bool) → List RunForEvaluation → ℕ
leading p [] = 0
leading p (run ∷ runs) = if p run then suc (leading p runs) else 0

abbrev pub is_success : RunForEvaluation → Bool
is_success run = is_healthy run.status

-- The bounds of `ConsecutiveThresholdsSchema`.
pub record IsValidConsecutive (t : ConsecutiveThresholds) : Type 0 where
  pub healthy_min : 1 ≤ t.healthy_min_success_count
  pub degraded_min : 1 ≤ t.degraded_min_failure_count
  pub unhealthy_min : 1 ≤ t.unhealthy_min_failure_count

streak_failing :
    (runs : List RunForEvaluation) (n : ℕ)
    → streak runs (suc n) 0 ≡ (suc n + leading is_failure runs, 0)
unfolding streak leading
streak_failing [] n = ground arith
streak_failing (run ∷ runs) n = ground (arith, streak_failing runs (suc n))

streak_succeeding :
    (runs : List RunForEvaluation) (n : ℕ)
    → streak runs 0 (suc n) ≡ (0, suc n + leading is_success runs)
unfolding streak leading
streak_succeeding [] n = ground arith
streak_succeeding (run ∷ runs) n = ground (arith, streak_succeeding runs (suc n))

-- The loop with its `break`s counts the newest failures and the newest successes, one of them 0.
pub streak-eq-leading :
    (runs : List RunForEvaluation)
    → streak runs 0 0 ≡ (leading is_failure runs, leading is_success runs)
unfolding streak leading
streak-eq-leading [] = refl
streak-eq-leading (run ∷ runs) = ground (arith, streak_failing runs 0, streak_succeeding runs 0)

-- The verdict on a streak of `n` failures, the newest with status `latest`.
pub failure_verdict : ConsecutiveThresholds → ℕ → Status → Status
failure_verdict t n latest =
    if leb t.unhealthy_min_failure_count n
    then unhealthy
    else if leb t.degraded_min_failure_count n
    then degraded
    else latest

-- With thresholds of at least 1, the verdict is "healthy" whenever the newest run is healthy, and
-- else depends on nothing but the newest run's status and the number of newest failures.
pub evaluate_consecutive-eq-verdict :
    (run : RunForEvaluation) (runs : List RunForEvaluation) (t : ConsecutiveThresholds)
    → IsValidConsecutive t
    → evaluate_consecutive (run ∷ runs) t ≡ (
        if is_healthy run.status
        then healthy
        else failure_verdict t (suc (leading is_failure runs)) run.status)
unfolding evaluate_consecutive failure_verdict leading
evaluate_consecutive-eq-verdict run runs t v = ground (arith, streak-eq-leading (run ∷ runs))

-- `minSuccessCount` never matters: two configurations with all thresholds at least 1 that differ in
-- it alone give the same verdict on every history of at least one run.
pub min_success_count_irrelevant :
    (runs : List RunForEvaluation) (t : ConsecutiveThresholds) (n : ℕ)
    → IsValidConsecutive t
    → 1 ≤ n
    → 1 ≤ length runs
    → evaluate_consecutive runs (record t { healthy_min_success_count = n })
      ≡ evaluate_consecutive runs t
unfolding failure_verdict
min_success_count_irrelevant [] t n v h k = absurd (omega arith)
min_success_count_irrelevant (run ∷ runs) t n v h k = ground (
  arith,
  evaluate_consecutive-eq-verdict run runs t v,
  evaluate_consecutive-eq-verdict run runs (record t { healthy_min_success_count = n })
      (record { healthy_min = h; degraded_min = v.degraded_min; unhealthy_min = v.unhealthy_min }),
)

leading-append :
    (p : RunForEvaluation → Bool) (run : RunForEvaluation) (recent older : List RunForEvaluation)
    → p run ≡ false
    → leading p (recent ++ run ∷ older) ≡ leading p (recent ++ run ∷ [])
unfolding leading
leading-append p run [] older h = ground arith
leading-append p run (r ∷ recent) older h = ground (arith, leading-append p run recent older h)

-- With thresholds of at least 1, runs older than a healthy one do not change the verdict.
pub evaluate_consecutive_forgets :
    (recent older : List RunForEvaluation) (run : RunForEvaluation) (t : ConsecutiveThresholds)
    → IsValidConsecutive t
    → is_healthy run.status ≡ true
    → evaluate_consecutive (recent ++ run ∷ older) t ≡ evaluate_consecutive (recent ++ run ∷ []) t
evaluate_consecutive_forgets [] older run t v h = ground (
  arith,
  evaluate_consecutive-eq-verdict run older t v,
  evaluate_consecutive-eq-verdict run [] t v,
)
evaluate_consecutive_forgets (r ∷ recent) older run t v h = ground (
  arith,
  evaluate_consecutive-eq-verdict r (recent ++ run ∷ older) t v,
  evaluate_consecutive-eq-verdict r (recent ++ run ∷ []) t v,
  leading-append is_failure run recent older (ground arith),
)

leading-All :
    (runs : List RunForEvaluation)
    → All (λ run. is_failure run ≡ true) runs
    → leading is_failure runs ≡ length runs
unfolding leading
leading-All [] h = refl
leading-All (run ∷ runs) (h, hs) = ground (arith, leading-All runs hs)

-- A longer streak of failures can improve the verdict: with thresholds of at least 1, the degraded
-- one being one above the number of runs and the unhealthy one above that, a history of failures whose newest is
-- unhealthy is "unhealthy", and one more failure makes it "degraded".
pub one_more_failure_improves :
    (first new : RunForEvaluation) (runs : List RunForEvaluation) (t : ConsecutiveThresholds)
    → IsValidConsecutive t
    → first.status ≡ unhealthy
    → is_failure new ≡ true
    → All (λ run. is_failure run ≡ true) runs
    → t.degraded_min_failure_count ≡ length runs + 2
    → t.degraded_min_failure_count < t.unhealthy_min_failure_count
    → (evaluate_consecutive (first ∷ runs) t ≡ unhealthy)
      × (evaluate_consecutive (new ∷ first ∷ runs) t ≡ degraded)
unfolding failure_verdict leading
one_more_failure_improves first new runs t v h k hs d u = ground (
  arith,
  leading-All runs hs,
  evaluate_consecutive-eq-verdict first runs t v,
  evaluate_consecutive-eq-verdict new (first ∷ runs) t v,
)
