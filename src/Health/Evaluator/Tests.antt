-- ===== src/Health/Evaluator/Tests.antt =====
-- Runs of the evaluator, some of them those of state-evaluator.test.ts.
use checkmate.Prelude.{◌≡◌, refl, List, [], ◌∷◌, none, some, arith, if◌then◌else◌}
use checkmate.Health.Evaluator.{
  Status, healthy, unhealthy, degraded, is_healthy, RunForEvaluation, ConsecutiveThresholds,
  WindowThresholds, consecutive, window, evaluate_consecutive, evaluate_health_status,
}
use checkmate.Health.Evaluator.Laws.{
  IsValidConsecutive, leading, failure_verdict, evaluate_consecutive-eq-verdict,
}

abbrev run : Status → RunForEvaluation
run s = record { status = s; timestamp = 0 }

abbrev thresholds : ConsecutiveThresholds
thresholds = record {
  healthy_min_success_count = 2;
  degraded_min_failure_count = 2;
  unhealthy_min_failure_count = 4;
}

abbrev sliding : WindowThresholds
sliding = record {
  window_size = 5;
  degraded_min_failure_count = 2;
  unhealthy_min_failure_count = 4;
}

evaluations :
    (evaluate_health_status [] none ≡ healthy)
    × (evaluate_health_status (run degraded ∷ run unhealthy ∷ []) (some (consecutive thresholds))
        ≡ degraded)
    × (evaluate_health_status
          (run healthy ∷ run unhealthy ∷ run unhealthy ∷ [])
          (some (consecutive thresholds))
        ≡ healthy)
    × (evaluate_health_status (run unhealthy ∷ []) none ≡ unhealthy)
    × (evaluate_health_status (run unhealthy ∷ run unhealthy ∷ []) none ≡ degraded)
    × (evaluate_health_status
          (run healthy ∷ run degraded ∷ run unhealthy ∷ [])
          (some (window sliding))
        ≡ degraded)
unfolding evaluate_health_status
evaluations = (refl, refl, refl, refl, refl, refl)

thresholds-IsValidConsecutive : IsValidConsecutive thresholds
thresholds-IsValidConsecutive = omega arith

evaluate_consecutive-eq-verdict_example :
    evaluate_consecutive (run degraded ∷ run unhealthy ∷ []) thresholds
    ≡ (if is_healthy degraded then healthy else failure_verdict thresholds 2 degraded)
unfolding leading
evaluate_consecutive-eq-verdict_example =
    evaluate_consecutive-eq-verdict (run degraded) (run unhealthy ∷ []) thresholds
      thresholds-IsValidConsecutive

-- One success is enough, whatever is asked for.
one_success_is_healthy :
    evaluate_consecutive
      (run healthy ∷ run unhealthy ∷ [])
      (record thresholds { healthy_min_success_count = 7 })
    ≡ healthy
unfolding evaluate_consecutive leading
one_success_is_healthy = refl

abbrev five : List RunForEvaluation
five = run healthy ∷ run degraded ∷ run healthy ∷ run unhealthy ∷ run healthy ∷ []

-- One failure is unhealthy, and a second one only degraded.
second_failure_improves :
    (evaluate_consecutive (run unhealthy ∷ []) thresholds ≡ unhealthy)
    × (evaluate_consecutive (run unhealthy ∷ run unhealthy ∷ []) thresholds ≡ degraded)
unfolding evaluate_consecutive leading
second_failure_improves = (refl, refl)
