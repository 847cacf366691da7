-- ===== src/Aggregation/Incremental/Rates.antt =====
-- incremental-aggregation.ts: the rates of two buckets merge to the rate of all their runs.
use native.Mathlib.Nat.{add-zero}
use mathlib.Core.Path.{ap₂}
use checkmate.Prelude.{
  ℕ, ◌+◌, ◌*◌, ◌≡◌, refl, sym, ap, ◌∙◌, Bool, Option, none, some, List, [], ◌∷◌, ◌++◌, ltb,
  if◌then◌else◌, arith,
}
use checkmate.Aggregation.Incremental.{
  round_ratio, RateState, merge_rate, merge_rate_states, merge_runs,
}

-- The numbers of successes and of known outcomes.
abbrev success_sum : List (Option Bool) → ℕ
success_sum [] = 0
success_sum (none ∷ vs) = success_sum vs
success_sum (some v ∷ vs) = (if v then 1 else 0) + success_sum vs

abbrev outcome_count : List (Option Bool) → ℕ
outcome_count [] = 0
outcome_count (none ∷ vs) = outcome_count vs
outcome_count (some v ∷ vs) = 1 + outcome_count vs

abbrev rate_state : ℕ → ℕ → RateState
rate_state sum count = record {
  success = sum;
  total = count;
  rate = if ltb 0 count then round_ratio (sum * 100) count else 0;
}

merge_rate-some :
    (sum count : ℕ) (v : Bool)
    → merge_rate (some (rate_state sum count)) (some v)
      ≡ rate_state (sum + (if v then 1 else 0)) (count + 1)
unfolding merge_rate
merge_rate-some sum count v = ground arith

merge_runs-rate :
    (sum count : ℕ) (vs : List (Option Bool))
    → merge_runs merge_rate (some (rate_state sum count)) vs
      ≡ some (rate_state (sum + success_sum vs) (count + outcome_count vs))
unfolding merge_rate
merge_runs-rate sum count [] = rw (add-zero, add-zero) refl
merge_runs-rate sum count (none ∷ vs) = merge_runs-rate sum count vs
merge_runs-rate sum count (some v ∷ vs) =
    rw (merge_rate-some sum count v, merge_runs-rate (sum + (if v then 1 else 0)) (count + 1) vs)
      (ap₂ (λ a b. some (rate_state a b)) (omega arith) (omega arith))

merge_runs-rate_first :
    (v : Option Bool) (vs : List (Option Bool))
    → merge_runs merge_rate none (v ∷ vs)
      ≡ some (rate_state (success_sum (v ∷ vs)) (outcome_count (v ∷ vs)))
unfolding merge_rate
merge_runs-rate_first none vs = ground (arith, merge_runs-rate 0 0 vs)
merge_runs-rate_first (some v) vs = ground (arith, merge_runs-rate (if v then 1 else 0) 1 vs)

success_sum-append :
    (vs ws : List (Option Bool)) → success_sum (vs ++ ws) ≡ success_sum vs + success_sum ws
success_sum-append [] ws = omega arith
success_sum-append (none ∷ vs) ws = success_sum-append vs ws
success_sum-append (some v ∷ vs) ws = omega (arith, success_sum-append vs ws)

outcome_count-append :
    (vs ws : List (Option Bool)) → outcome_count (vs ++ ws) ≡ outcome_count vs + outcome_count ws
outcome_count-append [] ws = omega arith
outcome_count-append (none ∷ vs) ws = outcome_count-append vs ws
outcome_count-append (some v ∷ vs) ws = omega (arith, outcome_count-append vs ws)

-- The success rate of two buckets of runs, at least one run in each and some runs perhaps without
-- an outcome, merges to the rate of all the runs: successes, number and rounded percentage.
pub rate_split :
    (v w : Option Bool) (vs ws : List (Option Bool)) (a b : RateState)
    → merge_runs merge_rate none (v ∷ vs) ≡ some a
    → merge_runs merge_rate none (w ∷ ws) ≡ some b
    → merge_runs merge_rate none ((v ∷ vs) ++ (w ∷ ws)) ≡ some (merge_rate_states a b)
unfolding merge_rate_states
rate_split v w vs ws a b ha hb =
    let all = merge_runs-rate_first v (vs ++ w ∷ ws) in
    let sums = success_sum-append (v ∷ vs) (w ∷ ws) in
    let counts = outcome_count-append (v ∷ vs) (w ∷ ws) in
    let from_a = sym (merge_runs-rate_first v vs) ∙ ha in
    let from_b = sym (merge_runs-rate_first w ws) ∙ hb in
    let made : rate_state (success_sum ((v ∷ vs) ++ (w ∷ ws)))
          (outcome_count ((v ∷ vs) ++ (w ∷ ws)))
        ≡ merge_rate_states a b =
      rw (sums, counts) (ground (arith, from_a, from_b)) in
    all ∙ ap some made
