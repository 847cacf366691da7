-- ===== src/Aggregation/Incremental/Totals.antt =====
-- incremental-aggregation.ts: counters, averages and rates of two buckets merge to those of all
-- their runs.
use native.Mathlib.Nat.{add-zero}
use mathlib.Core.Path.{ap₂}
use checkmate.Prelude.{
  ℕ, ◌+◌, ◌*◌, ◌≡◌, refl, sym, ap, ◌∙◌, Option, none, some, List, [], ◌∷◌, ◌++◌, ltb, if◌then◌else◌,
  arith,
}
use checkmate.Aggregation.Incremental.{
  round_ratio, CounterState, Increment, increment_value, merge_counter, merge_counter_states,
  AverageState, merge_average, merge_average_states, merge_runs,
}

abbrev counter_total : List Increment → ℕ
counter_total [] = 0
counter_total (v ∷ vs) = increment_value v + counter_total vs

merge_runs-counter :
    (s : CounterState) (vs : List Increment)
    → merge_runs merge_counter (some s) vs ≡ some (record { count = s.count + counter_total vs })
unfolding merge_counter
merge_runs-counter s [] = ground arith
merge_runs-counter s (v ∷ vs) = ground (arith, merge_runs-counter (merge_counter (some s) v) vs)

-- The sum and number of the values that are there.
abbrev value_sum : List (Option ℕ) → ℕ
value_sum [] = 0
value_sum (none ∷ vs) = value_sum vs
value_sum (some v ∷ vs) = v + value_sum vs

abbrev value_count : List (Option ℕ) → ℕ
value_count [] = 0
value_count (none ∷ vs) = value_count vs
value_count (some v ∷ vs) = 1 + value_count vs

abbrev average_state : ℕ → ℕ → AverageState
average_state sum count = record {
  sum = sum;
  count = count;
  avg = if ltb 0 count then round_ratio (sum * 10) count else 0;
}

merge_average-some :
    (sum count v : ℕ)
    → merge_average (some (average_state sum count)) (some v) ≡ average_state (sum + v) (count + 1)
unfolding merge_average
merge_average-some sum count v = ground arith

merge_runs-average :
    (sum count : ℕ) (vs : List (Option ℕ))
    → merge_runs merge_average (some (average_state sum count)) vs
      ≡ some (average_state (sum + value_sum vs) (count + value_count vs))
unfolding merge_average
merge_runs-average sum count [] = rw (add-zero, add-zero) refl
merge_runs-average sum count (none ∷ vs) = merge_runs-average sum count vs
merge_runs-average sum count (some v ∷ vs) =
    rw (merge_average-some sum count v, merge_runs-average (sum + v) (count + 1) vs)
      (ap₂ (λ a b. some (average_state a b)) (omega arith) (omega arith))

merge_runs-average_first :
    (v : Option ℕ) (vs : List (Option ℕ))
    → merge_runs merge_average none (v ∷ vs)
      ≡ some (average_state (value_sum (v ∷ vs)) (value_count (v ∷ vs)))
unfolding merge_average
merge_runs-average_first none vs = ground (arith, merge_runs-average 0 0 vs)
merge_runs-average_first (some v) vs = ground (arith, merge_runs-average v 1 vs)

value_sum-append : (vs ws : List (Option ℕ)) → value_sum (vs ++ ws) ≡ value_sum vs + value_sum ws
value_sum-append [] ws = omega arith
value_sum-append (none ∷ vs) ws = value_sum-append vs ws
value_sum-append (some v ∷ vs) ws = omega (arith, value_sum-append vs ws)

value_count-append :
    (vs ws : List (Option ℕ)) → value_count (vs ++ ws) ≡ value_count vs + value_count ws
value_count-append [] ws = omega arith
value_count-append (none ∷ vs) ws = value_count-append vs ws
value_count-append (some v ∷ vs) ws = omega (arith, value_count-append vs ws)

-- The average of two buckets of runs, at least one run in each and some runs perhaps without a
-- value, merges to the average of all the runs: sum, number and rounded average.
pub average_split :
    (v w : Option ℕ) (vs ws : List (Option ℕ)) (a b : AverageState)
    → merge_runs merge_average none (v ∷ vs) ≡ some a
    → merge_runs merge_average none (w ∷ ws) ≡ some b
    → merge_runs merge_average none ((v ∷ vs) ++ (w ∷ ws)) ≡ some (merge_average_states a b)
unfolding merge_average_states
average_split v w vs ws a b ha hb =
    let all = merge_runs-average_first v (vs ++ w ∷ ws) in
    let sums = value_sum-append (v ∷ vs) (w ∷ ws) in
    let counts = value_count-append (v ∷ vs) (w ∷ ws) in
    let from_a = sym (merge_runs-average_first v vs) ∙ ha in
    let from_b = sym (merge_runs-average_first w ws) ∙ hb in
    let made : average_state (value_sum ((v ∷ vs) ++ (w ∷ ws))) (value_count ((v ∷ vs) ++ (w ∷ ws)))
        ≡ merge_average_states a b =
      rw (sums, counts) (ground (arith, from_a, from_b)) in
    all ∙ ap some made

counter_total-append :
    (vs ws : List Increment) → counter_total (vs ++ ws) ≡ counter_total vs + counter_total ws
counter_total-append [] ws = omega arith
counter_total-append (v ∷ vs) ws = omega (arith, counter_total-append vs ws)

merge_runs-counter_first :
    (v : Increment) (vs : List Increment)
    → merge_runs merge_counter none (v ∷ vs) ≡ some (record { count = counter_total (v ∷ vs) })
unfolding merge_counter
merge_runs-counter_first v vs = ground (arith, merge_runs-counter (merge_counter none v) vs)

-- The counters of two buckets of at least one run each merge to the counter of all the runs.
pub counter_split :
    (v w : Increment) (vs ws : List Increment) (a b : CounterState)
    → merge_runs merge_counter none (v ∷ vs) ≡ some a
    → merge_runs merge_counter none (w ∷ ws) ≡ some b
    → merge_runs merge_counter none ((v ∷ vs) ++ (w ∷ ws)) ≡ some (merge_counter_states a b)
unfolding merge_counter_states
counter_split v w vs ws a b ha hb =
    let all = merge_runs-counter_first v (vs ++ w ∷ ws) in
    let totals = counter_total-append (v ∷ vs) (w ∷ ws) in
    let from_a = sym (merge_runs-counter_first v vs) ∙ ha in
    let from_b = sym (merge_runs-counter_first w ws) ∙ hb in
    all ∙ ground (arith, totals, from_a, from_b)
