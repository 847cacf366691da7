-- ===== src/Aggregation/Incremental.antt =====
-- backend-api/src/incremental-aggregation.ts: statistics of values that come one by one, and the
-- merging of two of them.
--
-- Values are natural numbers. The average is kept in tenths, as it is rounded to one decimal place;
-- `Math.round` is exact here. The discriminator `_type` is the record's type.
pub mod Totals
pub mod Rates
pub mod Extremes
mod Tests
use checkmate.Prelude.{
  ℕ, ◌+◌, ◌*◌, ◌/◌, Bool, true, false, Option, none, some, List, [], ◌∷◌, ltb, leb, if◌then◌else◌,
}

-- `Math.round(a / b)` for a positive `b`: halves are rounded up.
unfoldable pub round_ratio : ℕ → ℕ → ℕ
round_ratio a b = (2 * a + b) / (2 * b)

pub record CounterState : Type 0 where
  pub count : ℕ

pub data Increment : Type 0 where
  flag : Bool → Increment
  amount : ℕ → Increment

unfoldable pub increment_value : Increment → ℕ
increment_value (flag b) = if b then 1 else 0
increment_value (amount n) = n

abbrev count_of : Option CounterState → ℕ
count_of none = 0
count_of (some s) = s.count

unfoldable pub merge_counter : Option CounterState → Increment → CounterState
unfolding increment_value
merge_counter existing increment = record { count = count_of existing + increment_value increment }

unfoldable pub merge_counter_states : CounterState → CounterState → CounterState
merge_counter_states a b = record { count = a.count + b.count }

pub record AverageState : Type 0 where
  pub sum : ℕ
  pub count : ℕ
  pub avg : ℕ

-- `existing?._sum ?? 0` and so on: the state with which the first value is merged.
abbrev pub average_or_zero : Option AverageState → AverageState
average_or_zero none = record { sum = 0; count = 0; avg = 0 }
average_or_zero (some s) = s

unfoldable pub merge_average : Option AverageState → Option ℕ → AverageState
unfolding round_ratio
merge_average existing none = average_or_zero existing
merge_average existing (some value) =
    let sum = (average_or_zero existing).sum + value in
    let count = (average_or_zero existing).count + 1 in
    record { sum = sum; count = count; avg = round_ratio (sum * 10) count }

unfoldable pub merge_average_states : AverageState → AverageState → AverageState
unfolding round_ratio
merge_average_states a b =
    let sum = a.sum + b.sum in
    let count = a.count + b.count in
    record {
      sum = sum;
      count = count;
      avg = if ltb 0 count then round_ratio (sum * 10) count else 0;
    }

pub record RateState : Type 0 where
  pub success : ℕ
  pub total : ℕ
  pub rate : ℕ

abbrev pub rate_or_zero : Option RateState → RateState
rate_or_zero none = record { success = 0; total = 0; rate = 0 }
rate_or_zero (some s) = s

unfoldable pub merge_rate : Option RateState → Option Bool → RateState
unfolding round_ratio
merge_rate existing none = rate_or_zero existing
merge_rate existing (some succeeded) =
    let success = (rate_or_zero existing).success + (if succeeded then 1 else 0) in
    let total = (rate_or_zero existing).total + 1 in
    record { success = success; total = total; rate = round_ratio (success * 100) total }

unfoldable pub merge_rate_states : RateState → RateState → RateState
unfolding round_ratio
merge_rate_states a b =
    let success = a.success + b.success in
    let total = a.total + b.total in
    record {
      success = success;
      total = total;
      rate = if ltb 0 total then round_ratio (success * 100) total else 0;
    }

pub record MinMaxState : Type 0 where
  pub min : ℕ
  pub max : ℕ

-- `Math.min` and `Math.max`.
unfoldable pub minimum : ℕ → ℕ → ℕ
minimum a b = if leb a b then a else b

unfoldable pub maximum : ℕ → ℕ → ℕ
maximum a b = if leb a b then b else a

unfoldable pub merge_min_max : Option MinMaxState → Option ℕ → MinMaxState
unfolding minimum maximum
merge_min_max none none = record { min = 0; max = 0 }
merge_min_max (some s) none = s
merge_min_max none (some value) = record { min = value; max = value }
merge_min_max (some s) (some value) = record {
  min = minimum s.min value;
  max = maximum s.max value;
}

unfoldable pub merge_min_max_states : MinMaxState → MinMaxState → MinMaxState
unfolding minimum maximum
merge_min_max_states a b = record { min = minimum a.min b.min; max = maximum a.max b.max }

-- The use of a `merge…` function run by run, as each run's value comes in.
abbrev pub merge_runs : {S V : Type 0} → (Option S → V → S) → Option S → List V → Option S
merge_runs merge existing [] = existing
merge_runs merge existing (v ∷ vs) = merge_runs merge (some (merge existing v)) vs
