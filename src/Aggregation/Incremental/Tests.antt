-- ===== src/Aggregation/Incremental/Tests.antt =====
-- The incremental statistics at concrete runs.
use checkmate.Prelude.{◌≡◌, refl, none, some, [], ◌∷◌}
use checkmate.Aggregation.Incremental.{
  round_ratio, merge_average, MinMaxState, minimum, maximum, merge_min_max, merge_runs,
}

-- 10, 15 and 20 with a run without a value: 15.0.
three_values :
    merge_runs merge_average none (some 10 ∷ none ∷ some 15 ∷ some 20 ∷ [])
    ≡ some (record { sum = 45; count = 3; avg = 150 })
unfolding merge_average round_ratio
three_values = refl

-- The first run timed out: the least latency of 5 and 8 is given as 0.
abbrev after_timeout : MinMaxState
after_timeout = record { min = 0; max = 8 }

timeout_is_zero : merge_runs merge_min_max none (none ∷ some 5 ∷ some 8 ∷ []) ≡ some after_timeout
unfolding merge_min_max minimum maximum
timeout_is_zero = refl
