-- ===== src/Aggregation/Incremental/Extremes.antt =====
-- incremental-aggregation.ts: least and greatest values.
use checkmate.Prelude.{ℕ, ◌≤◌, ◌≡◌, ◌⊎◌, refl, Option, none, some, List, [], ◌∷◌, ◌++◌, arith, In}
use checkmate.Aggregation.Incremental.{
  MinMaxState, minimum, maximum, merge_min_max, merge_min_max_states, merge_runs,
}

-- The state is of the values in the list.
abbrev pub IsExtremes : MinMaxState → List (Option ℕ) → Type 0
IsExtremes s vs =
    ((x : ℕ) → In (some x) vs → (s.min ≤ x) × (x ≤ s.max)) × In (some s.min) vs × In (some s.max) vs

merge_runs-min_max :
    (t s : MinMaxState) (vs : List (Option ℕ))
    → merge_runs merge_min_max (some t) vs ≡ some s
    → (s.min ≤ t.min)
      × (t.max ≤ s.max)
      × ((x : ℕ) → In (some x) vs → (s.min ≤ x) × (x ≤ s.max))
      × ((s.min ≡ t.min) ⊎ In (some s.min) vs)
      × ((s.max ≡ t.max) ⊎ In (some s.max) vs)
unfolding merge_min_max minimum maximum
merge_runs-min_max t s [] h = ground arith
merge_runs-min_max t s (none ∷ vs) h = ground (arith, merge_runs-min_max t s vs h)
merge_runs-min_max t s (some v ∷ vs) h =
    ground
      (arith, merge_runs-min_max (record { min = minimum t.min v; max = maximum t.max v }) s vs h)

-- Where the first run has a value, the statistics are the least and the greatest of the values.
pub min_max-IsExtremes :
    (v : ℕ) (vs : List (Option ℕ)) (s : MinMaxState)
    → merge_runs merge_min_max none (some v ∷ vs) ≡ some s
    → IsExtremes s (some v ∷ vs)
unfolding merge_min_max
min_max-IsExtremes v vs s h =
    ground (arith, merge_runs-min_max (record { min = v; max = v }) s vs h)

-- Where the first run has no value, the least value is given as 0, whatever values come later.
pub first_missing_min :
    (vs : List (Option ℕ)) (s : MinMaxState)
    → merge_runs merge_min_max none (none ∷ vs) ≡ some s
    → s.min ≡ 0
unfolding merge_min_max
first_missing_min vs s h = omega (arith, merge_runs-min_max (record { min = 0; max = 0 }) s vs h)

merge_runs-append :
    (existing : Option MinMaxState) (vs ws : List (Option ℕ))
    → merge_runs merge_min_max existing (vs ++ ws)
      ≡ merge_runs merge_min_max (merge_runs merge_min_max existing vs) ws
merge_runs-append existing [] ws = refl
merge_runs-append existing (v ∷ vs) ws = merge_runs-append (some (merge_min_max existing v)) vs ws

merge_states-value :
    (u t : MinMaxState) (v : Option ℕ)
    → merge_min_max (some (merge_min_max_states u t)) v
      ≡ merge_min_max_states u (merge_min_max (some t) v)
unfolding merge_min_max merge_min_max_states minimum maximum
merge_states-value u t none = refl
merge_states-value u t (some v) = ground arith

merge_states-runs :
    (u t s : MinMaxState) (vs : List (Option ℕ))
    → merge_runs merge_min_max (some t) vs ≡ some s
    → merge_runs merge_min_max (some (merge_min_max_states u t)) vs
      ≡ some (merge_min_max_states u s)
merge_states-runs u t s [] h = ground arith
merge_states-runs u t s (v ∷ vs) h =
    rw (merge_states-value u t v) (merge_states-runs u (merge_min_max (some t) v) s vs h)

merge_first_value :
    (u : MinMaxState) (w : ℕ)
    → merge_min_max (some u) (some w) ≡ merge_min_max_states u (merge_min_max none (some w))
unfolding merge_min_max merge_min_max_states minimum maximum
merge_first_value u w = refl

-- Where the second of two buckets has a value in its first run, the least and greatest values of
-- the two merge to those that the runs of both give one by one.
pub min_max_split :
    (w : ℕ) (vs ws : List (Option ℕ)) (a b : MinMaxState)
    → merge_runs merge_min_max none vs ≡ some a
    → merge_runs merge_min_max none (some w ∷ ws) ≡ some b
    → merge_runs merge_min_max none (vs ++ (some w ∷ ws)) ≡ some (merge_min_max_states a b)
min_max_split w vs ws a b ha hb =
    rw (merge_runs-append none vs (some w ∷ ws), ha, merge_first_value a w)
      (merge_states-runs a (merge_min_max none (some w)) b ws hb)
