-- ===== src/Aggregation/Counts/Laws.antt =====
-- aggregation-utils.ts: each status is counted by itself.
use checkmate.Prelude.{
  ℕ, ◌+◌, ◌≤◌, ◌≡◌, refl, sym, subst, inl, inr, String, true, false, Bool-cases, List, [], ◌∷◌,
  length, filter, if◌then◌else◌, arith,
}
use checkmate.Prelude.Text.{◌===◌, ===_iff}
use checkmate.Aggregation.Counts.{StatusRun, StatusCounts, count_status, count_loop, count_statuses}

-- How many runs have the status.
abbrev pub runs_with : String → List StatusRun → ℕ
runs_with status runs = length (filter (λ r. r.status === status) runs)

other_status : (s t u : String) → (s === t) ≡ true → (t === u) ≡ false → (s === u) ≡ false
other_status s t u same other = subst (λ x. (x === u) ≡ false) (sym ((===_iff s t).0 same)) other

-- A status is at most one of the three.
one_status :
    (s : String)
    → ((s === "healthy") ≡ true → ((s === "degraded") ≡ false) × ((s === "unhealthy") ≡ false))
      × ((s === "degraded") ≡ true → (s === "unhealthy") ≡ false)
one_status s = (
  λ h. (other_status s "healthy" "degraded" h refl, other_status s "healthy" "unhealthy" h refl),
  λ d. other_status s "degraded" "unhealthy" d refl,
)

count_status-eq :
    (status : String) (c : StatusCounts)
    → ((count_status status c).healthy_count
        ≡ c.healthy_count + (if status === "healthy" then 1 else 0))
      × ((count_status status c).degraded_count
          ≡ c.degraded_count + (if status === "degraded" then 1 else 0))
      × ((count_status status c).unhealthy_count
          ≡ c.unhealthy_count + (if status === "unhealthy" then 1 else 0))
unfolding count_status
count_status-eq status c =
    let one = one_status status in
    elim (Bool-cases (status === "healthy")) [
      | inl h ↦ let rest = one.0 h in rw (h, rest.0, rest.1) (omega arith, omega arith, omega arith)
      | inr h ↦ elim (Bool-cases (status === "degraded")) [
        | inl d ↦ rw (h, d, one.1 d) (omega arith, omega arith, omega arith)
        | inr d ↦ elim (Bool-cases (status === "unhealthy")) [
          | inl u ↦ rw (h, d, u) (omega arith, omega arith, omega arith)
          | inr u ↦ rw (h, d, u) (omega arith, omega arith, omega arith)
        ]
      ]
    ]

count_loop-eq :
    (c : StatusCounts) (runs : List StatusRun)
    → ((count_loop c runs).healthy_count ≡ c.healthy_count + runs_with "healthy" runs)
      × ((count_loop c runs).degraded_count ≡ c.degraded_count + runs_with "degraded" runs)
      × ((count_loop c runs).unhealthy_count ≡ c.unhealthy_count + runs_with "unhealthy" runs)
unfolding count_loop
count_loop-eq c [] = (omega arith, omega arith, omega arith)
count_loop-eq c (r ∷ runs) =
    ground (arith, count_status-eq r.status c, count_loop-eq (count_status r.status c) runs)

known_le :
    (runs : List StatusRun)
    → runs_with "healthy" runs + runs_with "degraded" runs + runs_with "unhealthy" runs
      ≤ length runs
known_le [] = omega arith
known_le (r ∷ runs) = ground (arith, one_status r.status, known_le runs)

-- Each count is the number of the runs with that status, and the three together are at most the
-- number of runs, since a run with any other status is not counted.
pub count_statuses-eq :
    (runs : List StatusRun)
    → let c = count_statuses runs in
      (c.healthy_count ≡ runs_with "healthy" runs)
      × (c.degraded_count ≡ runs_with "degraded" runs)
      × (c.unhealthy_count ≡ runs_with "unhealthy" runs)
      × (c.healthy_count + c.degraded_count + c.unhealthy_count ≤ length runs)
unfolding count_statuses
count_statuses-eq runs =
    let counts =
      count_loop-eq (record { healthy_count = 0; degraded_count = 0; unhealthy_count = 0 }) runs in
    let bound = known_le runs in ground (arith, counts, bound)
