-- ===== src/Aggregation/Tiers/Coverage.antt =====
-- aggregation-utils.ts: the joined ranges and the early end of the search lose no overlap.
use checkmate.Prelude.{
  ℕ, ◌≤◌, ◌<◌, ◌≡◌, inl, inr, refl, false, ◌||◌, List, [], ◌∷◌, any, All, leb, if◌then◌else◌, arith,
  Bool-cases,
}
use checkmate.Prelude.Sorting.{IsSortedBy}
use checkmate.Aggregation.Tiers.{TimeRange, extend_coverage, coverage, overlaps, does_overlap}

abbrev pub Ordered : List TimeRange → Type 0
Ordered ranges = IsSortedBy (λ r. r.start) ranges

none_after :
    (b : TimeRange) (n : ℕ) (ranges : List TimeRange)
    → b.end ≤ n
    → All (λ r. n ≤ r.start) ranges
    → any (overlaps b) ranges ≡ false
none_after b n [] le h = refl
none_after b n (r ∷ ranges) le (h, hs) = ground (arith, none_after b n ranges le hs)

-- The early end is right on ordered ranges.
pub does_overlap-any :
    (b : TimeRange) (ranges : List TimeRange)
    → Ordered ranges
    → does_overlap b ranges ≡ any (overlaps b) ranges
unfolding does_overlap
does_overlap-any b [] h = refl
does_overlap-any b (r ∷ ranges) (h, hs) =
    let after = none_after b r.start ranges in ground (arith, after, does_overlap-any b ranges hs)

All-start_weaken :
    (a b : ℕ) (ranges : List TimeRange)
    → a ≤ b
    → All (λ r. b ≤ r.start) ranges
    → All (λ r. a ≤ r.start) ranges
All-start_weaken a b [] le h = tt
All-start_weaken a b (r ∷ ranges) le (h, hs) = (omega arith, All-start_weaken a b ranges le hs)

extend_coverage-Ordered :
    (last : TimeRange) (ranges : List TimeRange)
    → All (λ r. last.start ≤ r.start) ranges
    → Ordered ranges
    → Ordered (extend_coverage last ranges)
      × All (λ r. last.start ≤ r.start) (extend_coverage last ranges)
unfolding extend_coverage
extend_coverage-Ordered last [] h hs = ground arith
extend_coverage-Ordered last (r ∷ ranges) (h, hs) (k, ks) =
    let joined : TimeRange = record {
      start = last.start;
      end = if leb last.end r.end then r.end else last.end;
    } in
    let far = extend_coverage-Ordered r ranges k ks in
    elim (Bool-cases (leb r.start last.end)) [
      | inl e ↦ rw e (extend_coverage-Ordered joined ranges hs ks)
      | inr e ↦
          let further = All-start_weaken last.start r.start (extend_coverage r ranges) h far.1 in
          rw e ((further, far.0), (omega arith, further))
    ]

-- A bucket that is not empty overlaps a joined range exactly where it overlaps one of its parts.
extend_coverage-any :
    (b last : TimeRange) (ranges : List TimeRange)
    → b.start < b.end
    → All (λ r. last.start ≤ r.start) ranges
    → Ordered ranges
    → any (overlaps b) (extend_coverage last ranges) ≡ (overlaps b last || any (overlaps b) ranges)
unfolding extend_coverage
extend_coverage-any b last [] lt h hs = refl
extend_coverage-any b last (r ∷ ranges) lt (h, hs) (k, ks) =
    let joined : TimeRange = record {
      start = last.start;
      end = if leb last.end r.end then r.end else last.end;
    } in
    elim (Bool-cases (leb r.start last.end)) [
      | inl e ↦ rw (e, extend_coverage-any b joined ranges lt hs ks) (ground arith)
      | inr e ↦ rw (e, extend_coverage-any b r ranges lt k ks) refl
    ]

pub coverage-Ordered : (ranges : List TimeRange) → Ordered ranges → Ordered (coverage ranges)
unfolding coverage
coverage-Ordered [] h = tt
coverage-Ordered (r ∷ ranges) (h, hs) = (extend_coverage-Ordered r ranges h hs).0

-- A bucket that is not empty overlaps the coverage exactly where it overlaps one of the ranges.
pub coverage-any :
    (b : TimeRange) (ranges : List TimeRange)
    → b.start < b.end
    → Ordered ranges
    → any (overlaps b) (coverage ranges) ≡ any (overlaps b) ranges
unfolding coverage
coverage-any b [] lt h = refl
coverage-any b (r ∷ ranges) lt (h, hs) = extend_coverage-any b r ranges lt h hs
