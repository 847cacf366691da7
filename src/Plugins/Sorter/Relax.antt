-- ===== src/Plugins/Sorter/Relax.antt =====
-- dependency-sorter.ts: the loop over the dependents of a plugin that is done.
use checkmate.Prelude.{
  ◌-◌, ◌≡◌, inl, inr, true, false, ◌||◌, ◌&&◌, String, List, [], ◌∷◌, ◌++◌, arith, if◌then◌else◌,
  Bool-cases, leb, ◌==◌,
}
use checkmate.Prelude.Text.{includes, ===_iff}
use checkmate.Prelude.Unique.{IsUnique, includes-append, IsUnique-append_one}
use checkmate.Prelude.Map.{set}
use checkmate.Plugins.Sorter.{Degrees, degree, relax}
use checkmate.Plugins.Sorter.Degrees.{count, degree-set}
use mathlib.Core.List.{append_assoc}

abbrev next_degrees : String → Degrees → Degrees
next_degrees v d = set v (degree d v - 1) d

abbrev next_queue : String → Degrees → List String → List String
next_queue v d queue = if degree d v == 1 then queue ++ v ∷ [] else queue

-- Every edge to a plugin takes one off its count.
pub degree-relax :
    (vs : List String) (d : Degrees) (queue : List String) (v : String)
    → degree (relax vs (d, queue)).0 v ≡ degree d v - count v vs
unfolding relax
degree-relax [] d queue v = omega arith
degree-relax (w ∷ vs) d queue v = ground (
  arith,
  ===_iff w v,
  degree-set w v (degree d w - 1) d,
  degree-relax vs (next_degrees w d) (next_queue w d queue) v,
)

-- The queue gets just the plugins whose counts fall to zero.
pub includes-relax :
    (vs : List String) (d : Degrees) (queue : List String) (v : String)
    → includes (relax vs (d, queue)).1 v
      ≡ (includes queue v || (leb 1 (degree d v) && leb (degree d v) (count v vs)))
unfolding relax
includes-relax [] d queue v = ground arith
includes-relax (w ∷ vs) d queue v = ground (
  arith,
  ===_iff w v,
  degree-set w v (degree d w - 1) d,
  includes-append queue (w ∷ []) v,
  includes-relax vs (next_degrees w d) (next_queue w d queue) v,
)

-- No plugin is queued twice, where those that were queued or done have the count zero.
pub relax-IsUnique :
    (vs : List String) (d : Degrees) (before queue : List String)
    → IsUnique (before ++ queue)
    → ((v : String) → includes (before ++ queue) v ≡ true → degree d v ≡ 0)
    → IsUnique (before ++ (relax vs (d, queue)).1)
unfolding relax
relax-IsUnique [] d before queue u z = u
relax-IsUnique (w ∷ vs) d before queue u z = elim (Bool-cases (degree d w == 1)) [
  | inl e ↦
      let new : includes (before ++ queue) w ≡ false = ground (arith, z w) in
      let u' : IsUnique (before ++ (queue ++ w ∷ [])) =
        rw (← append_assoc before queue (w ∷ [])) (IsUnique-append_one (before ++ queue) w u new) in
      rw (relax, e)
        (relax-IsUnique vs (next_degrees w d) before (queue ++ w ∷ []) u' (λ v m. ground (
          arith,
          z v,
          ===_iff w v,
          degree-set w v (degree d w - 1) d,
          includes-append (before ++ queue) (w ∷ []) v,
          includes-append before queue v,
          includes-append before (queue ++ w ∷ []) v,
          includes-append queue (w ∷ []) v,
        )))
  | inr e ↦
      rw (relax, e)
        (relax-IsUnique vs (next_degrees w d) before queue u
          (λ v m. ground (arith, z v, ===_iff w v, degree-set w v (degree d w - 1) d)))
]
