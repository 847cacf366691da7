-- ===== src/Plugins/Sorter/Loop.antt =====
-- dependency-sorter.ts: the invariant of the loop over the queue, and what it leaves.
use mathlib.Core.List.{append_assoc, append-nil}
use checkmate.Prelude.{
  ℕ, zero, suc, ◌≤◌, ◌≡◌, refl, sym, subst, ◌∙◌, true, false, ◌||◌, ◌&&◌, String, List, [], ◌∷◌,
  ◌++◌, some, arith, leb,
}
use checkmate.Prelude.Text.{includes, ===_iff}
use checkmate.Prelude.Unique.{IsUnique, includes-append}
use checkmate.Prelude.Map.{keys}
use checkmate.Plugins.Sorter.{Degrees, Graph, degree, dependents, relax, drain}
use checkmate.Plugins.Sorter.Degrees.{count, remaining, remaining_done, remaining_zero}
use checkmate.Plugins.Sorter.Relax.{degree-relax, includes-relax, relax-IsUnique}

-- Every plugin stands behind all its providers, those of `done` and those before it in the list.
abbrev pub Respects : Graph → List String → List String → Type 0
Respects g done [] = Unit
Respects g done (v ∷ vs) =
    ((u : String) → includes (dependents g u) v ≡ true → includes done u ≡ true)
    × Respects g (done ++ v ∷ []) vs

-- `known` are the plugins with a count.
pub record IsConsistent (known : List String) (g : Graph) (d : Degrees) (queue sorted : List String)
    : Type 0 where
  pub counts : (v : String) → degree d v ≡ remaining v sorted g
  pub once : IsUnique (sorted ++ queue)
  pub settled : (v : String) → includes (sorted ++ queue) v ≡ true → degree d v ≡ 0
  pub counted : (v : String) → 1 ≤ degree d v → includes known v ≡ true
  pub queued : (v : String) → includes (sorted ++ queue) v ≡ true → includes known v ≡ true
  pub complete :
      (v : String) → includes known v ≡ true → degree d v ≡ 0 → includes (sorted ++ queue) v ≡ true

module _ (known : List String) (g : Graph) (unique_keys : IsUnique (keys g)) where
  -- What the new list of done and queued plugins includes.
  includes_step :
      (d : Degrees) (u : String) (queue sorted : List String) (v : String)
      → includes ((sorted ++ u ∷ []) ++ (relax (dependents g u) (d, queue)).1) v ≡ (
          includes (sorted ++ u ∷ queue) v
          || (leb 1 (degree d v) && leb (degree d v) (count v (dependents g u))))
  includes_step d u queue sorted v = ground (
    arith,
    includes-append (sorted ++ u ∷ []) (relax (dependents g u) (d, queue)).1 v,
    includes-append sorted (u ∷ []) v,
    includes-append sorted (u ∷ queue) v,
    includes-relax (dependents g u) d queue v,
  )

  fresh_head :
      (u : String) (queue sorted : List String)
      → IsUnique (sorted ++ u ∷ queue)
      → includes sorted u ≡ false
  fresh_head u queue [] h = refl
  fresh_head u queue (x ∷ sorted) (n, h) = ground (
    arith,
    fresh_head u queue sorted h,
    includes-append sorted (u ∷ queue) x,
    ===_iff x u,
    ===_iff u x,
  )

  pub step-IsConsistent :
      (d : Degrees) (u : String) (queue sorted : List String)
      → IsConsistent known g d (u ∷ queue) sorted
      → IsConsistent known g
          (relax (dependents g u) (d, queue)).0
          (relax (dependents g u) (d, queue)).1
          (sorted ++ u ∷ [])
  step-IsConsistent d u queue sorted h =
      let outs = dependents g u in
      let joined : (sorted ++ u ∷ []) ++ queue ≡ sorted ++ u ∷ queue =
        append_assoc sorted (u ∷ []) queue in
      record {
        counts = λ v. ground (
          arith,
          degree-relax outs d queue v,
          h.counts v,
          remaining_done v u sorted g unique_keys (fresh_head u queue sorted h.once),
        );
        once =
            relax-IsUnique outs d (sorted ++ u ∷ []) queue (rw joined h.once)
              (λ v m. h.settled v (ground (arith, joined, m)));
        settled = λ v m.
            ground (
              arith,
              degree-relax outs d queue v,
              includes_step d u queue sorted v,
              h.settled v,
              m,
            );
        counted = λ v p. h.counted v (omega (arith, degree-relax outs d queue v, p));
        queued =
            λ v m. ground (arith, includes_step d u queue sorted v, h.queued v, h.counted v, m);
        complete = λ v k z. ground (
          arith,
          includes_step d u queue sorted v,
          h.complete v k,
          degree-relax outs d queue v,
          z,
        );
      }

  head_ready :
      (d : Degrees) (u : String) (queue sorted : List String)
      → IsConsistent known g d (u ∷ queue) sorted
      → (w : String) → includes (dependents g w) u ≡ true
      → includes sorted w ≡ true
  head_ready d u queue sorted h w edge =
      remaining_zero u w sorted g
        (ground (arith, h.counts u, h.settled u, includes-append sorted (u ∷ queue) u, ===_iff u u))
        edge

  -- What the loop returns extends what was done by an order that respects the graph, and leaves
  -- the invariant with an empty queue.
  pub drain_lem :
      (fuel : ℕ) (d : Degrees) (queue sorted ids : List String)
      → IsConsistent known g d queue sorted
      → drain fuel g d queue sorted ≡ some ids
      → (rest : List String) × (ids ≡ sorted ++ rest)
        × Respects g sorted rest
        × ((d' : Degrees) × IsConsistent known g d' [] ids)
  unfolding drain
  drain_lem fuel d [] sorted ids h e =
      let same : sorted ≡ ids = ground arith in
      ([], sym same ∙ sym (append-nil sorted), tt, (d, subst (IsConsistent known g d []) same h))
  drain_lem zero d (u ∷ queue) sorted ids h e = absurd (cc)
  drain_lem (suc fuel) d (u ∷ queue) sorted ids h e =
      let (rest, eq, ordered, final) =
        drain_lem fuel (relax (dependents g u) (d, queue)).0 (relax (dependents g u) (d, queue)).1
          (sorted ++ u ∷ []) ids (step-IsConsistent d u queue sorted h) e in
      (
        u ∷ rest,
        eq ∙ append_assoc sorted (u ∷ []) rest,
        (head_ready d u queue sorted h, ordered),
        final,
      )
