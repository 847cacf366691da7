-- ===== src/Plugins/Sorter/Termination.antt =====
-- dependency-sorter.ts: the loop over the queue ends.
use checkmate.Prelude.{
  ℕ, zero, suc, ◌+◌, ◌≤◌, ◌≡◌, refl, String, List, [], ◌∷◌, ◌++◌, some, arith, length,
  length-append,
}
use checkmate.Prelude.Unique.{IsUnique, length-le_of_includes, All-includes}
use checkmate.Prelude.Map.{keys}
use checkmate.Plugins.Sorter.{Degrees, Graph, dependents, relax, drain}
use checkmate.Plugins.Sorter.Loop.{IsConsistent, step-IsConsistent}

module _ (known : List String) (g : Graph) (unique_keys : IsUnique (keys g)) where
  queued_le :
      (d : Degrees) (u : String) (queue sorted : List String)
      → IsConsistent known g d (u ∷ queue) sorted
      → length sorted + 1 ≤ length known
  queued_le d u queue sorted h = omega (
    arith,
    length-append sorted (u ∷ queue),
    length-le_of_includes (sorted ++ u ∷ queue) known h.once
        (All-includes (sorted ++ u ∷ queue) known h.queued),
  )

  -- Every round takes one of the known plugins that was not taken before.
  pub drain_total :
      (fuel : ℕ) (d : Degrees) (queue sorted : List String)
      → IsConsistent known g d queue sorted
      → length known ≤ fuel + length sorted
      → (ids : List String) × (drain fuel g d queue sorted ≡ some ids)
  unfolding drain
  drain_total zero d [] sorted h le = (sorted, refl)
  drain_total (suc fuel) d [] sorted h le = (sorted, refl)
  drain_total zero d (u ∷ queue) sorted h le =
      absurd (omega (arith, queued_le d u queue sorted h, le))
  drain_total (suc fuel) d (u ∷ queue) sorted h le =
      drain_total fuel (relax (dependents g u) (d, queue)).0 (relax (dependents g u) (d, queue)).1
        (sorted ++ u ∷ []) (step-IsConsistent known g unique_keys d u queue sorted h)
        (omega (arith, length-append sorted (u ∷ []), le))
