-- ===== src/Plugins/Sorter/Degrees.antt =====
-- dependency-sorter.ts: what an in-degree counts.
use checkmate.Prelude.{
  ℕ, ◌+◌, ◌≤◌, ◌≡◌, refl, inl, inr, true, false, String, List, [], ◌∷◌, ◌++◌, arith, if◌then◌else◌,
  Bool-cases,
}
use checkmate.Prelude.Text.{◌===◌, includes, ===_iff}
use checkmate.Prelude.Unique.{IsUnique, includes-append}
use checkmate.Prelude.Map.{set, keys, get-set}
use checkmate.Plugins.Sorter.{Degrees, Graph, degree, dependents}

abbrev pub count : String → List String → ℕ
count v [] = 0
count v (w ∷ ws) = (if w === v then 1 else 0) + count v ws

-- The edges to a plugin from those that are not done.
abbrev pub remaining : String → List String → Graph → ℕ
remaining v done [] = 0
remaining v done ((u, outs) ∷ g) =
    (if includes done u then 0 else count v outs) + remaining v done g

pub count-append : (v : String) (xs ys : List String) → count v (xs ++ ys) ≡ count v xs + count v ys
count-append v [] ys = omega arith
count-append v (x ∷ xs) ys = omega (arith, count-append v xs ys)

pub count_zero : (v : String) (xs : List String) → count v xs ≡ 0 → includes xs v ≡ false
count_zero v [] h = refl
count_zero v (x ∷ xs) h = ground (arith, count_zero v xs)

pub count_pos : (v : String) (xs : List String) → 1 ≤ count v xs → includes xs v ≡ true
count_pos v [] h = ground arith
count_pos v (x ∷ xs) h = ground (arith, count_pos v xs)

pub degree-set :
    (k v : String) (n : ℕ) (d : Degrees)
    → degree (set k n d) v ≡ (if k === v then n else degree d v)
degree-set k v n d = ground (arith, get-set k v n d)

pub dependents-set :
    (k u : String) (outs : List String) (g : Graph)
    → dependents (set k outs g) u ≡ (if k === u then outs else dependents g u)
dependents-set k u outs g = ground (arith, get-set k u outs g)

-- A done plugin with no entry changes nothing.
remaining_other :
    (v u : String) (done : List String) (g : Graph)
    → includes (keys g) u ≡ false
    → remaining v (done ++ u ∷ []) g ≡ remaining v done g
remaining_other v u done [] h = refl
remaining_other v u done ((k, outs) ∷ g) h =
    ground
      (arith, includes-append done (u ∷ []) k, ===_iff u k, ===_iff k u, remaining_other v u done g)

dependents_none : (u : String) (g : Graph) → includes (keys g) u ≡ false → dependents g u ≡ []
dependents_none u [] h = refl
dependents_none u ((k, outs) ∷ g) h = ground (arith, dependents_none u g)

-- A plugin that becomes done takes its edges off.
pub remaining_done :
    (v u : String) (done : List String) (g : Graph)
    → IsUnique (keys g)
    → includes done u ≡ false
    → remaining v (done ++ u ∷ []) g + count v (dependents g u) ≡ remaining v done g
remaining_done v u done [] h n = refl
remaining_done v u done ((k, outs) ∷ g) (hk, h) n = ground (
  arith,
  includes-append done (u ∷ []) k,
  ===_iff u k,
  ===_iff k u,
  remaining_other v u done g,
  dependents_none u g,
  remaining_done v u done g h n,
)

-- With no edge left, all providers are done.
pub remaining_zero :
    (v u : String) (done : List String) (g : Graph)
    → remaining v done g ≡ 0
    → includes (dependents g u) v ≡ true
    → includes done u ≡ true
remaining_zero v u done [] z e = ground arith
remaining_zero v u done ((k, outs) ∷ g) z e =
    ground (arith, ===_iff k u, count_zero v outs, remaining_zero v u done g)

-- With an edge left, some provider is not done.
pub remaining_pos :
    (v : String) (done : List String) (g : Graph)
    → IsUnique (keys g)
    → 1 ≤ remaining v done g
    → (u : String) × (includes (dependents g u) v ≡ true)
      × (includes done u ≡ false)
      × (includes (keys g) u ≡ true)
remaining_pos v done [] h p = absurd (omega (arith, p))
remaining_pos v done ((k, outs) ∷ g) (hk, h) p = elim (Bool-cases (includes done k)) [
  | inl e ↦
      let (u, edge, open_u, known) = remaining_pos v done g h (ground arith) in
      (u, ground (arith, ===_iff k u), open_u, ground arith)
  | inr e ↦ elim (Bool-cases (includes outs v)) [
    | inl here ↦ (k, ground (arith, ===_iff k k), e, ground (arith, ===_iff k k))
    | inr there ↦
        let (u, edge, open_u, known) =
          remaining_pos v done g h (ground (arith, count_pos v outs)) in
        (u, ground (arith, ===_iff k u), open_u, ground arith)
  ]
]
