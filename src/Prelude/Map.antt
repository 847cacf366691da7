-- ===== src/Prelude/Map.antt =====
-- JavaScript's `Map` with text keys: an association list in insertion order, in which every key
-- stands once.
use Prim.Native.String.{String}
use mathlib.Core.Path.{◌≡◌, refl}
use mathlib.Core.Bool.{Bool, ◌||◌}
use mathlib.Core.Option.{Option, none, some}
use mathlib.Core.List.{List, [], ◌∷◌}
use native.Mathlib.Omega.{arith}
use text.Mathlib.TextEquality.{eq_iff}
use checkmate.Prelude.Tests.{if◌then◌else◌, is_some}
use checkmate.Prelude.Text.{◌===◌, includes}
use checkmate.Prelude.Unique.{IsUnique}

module _ {ℓ} {V : Type ℓ} where
  abbrev pub get : String → List (String × V) → Option V
  get k [] = none
  get k ((j, v) ∷ m) = if j === k then some v else get k m

  -- `map.set(k, v)`: overwrites in place, or adds at the end.
  abbrev pub set : String → V → List (String × V) → List (String × V)
  set k v [] = (k, v) ∷ []
  set k v ((j, w) ∷ m) = if j === k then (j, v) ∷ m else (j, w) ∷ set k v m

  -- `map.delete(k)`.
  abbrev pub delete : String → List (String × V) → List (String × V)
  delete k [] = []
  delete k ((j, w) ∷ m) = if j === k then delete k m else (j, w) ∷ delete k m

  abbrev pub has : String → List (String × V) → Bool
  has k m = is_some (get k m)

  abbrev pub keys : List (String × V) → List String
  keys [] = []
  keys ((j, w) ∷ m) = j ∷ keys m

  abbrev pub values : List (String × V) → List V
  values [] = []
  values ((j, w) ∷ m) = w ∷ values m

  pub get-set :
      (k j : String) (v : V) (m : List (String × V))
      → get j (set k v m) ≡ (if k === j then some v else get j m)
  get-set k j v [] = refl
  get-set k j v ((i, w) ∷ m) = ground (arith, eq_iff k j, eq_iff i k, eq_iff i j, get-set k j v m)

  pub get-delete :
      (k j : String) (m : List (String × V))
      → get j (delete k m) ≡ (if k === j then none else get j m)
  get-delete k j [] = ground arith
  get-delete k j ((i, w) ∷ m) = ground (arith, eq_iff k j, eq_iff i k, eq_iff i j, get-delete k j m)

pub includes-keys :
    {V : Type 0} (k : String) (m : List (String × V)) → includes (keys m) k ≡ has k m
includes-keys k [] = refl
includes-keys k ((j, w) ∷ m) = ground (arith, includes-keys k m)

pub includes-keys-set :
    {V : Type 0} (k j : String) (v : V) (m : List (String × V))
    → includes (keys (set k v m)) j ≡ (k === j || includes (keys m) j)
includes-keys-set k j v [] = ground arith
includes-keys-set k j v ((i, w) ∷ m) =
    ground (arith, eq_iff k j, eq_iff i k, eq_iff i j, includes-keys-set k j v m)

-- `set` keeps a map a map: every key stands once.
pub keys-set-IsUnique :
    {V : Type 0} (k : String) (v : V) (m : List (String × V))
    → IsUnique (keys m)
    → IsUnique (keys (set k v m))
keys-set-IsUnique k v [] h = (refl, tt)
keys-set-IsUnique k v ((i, w) ∷ m) (n, h) =
    ground (arith, eq_iff i k, eq_iff k i, includes-keys-set k i v m, keys-set-IsUnique k v m h)
