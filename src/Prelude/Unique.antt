-- ===== src/Prelude/Unique.antt =====
-- Lists of texts in which no text stands twice.
use Prim.Native.Nat.{suc, ◌≤◌}
use Prim.Native.String.{String}
use mathlib.Core.Path.{◌≡◌, refl}
use mathlib.Core.Bool.{true, false, ◌||◌}
use mathlib.Core.List.{List, [], ◌∷◌, ◌++◌}
use native.Mathlib.Omega.{arith}
use checkmate.Prelude.Tests.{if◌then◌else◌}
use checkmate.Prelude.Lists.{length, All}
use checkmate.Prelude.Text.{◌===◌, includes, ===_iff}

abbrev pub IsUnique : List String → Type 0
IsUnique [] = Unit
IsUnique (x ∷ xs) = (includes xs x ≡ false) × IsUnique xs

pub includes-append :
    (xs ys : List String) (s : String) → includes (xs ++ ys) s ≡ (includes xs s || includes ys s)
includes-append [] ys s = refl
includes-append (x ∷ xs) ys s = ground (arith, includes-append xs ys s)

pub IsUnique-append_one :
    (xs : List String) (x : String) → IsUnique xs → includes xs x ≡ false → IsUnique (xs ++ x ∷ [])
IsUnique-append_one [] x h n = (refl, tt)
IsUnique-append_one (y ∷ xs) x (h, hs) n =
    ground
      (arith, IsUnique-append_one xs x hs, includes-append xs (x ∷ []) y, ===_iff x y, ===_iff y x)

-- Both lists together, taken apart.
pub IsUnique-append_parts : (xs ys : List String) → IsUnique (xs ++ ys) → IsUnique xs × IsUnique ys
IsUnique-append_parts [] ys h = (tt, h)
IsUnique-append_parts (x ∷ xs) ys (h, hs) =
    ground (arith, includes-append xs ys x, IsUnique-append_parts xs ys hs)

remove : String → List String → List String
remove s [] = []
remove s (x ∷ xs) = if x === s then xs else x ∷ remove s xs

length-remove :
    (s : String) (xs : List String) → includes xs s ≡ true → length xs ≡ suc (length (remove s xs))
unfolding remove
length-remove s [] h = ground arith
length-remove s (x ∷ xs) h = ground (arith, length-remove s xs)

includes-remove :
    (s t : String) (xs : List String)
    → includes xs t ≡ true
    → (s === t) ≡ false
    → includes (remove s xs) t ≡ true
unfolding remove
includes-remove s t [] h n = h
includes-remove s t (x ∷ xs) h n =
    ground (arith, includes-remove s t xs, ===_iff x s, ===_iff x t, ===_iff s t)

All-includes-remove :
    (s : String) (xs ys : List String)
    → includes xs s ≡ false
    → All (λ x. includes ys x ≡ true) xs
    → All (λ x. includes (remove s ys) x ≡ true) xs
All-includes-remove s [] ys n h = tt
All-includes-remove s (x ∷ xs) ys n (h, hs) =
    ground (arith, includes-remove s x ys, All-includes-remove s xs ys, ===_iff x s, ===_iff s x)

-- A list without repetitions is no longer than a list that has all its texts.
pub length-le_of_includes :
    (xs ys : List String) → IsUnique xs → All (λ x. includes ys x ≡ true) xs → length xs ≤ length ys
length-le_of_includes [] ys u h = omega arith
length-le_of_includes (x ∷ xs) ys (n, u) (h, hs) = ground (
  arith,
  length-remove x ys,
  length-le_of_includes xs (remove x ys) u (All-includes-remove x xs ys n hs),
)

pub All-includes :
    (xs ys : List String)
    → ((x : String) → includes xs x ≡ true → includes ys x ≡ true)
    → All (λ x. includes ys x ≡ true) xs
All-includes [] ys h = tt
All-includes (x ∷ xs) ys h =
    (h x (ground (arith, ===_iff x x)), All-includes xs ys (λ v m. h v (ground (arith, m))))
