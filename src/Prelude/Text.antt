-- ===== src/Prelude/Text.antt =====
-- Equality of texts (`===` on strings), and `Array.prototype.includes` over texts.
use Prim.Native.String
use Prim.Native.String.{String}
use text.Mathlib.Text.{◌==◌}
use text.Mathlib.TextEquality.{eq_iff}
use mathlib.Core.Path.{◌≡◌, refl}
use mathlib.Core.Bool.{Bool, true, false, ◌||◌}
use mathlib.Core.Logic.{◌↔◌, ◌≢◌}
use mathlib.Core.List.{List, [], ◌∷◌}
use native.Mathlib.Omega.{arith}
use checkmate.Prelude.Lists.{In}

infix 50 ◌===◌
abbrev pub ◌===◌ : String → String → Bool
s === t = s == t

pub ===_iff : (s t : String) → ((s === t) ≡ true) ↔ (s ≡ t)
===_iff s t = eq_iff s t

pub ===_refl : (s : String) → (s === s) ≡ true
===_refl s = (eq_iff s s).1 refl

pub ===-false : (s t : String) → s ≢ t → (s === t) ≡ false
===-false s t h = ground (arith, eq_iff s t)

abbrev pub includes : List String → String → Bool
includes [] s = false
includes (x ∷ xs) s = x === s || includes xs s

pub includes_iff : (xs : List String) (s : String) → (includes xs s ≡ true) ↔ In s xs
includes_iff [] s = (λ h. cc, λ m. absurd m)
includes_iff (x ∷ xs) s = ground (arith, eq_iff x s, includes_iff xs s)

infixl 65 ◌++ₛ◌
abbrev pub ◌++ₛ◌ : String → String → String
s ++ₛ t = String.◌++◌ s t
