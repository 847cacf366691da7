-- ===== src/Prelude/Results.antt =====
-- Code that may throw: the value it returns, or the error it throws, of a type the module chooses.

use mathlib.Core.Path.{◌≡◌, refl}
use mathlib.Core.Logic.{◌⊎◌, inl, inr}

pub data Result {ℓ} (E : Type 0) (A : Type ℓ) : Type ℓ where
  ok : A → Result E A
  err : E → Result E A

module _ {ℓ κ} {E : Type 0} {A : Type ℓ} {B : Type κ} where
  infixl 5 ◌>>=◌ ◌>>◌
  -- The rest of the code runs on the value; an error ends it.
  abbrev pub ◌>>=◌ : Result E A → (A → Result E B) → Result E B
  err thrown >>= rest = err thrown
  ok value >>= rest = rest value

  abbrev pub ◌>>◌ : Result E A → Result E B → Result E B
  first >> second = first >>= (λ _. second)

  -- Code that returns has a first part that returned, and goes on from its value.
  pub >>=-returns :
      (first : Result E A) (rest : A → Result E B) (result : B)
      → first >>= rest ≡ ok result
      → (value : A) × (rest value ≡ ok result) × (first ≡ ok value)
  >>=-returns (err thrown) rest result h = absurd (cc)
  >>=-returns (ok value) rest result h = (value, h, refl)

pub Result-cases {ℓ} :
    {E : Type 0} {A : Type ℓ} (r : Result E A)
    → ((thrown : E) × (r ≡ err thrown)) ⊎ ((value : A) × (r ≡ ok value))
Result-cases (err thrown) = inl (thrown, refl)
Result-cases (ok value) = inr (value, refl)
