-- ===== src/Prelude/Sorting.antt =====
-- `Array.prototype.toSorted((a, b) => key(a) - key(b))`: a stable sort by a numeric key.
use Prim.Native.Nat.{ℕ, ◌≤◌}
use mathlib.Core.Path.{◌≡◌}
use mathlib.Core.Bool.{Bool, ◌||◌}
use mathlib.Core.Path.{refl}
use mathlib.Core.Logic.{◌⊎◌, ◌↔◌, inl, inr}
use mathlib.Core.List.{List, [], ◌∷◌}
use native.Mathlib.Omega.{arith}
use checkmate.Prelude.Lists.{any, All, In, filter}
use checkmate.Prelude.Tests.{leb, leb→le, if◌then◌else◌, Bool-cases}

module _ {ℓ} {A : Type ℓ} (key : A → ℕ) where
  unfoldable pub insert_by : A → List A → List A
  insert_by x [] = x ∷ []
  insert_by x (y ∷ ys) = if leb (key x) (key y) then x ∷ y ∷ ys else y ∷ insert_by x ys

  unfoldable pub sort_by : List A → List A
  unfolding insert_by
  sort_by [] = []
  sort_by (x ∷ xs) = insert_by x (sort_by xs)

  -- Every item is at most all that follow it.
  abbrev pub IsSortedBy : List A → Type ℓ
  IsSortedBy [] = Unit
  IsSortedBy (x ∷ xs) = All (λ y. key x ≤ key y) xs × IsSortedBy xs

  All-insert_by {κ} :
      (P : A → Type κ) (x : A) (ys : List A) → P x → All P ys → All P (insert_by x ys)
  unfolding insert_by
  All-insert_by P x [] px h = (px, tt)
  All-insert_by P x (y ∷ ys) px (py, h) = elim (Bool-cases (leb (key x) (key y))) [
    | inl e ↦ rw e (px, (py, h))
    | inr e ↦ rw e (py, All-insert_by P x ys px h)
  ]

  All-le_trans : (a b : ℕ) (ys : List A) → a ≤ b → All (λ y. b ≤ key y) ys → All (λ y. a ≤ key y) ys
  All-le_trans a b [] h hs = tt
  All-le_trans a b (y ∷ ys) h (k, hs) = (omega arith, All-le_trans a b ys h hs)

  insert_by-IsSortedBy : (x : A) (ys : List A) → IsSortedBy ys → IsSortedBy (insert_by x ys)
  unfolding insert_by
  insert_by-IsSortedBy x [] h = (tt, tt)
  insert_by-IsSortedBy x (y ∷ ys) (h, hs) = elim (Bool-cases (leb (key x) (key y))) [
    | inl e ↦
        let le : key x ≤ key y = leb→le _ _ e in
        rw e ((le, All-le_trans (key x) (key y) ys le h), (h, hs))
    | inr e ↦
        rw e
          (All-insert_by (λ z. key y ≤ key z) x ys (ground arith) h, insert_by-IsSortedBy x ys hs)
  ]

  pub sort_by-IsSortedBy : (xs : List A) → IsSortedBy (sort_by xs)
  unfolding sort_by
  sort_by-IsSortedBy [] = tt
  sort_by-IsSortedBy (x ∷ xs) = insert_by-IsSortedBy x (sort_by xs) (sort_by-IsSortedBy xs)

  pub All-sort_by {κ} : (P : A → Type κ) (xs : List A) → All P xs → All P (sort_by xs)
  unfolding sort_by
  All-sort_by P [] h = tt
  All-sort_by P (x ∷ xs) (px, h) = All-insert_by P x (sort_by xs) px (All-sort_by P xs h)

module _ {A : Type 0} (key : A → ℕ) where
  insert_by-In : (a x : A) (ys : List A) → In a (insert_by key x ys) ↔ ((x ≡ a) ⊎ In a ys)
  unfolding insert_by
  insert_by-In a x [] = (λ m. m, λ m. m)
  insert_by-In a x (y ∷ ys) = ground (arith, insert_by-In a x ys)

  -- Sorting keeps the items.
  pub sort_by-In : (a : A) (xs : List A) → In a (sort_by key xs) ↔ In a xs
  unfolding sort_by
  sort_by-In a [] = (λ m. m, λ m. m)
  sort_by-In a (x ∷ xs) = ground (arith, insert_by-In a x (sort_by key xs), sort_by-In a xs)

module _ {ℓ} {A : Type ℓ} (key : A → ℕ) where
  insert_by_front :
      (x : A) (ys : List A) → All (λ y. key x ≤ key y) ys → insert_by key x ys ≡ x ∷ ys
  unfolding insert_by
  insert_by_front x [] h = refl
  insert_by_front x (y ∷ ys) (h, hs) = ground arith

  All-filter_of {κ} : (P : A → Type κ) (p : A → Bool) (xs : List A) → All P xs → All P (filter p xs)
  All-filter_of P p [] h = tt
  All-filter_of P p (x ∷ xs) (h, hs) = elim (Bool-cases (p x)) [
    | inl e ↦ rw e (h, All-filter_of P p xs hs)
    | inr e ↦ rw e (All-filter_of P p xs hs)
  ]

  filter-insert_by :
      (p : A → Bool) (x : A) (ys : List A)
      → IsSortedBy key ys
      → filter p (insert_by key x ys) ≡ (if p x then insert_by key x (filter p ys) else filter p ys)
  unfolding insert_by
  filter-insert_by p x [] h = ground arith
  filter-insert_by p x (y ∷ ys) (h, hs) = elim (Bool-cases (leb (key x) (key y))) [
    | inl e ↦
        let le : key x ≤ key y = leb→le _ _ e in
        rw e (
          ground (
            arith,
            insert_by_front x (filter p ys) (
                All-filter_of (λ z. key x ≤ key z) p ys (All-le_trans key (key x) (key y) ys le h)),
          ))
    | inr e ↦ rw e (ground (arith, filter-insert_by p x ys hs))
  ]

  -- Filtering before or after a stable sort is the same.
  pub filter-sort_by :
      (p : A → Bool) (xs : List A) → filter p (sort_by key xs) ≡ sort_by key (filter p xs)
  unfolding sort_by
  filter-sort_by p [] = refl
  filter-sort_by p (x ∷ xs) = ground (
    arith,
    filter-insert_by p x (sort_by key xs) (sort_by-IsSortedBy key xs),
    filter-sort_by p xs,
  )

  any-insert_by :
      (p : A → Bool) (x : A) (ys : List A) → any p (insert_by key x ys) ≡ (p x || any p ys)
  unfolding insert_by
  any-insert_by p x [] = refl
  any-insert_by p x (y ∷ ys) = ground (arith, any-insert_by p x ys)

  pub any-sort_by : (p : A → Bool) (xs : List A) → any p (sort_by key xs) ≡ any p xs
  unfolding sort_by
  any-sort_by p [] = refl
  any-sort_by p (x ∷ xs) = ground (arith, any-insert_by p x (sort_by key xs), any-sort_by p xs)
