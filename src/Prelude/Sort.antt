-- ===== src/Prelude/Sort.antt =====
-- sort.Slice, as a function of the comparison, and the elements of what it returns.
use mathlib.Core.Path.{◌≡◌, refl}
use mathlib.Core.Bool.{Bool, ◌||◌}
use mathlib.Core.List.{List, [], ◌∷◌, map}
use native.Mathlib.Omega.{arith}
use mathlib.Core.Logic.{inl, inr}
use convex_go.Prelude.Tests.{if◌then◌else◌, Bool-cases}
use convex_go.Prelude.Lists.{All}
use convex_go.Prelude.Eq.{Eq, ◌=?◌}
use convex_go.Prelude.GoMap.Iterate.{elem}

module _ {ℓ} {A : Type ℓ} (less : A → A → Bool) where
  unfoldable pub insert_sorted : A → List A → List A
  insert_sorted x [] = x ∷ []
  insert_sorted x (y ∷ ys) =
      let rest = insert_sorted x ys in if less y x then y ∷ rest else x ∷ y ∷ ys

  unfoldable pub sort_slice : List A → List A
  unfolding insert_sorted
  sort_slice [] = []
  sort_slice (x ∷ xs) = insert_sorted x (sort_slice xs)

module _ {ℓ} {A : Type ℓ} ⦃e : Eq A⦄ (less : A → A → Bool) where
  elem-insert_sorted :
      (k x : A) (xs : List A) → elem k (insert_sorted less x xs) ≡ ((x =? k) || elem k xs)
  unfolding insert_sorted elem
  elem-insert_sorted k x [] = refl
  elem-insert_sorted k x (y ∷ ys) = ground (arith, elem-insert_sorted k x ys)

  -- Sorting neither loses nor adds an element.
  pub elem-sort_slice : (k : A) (xs : List A) → elem k (sort_slice less xs) ≡ elem k xs
  unfolding sort_slice elem
  elem-sort_slice k [] = refl
  elem-sort_slice k (x ∷ xs) =
      ground (arith, elem-insert_sorted k x (sort_slice less xs), elem-sort_slice k xs)

module _ {ℓ κ} {A : Type ℓ} {B : Type κ} ⦃e : Eq B⦄ (less : A → A → Bool) (f : A → B) where
  elem-map-insert_sorted :
      (k : B) (x : A) (xs : List A)
      → elem k (map f (insert_sorted less x xs)) ≡ ((f x =? k) || elem k (map f xs))
  unfolding insert_sorted elem
  elem-map-insert_sorted k x [] = refl
  elem-map-insert_sorted k x (y ∷ ys) = ground (arith, elem-map-insert_sorted k x ys)

  -- Nor does it change the keys of the elements.
  pub elem-map-sort_slice :
      (k : B) (xs : List A) → elem k (map f (sort_slice less xs)) ≡ elem k (map f xs)
  unfolding sort_slice elem
  elem-map-sort_slice k [] = refl
  elem-map-sort_slice k (x ∷ xs) =
      ground (arith, elem-map-insert_sorted k x (sort_slice less xs), elem-map-sort_slice k xs)

module _ {ℓ κ} {A : Type ℓ} (P : A → Type κ) (less : A → A → Bool) where
  All-insert_sorted : (x : A) (xs : List A) → P x → All P xs → All P (insert_sorted less x xs)
  unfolding insert_sorted
  All-insert_sorted x [] p h = (p, tt)
  All-insert_sorted x (y ∷ ys) p h = elim (Bool-cases (less y x)) [
    | inl before ↦ rw before (h.0, All-insert_sorted x ys p h.1)
    | inr after ↦ rw after (p, h)
  ]

  -- What holds of every element holds of every element of the sorted list.
  pub All-sort_slice : (xs : List A) → All P xs → All P (sort_slice less xs)
  unfolding sort_slice
  All-sort_slice [] h = tt
  All-sort_slice (x ∷ xs) h = All-insert_sorted x (sort_slice less xs) h.0 (All-sort_slice xs h.1)
