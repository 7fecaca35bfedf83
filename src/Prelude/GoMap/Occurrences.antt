-- ===== src/Prelude/GoMap/Occurrences.antt =====
-- How often a key is met, in lists that are collected from a map and sorted.
use Prim.Native.Nat.{ℕ, ◌+◌}
use mathlib.Core.Path.{◌≡◌, refl}
use mathlib.Core.Bool.{Bool}
use mathlib.Core.Option.{some}
use mathlib.Core.List.{List, [], ◌∷◌, map}
use native.Mathlib.Omega.{arith}
use convex_go.Prelude.Tests.{if◌then◌else◌}
use convex_go.Prelude.Eq.{Eq, ◌=?◌}
use convex_go.Prelude.GoMap.{GoMap, get, lookup}
use convex_go.Prelude.GoMap.Iterate.{holds, values_where, Distinct, IsMap}
use convex_go.Prelude.Sort.{insert_sorted, sort_slice}

module _ {ℓ} {K : Type ℓ} ⦃e : Eq K⦄ where
  unfoldable pub occurrences : K → List K → ℕ
  occurrences k [] = 0
  occurrences k (j ∷ js) = (if j =? k then 1 else 0) + occurrences k js

  module _ {κ} {V : Type κ} (f : V → K) (less : V → V → Bool) where
    occurrences-insert_sorted :
        (k : K) (x : V) (xs : List V)
        → occurrences k (map f (insert_sorted less x xs)) ≡ occurrences k (f x ∷ map f xs)
    unfolding insert_sorted occurrences
    occurrences-insert_sorted k x [] = refl
    occurrences-insert_sorted k x (y ∷ ys) = ground (arith, occurrences-insert_sorted k x ys)

    pub occurrences-sort_slice :
        (k : K) (xs : List V)
        → occurrences k (map f (sort_slice less xs)) ≡ occurrences k (map f xs)
    unfolding sort_slice occurrences
    occurrences-sort_slice k [] = refl
    occurrences-sort_slice k (x ∷ xs) =
        ground
          (arith, occurrences-insert_sorted k x (sort_slice less xs), occurrences-sort_slice k xs)

  module _ {κ} {V : Type κ} (f : V → K) (p : V → Bool) where
    occurrences-values_where_list :
        (k : K) (l : List (K × V))
        → Distinct l
        → ((j : K) (v : V) → lookup j l ≡ some v → f v ≡ j)
        → occurrences k (map f (values_where p l)) ≡ (if holds p (lookup k l) then 1 else 0)
    unfolding values_where lookup occurrences
    occurrences-values_where_list k [] d h = refl
    occurrences-values_where_list k ((j, v) ∷ l) d h =
        let rest =
          occurrences-values_where_list k l d.1
            λ i u found. h i u (ground (arith, d.0, e.beq_iff j i)) in
        let first = h j v (ground (arith, e.beq_iff j j)) in
        ground (arith, rest, first, d.0, e.beq_iff j k)

    -- Each key with a value that passes the test is met once, and no other key is.
    pub occurrences-values_where :
        (k : K) (m : GoMap K V)
        → IsMap m
        → ((j : K) (v : V) → get m j ≡ some v → f v ≡ j)
        → occurrences k (map f (values_where p m.entries)) ≡ (if holds p (get m k) then 1 else 0)
    unfolding get
    occurrences-values_where k m d h = occurrences-values_where_list k m.entries d h
