-- ===== src/Prelude/GoMap.antt =====
-- Go's built-in map: lookup, assignment, delete, len and range. The order of the entries is the
-- order in which a range visits them, which Go leaves open.
pub mod Iterate
pub mod Occurrences
use mathlib.Core.Path.{◌≡◌, refl}
use mathlib.Core.Option.{Option, none, some}
use mathlib.Core.List.{List, [], ◌∷◌}
use native.Mathlib.Omega.{arith}
use convex_go.Prelude.Tests.{if◌then◌else◌}
use convex_go.Prelude.Eq.{Eq, ◌=?◌}

pub record GoMap {ℓ κ} (K : Type ℓ) (V : Type κ) : Type (ℓ ⊔ κ) where
  pub entries : List (K × V)

abbrev pub empty {ℓ κ} : {K : Type ℓ} {V : Type κ} → GoMap K V
empty = record { entries = [] }

module _ {ℓ κ} {K : Type ℓ} {V : Type κ} ⦃e : Eq K⦄ where
  unfoldable pub lookup : K → List (K × V) → Option V
  lookup k [] = none
  lookup k ((j, v) ∷ l) = if j =? k then some v else lookup k l

  unfoldable pub without : K → List (K × V) → List (K × V)
  without k [] = []
  without k ((j, v) ∷ l) = let rest = without k l in if j =? k then rest else (j, v) ∷ rest

  -- m[k], with none for a missing key.
  unfoldable pub get : GoMap K V → K → Option V
  unfolding lookup
  get m k = lookup k m.entries

  -- m[k] = v
  unfoldable pub put : GoMap K V → K → V → GoMap K V
  unfolding without
  put m k v = record { entries = (k, v) ∷ without k m.entries }

  -- delete(m, k)
  unfoldable pub delete : GoMap K V → K → GoMap K V
  unfolding without
  delete m k = record { entries = without k m.entries }

  pub lookup-without :
      (k j : K) (l : List (K × V)) → lookup j (without k l) ≡ (if k =? j then none else lookup j l)
  unfolding lookup without
  lookup-without k j [] = ground arith
  lookup-without k j ((i, v) ∷ l) =
      ground (arith, lookup-without k j l, e.beq_iff i k, e.beq_iff i j, e.beq_iff k j)

  pub get-delete :
      (m : GoMap K V) (k j : K) → get (delete m k) j ≡ (if k =? j then none else get m j)
  unfolding get delete
  get-delete m k j = lookup-without k j m.entries

  pub get-put :
      (m : GoMap K V) (k j : K) (v : V) → get (put m k v) j ≡ (if k =? j then some v else get m j)
  unfolding get put
  get-put m k j v = ground (arith, lookup-without k j m.entries)

  pub get-empty : (k : K) → get (empty {K = K} {V = V}) k ≡ none
  unfolding get
  get-empty k = refl

pub ruleset map_laws = (get-empty, get-put, get-delete)
