-- ===== src/Prelude/GoMap/Iterate.antt =====
-- Ranging over a map: the keys and values that a loop collects, and loops that delete keys.
use mathlib.Core.Path.{◌≡◌, refl}
use mathlib.Core.Bool.{Bool, false, ◌||◌}
use mathlib.Core.Option.{Option, none, some}
use mathlib.Core.List.{List, [], ◌∷◌}
use native.Mathlib.Omega.{arith}
use mathlib.Core.Logic.{inl, inr}
use convex_go.Prelude.Tests.{if◌then◌else◌, Bool-cases}
use convex_go.Prelude.Lists.{All}
use convex_go.Prelude.Eq.{Eq, ◌=?◌}
use convex_go.Prelude.GoMap.{GoMap, lookup, without, get, put, delete, lookup-without, get-delete}

-- Whether a lookup found a value that passes the test.
abbrev pub holds {ℓ} : {V : Type ℓ} → (V → Bool) → Option V → Bool
holds p none = false
holds p (some v) = p v

module _ {ℓ κ} {K : Type ℓ} {V : Type κ} where
  -- for k, v := range m { if p(v) { ks = append(ks, k) } }
  unfoldable pub keys_where : (V → Bool) → List (K × V) → List K
  keys_where p [] = []
  keys_where p ((k, v) ∷ l) = let rest = keys_where p l in if p v then k ∷ rest else rest

  -- for _, v := range m { if p(v) { vs = append(vs, v) } }
  unfoldable pub values_where : (V → Bool) → List (K × V) → List V
  values_where p [] = []
  values_where p ((k, v) ∷ l) = let rest = values_where p l in if p v then v ∷ rest else rest

module _ {ℓ} {K : Type ℓ} ⦃e : Eq K⦄ where
  unfoldable pub elem : K → List K → Bool
  elem k [] = false
  elem k (j ∷ js) = (j =? k) || elem k js

module _ {ℓ κ} {K : Type ℓ} {V : Type κ} ⦃e : Eq K⦄ where
  -- Every key has one entry.
  abbrev pub Distinct : List (K × V) → Type κ
  Distinct [] = Unit
  Distinct ((k, v) ∷ l) = (lookup k l ≡ none) × Distinct l

  -- A map as Go has it: every key has one entry.
  abbrev pub IsMap : GoMap K V → Type κ
  IsMap m = Distinct m.entries

  without-Distinct : (k : K) (l : List (K × V)) → Distinct l → Distinct (without k l)
  unfolding without
  without-Distinct k [] d = tt
  without-Distinct k ((j, v) ∷ l) d = ground (arith, without-Distinct k l d.1, lookup-without k j l)

  pub put-IsMap : (m : GoMap K V) (k : K) (v : V) → IsMap m → IsMap (put m k v)
  unfolding put
  put-IsMap m k v d =
      ground (arith, without-Distinct k m.entries d, lookup-without k k m.entries, e.beq_iff k k)

  pub delete-IsMap : (m : GoMap K V) (k : K) → IsMap m → IsMap (delete m k)
  unfolding delete
  delete-IsMap m k d = without-Distinct k m.entries d

  elem-keys_where_list :
      (p : V → Bool) (k : K) (l : List (K × V))
      → Distinct l
      → elem k (keys_where p l) ≡ holds p (lookup k l)
  unfolding elem keys_where lookup
  elem-keys_where_list p k [] d = refl
  elem-keys_where_list p k ((j, v) ∷ l) d =
      ground (arith, elem-keys_where_list p k l d.1, e.beq_iff j k)

  -- A key is collected exactly if the map holds a value for it that passes the test.
  pub elem-keys_where :
      (p : V → Bool) (k : K) (m : GoMap K V)
      → IsMap m
      → elem k (keys_where p m.entries) ≡ holds p (get m k)
  unfolding get
  elem-keys_where p k m d = elem-keys_where_list p k m.entries d

  -- for _, k := range ks { delete(m, k) }
  unfoldable pub delete_all : List K → GoMap K V → GoMap K V
  delete_all [] m = m
  delete_all (k ∷ ks) m = delete_all ks (delete m k)

  pub get-delete_all :
      (ks : List K) (m : GoMap K V) (j : K)
      → get (delete_all ks m) j ≡ (if elem j ks then none else get m j)
  unfolding delete_all elem
  get-delete_all [] m j = refl
  get-delete_all (k ∷ ks) m j = ground (arith, get-delete_all ks (delete m k) j, get-delete m k j)

  -- What holds of every value that a lookup finds holds of every value that a range visits.
  pub All-values_where_list {μ} :
      (P : V → Type μ) (p : V → Bool) (l : List (K × V))
      → Distinct l
      → ((k : K) (v : V) → lookup k l ≡ some v → P v)
      → All P (values_where p l)
  unfolding values_where lookup
  All-values_where_list P p [] d h = tt
  All-values_where_list P p ((k, v) ∷ l) d h =
      let rest =
        All-values_where_list P p l d.1 λ j u found. h j u (ground (arith, d.0, e.beq_iff k j)) in
      let first = h k v (ground (arith, e.beq_iff k k)) in
      elim (Bool-cases (p v)) [ inl kept ↦ rw kept (first, rest) | inr dropped ↦ rw dropped rest ]

  pub All-values_where {μ} :
      (P : V → Type μ) (p : V → Bool) (m : GoMap K V)
      → IsMap m
      → ((k : K) (v : V) → get m k ≡ some v → P v)
      → All P (values_where p m.entries)
  unfolding get
  All-values_where P p m d h = All-values_where_list P p m.entries d h
