-- ===== src/Prelude/Eq.antt =====
-- Equality of map keys, as an interface.
use Prim.Native.Nat.{ℕ}
use mathlib.Core.Path.{◌≡◌}
use mathlib.Core.Logic.{◌↔◌}
use mathlib.Core.Bool.{Bool, true, false, ◌&&◌}
use mathlib.Core.List.{List, [], ◌∷◌}
use native.Mathlib.Omega.{arith}
use convex_go.Prelude.Tests.{◌==◌ as nat_beq, ==_iff}

pub record Eq {ℓ} (A : Type ℓ) : Type ℓ where
  pub beq : A → A → Bool
  pub beq_iff : (x y : A) → (beq x y ≡ true) ↔ (x ≡ y)

instance abbrev pub nat_eq : Eq ℕ
nat_eq = record { beq = nat_beq; beq_iff = ==_iff }

infix 50 ◌=?◌
abbrev pub ◌=?◌ {ℓ} : {A : Type ℓ} ⦃e : Eq A⦄ → A → A → Bool
◌=?◌ ⦃e⦄ = e.beq

abbrev pub list_beq : List ℕ → List ℕ → Bool
list_beq [] [] = true
list_beq [] (y ∷ ys) = false
list_beq (x ∷ xs) [] = false
list_beq (x ∷ xs) (y ∷ ys) = nat_beq x y && list_beq xs ys

pub list_beq_iff : (xs ys : List ℕ) → (list_beq xs ys ≡ true) ↔ (xs ≡ ys)
list_beq_iff [] [] = ground arith
list_beq_iff [] (y ∷ ys) = ground arith
list_beq_iff (x ∷ xs) [] = ground arith
list_beq_iff (x ∷ xs) (y ∷ ys) = ground (arith, list_beq_iff xs ys)

instance abbrev pub str_eq : Eq (List ℕ)
str_eq = record { beq = list_beq; beq_iff = list_beq_iff }
