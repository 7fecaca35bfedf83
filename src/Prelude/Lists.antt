-- ===== src/Prelude/Lists.antt =====
-- Lists measured by native numbers, and text as a list of bytes.
use Prim.Native.Nat.{ℕ, suc}
use Prim.Native.Char.{code}
use Prim.Native.String.{String}
use mathlib.Core.List.{List, [], ◌∷◌}

-- A Go string: its bytes.
abbrev pub Str : Type 0
Str = List ℕ

-- A text literal of ASCII characters.
abbrev pub str : String → Str
str String.[] = []
str (String.◌∷◌ c s) = code c ∷ str s

module _ {ℓ} {A : Type ℓ} where
  abbrev pub length : List A → ℕ
  length [] = 0
  length (x ∷ xs) = suc (length xs)

-- A predicate on every element.
abbrev pub All {ℓ κ} : {A : Type ℓ} → (A → Type κ) → List A → Type κ
All P [] = Unit
All P (x ∷ xs) = P x × All P xs
