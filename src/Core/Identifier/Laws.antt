-- ===== src/Core/Identifier/Laws.antt =====
-- internal/core/path.go: what ValidateIdentifier accepts.
use convex_go.Prelude.{ℕ, ◌≡◌, ◌↔◌, Bool, true, false, not, ◌&&◌, ◌||◌, [], ◌∷◌, Str, arith, ◌==◌}
use convex_go.Core.Error.{ok}
use convex_go.Core.Identifier.{
  identifier_loop, is_valid_identifier, has_invalid_character, all_underscores, identifier_error,
  validate_identifier, is_alnum, is_ascii_alpha, is_ascii_digit,
}

underscore_not_alnum : (c : ℕ) → (c == b'_') ≡ true → is_alnum c ≡ false
unfolding is_ascii_alpha is_ascii_digit
underscore_not_alnum c h = ground arith

identifier_loop-eq :
    (b : Bool) (s : Str)
    → identifier_loop b s ≡ (not (has_invalid_character s) && (b || not (all_underscores s)))
unfolding identifier_loop has_invalid_character all_underscores
identifier_loop-eq b [] = ground arith
identifier_loop-eq b (c ∷ s) =
    ground (arith, identifier_loop-eq (b || is_alnum c) s, underscore_not_alnum c)

-- The slow path never falls through to its last return: what the fast check refuses, it refuses.
pub validate_identifier-ok :
    (s : Str) → (validate_identifier s ≡ ok tt) ↔ (is_valid_identifier s ≡ true)
unfolding validate_identifier identifier_error is_valid_identifier identifier_loop
validate_identifier-ok [] = ground arith
validate_identifier-ok (c ∷ s) = ground (arith, identifier_loop-eq (false || is_alnum c) s)
