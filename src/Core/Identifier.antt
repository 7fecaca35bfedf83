-- ===== src/Core/Identifier.antt =====
-- internal/core/path.go: identifiers, function names and path components.
pub mod Laws
use convex_go.Prelude.{
  ℕ, Bool, true, false, not, ◌&&◌, ◌||◌, [], ◌∷◌, Str, length, if◌then◌else◌, ◌==◌, ltb, leb,
}
use convex_go.Core.Error.{
  Result, ok, err, ◌>>=◌, empty_identifier, identifier_too_long, invalid_first_character,
  invalid_character, only_underscores, component_too_long, component_characters, component_no_alnum,
}

abbrev pub max_identifier_length : ℕ
max_identifier_length = 64

unfoldable pub is_ascii_alpha : ℕ → Bool
is_ascii_alpha c = (leb b'a' c && leb c b'z') || (leb b'A' c && leb c b'Z')

unfoldable pub is_ascii_digit : ℕ → Bool
is_ascii_digit c = leb b'0' c && leb c b'9'

abbrev pub is_alnum : ℕ → Bool
is_alnum c = is_ascii_alpha c || is_ascii_digit c

-- The loop of isValidIdentifier, with hasNonUnderscore.
pub identifier_loop : Bool → Str → Bool
identifier_loop has_non_underscore [] = has_non_underscore
identifier_loop has_non_underscore (c ∷ s) =
    let rest = identifier_loop (has_non_underscore || is_alnum c) s in
    if is_alnum c then rest else if c == b'_' then rest else false

pub is_valid_identifier : Str → Bool
unfolding identifier_loop
is_valid_identifier [] = false
is_valid_identifier (c ∷ s) =
    if ltb max_identifier_length (length (c ∷ s))
    then false
    else if not (is_ascii_alpha c) && not (c == b'_')
    then false
    else identifier_loop false (c ∷ s)

-- Whether some byte is no letter, digit or underscore: the loop of ValidateIdentifier.
pub has_invalid_character : Str → Bool
has_invalid_character [] = false
has_invalid_character (c ∷ s) =
    (not (is_ascii_alpha c) && not (is_ascii_digit c) && not (c == b'_')) || has_invalid_character s

-- strings.Trim(s, "_") == ""
pub all_underscores : Str → Bool
all_underscores [] = true
all_underscores (c ∷ s) = c == b'_' && all_underscores s

-- What ValidateIdentifier does after the fast check has failed.
pub identifier_error : Str → Result (Unit {0})
unfolding has_invalid_character all_underscores
identifier_error [] = err empty_identifier
identifier_error (c ∷ s) =
    if ltb max_identifier_length (length (c ∷ s))
    then err identifier_too_long
    else if not (is_ascii_alpha c) && not (c == b'_')
    then err invalid_first_character
    else if has_invalid_character s
    then err invalid_character
    else if all_underscores (c ∷ s)
    then err only_underscores
    else ok tt

pub validate_identifier : Str → Result (Unit {0})
unfolding is_valid_identifier identifier_error
validate_identifier s = if is_valid_identifier s then ok tt else identifier_error s

unfoldable pub parse_function_name : Str → Result Str
unfolding validate_identifier is_ascii_alpha is_ascii_digit
parse_function_name s = validate_identifier s >>= λ _. ok s

-- The loop of validatePathComponent, with hasAlnum.
pub component_loop : Bool → Str → Result (Unit {0})
component_loop has_alnum [] = if has_alnum then ok tt else err component_no_alnum
component_loop has_alnum (c ∷ s) =
    let rest = component_loop (has_alnum || is_alnum c) s in
    if is_alnum c
    then rest
    else if not (c == b'_') && not (c == b'.')
    then err component_characters
    else rest

unfoldable pub validate_path_component : Str → Result (Unit {0})
unfolding component_loop
validate_path_component s =
    if ltb max_identifier_length (length s) then err component_too_long else component_loop false s
