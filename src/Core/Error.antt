-- ===== src/Core/Error.antt =====
-- The errors of the modelled packages, one constructor for each message, and results that may fail.
use convex_go.Prelude.{ℕ, ◌≡◌, refl, ◌⊎◌, inl, inr, Bool, true, false, Option, Str}

pub data Error : Type 0 where
  -- internal/core/path.go
  empty_identifier identifier_too_long invalid_first_character : Error
  invalid_character only_underscores : Error
  empty_module_path absolute_module_path invalid_module_path : Error
  invalid_path_component component_too_long component_characters component_no_alnum : Error
  module_extension too_few_parts : Error
  -- internal/core/value.go
  field_name_too_long field_name_dollar field_name_character : Error
  uint_too_large malformed_base64 malformed_field wrong_length : Error
  plain_float set_unsupported map_unsupported : Error
  -- baseclient/canonical.go
  args_not_object : Error
  -- baseclient/client_state.go
  unknown_subscriber : Error
  unknown_query_id query_token_missing : ℕ → Error
  no_auth_callback : Error
  -- baseclient/client_receive.go
  fatal_error : Str → Error
  auth_error : Str → Option ℕ → Option Bool → Error
  unexpected_transition_chunk version_mismatch : Error
  optimistic_update_failed : ℕ → Error → Error
  invalid_mutation_request mismatched_mutation_response : ℕ → Error
  missing_mutation_timestamp : Error
  invalid_action_request mismatched_action_response : ℕ → Error
  -- baseclient/optimistic_updates.go
  encode_optimistic_value : Error → Error
  -- internal/syncprotocol
  json_type number_range unsupported_float : Error
  field_failed : Str → Error → Error
  element_failed : ℕ → Error → Error
  timestamp_too_large timestamp_length : Error
  missing_message_type nil_message missing_modifications missing_journal missing_identity : Error
  unknown_message_type unknown_modification_type : Str → Error
  -- internal/syncclient
  already_running : Error
  transport_failed : Str → Error
  -- an error that a callback of the application returns
  callback_failed : Str → Error

-- What a Go function with an error result returns.
pub data Result {ℓ} (A : Type ℓ) : Type ℓ where
  err : Error → Result A
  ok : A → Result A

abbrev pub is_ok {ℓ} : {A : Type ℓ} → Result A → Bool
is_ok (err e) = false
is_ok (ok x) = true

infixl 5 ◌>>=◌
abbrev pub ◌>>=◌ {ℓ κ} : {A : Type ℓ} {B : Type κ} → Result A → (A → Result B) → Result B
err e >>= k = err e
ok x >>= k = k x

infixl 5 ◌>>◌
abbrev pub ◌>>◌ {ℓ} : {B : Type ℓ} → Result (Unit {0}) → Result B → Result B
check >> rest = check >>= λ done. rest

abbrev pub map_ok {ℓ κ} : {A : Type ℓ} {B : Type κ} → (A → B) → Result A → Result B
map_ok f (err e) = err e
map_ok f (ok x) = ok (f x)

pub Result-cases {ℓ} :
    {A : Type ℓ} (r : Result A) → ((e : Error) × (r ≡ err e)) ⊎ ((x : A) × (r ≡ ok x))
Result-cases (err e) = inl (e, refl)
Result-cases (ok x) = inr (x, refl)

module _ {ℓ κ} {A : Type ℓ} {B : Type κ} where
  -- A chain that succeeds has succeeded at its first link.
  pub >>=-eq-ok :
      (r : Result A) (k : A → Result B) {y : B}
      → (r >>= k) ≡ ok y
      → (x : A) × (r ≡ ok x) × (k x ≡ ok y)
  >>=-eq-ok (err e) k h = cc
  >>=-eq-ok (ok x) k h = (x, refl, h)
