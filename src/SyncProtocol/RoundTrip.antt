-- ===== src/SyncProtocol/RoundTrip.antt =====
-- What the messages of sync_protocol.go share when they are written and read back: numbers,
-- timestamps, strings, values, lists and versions. The children treat the messages.
pub mod Values
pub mod Notices
pub mod Requests
pub mod QuerySet
pub mod Identity
pub mod Connect
pub mod Authenticate
pub mod Results
pub mod Transition
pub mod Responses
pub mod Client
pub mod Server
use convex_go.Prelude.{
  ℕ, ◌^◌, ◌<◌, ◌≡◌, refl, not, is_some, ◌⊎◌, inl, inr, some, none, arith, Option, List, [], ◌∷◌,
  Str, All, ltb, leb, length, ap, ◌∙◌,
}
use convex_go.Core.Error.{Result, ok, err, >>=-eq-ok, ◌>>=◌}
use convex_go.Core.Base64.{encode_to_string, put_uint64, uint64, decode_base64_compat}
use convex_go.Core.Base64.RoundTrip.{
  decode-encode_to_string, uint64-put, put_uint64-IsBytes, length-put_uint64,
}
use convex_go.SyncProtocol.Json.{
  Json, Jsons, Strconv, json_string, json_array, uint32_of, unmarshal_uint32, marshal_uint32,
  int64_of, unmarshal_int64, marshal_int64, unmarshal_float64, marshal_float64, unmarshal_string,
  raw_object, raw_is_null, unmarshal_exact_field, lookup,
}
use convex_go.SyncProtocol.Timestamp.{
  marshal_timestamp, unmarshal_timestamp, decode_sync_base64_compat, timestamp_of_bytes,
}
use convex_go.SyncProtocol.Fields.{
  marshal_strings, unmarshal_string_list, marshal_string_slice, unmarshal_slice, marshal_slice,
  marshal_elements, decode_elements, marshal_state_version, unmarshal_state_version,
}
use convex_go.SyncProtocol.Messages.{Slice}
use convex_go.Protocol.{StateVersion}

abbrev pub IsU32 : ℕ → Type 0
IsU32 n = n < 2 ^ 32

abbrev pub IsU64 : ℕ → Type 0
IsU64 n = n < 2 ^ 64

pub text_cases : (s : Str) → (s ≡ []) ⊎ ((c : ℕ) × (t : Str) × (s ≡ c ∷ t))
text_cases [] = inl refl
text_cases (c ∷ t) = inr (c, t, refl)

pub optional_cases {ℓ} :
    {A : Type ℓ} (o : Option (Option A))
    → (o ≡ none) ⊎ (o ≡ some none) ⊎ ((x : A) × (o ≡ some (some x)))
optional_cases none = inl refl
optional_cases (some none) = inr (inl refl)
optional_cases (some (some x)) = inr (inr (x, refl))

-- A predicate on the elements of a slice, and on an optional value.
abbrev pub OnSlice {ℓ κ} : {A : Type ℓ} → (A → Type κ) → Slice A → Type κ
OnSlice P none = Unit
OnSlice P (some xs) = All P xs

abbrev pub OnOption {ℓ κ} : {A : Type ℓ} → (A → Type κ) → Option A → Type κ
OnOption P none = Unit
OnOption P (some x) = P x

pub unmarshal-marshal_uint32 : (n : ℕ) → IsU32 n → unmarshal_uint32 (marshal_uint32 n) ≡ ok n
unfolding unmarshal_uint32 marshal_uint32 uint32_of
unmarshal-marshal_uint32 n h = ground arith

pub unmarshal-marshal_int64 : (n : ℕ) → IsU64 n → unmarshal_int64 (marshal_int64 n) ≡ ok n
unfolding unmarshal_int64 marshal_int64 int64_of
unmarshal-marshal_int64 n h = ground arith

pub unmarshal-marshal_float64 :
    (S : Strconv) (f : ℕ) (j : Json)
    → IsU64 f
    → marshal_float64 S f ≡ ok j
    → unmarshal_float64 S j ≡ ok f
unfolding unmarshal_float64 marshal_float64
unmarshal-marshal_float64 S f j h e = ground (arith, S.parse-format f)

decode_sync :
    (s : Str) (bs : List ℕ) → decode_base64_compat s ≡ ok bs → decode_sync_base64_compat s ≡ ok bs
unfolding decode_base64_compat decode_sync_base64_compat
decode_sync s bs h = h

timestamp_bytes : (t : ℕ) → t < 2 ^ 63 → timestamp_of_bytes (put_uint64 t) ≡ ok t
unfolding timestamp_of_bytes
timestamp_bytes t h = ground (arith, uint64-put t, length-put_uint64 t)

-- A timestamp that can be written reads back.
pub unmarshal-marshal_timestamp :
    (t : ℕ) (j : Json) → marshal_timestamp t ≡ ok j → unmarshal_timestamp j ≡ ok t
unfolding marshal_timestamp unmarshal_timestamp unmarshal_string
unmarshal-marshal_timestamp t j h = ground (
  arith,
  timestamp_bytes t,
  decode_sync (encode_to_string (put_uint64 t)) (put_uint64 t)
      (decode-encode_to_string (put_uint64 t) (put_uint64-IsBytes t)),
)

unmarshal-marshal_strings : (ss : List Str) → unmarshal_string_list (marshal_strings ss) ≡ ok ss
unfolding unmarshal_string_list marshal_strings unmarshal_string
unmarshal-marshal_strings [] = refl
unmarshal-marshal_strings (s ∷ ss) = rw (unmarshal-marshal_strings ss) refl

pub unmarshal-marshal_string_slice :
    (ss : Slice Str) → unmarshal_slice unmarshal_string_list (marshal_string_slice ss) ≡ ok ss
unfolding unmarshal_slice marshal_string_slice
unmarshal-marshal_string_slice none = refl
unmarshal-marshal_string_slice (some ss) = rw (unmarshal-marshal_strings ss) refl

module _ {ℓ} {A : Type ℓ} (P : A → Type 0) (marshal : A → Result Json) (decode : Json → Result A)
    (each : (x : A) (j : Json) → P x → marshal x ≡ ok j → decode j ≡ ok x) where
  pub decode-marshal_elements :
      (xs : List A) (i : ℕ) (js : Jsons)
      → All P xs
      → marshal_elements marshal xs ≡ ok js
      → decode_elements decode i js ≡ ok xs
  unfolding marshal_elements decode_elements
  decode-marshal_elements [] i js h e = ground arith
  decode-marshal_elements (x ∷ xs) i js h e =
      let (j, e1, e2) = >>=-eq-ok (marshal x) _ e in
      let (ks, e3, e4) = >>=-eq-ok (marshal_elements marshal xs) _ e2 in
      ground (arith, each x j h.0 e1, decode-marshal_elements xs (ℕ.suc i) ks h.1)

  pub decode-marshal_slice :
      (xs : Slice A) (j : Json)
      → OnSlice P xs
      → marshal_slice (marshal_elements marshal) xs ≡ ok j
      → (unmarshal_slice (decode_elements decode 0) j ≡ ok xs) × (raw_is_null j ≡ not (is_some xs))
  unfolding marshal_slice unmarshal_slice raw_is_null
  decode-marshal_slice none j h e = ground arith
  decode-marshal_slice (some xs) j h e =
      let (js, e1, e2) = >>=-eq-ok (marshal_elements marshal xs) _ e in
      ground (arith, decode-marshal_elements xs 0 js h e1)

pub record IsVersion (v : StateVersion) : Type 0 where
  pub query_set_fits : IsU32 v.query_set
  pub identity_fits : IsU32 v.identity

pub unmarshal-marshal_state_version :
    (v : StateVersion) (j : Json)
    → IsVersion v
    → marshal_state_version v ≡ ok j
    → unmarshal_state_version j ≡ ok v
unfolding marshal_state_version unmarshal_state_version raw_object unmarshal_exact_field lookup
unmarshal-marshal_state_version v j h e =
    let (t, e1, e2) = >>=-eq-ok (marshal_timestamp v.ts) _ e in
    ground (
      arith,
      unmarshal-marshal_timestamp v.ts t e1,
      unmarshal-marshal_uint32 v.query_set h.query_set_fits,
      unmarshal-marshal_uint32 v.identity h.identity_fits,
    )
