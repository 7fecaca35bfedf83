-- ===== src/SyncProtocol/Json.antt =====
-- JSON documents as encoding/json hands them to internal/syncprotocol: a raw message is the document
-- that its text stands for. An object's keys are distinct; in lookup of a repeated key the
-- last value counts, as in a decoded Go map.
use convex_go.Prelude.{
  ℕ, ◌-◌, ◌/◌, ◌%◌, ◌^◌, ◌<◌, ◌≡◌, Bool, true, false, not, Option, none, some, [], Str,
  if◌then◌else◌, ◌==◌, ltb, leb,
}
use convex_go.Prelude.Eq.{list_beq}
use convex_go.Core.Error.{
  Result, ok, err, ◌>>=◌, json_type, number_range, unsupported_float, field_failed,
}

-- A number literal: an integer with its sign, or the text of one with a fraction or an exponent.
pub data Number : Type 0 where
  integer : Bool → ℕ → Number
  decimal : Str → Number

mutual
  pub data Json : Type 0 where
    json_null : Json
    json_bool : Bool → Json
    json_number : Number → Json
    json_string : Str → Json
    json_array : Jsons → Json
    json_object : JsonFields → Json

  pub data Jsons : Type 0 where
    no_elements : Jsons
    element : Json → Jsons → Jsons

  pub data JsonFields : Type 0 where
    no_entries : JsonFields
    entry : Str → Json → JsonFields → JsonFields

unfoldable pub is_finite : ℕ → Bool
is_finite f = not (f / 2 ^ 52 % 2 ^ 11 == 2047)

-- strconv's floats, of which Go documents that the shortest form of a finite one reads back.
pub record Strconv : Type 0 where
  pub parse_float : Number → Option ℕ
  pub format_float : ℕ → Number
  pub parse-format :
      (f : ℕ) → f < 2 ^ 64 → is_finite f ≡ true → parse_float (format_float f) ≡ some f

-- The value of a key in a decoded map.
unfoldable pub lookup : Str → JsonFields → Option Json
lookup k no_entries = none
lookup k (entry j w fs) = elim (lookup k fs) [
  | some v ↦ some v
  | none ↦ if list_beq j k then some w else none
]

-- rawObject: null decodes into the nil map.
unfoldable pub raw_object : Json → Result JsonFields
raw_object json_null = ok no_entries
raw_object (json_object fs) = ok fs
raw_object _ = err json_type

-- unmarshalExactField into a fresh variable: a missing field leaves its zero.
unfoldable pub unmarshal_exact_field {ℓ} :
    {A : Type ℓ} → (Json → Result A) → A → JsonFields → Str → Result A
unfolding lookup
unmarshal_exact_field unmarshal zero_value raw k = elim (lookup k raw) [
  | none ↦ ok zero_value
  | some j ↦ (elim (unmarshal j) [ ok x ↦ ok x | err e ↦ err (field_failed k e) ])
]

unfoldable pub raw_is_null : Json → Bool
raw_is_null json_null = true
raw_is_null _ = false

-- json.Unmarshal into a string, a bool and the integer types: null changes nothing.
unfoldable pub unmarshal_string : Json → Result Str
unmarshal_string json_null = ok []
unmarshal_string (json_string s) = ok s
unmarshal_string _ = err json_type

unfoldable pub unmarshal_bool : Json → Result Bool
unmarshal_bool json_null = ok false
unmarshal_bool (json_bool b) = ok b
unmarshal_bool _ = err json_type

unfoldable pub uint32_of : Number → Result ℕ
uint32_of (integer true n) = err number_range
uint32_of (integer false n) = if ltb n (2 ^ 32) then ok n else err number_range
uint32_of (decimal s) = err number_range

unfoldable pub unmarshal_uint32 : Json → Result ℕ
unfolding uint32_of
unmarshal_uint32 json_null = ok 0
unmarshal_uint32 (json_number n) = uint32_of n
unmarshal_uint32 _ = err json_type

unfoldable pub marshal_uint32 : ℕ → Json
marshal_uint32 n = json_number (integer false n)

-- An int64 is its 64 bits in two's complement.
unfoldable pub int64_of : Number → Result ℕ
int64_of (integer true n) = if leb n (2 ^ 63) then ok ((2 ^ 64 - n) % 2 ^ 64) else err number_range
int64_of (integer false n) = if ltb n (2 ^ 63) then ok n else err number_range
int64_of (decimal s) = err number_range

unfoldable pub unmarshal_int64 : Json → Result ℕ
unfolding int64_of
unmarshal_int64 json_null = ok 0
unmarshal_int64 (json_number n) = int64_of n
unmarshal_int64 _ = err json_type

unfoldable pub marshal_int64 : ℕ → Json
marshal_int64 n =
    json_number (if ltb n (2 ^ 63) then integer false n else integer true (2 ^ 64 - n))

-- json.Unmarshal into a pointer: null is nil.
unfoldable pub unmarshal_pointer {ℓ} : {A : Type ℓ} → (Json → Result A) → Json → Result (Option A)
unmarshal_pointer unmarshal json_null = ok none
unmarshal_pointer unmarshal j = unmarshal j >>= λ x. ok (some x)

module _ (S : Strconv) where
  unfoldable pub unmarshal_float64 : Json → Result ℕ
  unmarshal_float64 json_null = ok 0
  unmarshal_float64 (json_number n) = elim (S.parse_float n) [
    | none ↦ err number_range
    | some f ↦ ok f
  ]
  unmarshal_float64 _ = err json_type

  unfoldable pub marshal_float64 : ℕ → Result Json
  unfolding is_finite
  marshal_float64 f =
      if is_finite f then ok (json_number (S.format_float f)) else err unsupported_float
