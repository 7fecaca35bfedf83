-- ===== src/Core/Value.antt =====
-- internal/core/value.go: Convex values, their wire form, and the decoder. An int64 and a float64
-- are their 64 bits. The zero Value of Go is `null`. A map lists its entries in the order of a range.
pub mod RoundTrip
use convex_go.Prelude.{
  ℕ, ◌/◌, ◌%◌, ◌^◌, Bool, true, false, ◌&&◌, ◌||◌, Option, none, some, List, [], ◌∷◌, Str, str,
  length, if◌then◌else◌, ◌==◌, ltb, leb,
}
use convex_go.Prelude.Eq.{list_beq}
use convex_go.Core.Error.{
  Result, ok, err, ◌>>=◌, ◌>>◌, field_name_too_long, field_name_dollar, field_name_character,
  malformed_field, plain_float, set_unsupported, map_unsupported,
}
use convex_go.Core.Base64.{encode_to_string, decode_base64_compat, encode_bits, decode_bits}
use convex_go.Core.Wire.{
  Wire, Wires, WireFields, nil, bool, number, text, list, dict, nil_dict, no_items, item, no_fields,
  field,
}

mutual
  pub data Value : Type 0 where
    null : Value
    int64 : ℕ → Value
    float64 : ℕ → Value
    boolean : Bool → Value
    string : Str → Value
    bytes : List ℕ → Value
    array : Values → Value
    object : Members → Value

  pub data Values : Type 0 where
    no_values : Values
    value : Value → Values → Values

  pub data Members : Type 0 where
    no_members : Members
    member : Str → Value → Members → Members

abbrev pub max_identifier_len : ℕ
max_identifier_len = 1024

abbrev has_dollar : Str → Bool
has_dollar [] = false
has_dollar (c ∷ k) = c == b'$'

abbrev has_non_ascii : Str → Bool
has_non_ascii [] = false
has_non_ascii (c ∷ k) = (ltb c 32 || leb 127 c) || has_non_ascii k

unfoldable pub validate_object_field : Str → Result (Unit {0})
validate_object_field k =
    if ltb max_identifier_len (length k)
    then err field_name_too_long
    else if has_dollar k
    then err field_name_dollar
    else if has_non_ascii k
    then err field_name_character
    else ok tt

-- NaN, the infinities and the negative zero, by their bits.
unfoldable pub is_special_float : ℕ → Bool
is_special_float f = f / 2 ^ 52 % 2 ^ 11 == 2047 || f == 2 ^ 63

abbrev pub integer_key : Str
integer_key = str "$integer"

abbrev pub float_key : Str
float_key = str "$float"

abbrev pub bytes_key : Str
bytes_key = str "$bytes"

unfoldable pub encoded_int64 : ℕ → Wire
encoded_int64 n = dict (field integer_key (text (encode_bits n)) no_fields)

unfoldable pub encoded_float64 : ℕ → Wire
encoded_float64 f =
    if is_special_float f then dict (field float_key (text (encode_bits f)) no_fields) else number f

unfoldable pub encoded_bytes : List ℕ → Wire
encoded_bytes bs = dict (field bytes_key (text (encode_to_string bs)) no_fields)

-- Value.ConvexJSON
unfoldable mutual
  pub convex_json : Value → Result Wire
  convex_json null = ok nil
  convex_json (int64 n) = ok (encoded_int64 n)
  convex_json (float64 f) = ok (encoded_float64 f)
  convex_json (boolean b) = ok (bool b)
  convex_json (string s) = ok (text s)
  convex_json (bytes bs) = ok (encoded_bytes bs)
  convex_json (array vs) = convex_json_array vs >>= λ ws. ok (list ws)
  convex_json (object ms) = convex_json_object ms >>= λ fs. ok (dict fs)

  pub convex_json_array : Values → Result Wires
  convex_json_array no_values = ok no_items
  convex_json_array (value v vs) =
      convex_json v >>= λ w. convex_json_array vs >>= λ ws. ok (item w ws)

  pub convex_json_object : Members → Result WireFields
  convex_json_object no_members = ok no_fields
  convex_json_object (member k v ms) =
      validate_object_field k
      >> (convex_json v >>= λ w. convex_json_object ms >>= λ fs. ok (field k w fs))

-- ObjectValue checks the names again.
unfoldable pub validate_members : Members → Result (Unit {0})
validate_members no_members = ok tt
validate_members (member k v ms) = validate_object_field k >> validate_members ms

unfoldable pub object_value : Members → Result Value
object_value ms = validate_members ms >> ok (object ms)

abbrev wire_string : Wire → Result Str
wire_string (text s) = ok s
wire_string _ = err malformed_field

-- valueFromWireSingleton: none for a key with no meaning of its own.
unfoldable pub value_from_wire_singleton : Str → Wire → Result (Option Value)
value_from_wire_singleton key raw =
    if list_beq key bytes_key
    then (do s ← wire_string raw; bs ← decode_base64_compat s; ok (some (bytes bs)))
    else if list_beq key integer_key
    then (do s ← wire_string raw; n ← decode_bits s; ok (some (int64 n)))
    else if list_beq key float_key
    then (do
      s ← wire_string raw
      f ← decode_bits s
      if is_special_float f then ok (some (float64 f)) else err plain_float)
    else if list_beq key (str "$set")
    then err set_unsupported
    else if list_beq key (str "$map")
    then err map_unsupported
    else ok none

abbrev or_general : Result (Option Value) → Result Value → Result Value
or_general (err e) general = err e
or_general (ok (some v)) general = ok v
or_general (ok none) general = general

-- The case of an object with one entry, before the general one.
unfoldable pub singleton_or : WireFields → Result Value → Result Value
singleton_or (field k w no_fields) general = or_general (value_from_wire_singleton k w) general
singleton_or _ general = general

-- valueFromWire
unfoldable mutual
  unfolding singleton_or object_value

  pub value_from_wire : Wire → Result Value
  value_from_wire nil = ok null
  value_from_wire (bool b) = ok (boolean b)
  value_from_wire (text s) = ok (string s)
  value_from_wire (number f) = ok (float64 f)
  value_from_wire (list ws) = values_from_wire ws >>= λ vs. ok (array vs)
  value_from_wire (dict fs) = singleton_or fs (members_from_wire fs >>= object_value)
  value_from_wire nil_dict = ok (object no_members)

  pub values_from_wire : Wires → Result Values
  values_from_wire no_items = ok no_values
  values_from_wire (item w ws) =
      value_from_wire w >>= λ v. values_from_wire ws >>= λ vs. ok (value v vs)

  pub members_from_wire : WireFields → Result Members
  members_from_wire no_fields = ok no_members
  members_from_wire (field k w fs) =
      validate_object_field k
      >> (value_from_wire w >>= λ v. members_from_wire fs >>= λ ms. ok (member k v ms))
