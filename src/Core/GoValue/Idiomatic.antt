-- ===== src/Core/GoValue/Idiomatic.antt =====
-- internal/core/value.go: the accessors of a Value, GoValue, and the way back through ValueFromGo.
use convex_go.Prelude.{ℕ, ◌≡◌, refl, ap, ◌∙◌, Bool, Option, none, some, List, Str}
use convex_go.Core.Error.{Result, ok, ◌>>=◌}
use convex_go.Core.Wire.{Wire}
use convex_go.Core.Value.{
  Value, Values, Members, null, int64, float64, boolean, string, bytes, array, object, no_values,
  value, no_members, member, convex_json, convex_json_array, convex_json_object, value_from_wire,
}
use convex_go.Core.Value.RoundTrip.{IsSized, value_from_wire-convex_json}
use convex_go.Core.GoValue.{
  Any, Anys, Entries, nil, bool, int, float, slice, map, no_elements, element, no_entries, entry,
  encode_value, encode_sequence, encode_map, value_from_go,
}

-- Value.Int64, Float64, Bool, String, Bytes, Array and Object: none for another kind.
abbrev pub as_int64 : Value → Option ℕ
as_int64 (int64 n) = some n
as_int64 _ = none

abbrev pub as_float64 : Value → Option ℕ
as_float64 (float64 f) = some f
as_float64 _ = none

abbrev pub as_bool : Value → Option Bool
as_bool (boolean b) = some b
as_bool _ = none

abbrev pub as_string : Value → Option Str
as_string (string s) = some s
as_string _ = none

abbrev pub as_bytes : Value → Option (List ℕ)
as_bytes (bytes bs) = some bs
as_bytes _ = none

abbrev pub as_array : Value → Option Values
as_array (array vs) = some vs
as_array _ = none

abbrev pub as_object : Value → Option Members
as_object (object ms) = some ms
as_object _ = none

-- Value.GoValue
unfoldable mutual
  pub go_value : Value → Any
  go_value null = nil
  go_value (int64 n) = int n
  go_value (float64 f) = float f
  go_value (boolean b) = bool b
  go_value (string s) = Any.string s
  go_value (bytes bs) = Any.bytes bs
  go_value (array vs) = slice (go_values vs)
  go_value (object ms) = map (go_members ms)

  pub go_values : Values → Anys
  go_values no_values = no_elements
  go_values (value v vs) = element (go_value v) (go_values vs)

  pub go_members : Members → Entries
  go_members no_members = no_entries
  go_members (member k v ms) = entry k (go_value v) (go_members ms)

mutual
  unfolding go_value encode_value convex_json

  encode_go : (v : Value) → encode_value (go_value v) ≡ convex_json v
  encode_go null = refl
  encode_go (int64 n) = refl
  encode_go (float64 f) = refl
  encode_go (boolean b) = refl
  encode_go (string s) = refl
  encode_go (bytes bs) = refl
  encode_go (array vs) = rw (encode_gos vs) refl
  encode_go (object ms) = rw (encode_go_members ms) refl

  encode_gos : (vs : Values) → encode_sequence (go_values vs) ≡ convex_json_array vs
  encode_gos no_values = refl
  encode_gos (value v vs) = rw (encode_go v, encode_gos vs) refl

  encode_go_members : (ms : Members) → encode_map (go_members ms) ≡ convex_json_object ms
  encode_go_members no_members = refl
  encode_go_members (member k v ms) = rw (encode_go v, encode_go_members ms) refl

-- What GoValue returns is never a Value, so ValueFromGo encodes and decodes it.
value_from_go-go_value_eq :
    (v : Value) → value_from_go (go_value v) ≡ (encode_value (go_value v) >>= value_from_wire)
unfolding value_from_go go_value
value_from_go-go_value_eq null = refl
value_from_go-go_value_eq (int64 n) = refl
value_from_go-go_value_eq (float64 f) = refl
value_from_go-go_value_eq (boolean b) = refl
value_from_go-go_value_eq (string s) = refl
value_from_go-go_value_eq (bytes bs) = refl
value_from_go-go_value_eq (array vs) = refl
value_from_go-go_value_eq (object ms) = refl

-- ValueFromGo of what GoValue returns is the value, if it can be encoded and its words and bytes are in
-- range.
pub value_from_go-go_value :
    (v : Value) (w : Wire) → IsSized v → convex_json v ≡ ok w → value_from_go (go_value v) ≡ ok v
value_from_go-go_value v w h e =
    value_from_go-go_value_eq v
    ∙ ap (λ (r : Result Wire). r >>= value_from_wire) (encode_go v)
    ∙ rw e (value_from_wire-convex_json v w h e)
