-- ===== src/Core/Value/RoundTrip.antt =====
-- internal/core/value.go: ConvexJSON, and valueFromWire on what it makes.
use convex_go.Prelude.{ℕ, ◌<◌, ◌^◌, ◌≡◌, refl, false, none, List, [], ◌∷◌, Str, arith}
use convex_go.Core.Error.{Result, ok, ◌>>=◌, >>=-eq-ok}
use convex_go.Core.Base64.RoundTrip.{IsBytes, decode-encode_to_string, decode-encode_bits}
use convex_go.Core.Wire.{Wire, Wires, WireFields, no_fields, field}
use convex_go.Core.Value.{
  Value, Values, Members, null, int64, float64, boolean, string, bytes, array, object, no_values,
  value, no_members, member, has_dollar, validate_object_field, encoded_int64, encoded_float64,
  encoded_bytes, convex_json, convex_json_array, convex_json_object, validate_members, object_value,
  value_from_wire_singleton, singleton_or, value_from_wire, values_from_wire, members_from_wire,
}

-- Words have 64 bits and bytes 8, at every depth.
unfoldable mutual
  pub IsSized : Value → Type 0
  IsSized null = Unit
  IsSized (int64 n) = n < 2 ^ 64
  IsSized (float64 f) = f < 2 ^ 64
  IsSized (boolean b) = Unit
  IsSized (string s) = Unit
  IsSized (bytes bs) = IsBytes bs
  IsSized (array vs) = AreSized vs
  IsSized (object ms) = HasSized ms

  pub AreSized : Values → Type 0
  AreSized no_values = Unit
  AreSized (value v vs) = IsSized v × AreSized vs

  pub HasSized : Members → Type 0
  HasSized no_members = Unit
  HasSized (member k v ms) = IsSized v × HasSized ms

int64-round : (n : ℕ) → n < 2 ^ 64 → value_from_wire (encoded_int64 n) ≡ ok (int64 n)
unfolding value_from_wire encoded_int64 singleton_or value_from_wire_singleton
int64-round n h = ground (arith, decode-encode_bits n)

bytes-round : (bs : List ℕ) → IsBytes bs → value_from_wire (encoded_bytes bs) ≡ ok (bytes bs)
unfolding value_from_wire encoded_bytes singleton_or value_from_wire_singleton
bytes-round bs h = ground (arith, decode-encode_to_string bs)

float64-round : (f : ℕ) → f < 2 ^ 64 → value_from_wire (encoded_float64 f) ≡ ok (float64 f)
unfolding value_from_wire encoded_float64 singleton_or value_from_wire_singleton
float64-round f h = ground (arith, decode-encode_bits f)

-- A name that ObjectValue accepts has no meaning of its own.
plain_name : (k : Str) (w : Wire) → has_dollar k ≡ false → value_from_wire_singleton k w ≡ ok none
unfolding value_from_wire_singleton
plain_name [] w h = refl
plain_name (c ∷ k) w h = ground arith

name_has_no_dollar : (k : Str) → validate_object_field k ≡ ok tt → has_dollar k ≡ false
unfolding validate_object_field
name_has_no_dollar k h = ground arith

singleton_or_general :
    (fs : WireFields) (ms : Members) (g : Result Value)
    → members_from_wire fs ≡ ok ms
    → singleton_or fs g ≡ g
unfolding singleton_or members_from_wire
singleton_or_general no_fields ms g h = refl
singleton_or_general (field k w no_fields) ms g h =
    ground (arith, plain_name k w, name_has_no_dollar k)
singleton_or_general (field k w (field j v fs)) ms g h = refl

-- The members that come back were validated, so ObjectValue accepts them.
validated :
    (fs : WireFields) (ms : Members) → members_from_wire fs ≡ ok ms → validate_members ms ≡ ok tt
unfolding members_from_wire validate_members
validated no_fields ms h = ground arith
validated (field k w fs) ms h =
    let (_, e0, e') = >>=-eq-ok (validate_object_field k) _ h in
    let (v, e1, e2) = >>=-eq-ok (value_from_wire w) _ e' in
    let (ns, e3, e4) = >>=-eq-ok (members_from_wire fs) _ e2 in ground (arith, validated fs ns)

object_value_lem :
    (fs : WireFields) (ms : Members)
    → members_from_wire fs ≡ ok ms
    → object_value ms ≡ ok (object ms)
unfolding object_value
object_value_lem fs ms h = ground (arith, validated fs ms)

mutual
  unfolding convex_json value_from_wire IsSized

  round : (v : Value) → IsSized v → (w : Wire) → convex_json v ≡ ok w → value_from_wire w ≡ ok v
  round null h w e = ground arith
  round (int64 n) h w e = ground (arith, int64-round n)
  round (float64 f) h w e = ground (arith, float64-round f)
  round (boolean b) h w e = ground arith
  round (string s) h w e = ground arith
  round (bytes bs) h w e = ground (arith, bytes-round bs)
  round (array vs) h w e =
      let (ws, e1, e2) = >>=-eq-ok (convex_json_array vs) _ e in ground (arith, round_array vs h ws)
  round (object ms) h w e =
      let (fs, e1, e2) = >>=-eq-ok (convex_json_object ms) _ e in
      ground (
        arith,
        round_object ms h fs,
        singleton_or_general fs ms (members_from_wire fs >>= object_value),
        object_value_lem fs ms,
      )

  round_array :
      (vs : Values)
      → AreSized vs
      → (ws : Wires) → convex_json_array vs ≡ ok ws
      → values_from_wire ws ≡ ok vs
  round_array no_values h ws e = ground arith
  round_array (value v vs) h ws e =
      let (w, e1, e2) = >>=-eq-ok (convex_json v) _ e in
      let (us, e3, e4) = >>=-eq-ok (convex_json_array vs) _ e2 in
      ground (arith, round v h.0 w, round_array vs h.1 us)

  round_object :
      (ms : Members)
      → HasSized ms
      → (fs : WireFields) → convex_json_object ms ≡ ok fs
      → members_from_wire fs ≡ ok ms
  round_object no_members h fs e = ground arith
  round_object (member k v ms) h fs e =
      let (_, e0, e') = >>=-eq-ok (validate_object_field k) _ e in
      let (w, e1, e2) = >>=-eq-ok (convex_json v) _ e' in
      let (gs, e3, e4) = >>=-eq-ok (convex_json_object ms) _ e2 in
      ground (arith, round v h.0 w, round_object ms h.1 gs)

-- Decoding the wire form of a value that has one gives the value, if its words have 64 bits and its
-- bytes 8 at every depth.
pub value_from_wire-convex_json :
    (v : Value) (w : Wire) → IsSized v → convex_json v ≡ ok w → value_from_wire w ≡ ok v
value_from_wire-convex_json v w h e = round v h w e
