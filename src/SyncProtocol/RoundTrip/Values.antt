-- ===== src/SyncProtocol/RoundTrip/Values.antt =====
-- Values in messages: Value.MarshalJSON and Value.UnmarshalJSON, and slices of values.
use convex_go.Prelude.{ℕ, ◌^◌, ◌<◌, ◌≡◌, some, none, arith, List, [], ◌∷◌, All}
use convex_go.Core.Error.{ok, >>=-eq-ok}
use convex_go.Core.Wire.{Wire, Wires, WireFields}
use convex_go.Core.Value.{
  Value, Values, Members, null, int64, float64, boolean, string, bytes, array, object, no_values,
  value, no_members, member, convex_json, convex_json_array, convex_json_object, encoded_int64,
  encoded_float64, encoded_bytes, is_special_float, validate_object_field,
}
use convex_go.Core.Value.RoundTrip.{IsSized, AreSized, HasSized, value_from_wire-convex_json}
use convex_go.SyncProtocol.Json.{Json, Jsons, JsonFields, Strconv, marshal_float64, is_finite}
use convex_go.SyncProtocol.Values.{
  marshal_wire, marshal_wires, marshal_wire_fields, read_wire, read_wires, read_wire_fields,
  marshal_value, unmarshal_value, marshal_value_list, unmarshal_value_list,
}
use convex_go.SyncProtocol.Fields.{marshal_args, unmarshal_args, marshal_slice, unmarshal_slice}
use convex_go.SyncProtocol.Messages.{Slice}
use convex_go.SyncProtocol.RoundTrip.{OnSlice}

module _ (S : Strconv) where
  read_float :
      (f : ℕ) (j : Json)
      → f < 2 ^ 64
      → marshal_wire S (encoded_float64 f) ≡ ok j
      → read_wire S j ≡ ok (encoded_float64 f)
  unfolding marshal_wire read_wire encoded_float64 is_special_float marshal_float64 is_finite
  read_float f j h e = ground (arith, S.parse-format f)

  mutual
    unfolding convex_json IsSized marshal_wire read_wire encoded_int64 encoded_bytes

    read_back :
        (v : Value) (w : Wire) (j : Json)
        → IsSized v
        → convex_json v ≡ ok w
        → marshal_wire S w ≡ ok j
        → read_wire S j ≡ ok w
    read_back null w j h c e = ground arith
    read_back (int64 n) w j h c e = ground arith
    read_back (float64 f) w j h c e = ground (arith, read_float f j)
    read_back (boolean b) w j h c e = ground arith
    read_back (string s) w j h c e = ground arith
    read_back (bytes bs) w j h c e = ground arith
    read_back (array vs) w j h c e =
        let (ws, c1, c2) = >>=-eq-ok (convex_json_array vs) _ c in grind (arith, read_array vs ws)
    read_back (object ms) w j h c e =
        let (fs, c1, c2) = >>=-eq-ok (convex_json_object ms) _ c in grind (arith, read_object ms fs)

    read_array :
        (vs : Values) (ws : Wires) (js : Jsons)
        → AreSized vs
        → convex_json_array vs ≡ ok ws
        → marshal_wires S ws ≡ ok js
        → read_wires S js ≡ ok ws
    read_array no_values ws js h c e = ground arith
    read_array (value v vs) ws js h c e =
        let (w, c1, c2) = >>=-eq-ok (convex_json v) _ c in
        let (us, c3, c4) = >>=-eq-ok (convex_json_array vs) _ c2 in
        grind (arith, read_back v w, read_array vs us)

    read_object :
        (ms : Members) (fs : WireFields) (es : JsonFields)
        → HasSized ms
        → convex_json_object ms ≡ ok fs
        → marshal_wire_fields S fs ≡ ok es
        → read_wire_fields S es ≡ ok fs
    read_object no_members fs es h c e = ground arith
    read_object (member k v ms) fs es h c e =
        let (_, c0, c') = >>=-eq-ok (validate_object_field k) _ c in
        let (w, c1, c2) = >>=-eq-ok (convex_json v) _ c' in
        let (gs, c3, c4) = >>=-eq-ok (convex_json_object ms) _ c2 in
        grind (arith, read_back v w, read_object ms gs)

  pub unmarshal-marshal_value :
      (v : Value) (j : Json) → IsSized v → marshal_value S v ≡ ok j → unmarshal_value S j ≡ ok v
  unfolding marshal_value unmarshal_value
  unmarshal-marshal_value v j h e =
      let (w, e1, e2) = >>=-eq-ok (convex_json v) _ e in
      ground (arith, read_back v w j h e1, value_from_wire-convex_json v w h e1)

  unmarshal-marshal_value_list :
      (vs : List Value) (js : Jsons)
      → All IsSized vs
      → marshal_value_list S vs ≡ ok js
      → unmarshal_value_list S js ≡ ok vs
  unfolding marshal_value_list unmarshal_value_list
  unmarshal-marshal_value_list [] js h e = ground arith
  unmarshal-marshal_value_list (v ∷ vs) js h e =
      let (j, e1, e2) = >>=-eq-ok (marshal_value S v) _ e in
      let (ks, e3, e4) = >>=-eq-ok (marshal_value_list S vs) _ e2 in
      ground (arith, unmarshal-marshal_value v j, unmarshal-marshal_value_list vs ks)

  pub unmarshal-marshal_args :
      (vs : Slice Value) (j : Json)
      → OnSlice IsSized vs
      → marshal_args S vs ≡ ok j
      → unmarshal_args S j ≡ ok vs
  unfolding marshal_args unmarshal_args marshal_slice unmarshal_slice
  unmarshal-marshal_args none j h e = ground arith
  unmarshal-marshal_args (some vs) j h e =
      let (js, e1, e2) = >>=-eq-ok (marshal_value_list S vs) _ e in
      ground (arith, unmarshal-marshal_value_list vs js)
