-- ===== src/Core/GoValue.antt =====
-- internal/core/value.go: EncodeValue and ValueFromGo on the Go values that an application passes,
-- and the argument encoding of baseclient/canonical.go. Left out of `Any`: structs, pointers,
-- json.Number, maps whose keys are no strings, and the kinds that EncodeValue refuses.
-- A map lists its entries in key order, the order in which encodeMap visits them.
pub mod Idiomatic
use convex_go.Prelude.{ℕ, ◌^◌, Bool, List, Str, str, if◌then◌else◌, leb}
use convex_go.Core.Error.{Result, ok, err, ◌>>=◌, ◌>>◌, uint_too_large, args_not_object}
use convex_go.Core.Wire.{
  Wire, Wires, WireFields, text, list, dict, nil_dict, no_items, item, no_fields, field, json_text,
  stable_json_value,
}
use convex_go.Core.Value.{
  Value, encoded_int64, encoded_float64, encoded_bytes, convex_json, value_from_wire,
  validate_object_field,
}
use convex_go.Core.FunctionPath.{canonical_query_path}

mutual
  pub data Any : Type 0 where
    nil : Any
    -- a core.Value
    convex : Value → Any
    bool : Bool → Any
    string : Str → Any
    -- the int kinds and core.Int64, sign-extended to 64 bits
    int : ℕ → Any
    -- the uint kinds
    uint : ℕ → Any
    -- the float kinds and core.Number
    float : ℕ → Any
    -- []byte and core.Bytes
    bytes : List ℕ → Any
    slice : Anys → Any
    map : Entries → Any
    nil_map : Any

  pub data Anys : Type 0 where
    no_elements : Anys
    element : Any → Anys → Anys

  pub data Entries : Type 0 where
    no_entries : Entries
    entry : Str → Any → Entries → Entries

-- encodeUint
unfoldable pub encode_uint : ℕ → Result Wire
encode_uint n = if leb (2 ^ 63) n then err uint_too_large else ok (encoded_int64 n)

-- encodeValue
unfoldable mutual
  unfolding encode_uint

  pub encode_value : Any → Result Wire
  encode_value nil = ok Wire.nil
  encode_value (convex v) = convex_json v
  encode_value (bool b) = ok (Wire.bool b)
  encode_value (string s) = ok (text s)
  encode_value (int n) = ok (encoded_int64 n)
  encode_value (uint n) = encode_uint n
  encode_value (float f) = ok (encoded_float64 f)
  encode_value (bytes bs) = ok (encoded_bytes bs)
  encode_value (slice xs) = encode_sequence xs >>= λ ws. ok (list ws)
  encode_value (map es) = encode_map es >>= λ fs. ok (dict fs)
  encode_value nil_map = ok nil_dict

  pub encode_sequence : Anys → Result Wires
  encode_sequence no_elements = ok no_items
  encode_sequence (element x xs) =
      encode_value x >>= λ w. encode_sequence xs >>= λ ws. ok (item w ws)

  pub encode_map : Entries → Result WireFields
  encode_map no_entries = ok no_fields
  encode_map (entry k x es) =
      validate_object_field k >> (encode_value x >>= λ w. encode_map es >>= λ fs. ok (field k w fs))

-- core.ValueFromGo: a core.Value is taken as it is.
unfoldable pub value_from_go : Any → Result Value
value_from_go (convex v) = ok v
value_from_go x = encode_value x >>= value_from_wire

abbrev object_only : Wire → Result Wire
object_only (dict fs) = ok (dict fs)
object_only nil_dict = ok nil_dict
object_only _ = err args_not_object

-- canonical.go: encodeArgs
unfoldable pub encode_args : Any → Result Wire
encode_args nil = ok (dict no_fields)
encode_args args = encode_value args >>= object_only

-- canonical.go: syncQueryArgValue, through the JSON text of valueFromWire
unfoldable pub sync_query_arg_value : Any → Result Value
sync_query_arg_value args = encode_args args >>= λ w. value_from_wire (json_text w)

-- The document from which stableJSON makes a query's token.
unfoldable pub token_document : Str → Wire → Wire
token_document path arg = stable_json_value (
    dict
      (field (str "args") (list (item arg no_items)) (field (str "udfPath") (text path) no_fields)))

pub record Request : Type 0 where
  pub path : Str
  pub arg : Value

-- canonical.go: canonicalRequest. The encoded arguments are the one-element slice of `arg`.
unfoldable pub canonical_request : Str → Any → Result Request
canonical_request path args = do
  canonical_path ← canonical_query_path path
  arg ← sync_query_arg_value args
  ok (record { path = canonical_path; arg = arg })

-- canonical.go: canonicalQuery, with the token, the text of the document. `marshal` is json.Marshal
-- on documents whose objects have their keys in order.
unfoldable pub canonical_query : (Wire → Str) → Str → Any → Result (Request × Str)
canonical_query marshal path args = do
  request ← canonical_request path args
  wire ← convex_json request.arg
  ok (request, marshal (token_document request.path wire))
