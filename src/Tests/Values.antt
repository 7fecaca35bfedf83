-- ===== src/Tests/Values.antt =====
-- The theorems about values and identifiers, at concrete inputs.
use convex_go.Prelude.{◌≡◌, ◌↔◌, refl, true, [], ◌∷◌, str, arith}
use convex_go.Core.Error.{ok}
use convex_go.Core.Wire.{Wire, list, dict, text, field, no_fields, item, no_items}
use convex_go.Core.Base64.{encode_bits, encode_to_string, put_uint64}
use convex_go.Core.Value.{
  Value, validate_object_field, encoded_int64, encoded_bytes, int64, bytes, array, object,
  no_values, value, no_members, member, convex_json, value_from_wire,
}
use convex_go.Core.Value.RoundTrip.{IsSized, value_from_wire-convex_json}
use convex_go.Core.GoValue.{value_from_go}
use convex_go.Core.GoValue.Idiomatic.{go_value, value_from_go-go_value}
use convex_go.Core.Identifier.{is_valid_identifier, validate_identifier}
use convex_go.Core.Identifier.Laws.{validate_identifier-ok}

-- An object whose only field holds a list of an integer and of bytes.
abbrev listing : Value
listing = object (
    member (str "items") (array (value (int64 7) (value (bytes (1 ∷ 255 ∷ [])) no_values)))
      no_members)

validate_identifier-ok_example :
    (validate_identifier (str "_send")) ≡ ok tt ↔ (is_valid_identifier (str "_send") ≡ true)
validate_identifier-ok_example = validate_identifier-ok (str "_send")

abbrev listing_json : Wire
listing_json = dict (
    field (str "items")
      (list (
        item (dict (field (str "$integer") (text (str "BwAAAAAAAAA=")) no_fields))
          (item (dict (field (str "$bytes") (text (str "Af8=")) no_fields)) no_items)))
      no_fields)

listing-json : convex_json listing ≡ ok listing_json
unfolding convex_json validate_object_field encoded_int64 encoded_bytes encode_bits encode_to_string
    put_uint64
listing-json = refl

listing-IsSized : IsSized listing
unfolding IsSized
listing-IsSized = ((omega arith, ((omega arith, (omega arith, tt)), tt)), tt)

value_from_wire-convex_json_example : value_from_wire listing_json ≡ ok listing
value_from_wire-convex_json_example =
    value_from_wire-convex_json listing listing_json listing-IsSized listing-json

value_from_go-go_value_example : value_from_go (go_value listing) ≡ ok listing
value_from_go-go_value_example =
    value_from_go-go_value listing listing_json listing-IsSized listing-json
