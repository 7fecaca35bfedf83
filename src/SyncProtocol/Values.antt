-- ===== src/SyncProtocol/Values.antt =====
-- Value.MarshalJSON and Value.UnmarshalJSON of internal/core/value.go, on JSON documents.
use convex_go.Prelude.{none, some, List, [], ◌∷◌}
use convex_go.Core.Error.{Result, ok, err, ◌>>=◌, number_range}
use convex_go.Core.Wire.{
  Wire, Wires, WireFields, nil, bool, number, text, list, dict, nil_dict, no_items, item, no_fields,
  field,
}
use convex_go.Core.Value.{Value, convex_json, value_from_wire}
use convex_go.SyncProtocol.Json.{
  Json, Jsons, JsonFields, Strconv, json_null, json_bool, json_number, json_string, json_array,
  json_object, no_elements, element, no_entries, entry, marshal_float64,
}

module _ (S : Strconv) where
  -- json.Marshal of the wire form.
  unfoldable mutual
    unfolding marshal_float64

    pub marshal_wire : Wire → Result Json
    marshal_wire nil = ok json_null
    marshal_wire (bool b) = ok (json_bool b)
    marshal_wire (number f) = marshal_float64 S f
    marshal_wire (text s) = ok (json_string s)
    marshal_wire (list ws) = marshal_wires ws >>= λ js. ok (json_array js)
    marshal_wire (dict fs) = marshal_wire_fields fs >>= λ es. ok (json_object es)
    marshal_wire nil_dict = ok json_null

    pub marshal_wires : Wires → Result Jsons
    marshal_wires no_items = ok no_elements
    marshal_wires (item w ws) = marshal_wire w >>= λ j. marshal_wires ws >>= λ js. ok (element j js)

    pub marshal_wire_fields : WireFields → Result JsonFields
    marshal_wire_fields no_fields = ok no_entries
    marshal_wire_fields (field k w fs) =
        marshal_wire w >>= λ j. marshal_wire_fields fs >>= λ es. ok (entry k j es)

  -- The decoder with UseNumber, and valueFromJSONNumber on each number.
  unfoldable mutual
    pub read_wire : Json → Result Wire
    read_wire json_null = ok nil
    read_wire (json_bool b) = ok (bool b)
    read_wire (json_number n) = elim (S.parse_float n) [
      | none ↦ err number_range
      | some f ↦ ok (number f)
    ]
    read_wire (json_string s) = ok (text s)
    read_wire (json_array js) = read_wires js >>= λ ws. ok (list ws)
    read_wire (json_object es) = read_wire_fields es >>= λ fs. ok (dict fs)

    pub read_wires : Jsons → Result Wires
    read_wires no_elements = ok no_items
    read_wires (element j js) = read_wire j >>= λ w. read_wires js >>= λ ws. ok (item w ws)

    pub read_wire_fields : JsonFields → Result WireFields
    read_wire_fields no_entries = ok no_fields
    read_wire_fields (entry k j es) =
        read_wire j >>= λ w. read_wire_fields es >>= λ fs. ok (field k w fs)

  -- Value.MarshalJSON
  unfoldable pub marshal_value : Value → Result Json
  unfolding marshal_wire
  marshal_value v = convex_json v >>= marshal_wire

  -- ParseValueJSON, which is Value.UnmarshalJSON.
  unfoldable pub unmarshal_value : Json → Result Value
  unfolding read_wire
  unmarshal_value j = read_wire j >>= value_from_wire

  -- A slice of values; the nil slice is none, and null on the wire.
  unfoldable pub marshal_value_list : List Value → Result Jsons
  unfolding marshal_value
  marshal_value_list [] = ok no_elements
  marshal_value_list (v ∷ vs) =
      marshal_value v >>= λ j. marshal_value_list vs >>= λ js. ok (element j js)

  unfoldable pub unmarshal_value_list : Jsons → Result (List Value)
  unfolding unmarshal_value
  unmarshal_value_list no_elements = ok []
  unmarshal_value_list (element j js) =
      unmarshal_value j >>= λ v. unmarshal_value_list js >>= λ vs. ok (v ∷ vs)
