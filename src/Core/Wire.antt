-- ===== src/Core/Wire.antt =====
-- JSON documents as encoding/json gives them to internal/core/value.go (the `any` of ConvexJSON and
-- valueFromWire), and stableJSONValue of baseclient/canonical.go. A number is its 64 bits; a
-- json.Number is the float that its text stands for. `nil_dict` is a nil map[string]any.
use convex_go.Prelude.{ℕ, Bool, true, false, [], ◌∷◌, Str, if◌then◌else◌, ◌==◌, ltb}

mutual
  pub data Wire : Type 0 where
    nil : Wire
    bool : Bool → Wire
    number : ℕ → Wire
    text : Str → Wire
    list : Wires → Wire
    dict : WireFields → Wire
    nil_dict : Wire

  pub data Wires : Type 0 where
    no_items : Wires
    item : Wire → Wires → Wires

  pub data WireFields : Type 0 where
    no_fields : WireFields
    field : Str → Wire → WireFields → WireFields

-- json.Marshal followed by a decoder with UseNumber: the document comes back, and a nil map as null.
unfoldable mutual
  pub json_text : Wire → Wire
  json_text nil = nil
  json_text (bool b) = bool b
  json_text (number n) = number n
  json_text (text s) = text s
  json_text (list ws) = list (json_text_items ws)
  json_text (dict fs) = dict (json_text_fields fs)
  json_text nil_dict = nil

  pub json_text_items : Wires → Wires
  json_text_items no_items = no_items
  json_text_items (item w ws) = item (json_text w) (json_text_items ws)

  pub json_text_fields : WireFields → WireFields
  json_text_fields no_fields = no_fields
  json_text_fields (field k w fs) = field k (json_text w) (json_text_fields fs)

-- Go's order of strings.
unfoldable pub str_less : Str → Str → Bool
str_less s [] = false
str_less [] (d ∷ t) = true
str_less (c ∷ s) (d ∷ t) =
    let rest = str_less s t in if ltb c d then true else if c == d then rest else false

unfoldable pub insert_field : Str → Wire → WireFields → WireFields
unfolding str_less
insert_field k w no_fields = field k w no_fields
insert_field k w (field j v fs) =
    let rest = insert_field k w fs in
    if str_less j k then field j v rest else field k w (field j v fs)

-- stableJSONValue: objects with their keys in order, at every depth.
unfoldable mutual
  unfolding insert_field

  pub stable_json_value : Wire → Wire
  stable_json_value nil = nil
  stable_json_value (bool b) = bool b
  stable_json_value (number n) = number n
  stable_json_value (text s) = text s
  stable_json_value (list ws) = list (stable_json_items ws)
  stable_json_value (dict fs) = dict (stable_json_fields fs)
  stable_json_value nil_dict = dict no_fields

  pub stable_json_items : Wires → Wires
  stable_json_items no_items = no_items
  stable_json_items (item w ws) = item (stable_json_value w) (stable_json_items ws)

  pub stable_json_fields : WireFields → WireFields
  stable_json_fields no_fields = no_fields
  stable_json_fields (field k w fs) = insert_field k (stable_json_value w) (stable_json_fields fs)
