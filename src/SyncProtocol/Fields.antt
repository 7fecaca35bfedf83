-- ===== src/SyncProtocol/Fields.antt =====
-- The helpers of internal/syncprotocol/sync_protocol.go that read and write single fields, the lists
-- that messages hold, StateVersion, and the identity of identity_attributes.go.
use convex_go.Prelude.{ℕ, Option, none, some, List, [], ◌∷◌, Str, str, if◌then◌else◌}
use convex_go.Prelude.Eq.{list_beq}
use convex_go.Core.Error.{
  Result, ok, err, ◌>>=◌, json_type, element_failed, field_failed, missing_message_type,
}
use convex_go.Core.Value.{Value, null}
use convex_go.Protocol.{OptionalString, OptionalValue, StateVersion}
use convex_go.SyncProtocol.Json.{
  Json, Jsons, JsonFields, Strconv, json_null, json_string, json_array, json_object, no_elements,
  element, no_entries, entry, lookup, raw_object, raw_is_null, unmarshal_exact_field,
  unmarshal_string, unmarshal_uint32, marshal_uint32, unmarshal_int64, unmarshal_float64,
}
use convex_go.SyncProtocol.Values.{marshal_value_list, unmarshal_value_list, unmarshal_value}
use convex_go.SyncProtocol.Timestamp.{marshal_timestamp, unmarshal_timestamp}
use convex_go.SyncProtocol.Messages.{Slice}

-- A field whose value may be missing, null or there.
unfoldable pub optional_from_raw {ℓ} :
    {A : Type ℓ} → (Json → Result A) → JsonFields → Str → Result (Option (Option A))
unfolding lookup raw_is_null
optional_from_raw unmarshal raw k = elim (lookup k raw) [
  | none ↦ ok none
  | some j ↦
      (let decoded = unmarshal j in
        if raw_is_null j
        then ok (some none)
        else elim decoded [ ok x ↦ ok (some (some x)) | err e ↦ err (field_failed k e) ])
]

unfoldable pub optional_string_from_raw : JsonFields → Str → Result OptionalString
unfolding optional_from_raw unmarshal_string
optional_string_from_raw = optional_from_raw unmarshal_string

unfoldable pub optional_timestamp_from_raw : JsonFields → Str → Result (Option (Option ℕ))
unfolding optional_from_raw unmarshal_timestamp
optional_timestamp_from_raw = optional_from_raw unmarshal_timestamp

unfoldable pub optional_int64_from_raw : JsonFields → Str → Result (Option (Option ℕ))
unfolding optional_from_raw unmarshal_int64
optional_int64_from_raw = optional_from_raw unmarshal_int64

unfoldable pub optional_identity_version_from_raw : JsonFields → Str → Result (Option (Option ℕ))
unfolding optional_from_raw unmarshal_uint32
optional_identity_version_from_raw = optional_from_raw unmarshal_uint32

-- A null value is a value that is there.
abbrev value_or_null : Option (Option Value) → OptionalValue
value_or_null none = none
value_or_null (some none) = some null
value_or_null (some (some v)) = some v

-- discriminator
unfoldable pub discriminator : Json → Result Str
unfolding raw_object unmarshal_exact_field unmarshal_string
discriminator j = do
  raw ← raw_object j
  message_type ← unmarshal_exact_field unmarshal_string [] raw (str "type")
  if list_beq message_type [] then err missing_message_type else ok message_type

-- optionalStringWire
unfoldable pub optional_string_wire : OptionalString → Json
optional_string_wire (some (some s)) = json_string s
optional_string_wire _ = json_null

-- A field that a message may leave out.
unfoldable pub with_field : Str → Option Json → JsonFields → JsonFields
with_field k none fs = fs
with_field k (some j) fs = entry k j fs

abbrev pub nonempty_string : Str → Option Json
nonempty_string [] = none
nonempty_string (c ∷ s) = some (json_string (c ∷ s))

-- A field of optional content: left out, null, or what `marshal` writes.
unfoldable pub marshal_optional {ℓ} :
    {A : Type ℓ} → (A → Result Json) → Option (Option A) → Result (Option Json)
marshal_optional marshal none = ok none
marshal_optional marshal (some none) = ok (some json_null)
marshal_optional marshal (some (some x)) = marshal x >>= λ j. ok (some j)

unfoldable pub marshal_strings : List Str → Jsons
marshal_strings [] = no_elements
marshal_strings (s ∷ ss) = element (json_string s) (marshal_strings ss)

unfoldable pub unmarshal_string_list : Jsons → Result (List Str)
unfolding unmarshal_string
unmarshal_string_list no_elements = ok []
unmarshal_string_list (element j js) =
    unmarshal_string j >>= λ s. unmarshal_string_list js >>= λ ss. ok (s ∷ ss)

unfoldable pub marshal_string_slice : Slice Str → Json
unfolding marshal_strings
marshal_string_slice none = json_null
marshal_string_slice (some ss) = json_array (marshal_strings ss)

-- json.Unmarshal into a slice: null is the nil slice.
unfoldable pub unmarshal_slice {ℓ} :
    {A : Type ℓ} → (Jsons → Result (List A)) → Json → Result (Slice A)
unmarshal_slice unmarshal json_null = ok none
unmarshal_slice unmarshal (json_array js) = unmarshal js >>= λ xs. ok (some xs)
unmarshal_slice unmarshal _ = err json_type

unfoldable pub marshal_slice {ℓ} : {A : Type ℓ} → (List A → Result Jsons) → Slice A → Result Json
marshal_slice marshal none = ok json_null
marshal_slice marshal (some xs) = marshal xs >>= λ js. ok (json_array js)

-- The elements of a slice of messages in turn; the error of one names its position.
unfoldable pub decode_elements {ℓ} : {A : Type ℓ} → (Json → Result A) → ℕ → Jsons → Result (List A)
decode_elements decode i no_elements = ok []
decode_elements decode i (element j js) =
    let rest = decode_elements decode (ℕ.suc i) js in
    elim (decode j) [ err e ↦ err (element_failed i e) | ok x ↦ rest >>= λ xs. ok (x ∷ xs) ]

unfoldable pub marshal_elements {ℓ} : {A : Type ℓ} → (A → Result Json) → List A → Result Jsons
marshal_elements marshal [] = ok no_elements
marshal_elements marshal (x ∷ xs) =
    marshal x >>= λ j. marshal_elements marshal xs >>= λ js. ok (element j js)

-- json.Unmarshal into []json.RawMessage, whose nil slice is empty to the loop that follows.
unfoldable pub unmarshal_raw_list : Json → Result Jsons
unmarshal_raw_list json_null = ok no_elements
unmarshal_raw_list (json_array js) = ok js
unmarshal_raw_list _ = err json_type

-- The zero StateVersion.
abbrev pub no_version : StateVersion
no_version = record { query_set = 0; identity = 0; ts = 0 }

-- StateVersion.MarshalJSON
unfoldable pub marshal_state_version : StateVersion → Result Json
unfolding marshal_timestamp marshal_uint32
marshal_state_version v = do
  ts ← marshal_timestamp v.ts
  ok (
      json_object (
        entry (str "identity") (marshal_uint32 v.identity)
          (entry (str "querySet") (marshal_uint32 v.query_set) (entry (str "ts") ts no_entries))))

-- StateVersion.UnmarshalJSON
unfoldable pub unmarshal_state_version : Json → Result StateVersion
unfolding raw_object unmarshal_exact_field unmarshal_uint32 unmarshal_timestamp
unmarshal_state_version j = do
  raw ← raw_object j
  query_set ← unmarshal_exact_field unmarshal_uint32 0 raw (str "querySet")
  identity ← unmarshal_exact_field unmarshal_uint32 0 raw (str "identity")
  ts ← unmarshal_exact_field unmarshal_timestamp 0 raw (str "ts")
  ok (record { query_set = query_set; identity = identity; ts = ts })

module _ (S : Strconv) where
  unfoldable pub optional_value_from_raw : JsonFields → Str → Result OptionalValue
  unfolding optional_from_raw unmarshal_value
  optional_value_from_raw raw k =
      optional_from_raw (unmarshal_value S) raw k >>= λ o. ok (value_or_null o)

  unfoldable pub optional_float64_from_raw : JsonFields → Str → Result (Option (Option ℕ))
  unfolding optional_from_raw unmarshal_float64
  optional_float64_from_raw = optional_from_raw (unmarshal_float64 S)

  unfoldable pub marshal_args : Slice Value → Result Json
  unfolding marshal_slice marshal_value_list
  marshal_args = marshal_slice (marshal_value_list S)

  unfoldable pub unmarshal_args : Json → Result (Slice Value)
  unfolding unmarshal_slice unmarshal_value_list
  unmarshal_args = unmarshal_slice (unmarshal_value_list S)
