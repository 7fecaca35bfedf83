-- ===== src/SyncProtocol/RoundTrip/Results.antt =====
-- QueryUpdated, QueryFailed and QueryRemoved of sync_protocol.go, there and back.
use convex_go.Prelude.{
  ℕ, ◌≡◌, refl, ◌⊎◌, inl, inr, some, none, is_some, Bool-cases, arith, Option, true, false, Str,
  str,
}
use convex_go.Core.Error.{ok, >>=-eq-ok, Result-cases}
use convex_go.Core.Value.{value_from_wire, Value, null}
use convex_go.Core.Value.RoundTrip.{IsSized}
use convex_go.SyncProtocol.Json.{
  Json, JsonFields, Strconv, json_null, no_entries, lookup, raw_object, unmarshal_exact_field,
  unmarshal_string, raw_is_null,
}
use convex_go.SyncProtocol.Fields.{
  with_field, discriminator, optional_from_raw, optional_string_from_raw, optional_value_from_raw,
  optional_string_wire,
}
use convex_go.SyncProtocol.Values.{read_wire, marshal_value, unmarshal_value}
use convex_go.Protocol.{OptionalValue}
use convex_go.SyncProtocol.Messages.{
  QueryUpdated, QueryFailed, StateModification, query_updated, query_failed, query_removed,
}
use convex_go.SyncProtocol.ServerCodec.Results.{
  marshal_query_updated, unmarshal_query_updated, marshal_query_failed, unmarshal_query_failed,
  marshal_query_removed, unmarshal_query_removed, marshal_state_modification,
  decode_state_modification, decode_state_as, marshal_error_data, present_journal,
}
use convex_go.SyncProtocol.RoundTrip.{
  IsU32, OnOption, unmarshal-marshal_uint32, unmarshal-marshal_string_slice, optional_cases,
}
use convex_go.SyncProtocol.RoundTrip.Values.{unmarshal-marshal_value}

pub record IsUpdated (m : QueryUpdated) : Type 0 where
  pub query_id_fits : IsU32 m.query_id
  pub value_fits : IsSized m.value
  pub journal_there : is_some m.journal ≡ true

pub record IsFailed (m : QueryFailed) : Type 0 where
  pub query_id_fits : IsU32 m.query_id
  pub error_data_fits : OnOption IsSized m.error_data
  pub journal_there : is_some m.journal ≡ true

unmarshal-marshal_query_removed :
    (id : ℕ)
    → IsU32 id
    → (discriminator (marshal_query_removed id) ≡ ok (str "QueryRemoved"))
      × (unmarshal_query_removed (marshal_query_removed id) ≡ ok id)
unfolding marshal_query_removed unmarshal_query_removed raw_object unmarshal_exact_field lookup
    unmarshal_string discriminator
unmarshal-marshal_query_removed id h = ground (arith, unmarshal-marshal_uint32 id h)

-- What can be written and read back: ids of 32 bits, sized values, and a journal.
abbrev pub IsChange : StateModification → Type 0
IsChange (query_updated m) = IsUpdated m
IsChange (query_failed m) = IsFailed m
IsChange (query_removed id) = IsU32 id

module _ (S : Strconv) where
  unmarshal-marshal_query_updated :
      (m : QueryUpdated) (j : Json)
      → IsUpdated m
      → marshal_query_updated S m ≡ ok j
      → (discriminator j ≡ ok (str "QueryUpdated")) × (unmarshal_query_updated S j ≡ ok m)
  unfolding marshal_query_updated unmarshal_query_updated raw_object unmarshal_exact_field lookup
      unmarshal_string discriminator optional_string_from_raw optional_from_raw optional_string_wire
      raw_is_null present_journal
  unmarshal-marshal_query_updated m j h e =
      let (value, e1, e2) = >>=-eq-ok (marshal_value S m.value) _ e in
      ground (
        arith,
        h.journal_there,
        optional_cases m.journal,
        unmarshal-marshal_value S m.value value h.value_fits e1,
        unmarshal-marshal_uint32 m.query_id h.query_id_fits,
        unmarshal-marshal_string_slice m.log_lines,
      )

  null_value : unmarshal_value S json_null ≡ ok null
  unfolding unmarshal_value read_wire value_from_wire
  null_value = refl

  -- A value that is written as null is null.
  optional_value_at :
      (v : Value) (j : Json)
      → unmarshal_value S j ≡ ok v
      → (raw_is_null j ≡ true) ⊎ (raw_is_null j ≡ false)
      → (raw : JsonFields) (k : Str) → lookup k raw ≡ some j
      → optional_value_from_raw S raw k ≡ ok (some v)
  unfolding optional_value_from_raw optional_from_raw raw_is_null
  optional_value_at v j e n raw k at = ground (arith, null_value)

  -- Error data, left out or there.
  pub error_data_read :
      (o : OptionalValue) (j : Option Json)
      → OnOption IsSized o
      → marshal_error_data S o ≡ ok j
      → (raw : JsonFields) (k : Str) → lookup k raw ≡ j
      → optional_value_from_raw S raw k ≡ ok o
  unfolding marshal_error_data
  error_data_read none j h e raw k at =
      unfold optional_value_from_raw optional_from_raw in ground arith
  error_data_read (some v) j h e raw k at = elim (Result-cases (marshal_value S v)) [
    | inl (x, failed) ↦ ground arith
    | inr (w, done) ↦
        optional_value_at v w (unmarshal-marshal_value S v w h done) (Bool-cases (raw_is_null w))
          raw k (ground arith)
  ]

  unmarshal-marshal_query_failed :
      (m : QueryFailed) (j : Json)
      → IsFailed m
      → marshal_query_failed S m ≡ ok j
      → (discriminator j ≡ ok (str "QueryFailed")) × (unmarshal_query_failed S j ≡ ok m)
  unfolding marshal_query_failed unmarshal_query_failed raw_object unmarshal_exact_field lookup
      unmarshal_string discriminator optional_string_from_raw optional_from_raw optional_string_wire
      raw_is_null present_journal with_field
  unmarshal-marshal_query_failed m j h e =
      let (field, e1, e2) = >>=-eq-ok (marshal_error_data S m.error_data) _ e in
      ground (
        arith,
        h.journal_there,
        optional_cases m.journal,
        unmarshal-marshal_uint32 m.query_id h.query_id_fits,
        unmarshal-marshal_string_slice m.log_lines,
        error_data_read m.error_data field h.error_data_fits e1
            (with_field (str "errorData") field no_entries) (str "errorData"),
      )

  -- A state modification that could be written is read back.
  pub decode-marshal_change :
      (m : StateModification) (j : Json)
      → IsChange m
      → marshal_state_modification S m ≡ ok j
      → decode_state_modification S j ≡ ok m
  unfolding marshal_state_modification decode_state_modification decode_state_as
  decode-marshal_change (query_updated m) j h e =
      ground (arith, unmarshal-marshal_query_updated m j h e)
  decode-marshal_change (query_failed m) j h e =
      ground (arith, unmarshal-marshal_query_failed m j h e)
  decode-marshal_change (query_removed id) j h e =
      ground (arith, unmarshal-marshal_query_removed id h)
