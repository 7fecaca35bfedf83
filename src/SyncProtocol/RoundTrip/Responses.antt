-- ===== src/SyncProtocol/RoundTrip/Responses.antt =====
-- MutationResponseMessage and ActionResponseMessage of sync_protocol.go, there and back.
use convex_go.Prelude.{
  ℕ, ◌≡◌, refl, ◌⊎◌, inl, inr, some, none, Bool-cases, arith, Option, false, [], Str, str,
  if◌then◌else◌,
}
use convex_go.Core.Error.{ok, >>=-eq-ok}
use convex_go.Core.Value.{null}
use convex_go.Core.Value.RoundTrip.{IsSized}
use convex_go.SyncProtocol.Json.{
  Json, JsonFields, Strconv, json_null, no_entries, lookup, raw_object, unmarshal_exact_field,
  unmarshal_string, unmarshal_bool, raw_is_null,
}
use convex_go.SyncProtocol.Fields.{
  with_field, discriminator, optional_from_raw, optional_value_from_raw,
  optional_timestamp_from_raw, marshal_optional,
}
use convex_go.Protocol.{OptionalValue}
use convex_go.SyncProtocol.RoundTrip.{
  IsU32, OnOption, unmarshal-marshal_uint32, unmarshal-marshal_timestamp,
  unmarshal-marshal_string_slice,
}
use convex_go.SyncProtocol.RoundTrip.Values.{unmarshal-marshal_value}
use convex_go.SyncProtocol.Timestamp.{marshal_timestamp, unmarshal_timestamp}
use convex_go.SyncProtocol.Messages.{ActionResponseMessage, MutationResponseMessage}
use convex_go.SyncProtocol.ServerCodec.Responses.{
  raw_result, marshal_result, marshal_failure_data, marshal_response, marshal_action_response,
  marshal_mutation_response, response_of, unmarshal_action_response, unmarshal_mutation_response,
}
use convex_go.SyncProtocol.RoundTrip.Results.{error_data_read}
use convex_go.Protocol.{OptionalValue}

pub record IsResponse (m : ActionResponseMessage) : Type 0 where
  pub request_id_fits : IsU32 m.request_id
  pub value_fits : IsSized m.value
  pub error_data_fits : OnOption IsSized m.error_data

-- What is sent of a response: a value, or a message with its data.
unfoldable pub response_sent : ActionResponseMessage → ActionResponseMessage
response_sent m =
    if m.success
    then record m { error_message = []; error_data = none }
    else record m { value = null }

module _ (S : Strconv) (m : ActionResponseMessage) (h : IsResponse m) where
  result_read :
      (j : Json) (data_read : OptionalValue)
      → marshal_result S m ≡ ok j
      → data_read ≡ (response_sent m).error_data
      → response_of S m.request_id m.success m.log_lines data_read j ≡ ok (response_sent m)
  unfolding marshal_result response_of response_sent unmarshal_string
  result_read j data_read e d = elim (Bool-cases m.success) [
    | inl won ↦ ground (arith, unmarshal-marshal_value S m.value j h.value_fits)
    | inr lost ↦ ground arith
  ]

  failure_data_read :
      (j : Option Json)
      → marshal_failure_data S m ≡ ok j
      → (raw : JsonFields) (k : Str) → lookup k raw ≡ j
      → optional_value_from_raw S raw k ≡ ok (response_sent m).error_data
  unfolding marshal_failure_data response_sent
  failure_data_read j e raw k at = elim (Bool-cases m.success) [
    | inl won ↦ unfold optional_value_from_raw optional_from_raw in ground arith
    | inr lost ↦
        ground (arith, error_data_read S m.error_data j h.error_data_fits (ground arith) raw k at)
  ]

  pub unmarshal-marshal_action_response :
      (j : Json)
      → marshal_action_response S m ≡ ok j
      → (discriminator j ≡ ok (str "ActionResponse"))
        × (unmarshal_action_response S j ≡ ok (response_sent m))
  unfolding marshal_action_response marshal_response unmarshal_action_response raw_object
      unmarshal_exact_field unmarshal_bool lookup unmarshal_string discriminator with_field
      raw_result
  unmarshal-marshal_action_response j e =
      let (field, e1, e2) = >>=-eq-ok (marshal_failure_data S m) _ e in
      let (result, e3, e4) = >>=-eq-ok (marshal_result S m) _ e2 in
      ground (
        arith,
        e4,
        unmarshal-marshal_uint32 m.request_id h.request_id_fits,
        unmarshal-marshal_string_slice m.log_lines,
        failure_data_read field e1 (with_field (str "errorData") field no_entries)
            (str "errorData"),
        result_read result (response_sent m).error_data e3 refl,
      )

timestamp_reads :
    (o : Option (Option ℕ)) (j : Option Json)
    → marshal_optional marshal_timestamp o ≡ ok j
    → ((o ≡ none) × (j ≡ none))
      ⊎ ((o ≡ some none) × (j ≡ some json_null))
      ⊎ ((t : ℕ) × (k : Json) × (o ≡ some (some t))
          × (j ≡ some k)
          × (unmarshal_timestamp k ≡ ok t)
          × (raw_is_null k ≡ false))
unfolding marshal_optional
timestamp_reads none j e = inl (refl, ground arith)
timestamp_reads (some none) j e = inr (inl (refl, ground arith))
timestamp_reads (some (some t)) j e =
    let (k, e1, e2) = >>=-eq-ok (marshal_timestamp t) _ e in
    inr (
      inr (
        t,
        k,
        refl,
        ground arith,
        unmarshal-marshal_timestamp t k e1,
        unfold marshal_timestamp raw_is_null in ground arith,
      ))

pub unmarshal-marshal_mutation_response :
    (S : Strconv) (m : MutationResponseMessage) (j : Json)
    → IsResponse m.response
    → marshal_mutation_response S m ≡ ok j
    → (discriminator j ≡ ok (str "MutationResponse"))
      × (unmarshal_mutation_response S j ≡ ok (record m { response = response_sent m.response }))
unfolding marshal_mutation_response marshal_response unmarshal_mutation_response raw_object
    unmarshal_exact_field unmarshal_bool lookup unmarshal_string discriminator with_field raw_result
    optional_timestamp_from_raw optional_from_raw raw_is_null
unmarshal-marshal_mutation_response S m j h e =
    let (ts, e1, e2) = >>=-eq-ok (marshal_optional marshal_timestamp m.ts) _ e in
    let (field, e3, e4) = >>=-eq-ok (marshal_failure_data S m.response) _ e2 in
    let (result, e5, e6) = >>=-eq-ok (marshal_result S m.response) _ e4 in
    ground (
      arith,
      e6,
      unmarshal-marshal_uint32 m.response.request_id h.request_id_fits,
      unmarshal-marshal_string_slice m.response.log_lines,
      timestamp_reads m.ts ts e1,
      failure_data_read S m.response h field e3 (with_field (str "errorData") field no_entries)
          (str "errorData"),
      result_read S m.response h result (response_sent m.response).error_data e5 refl,
    )
