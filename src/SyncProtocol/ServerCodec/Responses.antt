-- ===== src/SyncProtocol/ServerCodec/Responses.antt =====
-- MutationResponseMessage and ActionResponseMessage of internal/syncprotocol/sync_protocol.go.
use convex_go.Prelude.{ℕ, Bool, true, false, Option, none, some, List, [], Str, str, if◌then◌else◌}
use convex_go.Core.Error.{Result, ok, err, ◌>>=◌, json_type}
use convex_go.Core.Value.{null}
use convex_go.Protocol.{OptionalValue}
use convex_go.SyncProtocol.Json.{
  Json, JsonFields, Strconv, json_bool, json_string, json_object, no_entries, entry, lookup,
  raw_object, unmarshal_exact_field, unmarshal_string, unmarshal_bool, unmarshal_uint32,
  marshal_uint32,
}
use convex_go.SyncProtocol.Values.{marshal_value, unmarshal_value}
use convex_go.SyncProtocol.Timestamp.{marshal_timestamp}
use convex_go.SyncProtocol.Messages.{ActionResponseMessage, MutationResponseMessage}
use convex_go.SyncProtocol.Fields.{
  optional_value_from_raw, optional_timestamp_from_raw, with_field, marshal_optional,
  marshal_string_slice,
}
use convex_go.SyncProtocol.ServerCodec.Results.{marshal_error_data, unmarshal_strings}

-- The result that a failure carries, which json.Unmarshal refuses when the field is missing.
unfoldable pub raw_result : JsonFields → Result Json
unfolding lookup
raw_result raw = elim (lookup (str "result") raw) [ none ↦ err json_type | some j ↦ ok j ]

module _ (S : Strconv) where
  unfoldable pub marshal_result : ActionResponseMessage → Result Json
  unfolding marshal_value
  marshal_result m = if m.success then marshal_value S m.value else ok (json_string m.error_message)

  -- Error data goes with a failure only.
  unfoldable pub marshal_failure_data : ActionResponseMessage → Result (Option Json)
  unfolding marshal_error_data
  marshal_failure_data m = if m.success then ok none else marshal_error_data S m.error_data

  -- ActionResponseMessage.MarshalJSON, and MutationResponseMessage.MarshalJSON with its timestamp.
  unfoldable pub marshal_response : Str → Option Json → ActionResponseMessage → Result Json
  unfolding marshal_result marshal_failure_data marshal_string_slice marshal_uint32 with_field
  marshal_response message_type ts m = do
    error_data ← marshal_failure_data m
    result ← marshal_result m
    ok (
        json_object (
          with_field (str "errorData") error_data (
            entry (str "logLines") (marshal_string_slice m.log_lines) (
              entry (str "requestId") (marshal_uint32 m.request_id) (
                entry (str "result") result (
                  entry (str "success") (json_bool m.success) (
                    with_field (str "ts") ts
                      (entry (str "type") (json_string message_type) no_entries))))))))

  unfoldable pub marshal_action_response : ActionResponseMessage → Result Json
  unfolding marshal_response
  marshal_action_response = marshal_response (str "ActionResponse") none

  unfoldable pub marshal_mutation_response : MutationResponseMessage → Result Json
  unfolding marshal_response marshal_optional marshal_timestamp
  marshal_mutation_response m = marshal_optional marshal_timestamp m.ts >>= λ ts.
      marshal_response (str "MutationResponse") ts m.response

  -- The value or the message, by the success of the request.
  unfoldable pub response_of :
      ℕ → Bool → Option (List Str) → OptionalValue → Json → Result ActionResponseMessage
  unfolding unmarshal_value unmarshal_string
  response_of request_id true log_lines error_data result = do
    value ← unmarshal_value S result
    ok (record {
      request_id = request_id;
      success = true;
      value = value;
      error_message = [];
      log_lines = log_lines;
      error_data = error_data;
    })
  response_of request_id false log_lines error_data result = do
    error_message ← unmarshal_string result
    ok (record {
      request_id = request_id;
      success = false;
      value = null;
      error_message = error_message;
      log_lines = log_lines;
      error_data = error_data;
    })

  -- ActionResponseMessage.UnmarshalJSON
  unfoldable pub unmarshal_action_response : Json → Result ActionResponseMessage
  unfolding raw_object unmarshal_exact_field unmarshal_uint32 unmarshal_bool optional_value_from_raw
      raw_result response_of
  unmarshal_action_response j = do
    raw ← raw_object j
    request_id ← unmarshal_exact_field unmarshal_uint32 0 raw (str "requestId")
    success ← unmarshal_exact_field unmarshal_bool false raw (str "success")
    log_lines ← unmarshal_exact_field unmarshal_strings none raw (str "logLines")
    error_data ← optional_value_from_raw S raw (str "errorData")
    result ← raw_result raw
    response_of request_id success log_lines error_data result

  -- MutationResponseMessage.UnmarshalJSON
  unfoldable pub unmarshal_mutation_response : Json → Result MutationResponseMessage
  unfolding raw_object unmarshal_exact_field unmarshal_uint32 unmarshal_bool optional_value_from_raw
      optional_timestamp_from_raw raw_result response_of
  unmarshal_mutation_response j = do
    raw ← raw_object j
    request_id ← unmarshal_exact_field unmarshal_uint32 0 raw (str "requestId")
    success ← unmarshal_exact_field unmarshal_bool false raw (str "success")
    log_lines ← unmarshal_exact_field unmarshal_strings none raw (str "logLines")
    ts ← optional_timestamp_from_raw raw (str "ts")
    error_data ← optional_value_from_raw S raw (str "errorData")
    result ← raw_result raw
    response ← response_of request_id success log_lines error_data result
    ok (record { response = response; ts = ts })
