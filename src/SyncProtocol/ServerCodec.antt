-- ===== src/SyncProtocol/ServerCodec.antt =====
-- EncodeServerMessage and DecodeServerMessage of internal/syncprotocol/sync_protocol.go; the messages
-- stand in the children.
pub mod Results
pub mod Transition
pub mod Responses
pub mod Notices
use convex_go.Prelude.{
  ℕ, Bool, true, false, not, ◌&&◌, Option, none, some, List, [], Str, str, if◌then◌else◌,
}
use convex_go.Prelude.Eq.{list_beq}
use convex_go.Core.Error.{
  Result, ok, err, ◌>>=◌, map_ok, json_type, missing_journal, unknown_message_type,
  unknown_modification_type, nil_message,
}
use convex_go.Core.Value.{Value, null}
use convex_go.Protocol.{OptionalValue, OptionalString}
use convex_go.SyncProtocol.Json.{
  Json, JsonFields, Strconv, json_null, json_bool, json_string, json_object, no_entries, entry,
  lookup, raw_object, raw_is_null, unmarshal_exact_field, unmarshal_string, unmarshal_bool,
  unmarshal_uint32, marshal_uint32, marshal_int64, unmarshal_pointer, marshal_float64,
}
use convex_go.SyncProtocol.Values.{marshal_value, unmarshal_value}
use convex_go.SyncProtocol.Timestamp.{marshal_timestamp}
use convex_go.SyncProtocol.Messages.{
  QueryUpdated, QueryFailed, StateModification, query_updated, query_failed, query_removed,
  TransitionMessage, ActionResponseMessage, MutationResponseMessage, AuthErrorMessage,
  TransitionChunkMessage, ServerMessage, transition, transition_chunk, mutation_response,
  action_response, auth_error, fatal_error, ping,
}
use convex_go.SyncProtocol.Fields.{
  optional_string_from_raw, optional_value_from_raw, optional_timestamp_from_raw,
  optional_float64_from_raw, optional_int64_from_raw, optional_identity_version_from_raw,
  discriminator, optional_string_wire, with_field, unmarshal_slice, marshal_slice, marshal_optional,
  decode_elements, marshal_elements, marshal_string_slice, unmarshal_string_list,
  marshal_state_version, unmarshal_state_version, no_version,
}
use convex_go.SyncProtocol.ServerCodec.Transition.{marshal_transition, unmarshal_transition}
use convex_go.SyncProtocol.ServerCodec.Responses.{
  marshal_action_response, unmarshal_action_response, marshal_mutation_response,
  unmarshal_mutation_response,
}
use convex_go.SyncProtocol.ServerCodec.Notices.{
  marshal_auth_error, unmarshal_auth_error, marshal_fatal_error, unmarshal_fatal_error,
  marshal_ping, marshal_transition_chunk, unmarshal_transition_chunk,
}

module _ (S : Strconv) where
  -- EncodeServerMessage; none is a nil message.
  unfoldable pub encode_server_message : Option ServerMessage → Result Json
  unfolding marshal_transition marshal_transition_chunk marshal_mutation_response
      marshal_action_response marshal_auth_error marshal_fatal_error marshal_ping
  encode_server_message none = err nil_message
  encode_server_message (some (transition m)) = marshal_transition S m
  encode_server_message (some (transition_chunk m)) = ok (marshal_transition_chunk m)
  encode_server_message (some (mutation_response m)) = marshal_mutation_response S m
  encode_server_message (some (action_response m)) = marshal_action_response S m
  encode_server_message (some (auth_error m)) = ok (marshal_auth_error m)
  encode_server_message (some (fatal_error message)) = ok (marshal_fatal_error message)
  encode_server_message (some ping) = ok marshal_ping

  -- The switch of DecodeServerMessage.
  unfoldable pub decode_server_as : Str → Json → Result ServerMessage
  unfolding unmarshal_transition unmarshal_transition_chunk unmarshal_mutation_response
      unmarshal_action_response unmarshal_auth_error unmarshal_fatal_error
  decode_server_as message_type j =
      if list_beq message_type (str "Transition")
      then map_ok transition (unmarshal_transition S j)
      else if list_beq message_type (str "TransitionChunk")
      then map_ok transition_chunk (unmarshal_transition_chunk j)
      else if list_beq message_type (str "MutationResponse")
      then map_ok mutation_response (unmarshal_mutation_response S j)
      else if list_beq message_type (str "ActionResponse")
      then map_ok action_response (unmarshal_action_response S j)
      else if list_beq message_type (str "AuthError")
      then map_ok auth_error (unmarshal_auth_error j)
      else if list_beq message_type (str "FatalError")
      then map_ok fatal_error (unmarshal_fatal_error j)
      else if list_beq message_type (str "Ping")
      then ok ping
      else err (unknown_message_type message_type)

  -- DecodeServerMessage
  unfoldable pub decode_server_message : Json → Result ServerMessage
  unfolding discriminator decode_server_as
  decode_server_message j = discriminator j >>= λ message_type. decode_server_as message_type j
