-- ===== src/SyncProtocol/ClientCodec.antt =====
-- EncodeClientMessage and DecodeClientMessage of internal/syncprotocol/sync_protocol.go; the messages
-- stand in the children. Fields stand in the order in which encoding/json writes a map: by key.
pub mod Connect
pub mod Authenticate
pub mod QuerySet
pub mod Requests
use convex_go.Prelude.{
  ℕ, Bool, true, false, not, ◌&&◌, Option, none, some, [], Str, str, if◌then◌else◌,
}
use convex_go.Prelude.Eq.{list_beq}
use convex_go.Core.Error.{
  Result, ok, err, ◌>>=◌, map_ok, field_failed, missing_modifications, unknown_message_type,
  unknown_modification_type, nil_message,
}
use convex_go.SyncProtocol.Json.{
  Json, JsonFields, Strconv, json_null, json_string, json_object, no_entries, entry, lookup,
  raw_object, raw_is_null, unmarshal_exact_field, unmarshal_string, unmarshal_uint32,
  marshal_uint32, unmarshal_int64, marshal_int64, unmarshal_pointer,
}
use convex_go.SyncProtocol.Timestamp.{marshal_timestamp, unmarshal_timestamp}
use convex_go.SyncProtocol.Messages.{
  Slice, ConnectMessage, QuerySetAdd, QuerySetModification, add, remove, ModifyQuerySetMessage,
  RequestMessage, IdentityAttributes, AuthenticateMessage, EventMessage, ClientMessage, connect,
  modify_query_set, mutation_message, action_message, authenticate, event_message,
}
use convex_go.SyncProtocol.Fields.{
  optional_string_from_raw, discriminator, optional_string_wire, with_field, nonempty_string,
  unmarshal_slice, marshal_slice, decode_elements, marshal_elements, marshal_args, unmarshal_args,
}
use convex_go.SyncProtocol.Identity.{is_empty, marshal_identity, unmarshal_identity}
use convex_go.SyncProtocol.ClientCodec.Connect.{marshal_connect, unmarshal_connect}
use convex_go.SyncProtocol.ClientCodec.Authenticate.{marshal_authenticate, unmarshal_authenticate}
use convex_go.SyncProtocol.ClientCodec.QuerySet.{
  marshal_modify_query_set, unmarshal_modify_query_set,
}
use convex_go.SyncProtocol.ClientCodec.Requests.{
  marshal_event, unmarshal_event, marshal_mutation, unmarshal_mutation, marshal_action,
  unmarshal_action,
}

module _ (S : Strconv) where
  -- EncodeClientMessage; none is a nil message.
  unfoldable pub encode_client_message : Option ClientMessage → Result Json
  unfolding marshal_connect marshal_modify_query_set marshal_authenticate marshal_event
  encode_client_message none = err nil_message
  encode_client_message (some (connect m)) = marshal_connect m
  encode_client_message (some (modify_query_set m)) = marshal_modify_query_set S m
  encode_client_message (some (mutation_message m)) = marshal_mutation S m
  encode_client_message (some (action_message m)) = marshal_action S m
  encode_client_message (some (authenticate m)) = ok (marshal_authenticate m)
  encode_client_message (some (event_message m)) = ok (marshal_event m)

  -- The switch of DecodeClientMessage.
  unfoldable pub decode_client_as : Str → Json → Result ClientMessage
  unfolding unmarshal_connect unmarshal_modify_query_set unmarshal_authenticate unmarshal_event
  decode_client_as message_type j =
      if list_beq message_type (str "Connect")
      then map_ok connect (unmarshal_connect j)
      else if list_beq message_type (str "ModifyQuerySet")
      then map_ok modify_query_set (unmarshal_modify_query_set S j)
      else if list_beq message_type (str "Mutation")
      then map_ok mutation_message (unmarshal_mutation S j)
      else if list_beq message_type (str "Action")
      then map_ok action_message (unmarshal_action S j)
      else if list_beq message_type (str "Authenticate")
      then map_ok authenticate (unmarshal_authenticate j)
      else if list_beq message_type (str "Event")
      then map_ok event_message (unmarshal_event j)
      else err (unknown_message_type message_type)

  -- DecodeClientMessage
  unfoldable pub decode_client_message : Json → Result ClientMessage
  unfolding discriminator decode_client_as
  decode_client_message j = discriminator j >>= λ message_type. decode_client_as message_type j
