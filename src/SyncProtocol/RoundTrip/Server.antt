-- ===== src/SyncProtocol/RoundTrip/Server.antt =====
-- EncodeServerMessage and DecodeServerMessage of sync_protocol.go, there and back.
use convex_go.Prelude.{◌≡◌, some, arith}
use convex_go.Core.Error.{ok}
use convex_go.SyncProtocol.Json.{
  Json, Strconv, raw_object, unmarshal_exact_field, lookup, unmarshal_string,
}
use convex_go.SyncProtocol.Fields.{discriminator}
use convex_go.SyncProtocol.Messages.{
  ServerMessage, TransitionChunkMessage, transition, transition_chunk, mutation_response,
  action_response, auth_error, fatal_error, ping,
}
use convex_go.SyncProtocol.ServerCodec.{
  encode_server_message, decode_server_message, decode_server_as,
}
use convex_go.SyncProtocol.ServerCodec.Notices.{marshal_ping}
use convex_go.SyncProtocol.RoundTrip.{IsU32, OnOption}
use convex_go.SyncProtocol.RoundTrip.Transition.{IsTransition, made, unmarshal-marshal_transition}
use convex_go.SyncProtocol.RoundTrip.Responses.{
  IsResponse, response_sent, unmarshal-marshal_action_response, unmarshal-marshal_mutation_response,
}
use convex_go.SyncProtocol.RoundTrip.Notices.{
  unmarshal-marshal_transition_chunk, unmarshal-marshal_auth_error, unmarshal-marshal_fatal_error,
}

pub record IsChunk (m : TransitionChunkMessage) : Type 0 where
  pub part_number_fits : IsU32 m.part_number
  pub total_parts_fits : IsU32 m.total_parts

-- The numbers of a message fit their Go types, and query results have journals.
abbrev pub IsReply : ServerMessage → Type 0
IsReply (transition m) = IsTransition m
IsReply (transition_chunk m) = IsChunk m
IsReply (mutation_response m) = IsResponse m.response
IsReply (action_response m) = IsResponse m
IsReply (auth_error m) = OnOption (OnOption IsU32) m.base_version
IsReply (fatal_error message) = Unit
IsReply ping = Unit

-- What of a message the wire keeps.
unfoldable pub server_message_read : ServerMessage → ServerMessage
server_message_read (transition m) = transition (record m { modifications = made m.modifications })
server_message_read (mutation_response m) =
    mutation_response (record m { response = response_sent m.response })
server_message_read (action_response m) = action_response (response_sent m)
server_message_read m = m

pub decode-encode_server_message :
    (S : Strconv) (m : ServerMessage) (j : Json)
    → IsReply m
    → encode_server_message S (some m) ≡ ok j
    → decode_server_message S j ≡ ok (server_message_read m)
unfolding encode_server_message decode_server_message decode_server_as server_message_read
decode-encode_server_message S (transition m) j h e =
    ground (arith, unmarshal-marshal_transition S m j h e)
decode-encode_server_message S (transition_chunk m) j h e =
    ground (arith, unmarshal-marshal_transition_chunk m h.part_number_fits h.total_parts_fits)
decode-encode_server_message S (mutation_response m) j h e =
    ground (arith, unmarshal-marshal_mutation_response S m j h e)
decode-encode_server_message S (action_response m) j h e =
    ground (arith, unmarshal-marshal_action_response S m h j e)
decode-encode_server_message S (auth_error m) j h e =
    ground (arith, unmarshal-marshal_auth_error m h)
decode-encode_server_message S (fatal_error message) j h e =
    ground (arith, unmarshal-marshal_fatal_error message)
decode-encode_server_message S ping j h e =
    unfold marshal_ping discriminator raw_object unmarshal_exact_field lookup unmarshal_string in
    ground arith
