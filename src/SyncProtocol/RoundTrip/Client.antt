-- ===== src/SyncProtocol/RoundTrip/Client.antt =====
-- EncodeClientMessage and DecodeClientMessage of sync_protocol.go, there and back.
use convex_go.Prelude.{some, none}
use convex_go.SyncProtocol.Json.{Json, json_null}
use convex_go.SyncProtocol.Messages.{
  ClientMessage, connect, modify_query_set, mutation_message, action_message, authenticate,
  event_message,
}
use convex_go.SyncProtocol.RoundTrip.Connect.{IsConnect, with_reason_read}
use convex_go.SyncProtocol.RoundTrip.QuerySet.{IsModify}
use convex_go.SyncProtocol.RoundTrip.Requests.{IsRequest}
use convex_go.SyncProtocol.RoundTrip.Authenticate.{IsAuthenticate, acting_as_read}

-- The numbers of a message fit their Go types, its identity can be identified, and the
-- modifications of a query set are not nil.
abbrev pub IsSendable : ClientMessage → Type 0
IsSendable (connect m) = IsConnect m
IsSendable (modify_query_set m) = IsModify m
IsSendable (mutation_message m) = IsRequest m
IsSendable (action_message m) = IsRequest m
IsSendable (authenticate m) = IsAuthenticate m
IsSendable (event_message m) = Unit

-- What of a message the wire keeps.
unfoldable pub client_message_read : ClientMessage → ClientMessage
client_message_read (connect m) = connect (with_reason_read m)
client_message_read (modify_query_set m) = modify_query_set m
client_message_read (mutation_message m) = mutation_message m
client_message_read (action_message m) = action_message m
client_message_read (authenticate m) =
    authenticate (record m { acting_as = acting_as_read m.acting_as })
client_message_read (event_message m) =
    event_message (record m { event = some (elim m.event [ none ↦ json_null | some j ↦ j ]) })
