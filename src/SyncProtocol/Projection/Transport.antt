-- ===== src/SyncProtocol/Projection/Transport.antt =====
-- Encoding on the server, decoding in the client (sync_protocol.go), and what ReceiveMessage of the
-- base client then does.
use convex_go.Prelude.{◌≡◌, refl, some, none, Option, arith, Bool-cases, inl, inr, Str}
use convex_go.Prelude.Eq.{nat_eq}
use convex_go.Prelude.GoMap.{get}
use convex_go.Core.Error.{ok}
use convex_go.Core.Wire.{Wire}
use convex_go.Protocol.{ResponseMessage, MutationResponseMessage}
use convex_go.BaseClient.State.{Client, TrackedSyncRequest}
use convex_go.BaseClient.Receive.{
  function_result_from_response, receive_message, receive_mutation_response,
  receive_action_response, update_request_from_mutation_response, respond_to,
}
use convex_go.SyncProtocol.Json.{Json, Strconv}
use convex_go.SyncProtocol.Messages
use convex_go.SyncProtocol.ServerCodec.{encode_server_message, decode_server_message}
use convex_go.SyncProtocol.RoundTrip.Responses.{response_sent}
use convex_go.SyncProtocol.RoundTrip.Transition.{made}
use convex_go.SyncProtocol.RoundTrip.Server.{
  IsReply, server_message_read, decode-encode_server_message,
}
use convex_go.SyncProtocol.Projection.{server_view, response_view, elements}

-- The base client reads of a response its request, its success and its result.
abbrev AreAlike : ResponseMessage → ResponseMessage → Type 0
AreAlike m n =
    (m.request_id ≡ n.request_id)
    × (m.success ≡ n.success)
    × (function_result_from_response m ≡ function_result_from_response n)

action_alike :
    (m n : ResponseMessage) (c : Client)
    → AreAlike m n
    → receive_action_response m c ≡ receive_action_response n c
unfolding receive_action_response
action_alike m n c h = ground arith

settled_alike :
    (marshal : Wire → Str) (m n : MutationResponseMessage) (o : Option TrackedSyncRequest)
    (c : Client)
    → AreAlike m.response n.response
    → m.ts ≡ n.ts
    → respond_to marshal o m c ≡ respond_to marshal o n c
settled_alike marshal m n o c h k = ground arith

mutation_alike :
    (marshal : Wire → Str) (m n : MutationResponseMessage) (c : Client)
    → AreAlike m.response n.response
    → m.ts ≡ n.ts
    → receive_mutation_response marshal m c ≡ receive_mutation_response marshal n c
unfolding receive_mutation_response update_request_from_mutation_response
mutation_alike marshal m n c h k =
    ground (arith, settled_alike marshal m n (get c.requests n.request_id) c h k)

sent_alike :
    (m : Messages.ActionResponseMessage)
    → AreAlike (response_view (response_sent m)) (response_view m)
unfolding function_result_from_response response_view response_sent
sent_alike m = elim (Bool-cases m.success) [ inl won ↦ ground arith | inr lost ↦ ground arith ]

elements-made {ℓ} : {A : Type ℓ} (xs : Messages.Slice A) → elements (made xs) ≡ elements xs
elements-made none = refl
elements-made (some xs) = refl

-- The base client does the same with a message as with what the wire keeps of it.
same_effect :
    (marshal : Wire → Str) (m : Messages.ServerMessage) (c : Client)
    → receive_message marshal (server_view (server_message_read m)) c
      ≡ receive_message marshal (server_view m) c
unfolding receive_message server_view server_message_read
same_effect marshal (Messages.transition m) c = rw (elements-made m.modifications) refl
same_effect marshal (Messages.transition_chunk m) c = refl
same_effect marshal (Messages.mutation_response m) c =
    mutation_alike marshal _ _ c (sent_alike m.response) refl
same_effect marshal (Messages.action_response m) c = action_alike _ _ c (sent_alike m)
same_effect marshal (Messages.auth_error m) c = refl
same_effect marshal (Messages.fatal_error message) c = refl
same_effect marshal Messages.ping c = refl

-- A server message that was encoded and decoded has on the base client the effect that the message
-- itself has: decoding succeeds, and ReceiveMessage then gives the same state, snapshot and error.
-- The numbers of the message fit their Go types, and its query results have journals.
pub receive_message-decode_server_message :
    (S : Strconv) (m : Messages.ServerMessage) (j : Json)
    → IsReply m
    → encode_server_message S (some m) ≡ ok j
    → (marshal : Wire → Str) (c : Client)
    → (d : Messages.ServerMessage) × (decode_server_message S j ≡ ok d)
      × (receive_message marshal (server_view d) c ≡ receive_message marshal (server_view m) c)
receive_message-decode_server_message S m j h e marshal c =
    (server_message_read m, decode-encode_server_message S m j h e, same_effect marshal m c)
