-- ===== src/SyncProtocol/Projection.antt =====
-- The messages of the base client (Protocol) as views of the messages of the wire: what the base
-- client reads of a server message, and what it sends as a client message.
pub mod Transport
use convex_go.Prelude.{ℕ, Option, none, some, List, [], ◌∷◌, map, Str, str}
use convex_go.Protocol.{
  ClientMessage, ServerMessage, StateModification, QuerySetModification, ResponseMessage,
  QuerySetAdd, AuthTokenType, SyncUserIdentityAttributes,
}
use convex_go.SyncProtocol.Json.{no_entries}
use convex_go.SyncProtocol.Messages

abbrev pub given : Option (Option ℕ) → Option ℕ
given (some (some n)) = some n
given _ = none

abbrev pub elements {ℓ} : {A : Type ℓ} → Messages.Slice A → List A
elements none = []
elements (some xs) = xs

unfoldable pub change_view : Messages.StateModification → StateModification
change_view (Messages.query_updated m) = StateModification.query_updated m.query_id m.value
change_view (Messages.query_failed m) =
    StateModification.query_failed m.query_id m.error_message m.error_data
change_view (Messages.query_removed id) = StateModification.query_removed id

unfoldable pub response_view : Messages.ActionResponseMessage → ResponseMessage
response_view m = record {
  request_id = m.request_id;
  success = m.success;
  value = m.value;
  error_message = m.error_message;
  error_data = m.error_data;
}

unfoldable pub server_view : Messages.ServerMessage → ServerMessage
unfolding change_view response_view
server_view (Messages.transition m) = ServerMessage.transition (record {
  start_version = m.start_version;
  end_version = m.end_version;
  modifications = map change_view (elements m.modifications);
})
server_view (Messages.transition_chunk m) = ServerMessage.transition_chunk
server_view (Messages.mutation_response m) =
    ServerMessage.mutation_response
      (record { response = response_view m.response; ts = given m.ts })
server_view (Messages.action_response m) = ServerMessage.action_response (response_view m)
server_view (Messages.auth_error m) = ServerMessage.auth_error (record {
  error = m.error;
  base_version = given m.base_version;
  auth_update_attempted = m.auth_update_attempted;
})
server_view (Messages.fatal_error message) = ServerMessage.fatal_error message
server_view Messages.ping = ServerMessage.ping

abbrev pub token_type_text : AuthTokenType → Str
token_type_text AuthTokenType.unset = []
token_type_text AuthTokenType.token_none = str "None"
token_type_text AuthTokenType.token_user = str "User"
token_type_text AuthTokenType.token_admin = str "Admin"

unfoldable pub edit_sent : QuerySetModification → Messages.QuerySetModification
edit_sent (QuerySetModification.add m) = Messages.add (record {
  query_id = m.query_id;
  udf_path = m.udf_path;
  args = some m.args;
  journal = m.journal;
  component_path = m.component_path;
})
edit_sent (QuerySetModification.remove id) = Messages.remove id

-- An identity without claims.
abbrev pub identity_sent : Option SyncUserIdentityAttributes → Option Messages.IdentityAttributes
identity_sent none = none
identity_sent (some i) = some (record {
  token_identifier = i.token_identifier;
  issuer = i.issuer;
  subject = i.subject;
  claims = no_entries;
})

unfoldable pub client_sent : ClientMessage → Messages.ClientMessage
unfolding edit_sent
client_sent (ClientMessage.modify_query_set m) = Messages.modify_query_set (record {
  base_version = m.base_version;
  new_version = m.new_version;
  modifications = some (map edit_sent m.modifications);
})
client_sent (ClientMessage.mutation_message m) = Messages.mutation_message (record {
  request_id = m.request_id;
  udf_path = m.udf_path;
  args = some m.args;
  component_path = m.component_path;
})
client_sent (ClientMessage.action_message m) = Messages.action_message (record {
  request_id = m.request_id;
  udf_path = m.udf_path;
  args = some m.args;
  component_path = m.component_path;
})
client_sent (ClientMessage.authenticate m) = Messages.authenticate (record {
  base_version = m.base_version;
  token_type = token_type_text m.token_type;
  value = m.value;
  acting_as = identity_sent m.acting_as;
})
