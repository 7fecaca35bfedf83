-- ===== src/SyncProtocol/Messages.antt =====
-- The message types of internal/syncprotocol/sync_protocol.go, with every field. A slice that may be
-- nil is an Option; a pointer with its flag of presence is an Option of an Option (Protocol's
-- OptionalString), and so is an OptionalValue an Option. A float64 and an int64 are their 64 bits.
use convex_go.Prelude.{ℕ, Bool, Option, List, Str}
use convex_go.Core.Value.{Value}
use convex_go.Protocol.{OptionalString, OptionalValue, StateVersion}
use convex_go.SyncProtocol.Json.{Json, JsonFields}

abbrev pub Slice {ℓ} : Type ℓ → Type ℓ
Slice A = Option (List A)

pub record ConnectMessage : Type 0 where
  pub session_id : Str
  pub connection_count : ℕ
  pub last_close_reason : Str
  pub max_observed_timestamp : Option ℕ
  pub client_ts : Option ℕ
  pub last_close_reason_present : Bool
  pub last_close_reason_null : Bool

pub record QuerySetAdd : Type 0 where
  pub query_id : ℕ
  pub udf_path : Str
  pub args : Slice Value
  pub journal : OptionalString
  pub component_path : Str

pub data QuerySetModification : Type 0 where
  add : QuerySetAdd → QuerySetModification
  remove : ℕ → QuerySetModification

pub record ModifyQuerySetMessage : Type 0 where
  pub base_version : ℕ
  pub new_version : ℕ
  pub modifications : Slice QuerySetModification

-- MutationMessage and ActionMessage have the same fields.
pub record RequestMessage : Type 0 where
  pub request_id : ℕ
  pub udf_path : Str
  pub args : Slice Value
  pub component_path : Str

-- SyncUserIdentityAttributes, with the claims that a decoded identity keeps.
pub record IdentityAttributes : Type 0 where
  pub token_identifier : Str
  pub issuer : Str
  pub subject : Str
  pub claims : JsonFields

-- An AuthTokenType is a string of Go.
pub record AuthenticateMessage : Type 0 where
  pub base_version : ℕ
  pub token_type : Str
  pub value : Str
  pub acting_as : Option IdentityAttributes

-- A nil RawMessage is none.
pub record EventMessage : Type 0 where
  pub event_type : Str
  pub event : Option Json

pub data ClientMessage : Type 0 where
  connect : ConnectMessage → ClientMessage
  modify_query_set : ModifyQuerySetMessage → ClientMessage
  mutation_message action_message : RequestMessage → ClientMessage
  authenticate : AuthenticateMessage → ClientMessage
  event_message : EventMessage → ClientMessage

pub record QueryUpdated : Type 0 where
  pub query_id : ℕ
  pub value : Value
  pub log_lines : Slice Str
  pub journal : OptionalString

pub record QueryFailed : Type 0 where
  pub query_id : ℕ
  pub error_message : Str
  pub log_lines : Slice Str
  pub journal : OptionalString
  pub error_data : OptionalValue

pub data StateModification : Type 0 where
  query_updated : QueryUpdated → StateModification
  query_failed : QueryFailed → StateModification
  query_removed : ℕ → StateModification

pub record TransitionMessage : Type 0 where
  pub start_version : StateVersion
  pub end_version : StateVersion
  pub modifications : Slice StateModification
  pub client_clock_skew : Option (Option ℕ)
  pub server_ts : Option (Option ℕ)

pub record ActionResponseMessage : Type 0 where
  pub request_id : ℕ
  pub success : Bool
  pub value : Value
  pub error_message : Str
  pub log_lines : Slice Str
  pub error_data : OptionalValue

pub record MutationResponseMessage : Type 0 where
  pub response : ActionResponseMessage
  pub open response use *
  pub ts : Option (Option ℕ)

pub record AuthErrorMessage : Type 0 where
  pub error : Str
  pub base_version : Option (Option ℕ)
  pub auth_update_attempted : Option Bool

pub record TransitionChunkMessage : Type 0 where
  pub chunk : Str
  pub part_number : ℕ
  pub total_parts : ℕ
  pub transition_id : Str

pub data ServerMessage : Type 0 where
  transition : TransitionMessage → ServerMessage
  transition_chunk : TransitionChunkMessage → ServerMessage
  mutation_response : MutationResponseMessage → ServerMessage
  action_response : ActionResponseMessage → ServerMessage
  auth_error : AuthErrorMessage → ServerMessage
  fatal_error : Str → ServerMessage
  ping : ServerMessage
