-- ===== src/Protocol.antt =====
-- internal/syncprotocol/sync_protocol.go: the messages of the sync protocol and their parts.
use convex_go.Prelude.{ℕ, ◌+◌, ◌%◌, ◌^◌, Bool, ◌&&◌, Option, List, Str, ◌==◌}
use convex_go.Core.Value.{Value}

-- QueryID, QuerySetVersion, IdentityVersion and RequestID are uint32: ++ wraps around.
abbrev pub u32_mod : ℕ
u32_mod = 2 ^ 32

abbrev pub u64_mod : ℕ
u64_mod = 2 ^ 64

unfoldable pub next_u32 : ℕ → ℕ
next_u32 n = (n + 1) % u32_mod

unfoldable pub next_u64 : ℕ → ℕ
next_u64 n = (n + 1) % u64_mod

-- OptionalString: missing, null or a text.
abbrev pub OptionalString : Type 0
OptionalString = Option (Option Str)

-- OptionalValue: missing or a value, null included.
abbrev pub OptionalValue : Type 0
OptionalValue = Option Value

pub record QuerySetAdd : Type 0 where
  pub query_id : ℕ
  pub udf_path : Str
  pub args : List Value
  pub journal : OptionalString
  pub component_path : Str

pub data QuerySetModification : Type 0 where
  add : QuerySetAdd → QuerySetModification
  remove : ℕ → QuerySetModification

pub record StateVersion : Type 0 where
  pub query_set : ℕ
  pub identity : ℕ
  pub ts : ℕ

unfoldable pub state_version_eq : StateVersion → StateVersion → Bool
state_version_eq v w = v.query_set == w.query_set && v.identity == w.identity && v.ts == w.ts

pub data AuthTokenType : Type 0 where
  unset token_none token_user token_admin : AuthTokenType

-- SyncUserIdentityAttributes, without the extra claims, which the client only carries along.
pub record SyncUserIdentityAttributes : Type 0 where
  pub token_identifier : Str
  pub issuer : Str
  pub subject : Str

pub record ModifyQuerySetMessage : Type 0 where
  pub base_version : ℕ
  pub new_version : ℕ
  pub modifications : List QuerySetModification

-- MutationMessage and ActionMessage have the same fields.
pub record RequestMessage : Type 0 where
  pub request_id : ℕ
  pub udf_path : Str
  pub args : List Value
  pub component_path : Str

pub record AuthenticateMessage : Type 0 where
  pub base_version : ℕ
  pub token_type : AuthTokenType
  pub value : Str
  pub acting_as : Option SyncUserIdentityAttributes

pub data ClientMessage : Type 0 where
  modify_query_set : ModifyQuerySetMessage → ClientMessage
  mutation_message action_message : RequestMessage → ClientMessage
  authenticate : AuthenticateMessage → ClientMessage

pub data StateModification : Type 0 where
  query_updated : ℕ → Value → StateModification
  query_failed : ℕ → Str → OptionalValue → StateModification
  query_removed : ℕ → StateModification

pub record TransitionMessage : Type 0 where
  pub start_version : StateVersion
  pub end_version : StateVersion
  pub modifications : List StateModification

-- ActionResponseMessage has no timestamp; the rest is shared.
pub record ResponseMessage : Type 0 where
  pub request_id : ℕ
  pub success : Bool
  pub value : Value
  pub error_message : Str
  pub error_data : OptionalValue

pub record MutationResponseMessage : Type 0 where
  pub response : ResponseMessage
  pub open response use *
  pub ts : Option ℕ

pub record AuthErrorMessage : Type 0 where
  pub error : Str
  pub base_version : Option ℕ
  pub auth_update_attempted : Option Bool

pub data ServerMessage : Type 0 where
  transition : TransitionMessage → ServerMessage
  transition_chunk : ServerMessage
  mutation_response : MutationResponseMessage → ServerMessage
  action_response : ResponseMessage → ServerMessage
  auth_error : AuthErrorMessage → ServerMessage
  fatal_error : Str → ServerMessage
  ping : ServerMessage
