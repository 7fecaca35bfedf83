-- ===== src/BaseClient/State.antt =====
-- baseclient/client_state.go and protocol_exports.go: the state of the client. A pointer to a query
-- or a request is held by one map only, so a write through it is a write to the map.
use convex_go.Prelude.{ℕ, ◌≡◌, ◌↔◌, Bool, true, ◌&&◌, Option, none, List, [], Str, arith, ◌==◌}
use convex_go.Prelude.Eq.{Eq}
use convex_go.Prelude.GoMap.{GoMap, empty}
use convex_go.Core.Error.{Error, Result}
use convex_go.Core.Value.{Value}
use convex_go.Core.GoValue.{Any}
use convex_go.Core.FunctionResult.{FunctionResult}
use convex_go.Protocol.{StateVersion, ClientMessage, AuthTokenType, SyncUserIdentityAttributes}

pub record SubscriberId : Type 0 where
  pub query_id : ℕ
  pub index : ℕ

abbrev pub subscriber_beq : SubscriberId → SubscriberId → Bool
subscriber_beq a b = a.query_id == b.query_id && a.index == b.index

pub subscriber_beq_iff : (a b : SubscriberId) → (subscriber_beq a b ≡ true) ↔ (a ≡ b)
subscriber_beq_iff a b = ground arith

instance abbrev pub subscriber_eq : Eq SubscriberId
subscriber_eq = record { beq = subscriber_beq; beq_iff = subscriber_beq_iff }

pub record LocalBaseQuery : Type 0 where
  pub id : ℕ
  pub canonical_path : Str
  pub args : List Value
  pub num_subscribers : ℕ
  pub next_subscriber_idx : ℕ

pub record OptimisticQueryResult : Type 0 where
  pub path : Str
  pub args : Option Value
  pub value : Option Value

-- An optimistic update, by what it does: it can only call the store, whose fields are private to the
-- package, and it ends well or with an error. What follows a call may depend on its answer.
pub data OptimisticUpdate : Type 0 where
  done : OptimisticUpdate
  fail : Error → OptimisticUpdate
  get_query : Str → Any → (Result (Option Value) → OptimisticUpdate) → OptimisticUpdate
  get_all_queries :
      Str → (Result (List OptimisticQueryResult) → OptimisticUpdate) → OptimisticUpdate
  set_query : Str → Any → Any → (Result (Unit {0}) → OptimisticUpdate) → OptimisticUpdate
  set_query_loading : Str → Any → (Result (Unit {0}) → OptimisticUpdate) → OptimisticUpdate

pub data RequestKind : Type 0 where
  mutation_kind action_kind : RequestKind

-- `result` is none until hasResult is set.
pub record TrackedSyncRequest : Type 0 where
  pub id : ℕ
  pub kind : RequestKind
  pub message : ClientMessage
  pub optimistic_update : Option OptimisticUpdate
  pub result : Option FunctionResult
  pub ts : Option ℕ

pub record AuthToken : Type 0 where
  pub token_type : AuthTokenType
  pub value : Str
  pub acting_as : Option SyncUserIdentityAttributes

-- A fetcher at the call that an operation makes: no operation calls it twice.
abbrev pub AuthTokenFetcher : Type 0
AuthTokenFetcher = Bool → Result AuthToken

pub record Client : Type 0 where
  pub next_query_id : ℕ
  pub query_set_version : ℕ
  pub queries : GoMap Str LocalBaseQuery
  pub query_id_to_token : GoMap ℕ Str
  pub subscribers : GoMap SubscriberId (Unit {0})
  pub server_results : GoMap ℕ FunctionResult
  pub results : GoMap ℕ FunctionResult
  pub remote_version : StateVersion
  pub identity_version : ℕ
  pub auth_fetcher : Option AuthTokenFetcher
  pub outgoing : List ClientMessage
  pub max_observed_timestamp : Option ℕ
  pub next_request_id : ℕ
  pub requests : GoMap ℕ TrackedSyncRequest
  pub completed_mutations : GoMap ℕ (Unit {0})
  pub completed_mutation_order : List ℕ
  pub mutation_results : GoMap ℕ FunctionResult
  pub action_results : GoMap ℕ FunctionResult
  pub action_result_order : List ℕ

abbrev pub zero_version : StateVersion
zero_version = record { query_set = 0; identity = 0; ts = 0 }

-- New
abbrev pub new : Client
new = record {
  next_query_id = 0;
  query_set_version = 0;
  queries = empty;
  query_id_to_token = empty;
  subscribers = empty;
  server_results = empty;
  results = empty;
  remote_version = zero_version;
  identity_version = 0;
  auth_fetcher = none;
  outgoing = [];
  max_observed_timestamp = none;
  next_request_id = 0;
  requests = empty;
  completed_mutations = empty;
  completed_mutation_order = [];
  mutation_results = empty;
  action_results = empty;
  action_result_order = [];
}

-- What an operation leaves: the state, also after an error, and the result.
abbrev pub Outcome {ℓ} : Type ℓ → Type ℓ
Outcome A = Client × Result A

-- The snapshot that queryResultsSnapshot copies.
pub record QueryResults : Type 0 where
  pub subscribers : GoMap SubscriberId (Unit {0})
  pub results : GoMap ℕ FunctionResult

unfoldable pub query_results_snapshot : Client → QueryResults
query_results_snapshot c = record { subscribers = c.subscribers; results = c.results }
