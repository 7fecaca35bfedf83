-- ===== src/BaseClient/Requests.antt =====
-- baseclient/client_state.go: mutations, actions, the replay of pending mutations and the restart
-- for a new connection.
pub mod Atomic
pub mod Replay
pub mod Cancel
use convex_go.Prelude.{
  ℕ, Bool, true, false, not, Option, none, some, List, [], ◌∷◌, ◌++◌, map, Str, str, if◌then◌else◌,
  ltb, ◌==◌, is_some,
}
use convex_go.Prelude.Eq.{nat_eq}
use convex_go.Prelude.GoMap.{GoMap, put, delete}
use convex_go.Prelude.GoMap.Iterate.{keys_where, values_where}
use convex_go.Prelude.Sort.{sort_slice}
use convex_go.Core.Error.{Result, ok, err}
use convex_go.Core.Wire.{Wire}
use convex_go.Core.GoValue.{Any, Request, canonical_request}
use convex_go.Core.FunctionResult.{FunctionResult, error_message_result}
use convex_go.Protocol.{
  next_u32, QuerySetModification, RequestMessage, ClientMessage, mutation_message, action_message,
}
use convex_go.BaseClient.State.{
  Client, Outcome, QueryResults, query_results_snapshot, OptimisticUpdate, TrackedSyncRequest,
  mutation_kind, action_kind, zero_version,
}
use convex_go.BaseClient.Optimistic.{
  SyncMutationOption, sync_mutation_options_from, sorted_base_queries,
}
use convex_go.BaseClient.Queries.{add_of, queue_query_set}
use convex_go.BaseClient.Auth.{refresh_auth_for_reconnect}
use convex_go.BaseClient.Results.{is_mutation, optimistic_results_with, remember_action_result}

abbrev pub request_message : ℕ → Request → RequestMessage
request_message id r = record {
  request_id = id;
  udf_path = r.path;
  args = r.arg ∷ [];
  component_path = [];
}

abbrev pub tracked_mutation : ℕ → Request → Option OptimisticUpdate → TrackedSyncRequest
tracked_mutation id r update = record {
  id = id;
  kind = mutation_kind;
  message = mutation_message (request_message id r);
  optimistic_update = update;
  result = none;
  ts = none;
}

abbrev pub tracked_action : ℕ → Request → TrackedSyncRequest
tracked_action id r = record {
  id = id;
  kind = action_kind;
  message = action_message (request_message id r);
  optimistic_update = none;
  result = none;
  ts = none;
}

-- The request takes the next id, is tracked, and its message is queued.
unfoldable pub track : TrackedSyncRequest → Client → Client
track r c = record c {
  next_request_id = next_u32 c.next_request_id;
  requests = put c.requests c.next_request_id r;
  outgoing = c.outgoing ++ r.message ∷ [];
}

abbrev pub Started : Type 0
Started = ℕ × Option QueryResults

-- After the optimistic update has been tried: on its error nothing changes.
abbrev pub start_optimistic :
    Result (GoMap ℕ FunctionResult) → TrackedSyncRequest → Client → Outcome Started
start_optimistic (err e) r c = (c, err e)
start_optimistic (ok results) r c =
    let c' = record c { results = results } in
    (track r c', ok (c.next_request_id, some (query_results_snapshot c')))

abbrev pub start_mutation :
    (Wire → Str) → Option OptimisticUpdate → Request → Client → Outcome Started
start_mutation marshal none req c =
    (track (tracked_mutation c.next_request_id req none) c, ok (c.next_request_id, none))
start_mutation marshal (some u) req c =
    let r = tracked_mutation c.next_request_id req (some u) in
    start_optimistic (optimistic_results_with marshal (some r) c) r c

-- Client.mutation; Mutation drops the snapshot.
unfoldable pub mutation :
    (Wire → Str) → Str → Any → List (Option SyncMutationOption) → Client → Outcome Started
mutation marshal path args opts c = elim (canonical_request path args) [
  | err e ↦ (c, err e)
  | ok req ↦ start_mutation marshal (sync_mutation_options_from opts) req c
]

unfoldable pub action : Str → Any → Client → Outcome ℕ
action path args c = elim (canonical_request path args) [
  | err e ↦ (c, err e)
  | ok req ↦ (track (tracked_action c.next_request_id req) c, ok c.next_request_id)
]

-- The order of ReplayOngoingRequests: requests with a timestamp first, the later one first, then
-- the ids.
abbrev pub replay_before : Option ℕ → ℕ → Option ℕ → ℕ → Bool
replay_before (some s) i (some t) j = if not (s == t) then ltb t s else ltb i j
replay_before (some s) i none j = true
replay_before none i (some t) j = false
replay_before none i none j = ltb i j

unfoldable pub replay_less : TrackedSyncRequest → TrackedSyncRequest → Bool
replay_less p q = replay_before p.ts p.id q.ts q.id

unfoldable pub replay_ongoing_requests : Client → List ClientMessage
replay_ongoing_requests c =
    map (λ (r : TrackedSyncRequest). r.message)
      (sort_slice replay_less
        (values_where (λ (r : TrackedSyncRequest). is_mutation r.kind) c.requests.entries))

-- replayQueryAdds
unfoldable pub replay_query_adds : Client → List QuerySetModification
replay_query_adds c = map add_of (sorted_base_queries c.queries)

abbrev pub action_reconnect_error_message : Str
action_reconnect_error_message = str "Connection lost while action was in flight"

-- cancelPendingActionsForReconnect
unfoldable pub cancel_actions : List ℕ → Client → Client
cancel_actions [] c = c
cancel_actions (id ∷ ids) c =
    let c' = remember_action_result id (error_message_result action_reconnect_error_message) c in
    cancel_actions ids (record c' { requests = delete c'.requests id })

unfoldable pub cancel_pending_actions_for_reconnect : Client → Client
cancel_pending_actions_for_reconnect c =
    cancel_actions
      (sort_slice ltb
        (keys_where (λ (r : TrackedSyncRequest). not (is_mutation r.kind)) c.requests.entries))
      c

abbrev pub queue_adds : List QuerySetModification → Client → Client
queue_adds [] c = c
queue_adds (m ∷ ms) c = queue_query_set (m ∷ ms) c

-- The part of RestartForReconnect after the token has been refreshed.
unfoldable pub requeue : Client → Client
requeue c =
    let c' = queue_adds (replay_query_adds c) c in
    record c' { outgoing = c'.outgoing ++ replay_ongoing_requests c' }

-- The part before: versions and the queue start anew, and pending actions are cancelled.
unfoldable pub reset_connection : Client → Client
reset_connection c = cancel_pending_actions_for_reconnect (record c {
  outgoing = [];
  identity_version = 0;
  query_set_version = 0;
  remote_version = zero_version;
})

abbrev pub requeue_after : Outcome (Unit {0}) → Outcome (Unit {0})
requeue_after (c, err e) = (c, err e)
requeue_after (c, ok _) = (requeue c, ok tt)

abbrev pub refresh_and_requeue : Client → Outcome (Unit {0})
refresh_and_requeue c =
    if is_some c.auth_fetcher
    then requeue_after (refresh_auth_for_reconnect c)
    else (requeue c, ok tt)

unfoldable pub restart_for_reconnect : Client → Outcome (Unit {0})
restart_for_reconnect c = refresh_and_requeue (reset_connection c)
