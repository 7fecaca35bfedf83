-- ===== src/BaseClient/Receive.antt =====
-- baseclient/client_receive.go: what a server message does to the state.
pub mod Outcomes
pub mod Completion
use convex_go.Prelude.{
  ℕ, Bool, true, false, not, ◌&&◌, Option, none, some, List, [], ◌∷◌, Str, if◌then◌else◌, ltb, leb,
  is_some,
}
use convex_go.Prelude.Eq.{nat_eq}
use convex_go.Prelude.GoMap.{get, put, delete}
use convex_go.Prelude.GoMap.Iterate.{keys_where}
use convex_go.Prelude.Sort.{sort_slice}
use convex_go.Core.Error.{
  Error, ok, err, unexpected_transition_chunk, version_mismatch, invalid_mutation_request,
  mismatched_mutation_response, missing_mutation_timestamp, invalid_action_request,
  mismatched_action_response,
}
use convex_go.Core.Wire.{Wire}
use convex_go.Core.FunctionResult.{
  FunctionResult, value_result, error_message_result, convex_error_result,
}
use convex_go.Protocol.{
  StateModification, query_updated, query_failed, query_removed, TransitionMessage, ResponseMessage,
  MutationResponseMessage, ServerMessage, OptionalValue, state_version_eq,
}
use convex_go.BaseClient.State.{
  Client, Outcome, QueryResults, query_results_snapshot, TrackedSyncRequest,
}
use convex_go.BaseClient.Results.{
  is_mutation, recompute_optimistic_results, remember_mutation_result, remember_action_result,
}

unfoldable pub is_active_query : ℕ → Client → Bool
is_active_query id c = is_some (get c.query_id_to_token id)

-- queryFailedResult, and the failure case of functionResultFromResponse
unfoldable pub failed_result : Str → OptionalValue → FunctionResult
failed_result message (some value) =
    convex_error_result (record { message = message; value = value })
failed_result message none = error_message_result message

unfoldable pub set_server_result : ℕ → FunctionResult → Client → Client
set_server_result id r c =
    if is_active_query id c then record c { server_results = put c.server_results id r } else c

unfoldable pub apply_state_modification : StateModification → Client → Client
apply_state_modification (query_updated id value) c = set_server_result id (value_result value) c
apply_state_modification (query_failed id message value) c =
    set_server_result id (failed_result message value) c
apply_state_modification (query_removed id) c = record c {
  server_results = delete c.server_results id;
  results = delete c.results id;
}

unfoldable pub apply_modifications : List StateModification → Client → Client
apply_modifications [] c = c
apply_modifications (m ∷ ms) c = apply_modifications ms (apply_state_modification m c)

abbrev pub later_timestamp : Option ℕ → ℕ → Option ℕ
later_timestamp none ts = some ts
later_timestamp (some old) ts = if ltb old ts then some ts else some old

unfoldable pub observe_timestamp : ℕ → Client → Client
observe_timestamp ts c = record c {
  max_observed_timestamp = later_timestamp c.max_observed_timestamp ts;
}

abbrev pub finish_request : Option FunctionResult → Bool → ℕ → Client → Client × Bool
finish_request none optimistic id c = (c, false)
finish_request (some result) optimistic id c =
    let c' = remember_mutation_result id result c in
    (record c' { requests = delete c'.requests id }, optimistic)

abbrev pub finish_found : Option TrackedSyncRequest → ℕ → Client → Client × Bool
finish_found none id c = (c, false)
finish_found (some r) id c = finish_request r.result (is_some r.optimistic_update) id c

-- completeMutationRequest: whether the request had an optimistic update.
unfoldable pub complete_mutation_request : ℕ → Client → Client × Bool
complete_mutation_request id c = finish_found (get c.requests id) id c

unfoldable pub complete_all : List ℕ → Client → Client
complete_all [] c = c
complete_all (id ∷ ids) c = complete_all ids (complete_mutation_request id c).0

abbrev at_most : Option ℕ → ℕ → Bool
at_most none ts = false
at_most (some t) ts = leb t ts

-- A mutation with a result whose timestamp the server state has reached.
abbrev pub completes_by : ℕ → TrackedSyncRequest → Bool
completes_by ts r = is_mutation r.kind && (is_some r.result && at_most r.ts ts)

unfoldable pub complete_mutations_through : ℕ → Client → Client
complete_mutations_through ts c =
    complete_all (sort_slice ltb (keys_where (completes_by ts) c.requests.entries)) c

abbrev pub with_snapshot : Outcome (Unit {0}) → Outcome (Option QueryResults)
with_snapshot (c, err e) = (c, err e)
with_snapshot (c, ok _) = (c, ok (some (query_results_snapshot c)))

-- The state that a transition leaves before the visible results are computed anew.
unfoldable pub advance : TransitionMessage → Client → Client
advance m c =
    let c' = record (apply_modifications m.modifications c) { remote_version = m.end_version } in
    complete_mutations_through m.end_version.ts (observe_timestamp m.end_version.ts c')

unfoldable pub receive_transition :
    (Wire → Str) → TransitionMessage → Client → Outcome (Option QueryResults)
receive_transition marshal m c =
    if state_version_eq m.start_version c.remote_version
    then with_snapshot (recompute_optimistic_results marshal (advance m c))
    else (c, err version_mismatch)

-- functionResultFromResponse
unfoldable pub function_result_from_response : ResponseMessage → FunctionResult
function_result_from_response m =
    if m.success then value_result m.value else failed_result m.error_message m.error_data

abbrev pub recompute_if : (Wire → Str) → Client × Bool → Outcome (Unit {0})
recompute_if marshal (c, true) = recompute_optimistic_results marshal c
recompute_if marshal (c, false) = (c, ok tt)

-- The response is kept on the request: a failure completes it at once, a success waits for its
-- timestamp.
abbrev pub settle : (Wire → Str) → Bool → Option ℕ → ℕ → Client → Outcome (Unit {0})
settle marshal false ts id c = recompute_if marshal (complete_mutation_request id c)
settle marshal true none id c = (c, err missing_mutation_timestamp)
settle marshal true (some ts) id c = (c, ok tt)

abbrev pub with_response : MutationResponseMessage → TrackedSyncRequest → TrackedSyncRequest
with_response m r = record r { result = some (function_result_from_response m.response); ts = m.ts }

abbrev pub respond_to :
    (Wire → Str) → Option TrackedSyncRequest → MutationResponseMessage → Client → Outcome (Unit {0})
respond_to marshal none m c =
    if is_some (get c.completed_mutations m.request_id)
    then (c, ok tt)
    else (c, err (invalid_mutation_request m.request_id))
respond_to marshal (some r) m c =
    if is_mutation r.kind
    then settle marshal m.success m.ts m.request_id
        (record c { requests = put c.requests m.request_id (with_response m r) })
    else (c, err (mismatched_mutation_response m.request_id))

unfoldable pub update_request_from_mutation_response :
    (Wire → Str) → MutationResponseMessage → Client → Outcome (Unit {0})
update_request_from_mutation_response marshal m c =
    respond_to marshal (get c.requests m.request_id) m c

abbrev pub observe_optional : Option ℕ → Client → Client
observe_optional none c = c
observe_optional (some ts) c = observe_timestamp ts c

abbrev pub snapshot_if : Bool → Client → Option QueryResults
snapshot_if true c = some (query_results_snapshot c)
snapshot_if false c = none

abbrev pub is_optimistic : Option TrackedSyncRequest → Bool
is_optimistic none = false
is_optimistic (some r) = is_some r.optimistic_update

abbrev pub after_response :
    Bool → MutationResponseMessage → Outcome (Unit {0}) → Outcome (Option QueryResults)
after_response had_optimistic m (c, err e) = (c, err e)
after_response had_optimistic m (c, ok _) =
    let c' = observe_optional m.ts c in (c', ok (snapshot_if (not m.success && had_optimistic) c'))

unfoldable pub receive_mutation_response :
    (Wire → Str) → MutationResponseMessage → Client → Outcome (Option QueryResults)
receive_mutation_response marshal m c =
    after_response (is_optimistic (get c.requests m.request_id)) m
      (update_request_from_mutation_response marshal m c)

abbrev pub finish_action :
    Option TrackedSyncRequest → ResponseMessage → Client → Outcome (Option QueryResults)
finish_action none m c = (c, err (invalid_action_request m.request_id))
finish_action (some r) m c =
    if is_mutation r.kind
    then (c, err (mismatched_action_response m.request_id))
    else let c' = remember_action_result m.request_id (function_result_from_response m) c in
      (record c' { requests = delete c'.requests m.request_id }, ok none)

-- updateRequestFromActionResponse, as ReceiveMessage returns its outcome
unfoldable pub receive_action_response : ResponseMessage → Client → Outcome (Option QueryResults)
receive_action_response m c = finish_action (get c.requests m.request_id) m c

unfoldable pub receive_message :
    (Wire → Str) → ServerMessage → Client → Outcome (Option QueryResults)
receive_message marshal (ServerMessage.transition m) c = receive_transition marshal m c
receive_message marshal (ServerMessage.mutation_response m) c =
    receive_mutation_response marshal m c
receive_message marshal (ServerMessage.action_response m) c = receive_action_response m c
receive_message marshal (ServerMessage.auth_error m) c =
    (c, err (Error.auth_error m.error m.base_version m.auth_update_attempted))
receive_message marshal (ServerMessage.fatal_error text) c = (c, err (Error.fatal_error text))
receive_message marshal ServerMessage.ping c = (c, ok none)
receive_message marshal ServerMessage.transition_chunk c = (c, err unexpected_transition_chunk)
