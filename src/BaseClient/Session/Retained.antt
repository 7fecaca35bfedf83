-- ===== src/BaseClient/Session/Retained.antt =====
-- baseclient/client_receive.go: what a server message does to the finished requests that are kept.
use convex_go.Prelude.{
  ℕ, Option, none, some, Bool, true, false, List, [], ◌∷◌, Str, arith, Bool-cases, Option-cases,
  inl, inr,
}
use convex_go.Prelude.GoMap.{get}
use convex_go.Prelude.Eq.{nat_eq, str_eq}
use convex_go.Core.Wire.{Wire}
use convex_go.Protocol.{
  StateModification, query_updated, query_failed, query_removed, TransitionMessage,
  MutationResponseMessage, ResponseMessage, ServerMessage, transition, mutation_response,
  action_response, auth_error, fatal_error, ping, transition_chunk,
}
use convex_go.BaseClient.State.{Client, subscriber_eq, TrackedSyncRequest}
use convex_go.BaseClient.Results.{is_mutation, recompute_optimistic_results}
use convex_go.BaseClient.Results.Retention.{
  IsRetained, SameRetained, same-IsRetained, remember_mutation_result-IsRetained,
  remember_action_result-IsRetained,
}
use convex_go.BaseClient.Receive.{
  set_server_result, apply_state_modification, apply_modifications, advance, complete_all,
  complete_mutation_request, finish_found, complete_mutations_through, observe_timestamp,
  receive_transition, recompute_if, settle, respond_to, receive_mutation_response,
  update_request_from_mutation_response, receive_action_response, finish_action, receive_message,
  function_result_from_response,
}

apply_modifications-Same :
    (ms : List StateModification) (c : Client) → SameRetained c (apply_modifications ms c)
unfolding apply_modifications apply_state_modification set_server_result
apply_modifications-Same [] c = ground arith
apply_modifications-Same (query_updated id v ∷ ms) c =
    ground (arith, apply_modifications-Same ms (apply_state_modification (query_updated id v) c))
apply_modifications-Same (query_failed id m v ∷ ms) c =
    ground (arith, apply_modifications-Same ms (apply_state_modification (query_failed id m v) c))
apply_modifications-Same (query_removed id ∷ ms) c =
    ground (arith, apply_modifications-Same ms (apply_state_modification (query_removed id) c))

recompute-Same :
    (marshal : Wire → Str) (c : Client) → SameRetained c (recompute_optimistic_results marshal c).0
unfolding recompute_optimistic_results
recompute-Same marshal c = ground arith

finish_found-IsRetained :
    (o : Option TrackedSyncRequest) (id : ℕ) (c : Client)
    → IsRetained c
    → IsRetained (finish_found o id c).0
finish_found-IsRetained none id c h = h
finish_found-IsRetained (some r) id c h = elim (Option-cases r.result) [
  | inl missing ↦ rw missing h
  | inr (result, found) ↦
      let k = remember_mutation_result-IsRetained id result c h in
      rw found (same-IsRetained (ground arith) k)
]

complete_all-IsRetained :
    (ids : List ℕ) (c : Client) → IsRetained c → IsRetained (complete_all ids c)
unfolding complete_all complete_mutation_request
complete_all-IsRetained [] c h = h
complete_all-IsRetained (id ∷ ids) c h =
    complete_all-IsRetained ids _ (finish_found-IsRetained (get c.requests id) id c h)

advance-IsRetained : (m : TransitionMessage) (c : Client) → IsRetained c → IsRetained (advance m c)
unfolding advance complete_mutations_through observe_timestamp
advance-IsRetained m c h =
    complete_all-IsRetained _ _
      (same-IsRetained (ground (arith, apply_modifications-Same m.modifications c)) h)

receive_transition-IsRetained :
    (marshal : Wire → Str) (m : TransitionMessage) (c : Client)
    → IsRetained c
    → IsRetained (receive_transition marshal m c).0
unfolding receive_transition
receive_transition-IsRetained marshal m c h =
    let k : IsRetained (recompute_optimistic_results marshal (advance m c)).0 =
      same-IsRetained (recompute-Same marshal (advance m c)) (advance-IsRetained m c h) in
    ground (arith, k, h)

recompute_if-Same :
    (marshal : Wire → Str) (r : Client × Bool) → SameRetained r.0 (recompute_if marshal r).0
recompute_if-Same marshal (c, true) = recompute-Same marshal c
recompute_if-Same marshal (c, false) = ground arith

settle-IsRetained :
    (marshal : Wire → Str) (success : Bool) (ts : Option ℕ) (id : ℕ) (c : Client)
    → IsRetained c
    → IsRetained (settle marshal success ts id c).0
unfolding complete_mutation_request
settle-IsRetained marshal false ts id c h =
    same-IsRetained (recompute_if-Same marshal (complete_mutation_request id c))
      (finish_found-IsRetained (get c.requests id) id c h)
settle-IsRetained marshal true none id c h = h
settle-IsRetained marshal true (some ts) id c h = h

respond_to-IsRetained :
    (marshal : Wire → Str) (o : Option TrackedSyncRequest) (m : MutationResponseMessage)
    (c : Client)
    → IsRetained c
    → IsRetained (respond_to marshal o m c).0
respond_to-IsRetained marshal none m c h =
    same-IsRetained {d = (respond_to marshal none m c).0} (ground arith) h
respond_to-IsRetained marshal (some r) m c h = elim (Bool-cases (is_mutation r.kind)) [
  | inl e ↦ rw e (
      settle-IsRetained marshal m.success m.ts m.request_id _
        (same-IsRetained {c = c} (ground arith) h))
  | inr e ↦ rw e h
]

receive_mutation_response-Same :
    (marshal : Wire → Str) (m : MutationResponseMessage) (c : Client)
    → SameRetained
        (respond_to marshal (get c.requests m.request_id) m c).0
        (receive_mutation_response marshal m c).0
unfolding receive_mutation_response update_request_from_mutation_response observe_timestamp
receive_mutation_response-Same marshal m c = ground arith

finish_action-IsRetained :
    (o : Option TrackedSyncRequest) (m : ResponseMessage) (c : Client)
    → IsRetained c
    → IsRetained (finish_action o m c).0
finish_action-IsRetained none m c h = h
finish_action-IsRetained (some r) m c h = elim (Bool-cases (is_mutation r.kind)) [
  | inl e ↦ rw e h
  | inr e ↦ rw e (
      same-IsRetained (ground arith)
        (remember_action_result-IsRetained m.request_id (function_result_from_response m) c h))
]

pub receive_message-IsRetained :
    (marshal : Wire → Str) (m : ServerMessage) (c : Client)
    → IsRetained c
    → IsRetained (receive_message marshal m c).0
unfolding receive_message receive_action_response
receive_message-IsRetained marshal (transition m) c h = receive_transition-IsRetained marshal m c h
receive_message-IsRetained marshal (mutation_response m) c h =
    same-IsRetained (receive_mutation_response-Same marshal m c)
      (respond_to-IsRetained marshal (get c.requests m.request_id) m c h)
receive_message-IsRetained marshal (action_response m) c h =
    finish_action-IsRetained (get c.requests m.request_id) m c h
receive_message-IsRetained marshal (auth_error m) c h = h
receive_message-IsRetained marshal (fatal_error t) c h = h
receive_message-IsRetained marshal ping c h = h
receive_message-IsRetained marshal transition_chunk c h = h
