-- ===== src/BaseClient/QuerySet/Unseen.antt =====
-- baseclient/client_receive.go: the part of the client that server messages leave alone.
use convex_go.Prelude.{
  ℕ, refl, ◌∙◌, none, some, Option, List, [], ◌∷◌, Str, Bool, true, false, arith, Bool-cases, inl,
  inr,
}
use convex_go.Prelude.Eq.{nat_eq}
use convex_go.Prelude.GoMap.{get}
use convex_go.Core.Wire.{Wire}
use convex_go.Core.FunctionResult.{FunctionResult}
use convex_go.Protocol.{
  StateModification, query_updated, query_failed, query_removed, ServerMessage, TransitionMessage,
  MutationResponseMessage, ResponseMessage, transition, transition_chunk, mutation_response,
  action_response, auth_error, fatal_error, ping,
}
use convex_go.BaseClient.State.{Client, TrackedSyncRequest}
use convex_go.BaseClient.Results.{
  recompute_optimistic_results, is_mutation, remember_mutation_result, remember_action_result,
}
use convex_go.BaseClient.Receive.{
  set_server_result, apply_state_modification, apply_modifications, observe_timestamp,
  complete_mutation_request, complete_all, complete_mutations_through, advance, receive_transition,
  update_request_from_mutation_response, respond_to, settle, receive_mutation_response,
  receive_action_response, receive_message, recompute_if,
}
use convex_go.BaseClient.QuerySet.Follow.{Unseen}

pub Unseen-refl : (c : Client) → Unseen c c
Unseen-refl c = record {
  queries = refl;
  tokens = refl;
  subscribers = refl;
  next_id = refl;
  query_set = refl;
  identity = refl;
  outgoing = refl;
}

pub Unseen-trans : {c d e : Client} → Unseen c d → Unseen d e → Unseen c e
Unseen-trans u v = record {
  queries = v.queries ∙ u.queries;
  tokens = v.tokens ∙ u.tokens;
  subscribers = v.subscribers ∙ u.subscribers;
  next_id = v.next_id ∙ u.next_id;
  query_set = v.query_set ∙ u.query_set;
  identity = v.identity ∙ u.identity;
  outgoing = v.outgoing ∙ u.outgoing;
}

set_server_result-Unseen :
    (id : ℕ) (r : FunctionResult) (c : Client) → Unseen c (set_server_result id r c)
unfolding set_server_result
set_server_result-Unseen id r c = ground arith

apply_state_modification-Unseen :
    (m : StateModification) (c : Client) → Unseen c (apply_state_modification m c)
unfolding apply_state_modification
apply_state_modification-Unseen (query_updated id v) c = set_server_result-Unseen id _ c
apply_state_modification-Unseen (query_failed id m v) c = set_server_result-Unseen id _ c
apply_state_modification-Unseen (query_removed id) c = ground arith

apply_modifications-Unseen :
    (ms : List StateModification) (c : Client) → Unseen c (apply_modifications ms c)
unfolding apply_modifications
apply_modifications-Unseen [] c = Unseen-refl c
apply_modifications-Unseen (m ∷ ms) c =
    Unseen-trans (apply_state_modification-Unseen m c)
      (apply_modifications-Unseen ms (apply_state_modification m c))

pub complete_mutation_request-Unseen :
    (id : ℕ) (c : Client) → Unseen c (complete_mutation_request id c).0
unfolding complete_mutation_request remember_mutation_result
complete_mutation_request-Unseen id c = ground arith

complete_all-Unseen : (ids : List ℕ) (c : Client) → Unseen c (complete_all ids c)
unfolding complete_all
complete_all-Unseen [] c = Unseen-refl c
complete_all-Unseen (id ∷ ids) c =
    Unseen-trans (complete_mutation_request-Unseen id c)
      (complete_all-Unseen ids (complete_mutation_request id c).0)

recompute-Unseen :
    (marshal : Wire → Str) (c : Client) → Unseen c (recompute_optimistic_results marshal c).0
unfolding recompute_optimistic_results
recompute-Unseen marshal c = ground arith

pub advance-Unseen : (m : TransitionMessage) (c : Client) → Unseen c (advance m c)
unfolding advance complete_mutations_through observe_timestamp
advance-Unseen m c =
    Unseen-trans (ground (arith, apply_modifications-Unseen m.modifications c))
      (complete_all-Unseen _ _)

pub receive_transition-Unseen :
    (marshal : Wire → Str) (m : TransitionMessage) (c : Client)
    → Unseen c (receive_transition marshal m c).0
unfolding receive_transition
receive_transition-Unseen marshal m c =
    ground (arith, Unseen-trans (advance-Unseen m c) (recompute-Unseen marshal (advance m c)))

recompute_if-Unseen :
    (marshal : Wire → Str) (r : Client × Bool) → Unseen r.0 (recompute_if marshal r).0
recompute_if-Unseen marshal (c, true) = recompute-Unseen marshal c
recompute_if-Unseen marshal (c, false) = Unseen-refl c

settle-Unseen :
    (marshal : Wire → Str) (success : Bool) (ts : Option ℕ) (id : ℕ) (c : Client)
    → Unseen c (settle marshal success ts id c).0
settle-Unseen marshal false ts id c =
    Unseen-trans (complete_mutation_request-Unseen id c)
      (recompute_if-Unseen marshal (complete_mutation_request id c))
settle-Unseen marshal true none id c = Unseen-refl c
settle-Unseen marshal true (some ts) id c = Unseen-refl c

respond_to-Unseen :
    (marshal : Wire → Str) (o : Option TrackedSyncRequest) (m : MutationResponseMessage)
    (c : Client)
    → Unseen c (respond_to marshal o m c).0
respond_to-Unseen marshal none m c = ground arith
respond_to-Unseen marshal (some r) m c = elim (Bool-cases (is_mutation r.kind)) [
  | inl e ↦ rw e (Unseen-trans (ground arith) (settle-Unseen marshal m.success m.ts m.request_id _))
  | inr e ↦ rw e (Unseen-refl c)
]

receive_mutation_response-Unseen :
    (marshal : Wire → Str) (m : MutationResponseMessage) (c : Client)
    → Unseen c (receive_mutation_response marshal m c).0
unfolding receive_mutation_response update_request_from_mutation_response observe_timestamp
receive_mutation_response-Unseen marshal m c =
    ground (arith, respond_to-Unseen marshal (get c.requests m.request_id) m c)

receive_action_response-Unseen :
    (m : ResponseMessage) (c : Client) → Unseen c (receive_action_response m c).0
unfolding receive_action_response remember_action_result
receive_action_response-Unseen m c = ground arith

pub receive_message-Unseen :
    (marshal : Wire → Str) (m : ServerMessage) (c : Client)
    → Unseen c (receive_message marshal m c).0
unfolding receive_message
receive_message-Unseen marshal (transition m) c = receive_transition-Unseen marshal m c
receive_message-Unseen marshal (mutation_response m) c =
    receive_mutation_response-Unseen marshal m c
receive_message-Unseen marshal (action_response m) c = receive_action_response-Unseen m c
receive_message-Unseen marshal (auth_error m) c = Unseen-refl c
receive_message-Unseen marshal (fatal_error t) c = Unseen-refl c
receive_message-Unseen marshal ping c = Unseen-refl c
receive_message-Unseen marshal transition_chunk c = Unseen-refl c
