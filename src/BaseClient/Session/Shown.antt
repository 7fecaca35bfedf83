-- ===== src/BaseClient/Session/Shown.antt =====
-- baseclient/client_receive.go: the results that a server message may show.
use convex_go.Prelude.{
  ℕ, ◌≡◌, refl, ◌∙◌, Option, none, some, Bool, true, false, List, [], ◌∷◌, Str, arith, is_some,
  Bool-cases, inl, inr,
}
use convex_go.Prelude.GoMap.{GoMap, get}
use convex_go.Prelude.Eq.{nat_eq, str_eq}
use convex_go.Core.Error.{Result, ok, err}
use convex_go.Core.Wire.{Wire}
use convex_go.Core.FunctionResult.{FunctionResult}
use convex_go.Protocol.{
  StateModification, query_updated, query_failed, query_removed, TransitionMessage,
  MutationResponseMessage, ResponseMessage, ServerMessage, transition, mutation_response,
  action_response, auth_error, fatal_error, ping, transition_chunk,
}
use convex_go.BaseClient.State.{Client, subscriber_eq, TrackedSyncRequest}
use convex_go.BaseClient.Results.{
  is_mutation, recompute_optimistic_results, optimistic_results_with, install,
  remember_mutation_result, remember_action_result,
}
use convex_go.BaseClient.Results.Visible.{
  Active, HasToken, put-Active, delete-Active, optimistic_results_with-Active,
}
use convex_go.BaseClient.Receive.{
  is_active_query, set_server_result, apply_state_modification, apply_modifications, advance,
  complete_all, complete_mutation_request, complete_mutations_through, observe_timestamp,
  receive_transition, recompute_if, settle, respond_to, receive_mutation_response,
  update_request_from_mutation_response, receive_action_response, receive_message,
}
use convex_go.BaseClient.QuerySet.Follow.{Unseen}
use convex_go.BaseClient.QuerySet.Unseen.{advance-Unseen, complete_mutation_request-Unseen}

pub record IsShown (c : Client) : Type 0 where
  pub server : Active c.query_id_to_token c.server_results
  pub shown : Active c.query_id_to_token c.results

pub record SameShown (c d : Client) : Type 0 where
  pub tokens : d.query_id_to_token ≡ c.query_id_to_token
  pub queries : d.queries ≡ c.queries
  pub server : d.server_results ≡ c.server_results
  pub shown : d.results ≡ c.results

pub same-IsShown : {c d : Client} → SameShown c d → IsShown c → IsShown d
same-IsShown s h = record {
  server = rw (s.tokens, s.server) h.server;
  shown = rw (s.tokens, s.shown) h.shown;
}

pub SameShown-refl : (c : Client) → SameShown c c
SameShown-refl c = record { tokens = refl; queries = refl; server = refl; shown = refl }

pub SameShown-trans : {c d e : Client} → SameShown c d → SameShown d e → SameShown c e
SameShown-trans s t = record {
  tokens = t.tokens ∙ s.tokens;
  queries = t.queries ∙ s.queries;
  server = t.server ∙ s.server;
  shown = t.shown ∙ s.shown;
}

set_server_result-IsShown :
    (id : ℕ) (r : FunctionResult) (c : Client) → IsShown c → IsShown (set_server_result id r c)
unfolding set_server_result is_active_query
set_server_result-IsShown id r c h = elim (Bool-cases (is_some (get c.query_id_to_token id))) [
  | inl here ↦ rw here (record {
    server = put-Active c.query_id_to_token c.server_results id r here h.server;
    shown = h.shown;
  })
  | inr gone ↦ rw gone h
]

apply_state_modification-IsShown :
    (m : StateModification) (c : Client) → IsShown c → IsShown (apply_state_modification m c)
unfolding apply_state_modification
apply_state_modification-IsShown (query_updated id v) c h = set_server_result-IsShown id _ c h
apply_state_modification-IsShown (query_failed id m v) c h = set_server_result-IsShown id _ c h
apply_state_modification-IsShown (query_removed id) c h = record {
  server = delete-Active c.query_id_to_token c.server_results id h.server;
  shown = delete-Active c.query_id_to_token c.results id h.shown;
}

apply_modifications-IsShown :
    (ms : List StateModification) (c : Client) → IsShown c → IsShown (apply_modifications ms c)
unfolding apply_modifications
apply_modifications-IsShown [] c h = h
apply_modifications-IsShown (m ∷ ms) c h =
    apply_modifications-IsShown ms (apply_state_modification m c)
      (apply_state_modification-IsShown m c h)

complete_mutation_request-Same :
    (id : ℕ) (c : Client) → SameShown c (complete_mutation_request id c).0
unfolding complete_mutation_request remember_mutation_result
complete_mutation_request-Same id c = ground arith

complete_all-Same : (ids : List ℕ) (c : Client) → SameShown c (complete_all ids c)
unfolding complete_all
complete_all-Same [] c = SameShown-refl c
complete_all-Same (id ∷ ids) c =
    SameShown-trans (complete_mutation_request-Same id c)
      (complete_all-Same ids (complete_mutation_request id c).0)

advance-IsShown : (m : TransitionMessage) (c : Client) → IsShown c → IsShown (advance m c)
unfolding advance complete_mutations_through observe_timestamp
advance-IsShown m c h =
    let k = apply_modifications-IsShown m.modifications c h in
    same-IsShown (complete_all-Same _ _) (record { server = k.server; shown = k.shown })

install-IsShown :
    (c : Client) (o : Result (GoMap ℕ FunctionResult)) (marshal : Wire → Str)
    → ((results : GoMap ℕ FunctionResult) → o ≡ ok results → Active c.query_id_to_token results)
    → IsShown c
    → IsShown (install marshal o c).0
install-IsShown c (err e) marshal f h = h
install-IsShown c (ok results) marshal f h = record { server = h.server; shown = f results refl }

recompute-IsShown :
    (marshal : Wire → Str) (c : Client)
    → HasToken c.query_id_to_token c.queries
    → IsShown c
    → IsShown (recompute_optimistic_results marshal c).0
unfolding recompute_optimistic_results
recompute-IsShown marshal c has h =
    install-IsShown c (optimistic_results_with marshal none c) marshal
      (λ results e. optimistic_results_with-Active marshal none c results has h.server e) h

Unseen-HasToken :
    {c d : Client}
    → Unseen c d
    → HasToken c.query_id_to_token c.queries
    → HasToken d.query_id_to_token d.queries
Unseen-HasToken u has = rw (u.tokens, u.queries) has

receive_transition-IsShown :
    (marshal : Wire → Str) (m : TransitionMessage) (c : Client)
    → HasToken c.query_id_to_token c.queries
    → IsShown c
    → IsShown (receive_transition marshal m c).0
unfolding receive_transition
receive_transition-IsShown marshal m c has h =
    let k : IsShown (recompute_optimistic_results marshal (advance m c)).0 =
      recompute-IsShown marshal (advance m c) (Unseen-HasToken (advance-Unseen m c) has)
        (advance-IsShown m c h) in
    ground (arith, k, h)

recompute_if-IsShown :
    (marshal : Wire → Str) (r : Client × Bool)
    → HasToken r.0.query_id_to_token r.0.queries
    → IsShown r.0
    → IsShown (recompute_if marshal r).0
recompute_if-IsShown marshal (c, true) has h = recompute-IsShown marshal c has h
recompute_if-IsShown marshal (c, false) has h = h

settle-IsShown :
    (marshal : Wire → Str) (success : Bool) (ts : Option ℕ) (id : ℕ) (c : Client)
    → HasToken c.query_id_to_token c.queries
    → IsShown c
    → IsShown (settle marshal success ts id c).0
settle-IsShown marshal false ts id c has h =
    recompute_if-IsShown marshal (complete_mutation_request id c)
      (Unseen-HasToken (complete_mutation_request-Unseen id c) has)
      (same-IsShown (complete_mutation_request-Same id c) h)
settle-IsShown marshal true none id c has h = h
settle-IsShown marshal true (some ts) id c has h = h

respond_to-IsShown :
    (marshal : Wire → Str) (o : Option TrackedSyncRequest) (m : MutationResponseMessage)
    (c : Client)
    → HasToken c.query_id_to_token c.queries
    → IsShown c
    → IsShown (respond_to marshal o m c).0
respond_to-IsShown marshal none m c has h =
    same-IsShown {d = (respond_to marshal none m c).0} (ground arith) h
respond_to-IsShown marshal (some r) m c has h = elim (Bool-cases (is_mutation r.kind)) [
  | inl e ↦ rw e (
      settle-IsShown marshal m.success m.ts m.request_id _ has
        (record { server = h.server; shown = h.shown }))
  | inr e ↦ rw e h
]

receive_mutation_response-Same :
    (marshal : Wire → Str) (m : MutationResponseMessage) (c : Client)
    → SameShown
        (respond_to marshal (get c.requests m.request_id) m c).0
        (receive_mutation_response marshal m c).0
unfolding receive_mutation_response update_request_from_mutation_response observe_timestamp
receive_mutation_response-Same marshal m c = ground arith

receive_action_response-Same :
    (m : ResponseMessage) (c : Client) → SameShown c (receive_action_response m c).0
unfolding receive_action_response remember_action_result
receive_action_response-Same m c = ground arith

pub receive_message-IsShown :
    (marshal : Wire → Str) (m : ServerMessage) (c : Client)
    → HasToken c.query_id_to_token c.queries
    → IsShown c
    → IsShown (receive_message marshal m c).0
unfolding receive_message
receive_message-IsShown marshal (transition m) c has h =
    receive_transition-IsShown marshal m c has h
receive_message-IsShown marshal (mutation_response m) c has h =
    same-IsShown (receive_mutation_response-Same marshal m c)
      (respond_to-IsShown marshal (get c.requests m.request_id) m c has h)
receive_message-IsShown marshal (action_response m) c has h =
    same-IsShown (receive_action_response-Same m c) h
receive_message-IsShown marshal (auth_error m) c has h = h
receive_message-IsShown marshal (fatal_error t) c has h = h
receive_message-IsShown marshal ping c has h = h
receive_message-IsShown marshal transition_chunk c has h = h
