-- ===== src/BaseClient/Pending/Server.antt =====
-- baseclient/client_receive.go: what its operations do to the table of pending requests.
use convex_go.Prelude.{
  ℕ, ◌+◌, ◌<◌, ◌≡◌, refl, none, some, Option, List, [], ◌∷◌, Bool, true, false, arith, Bool-cases,
  inl, inr, Option-cases, Str, ◌⊎◌,
}
use convex_go.Prelude.Eq.{nat_eq}
use convex_go.Prelude.GoMap.{get}
use convex_go.Core.Wire.{Wire}
use convex_go.Protocol.{
  StateModification, query_updated, query_failed, query_removed, ServerMessage, TransitionMessage,
  MutationResponseMessage, ResponseMessage, transition, transition_chunk, mutation_response,
  action_response, auth_error, fatal_error, ping, state_version_eq, u32_mod, next_u32,
}
use convex_go.BaseClient.State.{Client, TrackedSyncRequest}
use convex_go.BaseClient.Results.{
  recompute_optimistic_results, is_mutation, remember_mutation_result, remember_action_result,
}
use convex_go.BaseClient.Requests.{track, cancel_actions}
use convex_go.BaseClient.Receive.{
  set_server_result, apply_state_modification, apply_modifications, observe_timestamp,
  complete_mutation_request, complete_all, complete_mutations_through, advance, receive_transition,
  update_request_from_mutation_response, respond_to, settle, receive_mutation_response,
  receive_action_response, receive_message, finish_found, recompute_if, with_response,
  finish_action,
}
use convex_go.BaseClient.Pending.{
  IsRequest, IsTracked, PendingAgree, delete-Pending, put-Pending, SamePending, same-Pending,
}

pub apply_modifications-Same :
    (ms : List StateModification) (c : Client) → SamePending c (apply_modifications ms c)
unfolding apply_modifications apply_state_modification set_server_result
apply_modifications-Same [] c = record { requests = refl; next_id = refl }
apply_modifications-Same (query_updated id v ∷ ms) c =
    ground (arith, apply_modifications-Same ms (apply_state_modification (query_updated id v) c))
apply_modifications-Same (query_failed id m v ∷ ms) c =
    ground (arith, apply_modifications-Same ms (apply_state_modification (query_failed id m v) c))
apply_modifications-Same (query_removed id ∷ ms) c =
    ground (arith, apply_modifications-Same ms (apply_state_modification (query_removed id) c))

pub recompute-Same :
    (marshal : Wire → Str) (c : Client) → SamePending c (recompute_optimistic_results marshal c).0
unfolding recompute_optimistic_results
recompute-Same marshal c = ground arith

finish_found-Pending :
    (o : Option TrackedSyncRequest) (id : ℕ) (c : Client)
    → PendingAgree c
    → PendingAgree (finish_found o id c).0
unfolding remember_mutation_result
finish_found-Pending none id c h = h
finish_found-Pending (some r) id c h = elim (Option-cases r.result) [
  | inl missing ↦ rw missing h
  | inr (result, found) ↦ rw found (delete-Pending h id)
]

complete_mutation_request-Pending :
    (id : ℕ) (c : Client) → PendingAgree c → PendingAgree (complete_mutation_request id c).0
unfolding complete_mutation_request
complete_mutation_request-Pending id c h = finish_found-Pending (get c.requests id) id c h

complete_all-Pending :
    (ids : List ℕ) (c : Client) → PendingAgree c → PendingAgree (complete_all ids c)
unfolding complete_all
complete_all-Pending [] c h = h
complete_all-Pending (id ∷ ids) c h =
    complete_all-Pending ids (complete_mutation_request id c).0
      (complete_mutation_request-Pending id c h)

pub advance-Pending :
    (m : TransitionMessage) (c : Client) → PendingAgree c → PendingAgree (advance m c)
unfolding advance complete_mutations_through observe_timestamp
advance-Pending m c h =
    complete_all-Pending _ _ (same-Pending (apply_modifications-Same m.modifications c) h)

receive_transition-Same :
    (marshal : Wire → Str) (m : TransitionMessage) (c : Client)
    → (SamePending c (receive_transition marshal m c).0)
      ⊎ (SamePending (advance m c) (receive_transition marshal m c).0)
unfolding receive_transition
receive_transition-Same marshal m c =
    elim (Bool-cases (state_version_eq m.start_version c.remote_version)) [
      | inl e ↦ inr (rw e (ground (arith, recompute-Same marshal (advance m c))))
      | inr e ↦ inl (rw e (record { requests = refl; next_id = refl }))
    ]

receive_transition-Pending :
    (marshal : Wire → Str) (m : TransitionMessage) (c : Client)
    → PendingAgree c
    → PendingAgree (receive_transition marshal m c).0
receive_transition-Pending marshal m c h = elim (receive_transition-Same marshal m c) [
  | inl e ↦ same-Pending e h
  | inr e ↦ same-Pending e (advance-Pending m c h)
]

recompute_if-Same :
    (marshal : Wire → Str) (r : Client × Bool) → SamePending r.0 (recompute_if marshal r).0
recompute_if-Same marshal (c, true) = recompute-Same marshal c
recompute_if-Same marshal (c, false) = record { requests = refl; next_id = refl }

settle-Pending :
    (marshal : Wire → Str) (success : Bool) (ts : Option ℕ) (id : ℕ) (c : Client)
    → PendingAgree c
    → PendingAgree (settle marshal success ts id c).0
settle-Pending marshal false ts id c h =
    same-Pending (recompute_if-Same marshal (complete_mutation_request id c))
      (complete_mutation_request-Pending id c h)
settle-Pending marshal true none id c h = h
settle-Pending marshal true (some ts) id c h = h

respond_to-Pending :
    (marshal : Wire → Str) (m : MutationResponseMessage) (o : Option TrackedSyncRequest)
    (c : Client)
    → get c.requests m.request_id ≡ o
    → PendingAgree c
    → PendingAgree (respond_to marshal o m c).0
respond_to-Pending marshal m none c e h =
    same-Pending {c = c} {d = (respond_to marshal none m c).0} (ground arith) h
respond_to-Pending marshal m (some r) c e h = elim (Bool-cases (is_mutation r.kind)) [
  | inl is ↦
      let t : IsTracked m.request_id c.next_request_id r = h.tracked m.request_id r e in
      rw is (
        settle-Pending marshal m.success m.ts m.request_id _ (
          put-Pending h m.request_id c.next_request_id (with_response m r)
            (record { same_id = t.same_id; used = t.used; message = t.message }) (omega arith)))
  | inr not ↦ rw not h
]

receive_mutation_response-Same :
    (marshal : Wire → Str) (m : MutationResponseMessage) (c : Client)
    → SamePending
        (respond_to marshal (get c.requests m.request_id) m c).0
        (receive_mutation_response marshal m c).0
unfolding receive_mutation_response update_request_from_mutation_response observe_timestamp
receive_mutation_response-Same marshal m c = ground arith

finish_action-Pending :
    (o : Option TrackedSyncRequest) (m : ResponseMessage) (c : Client)
    → PendingAgree c
    → PendingAgree (finish_action o m c).0
unfolding remember_action_result
finish_action-Pending none m c h = h
finish_action-Pending (some r) m c h = elim (Bool-cases (is_mutation r.kind)) [
  | inl is ↦ rw is h
  | inr not ↦ rw not (delete-Pending h m.request_id)
]

-- No server message, good or bad, breaks the table.
pub receive_message-Pending :
    (marshal : Wire → Str) (m : ServerMessage) (c : Client)
    → PendingAgree c
    → PendingAgree (receive_message marshal m c).0
unfolding receive_message receive_action_response
receive_message-Pending marshal (transition m) c h = receive_transition-Pending marshal m c h
receive_message-Pending marshal (mutation_response m) c h =
    same-Pending (receive_mutation_response-Same marshal m c)
      (respond_to-Pending marshal m (get c.requests m.request_id) c refl h)
receive_message-Pending marshal (action_response m) c h =
    finish_action-Pending (get c.requests m.request_id) m c h
receive_message-Pending marshal (auth_error m) c h = h
receive_message-Pending marshal (fatal_error t) c h = h
receive_message-Pending marshal ping c h = h
receive_message-Pending marshal transition_chunk c h = h

-- A new request takes the next id, as long as the ids have not run out.
pub track-Pending :
    (r : TrackedSyncRequest) (c : Client)
    → r.id ≡ c.next_request_id
    → IsRequest r.kind r.message c.next_request_id
    → c.next_request_id + 1 < u32_mod
    → PendingAgree c
    → PendingAgree (track r c)
unfolding track next_u32
track-Pending r c e q room h =
    put-Pending h c.next_request_id (next_u32 c.next_request_id) r
      (record { same_id = e; used = omega arith; message = q }) (omega arith)

pub cancel_actions-Pending :
    (ids : List ℕ) (c : Client) → PendingAgree c → PendingAgree (cancel_actions ids c)
unfolding cancel_actions remember_action_result
cancel_actions-Pending [] c h = h
cancel_actions-Pending (id ∷ ids) c h = cancel_actions-Pending ids _ (delete-Pending h id)
