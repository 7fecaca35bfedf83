-- ===== src/BaseClient/Requests/Cancel.antt =====
-- baseclient/client_state.go: what a reconnect does to the pending requests.
use convex_go.Prelude.{
  ℕ, ◌≡◌, refl, ap, ◌∙◌, if◌then◌else◌, not, none, Bool, List, [], ◌∷◌, arith, is_some, Bool-cases,
  inl, inr, ltb,
}
use convex_go.Prelude.Eq.{nat_eq}
use convex_go.Prelude.GoMap.{get}
use convex_go.Prelude.GoMap.Iterate.{holds, keys_where, elem-keys_where, delete_all, get-delete_all}
use convex_go.Prelude.Sort.{sort_slice, elem-sort_slice}
use convex_go.Core.Error.{ok, err}
use convex_go.Protocol.{QuerySetModification}
use convex_go.BaseClient.State.{Client, Outcome, TrackedSyncRequest}
use convex_go.BaseClient.Auth.{queue_auth, refresh_auth_for_reconnect}
use convex_go.BaseClient.Queries.{queue_query_set}
use convex_go.BaseClient.Results.{is_mutation, remember_action_result}
use convex_go.BaseClient.Requests.{
  cancel_actions, cancel_pending_actions_for_reconnect, reset_connection, queue_adds, requeue,
  requeue_after, refresh_and_requeue, restart_for_reconnect, replay_query_adds,
}
use convex_go.BaseClient.Requests.Replay.{of_mutation}
use convex_go.BaseClient.Pending.{PendingAgree}

cancel_actions-requests :
    (ids : List ℕ) (c : Client) → (cancel_actions ids c).requests ≡ delete_all ids c.requests
unfolding cancel_actions delete_all remember_action_result
cancel_actions-requests [] c = refl
cancel_actions-requests (id ∷ ids) c = cancel_actions-requests ids _

abbrev of_action : TrackedSyncRequest → Bool
of_action r = not (is_mutation r.kind)

reset_connection-requests :
    (c : Client) (id : ℕ)
    → PendingAgree c
    → get (reset_connection c).requests id
      ≡ (if holds of_mutation (get c.requests id) then get c.requests id else none)
unfolding reset_connection cancel_pending_actions_for_reconnect
reset_connection-requests c id h =
    let ids = sort_slice ltb (keys_where of_action c.requests.entries) in
    ap (λ m. get m id) (cancel_actions-requests ids _)
    ∙ ground (
      arith,
      get-delete_all ids c.requests id,
      elem-sort_slice ltb id (keys_where of_action c.requests.entries),
      elem-keys_where of_action id c.requests h.is_map,
    )

requeue-requests : (c : Client) → (requeue c).requests ≡ c.requests
unfolding requeue queue_query_set
requeue-requests c = go (replay_query_adds c)
  where
    go : (ms : List QuerySetModification) → (queue_adds ms c).requests ≡ c.requests
    go [] = refl
    go (m ∷ ms) = refl

requeue_after-requests : (o : Outcome (Unit {0})) → (requeue_after o).0.requests ≡ o.0.requests
requeue_after-requests (c, err e) = refl
requeue_after-requests (c, ok _) = requeue-requests c

refresh_auth-requests : (c : Client) → (refresh_auth_for_reconnect c).0.requests ≡ c.requests
unfolding refresh_auth_for_reconnect queue_auth
refresh_auth-requests c = ground arith

refresh_and_requeue-requests : (c : Client) → (refresh_and_requeue c).0.requests ≡ c.requests
refresh_and_requeue-requests c = elim (Bool-cases (is_some c.auth_fetcher)) [
  | inl e ↦ rw e (requeue_after-requests (refresh_auth_for_reconnect c) ∙ refresh_auth-requests c)
  | inr e ↦ rw e (requeue-requests c)
]

-- While the table of requests is well-formed, a reconnect, whether or not it goes through, keeps
-- every pending mutation as it was and drops every pending action.
pub restart-requests :
    (c : Client) (id : ℕ)
    → PendingAgree c
    → get (restart_for_reconnect c).0.requests id
      ≡ (if holds of_mutation (get c.requests id) then get c.requests id else none)
unfolding restart_for_reconnect
restart-requests c id h =
    ap (λ m. get m id) (refresh_and_requeue-requests (reset_connection c))
    ∙ reset_connection-requests c id h
