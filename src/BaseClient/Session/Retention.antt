-- ===== src/BaseClient/Session/Retention.antt =====
-- baseclient/client_state.go: what each call of a session does to the finished requests that are kept.
use convex_go.Prelude.{
  ℕ, Option, none, some, List, [], ◌∷◌, ◌++◌, Str, arith, is_some, Bool-cases, inl, inr,
}
use convex_go.Prelude.GoMap.{get}
use convex_go.Prelude.Eq.{nat_eq, str_eq}
use convex_go.Core.Error.{ok, err}
use convex_go.Core.Wire.{Wire}
use convex_go.Core.GoValue.{Any}
use convex_go.Core.FunctionResult.{error_message_result}
use convex_go.Protocol.{QuerySetModification}
use convex_go.BaseClient.State.{Client, Outcome, SubscriberId, subscriber_eq, AuthTokenFetcher}
use convex_go.BaseClient.Optimistic.{SyncMutationOption}
use convex_go.BaseClient.Auth.{
  queue_auth, set_auth, set_admin_auth, clear_auth, set_auth_callback, refresh_auth_for_reconnect,
}
use convex_go.BaseClient.Queries.{
  subscribe, join_query, add_query, queue_query_set, unsubscribe, leave_query, remove_query,
  pop_next_message,
}
use convex_go.BaseClient.Results.Retention.{
  IsRetained, SameRetained, same-IsRetained, remember_action_result-IsRetained,
}
use convex_go.BaseClient.Requests.{
  track, mutation, action, cancel_actions, reset_connection, cancel_pending_actions_for_reconnect,
  requeue, queue_adds, replay_query_adds, replay_ongoing_requests, restart_for_reconnect,
  action_reconnect_error_message, requeue_after, refresh_and_requeue,
}
use convex_go.BaseClient.Session.Retained.{receive_message-IsRetained}
use convex_go.BaseClient.Session.{
  Session, Call, subscribes, unsubscribes, mutates, acts, sets_auth, sets_admin_auth, clears_auth,
  sets_auth_callback, receives, pops, restarts, step, call_client, Reached, start, call,
  first_session,
}

subscribe-Same :
    (marshal : Wire → Str) (path : Str) (args : Any) (c : Client)
    → SameRetained c (subscribe marshal path args c).0
unfolding subscribe join_query add_query queue_query_set
subscribe-Same marshal path args c = ground arith

unsubscribe-Same : (id : SubscriberId) (c : Client) → SameRetained c (unsubscribe id c).0
unfolding unsubscribe leave_query remove_query queue_query_set
unsubscribe-Same id c = ground arith

mutation-Same :
    (marshal : Wire → Str) (path : Str) (args : Any) (opts : List (Option SyncMutationOption))
    (c : Client)
    → SameRetained c (mutation marshal path args opts c).0
unfolding mutation track
mutation-Same marshal path args opts c = ground arith

action-Same : (path : Str) (args : Any) (c : Client) → SameRetained c (action path args c).0
unfolding action track
action-Same path args c = ground arith

set_auth_callback-Same :
    (f : Option AuthTokenFetcher) (c : Client) → SameRetained c (set_auth_callback f c).0
unfolding set_auth_callback clear_auth queue_auth
set_auth_callback-Same none c = ground arith
set_auth_callback-Same (some f) c = ground arith

pop-Same : (c : Client) → SameRetained c (pop_next_message c).0
unfolding pop_next_message
pop-Same c = ground arith

cancel_actions-IsRetained :
    (ids : List ℕ) (c : Client) → IsRetained c → IsRetained (cancel_actions ids c)
unfolding cancel_actions
cancel_actions-IsRetained [] c h = h
cancel_actions-IsRetained (id ∷ ids) c h =
    let k =
      remember_action_result-IsRetained id (error_message_result action_reconnect_error_message) c
        h in
    cancel_actions-IsRetained ids _ (same-IsRetained (ground arith) k)

requeue-Same : (c : Client) → SameRetained c (requeue c)
unfolding requeue queue_query_set
requeue-Same c = go (replay_query_adds c)
  where
    go :
        (ms : List QuerySetModification)
        → SameRetained c (record (queue_adds ms c) {
          outgoing = (queue_adds ms c).outgoing ++ replay_ongoing_requests (queue_adds ms c);
        })
    go [] = ground arith
    go (m ∷ ms) = ground arith

requeue_after-IsRetained :
    (o : Outcome (Unit {0})) → IsRetained o.0 → IsRetained (requeue_after o).0
requeue_after-IsRetained (c, err e) h = h
requeue_after-IsRetained (c, ok _) h = same-IsRetained (requeue-Same c) h

refresh_auth-Same : (c : Client) → SameRetained c (refresh_auth_for_reconnect c).0
unfolding refresh_auth_for_reconnect queue_auth
refresh_auth-Same c = ground arith

restart-IsRetained : (c : Client) → IsRetained c → IsRetained (restart_for_reconnect c).0
unfolding restart_for_reconnect reset_connection cancel_pending_actions_for_reconnect
restart-IsRetained c h =
    go (reset_connection c)
      (cancel_actions-IsRetained _ _ (same-IsRetained {c = c} (ground arith) h))
  where
    go : (d : Client) → IsRetained d → IsRetained (refresh_and_requeue d).0
    go d k = elim (Bool-cases (is_some d.auth_fetcher)) [
      | inl e ↦ rw e (
          requeue_after-IsRetained (refresh_auth_for_reconnect d)
            (same-IsRetained (refresh_auth-Same d) k))
      | inr e ↦ rw e (same-IsRetained (requeue-Same d) k)
    ]

step-IsRetained :
    (marshal : Wire → Str) (x : Call) (s : Session)
    → IsRetained s.client
    → IsRetained (step marshal x s).client
unfolding step call_client set_auth set_admin_auth clear_auth queue_auth
step-IsRetained marshal (subscribes path args) s h =
    same-IsRetained (subscribe-Same marshal path args s.client) h
step-IsRetained marshal (unsubscribes id) s h = same-IsRetained (unsubscribe-Same id s.client) h
step-IsRetained marshal (mutates path args opts) s h =
    same-IsRetained (mutation-Same marshal path args opts s.client) h
step-IsRetained marshal (acts path args) s h = same-IsRetained (action-Same path args s.client) h
step-IsRetained marshal (sets_auth t) s h = same-IsRetained {c = s.client} (ground arith) h
step-IsRetained marshal (sets_admin_auth t as_user) s h =
    same-IsRetained {c = s.client} (ground arith) h
step-IsRetained marshal clears_auth s h = same-IsRetained {c = s.client} (ground arith) h
step-IsRetained marshal (sets_auth_callback f) s h =
    same-IsRetained (set_auth_callback-Same f s.client) h
step-IsRetained marshal (receives m) s h = receive_message-IsRetained marshal m s.client h
step-IsRetained marshal pops s h = same-IsRetained (pop-Same s.client) h
step-IsRetained marshal restarts s h = restart-IsRetained s.client h

first-IsRetained : IsRetained first_session.client
unfolding get
first-IsRetained = record {
  mutation_bound = omega arith;
  mutation_results = λ id e. cc;
  completed_mutations = λ id e. cc;
  action_bound = omega arith;
  action_results = λ id e. cc;
}

-- In every session that a new client can come to, the lists of finished mutations and of finished
-- actions are at most as long as the retention limit, and only requests in them have a kept result or
-- count as completed: the tables do not grow without bound.
pub Reached-IsRetained :
    (marshal : Wire → Str) {s : Session} → Reached marshal s → IsRetained s.client
Reached-IsRetained marshal start = first-IsRetained
Reached-IsRetained marshal (call {s} x room r) =
    step-IsRetained marshal x s (Reached-IsRetained marshal r)
