-- ===== src/BaseClient/Session/Starts.antt =====
-- baseclient/client_state.go: mutations, actions and authentication, as the server sees the client.
use convex_go.Prelude.{ℕ, ◌+◌, ◌<◌, refl, Option, none, some, false, List, Str, arith, inl, inr}
use convex_go.Prelude.Eq.{nat_eq, str_eq}
use convex_go.Prelude.GoMap.{GoMap}
use convex_go.Core.FunctionResult.{FunctionResult}
use convex_go.Core.Error.{Result-cases, Result, ok, err}
use convex_go.Core.Wire.{Wire}
use convex_go.Core.GoValue.{Any, Request, canonical_request}
use convex_go.Protocol.{SyncUserIdentityAttributes, u32_mod}
use convex_go.BaseClient.State.{
  subscriber_eq, AuthToken, AuthTokenFetcher, Client, OptimisticUpdate,
}
use convex_go.BaseClient.Optimistic.{SyncMutationOption}
use convex_go.BaseClient.Auth.{
  set_auth, set_admin_auth, clear_auth, set_auth_callback, queue_auth, user_auth_token,
  admin_auth_token, no_auth_token, queue_fetched,
}
use convex_go.BaseClient.Requests.{
  tracked_action, mutation, action, start_mutation, start_optimistic, track, tracked_mutation,
}
use convex_go.BaseClient.Pending.{PendingAgree}
use convex_go.BaseClient.Pending.Server.{track-Pending}
use convex_go.BaseClient.QuerySet.{TablesAgree, Follows, accept}
use convex_go.BaseClient.QuerySet.Follow.{
  Unseen, Unseen-Follows, Follows-trans, queue_auth-Follows, track-Follows,
}
use convex_go.BaseClient.QuerySet.Unseen.{Unseen-refl}

-- What a call keeps while the tables agree.
pub record KeepsAll (c d : Client) : Type 0 where
  pub follows : Follows c d
  pub pending : PendingAgree d

module _ (c : Client) (h : TablesAgree c) (p : PendingAgree c)
    (room : c.next_request_id + 1 < u32_mod) where
  nothing-KeepsAll : KeepsAll c c
  nothing-KeepsAll = record { follows = Unseen-Follows (Unseen-refl c) h; pending = p }

  track_mutation-KeepsAll :
      (r : Request) (u : Option OptimisticUpdate)
      → KeepsAll c (track (tracked_mutation c.next_request_id r u) c)
  track_mutation-KeepsAll r u = record {
    follows =
        track-Follows (tracked_mutation c.next_request_id r u) c (λ s. unfold accept in refl) h;
    pending = track-Pending (tracked_mutation c.next_request_id r u) c refl refl room p;
  }

  track_action-KeepsAll : (r : Request) → KeepsAll c (track (tracked_action c.next_request_id r) c)
  track_action-KeepsAll r = record {
    follows = track-Follows (tracked_action c.next_request_id r) c (λ s. unfold accept in refl) h;
    pending = track-Pending (tracked_action c.next_request_id r) c refl refl room p;
  }

  queue_auth-KeepsAll : (t : AuthToken) → KeepsAll c (queue_auth t c)
  unfolding queue_auth
  queue_auth-KeepsAll t = record { follows = queue_auth-Follows t c h; pending = p }

with_results-Unseen :
    (c : Client) (results : GoMap ℕ FunctionResult) → Unseen c (record c { results = results })
with_results-Unseen c results = ground arith

with_fetcher-Unseen :
    (c : Client) (f : Option AuthTokenFetcher) → Unseen c (record c { auth_fetcher = f })
with_fetcher-Unseen c f = ground arith

KeepsAll-after : {c d e : Client} → Follows c d → KeepsAll d e → KeepsAll c e
KeepsAll-after f k = record { follows = Follows-trans f k.follows; pending = k.pending }

module _ (c : Client) (h : TablesAgree c) (p : PendingAgree c) where
  start_optimistic-KeepsAll :
      (o : Result (GoMap ℕ FunctionResult)) (r : Request) (u : OptimisticUpdate)
      → c.next_request_id + 1 < u32_mod
      → KeepsAll c (start_optimistic o (tracked_mutation c.next_request_id r (some u)) c).0
  start_optimistic-KeepsAll (err e) r u room = nothing-KeepsAll c h p room
  start_optimistic-KeepsAll (ok results) r u room =
      KeepsAll-after (Unseen-Follows (with_results-Unseen c results) h)
        (track_mutation-KeepsAll (record c { results = results }) h p room r (some u))

  start_mutation-KeepsAll :
      (marshal : Wire → Str) (u : Option OptimisticUpdate) (r : Request)
      → c.next_request_id + 1 < u32_mod
      → KeepsAll c (start_mutation marshal u r c).0
  start_mutation-KeepsAll marshal none r room = track_mutation-KeepsAll c h p room r none
  start_mutation-KeepsAll marshal (some u) r room = start_optimistic-KeepsAll _ r u room

  pub mutation-KeepsAll :
      (marshal : Wire → Str) (path : Str) (args : Any) (opts : List (Option SyncMutationOption))
      → c.next_request_id + 1 < u32_mod
      → KeepsAll c (mutation marshal path args opts c).0
  unfolding mutation
  mutation-KeepsAll marshal path args opts room =
      elim (Result-cases (canonical_request path args)) [
        | inl (e, bad) ↦ rw (bad, mutation) (nothing-KeepsAll c h p room)
        | inr (r, good) ↦ rw (good, mutation) (start_mutation-KeepsAll marshal _ r room)
      ]

  pub action-KeepsAll :
      (path : Str) (args : Any)
      → c.next_request_id + 1 < u32_mod
      → KeepsAll c (action path args c).0
  unfolding action
  action-KeepsAll path args room = elim (Result-cases (canonical_request path args)) [
    | inl (e, bad) ↦ rw (bad, action) (nothing-KeepsAll c h p room)
    | inr (r, good) ↦ rw (good, action) (track_action-KeepsAll c h p room r)
  ]

  with_auth-KeepsAll :
      (f : Option AuthTokenFetcher) (t : AuthToken)
      → c.next_request_id + 1 < u32_mod
      → KeepsAll c (queue_auth t (record c { auth_fetcher = f }))
  with_auth-KeepsAll f t room =
      KeepsAll-after (Unseen-Follows (with_fetcher-Unseen c f) h)
        (queue_auth-KeepsAll (record c { auth_fetcher = f }) h p room t)

  pub set_auth-KeepsAll : (t : Str) → c.next_request_id + 1 < u32_mod → KeepsAll c (set_auth t c)
  unfolding set_auth
  set_auth-KeepsAll t room = with_auth-KeepsAll _ (user_auth_token t) room

  pub set_admin_auth-KeepsAll :
      (t : Str) (as_user : List SyncUserIdentityAttributes)
      → c.next_request_id + 1 < u32_mod
      → KeepsAll c (set_admin_auth t as_user c)
  unfolding set_admin_auth
  set_admin_auth-KeepsAll t as_user room = with_auth-KeepsAll _ (admin_auth_token t as_user) room

  pub clear_auth-KeepsAll : c.next_request_id + 1 < u32_mod → KeepsAll c (clear_auth c)
  unfolding clear_auth
  clear_auth-KeepsAll room = with_auth-KeepsAll none no_auth_token room

  queue_fetched-KeepsAll :
      (o : Result AuthToken) (f : AuthTokenFetcher)
      → c.next_request_id + 1 < u32_mod
      → KeepsAll c (queue_fetched o f c).0
  queue_fetched-KeepsAll (err e) f room = nothing-KeepsAll c h p room
  queue_fetched-KeepsAll (ok t) f room = with_auth-KeepsAll (some f) t room

  pub set_auth_callback-KeepsAll :
      (f : Option AuthTokenFetcher)
      → c.next_request_id + 1 < u32_mod
      → KeepsAll c (set_auth_callback f c).0
  unfolding set_auth_callback
  set_auth_callback-KeepsAll none room = clear_auth-KeepsAll room
  set_auth_callback-KeepsAll (some f) room = queue_fetched-KeepsAll (f false) f room
