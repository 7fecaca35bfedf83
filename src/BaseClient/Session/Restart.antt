-- ===== src/BaseClient/Session/Restart.antt =====
-- baseclient/client_state.go: what RestartForReconnect queues for a new server.
use convex_go.Prelude.{
  ℕ, ◌≡◌, refl, ap, sym, ◌∙◌, Option, none, some, Bool, true, List, [], ◌∷◌, map, arith, All,
}
use convex_go.Prelude.Eq.{nat_eq, str_eq}
use convex_go.Prelude.GoMap.{get, empty}
use convex_go.Prelude.GoMap.Iterate.{All-values_where}
use convex_go.Prelude.Sort.{All-sort_slice}
use convex_go.Core.Error.{Result, ok, err, is_ok}
use convex_go.Protocol.{
  ClientMessage, mutation_message, action_message, next_u32, QuerySetModification,
}
use convex_go.BaseClient.State.{
  Client, TrackedSyncRequest, RequestKind, mutation_kind, action_kind, AuthToken, AuthTokenFetcher,
}
use convex_go.BaseClient.Auth.{queue_auth, refresh_auth_for_reconnect, queue_refreshed}
use convex_go.BaseClient.Queries.{queue_query_set}
use convex_go.BaseClient.Requests.{
  cancel_actions, cancel_pending_actions_for_reconnect, reset_connection, requeue, queue_adds,
  requeue_after, replay_query_adds, replay_ongoing_requests, refresh_and_requeue,
  restart_for_reconnect,
}
use convex_go.BaseClient.Results.{remember_action_result}
use convex_go.BaseClient.Pending.{PendingAgree, IsRequest}
use convex_go.BaseClient.Pending.Server.{cancel_actions-Pending}
use convex_go.BaseClient.QuerySet.{
  Server, fresh_server, accept, accept_all, apply_mods, TablesAgree, Mirrors, active_add,
}
use convex_go.BaseClient.QuerySet.Follow.{Unseen, accept_all-append}
use convex_go.BaseClient.QuerySet.Unseen.{Unseen-refl, Unseen-trans}
use convex_go.BaseClient.QuerySet.Replay.{replay-active}

cancel_actions-Unseen : (ids : List ℕ) (c : Client) → Unseen c (cancel_actions ids c)
unfolding cancel_actions remember_action_result
cancel_actions-Unseen [] c = Unseen-refl c
cancel_actions-Unseen (id ∷ ids) c = Unseen-trans (ground arith) (cancel_actions-Unseen ids _)

-- A message that changes nothing for the server.
abbrev IsPlain : ClientMessage → Type 0
IsPlain m = (s : Server) → accept m s ≡ some s

IsPlain-request : (k : RequestKind) (m : ClientMessage) (id : ℕ) → IsRequest k m id → IsPlain m
unfolding accept
IsPlain-request mutation_kind (mutation_message m) id h s = refl
IsPlain-request action_kind (action_message m) id h s = refl
IsPlain-request mutation_kind _ id h s = absurd h
IsPlain-request action_kind _ id h s = absurd h

accept_plain :
    (rs : List TrackedSyncRequest) (s : Server)
    → All (λ r. IsPlain r.message) rs
    → accept_all (map (λ (r : TrackedSyncRequest). r.message) rs) s ≡ some s
unfolding accept_all
accept_plain [] s h = refl
accept_plain (r ∷ rs) s h = ground (arith, h.0 s, accept_plain rs s h.1)

replay_plain :
    (c : Client) (s : Server) → PendingAgree c → accept_all (replay_ongoing_requests c) s ≡ some s
unfolding replay_ongoing_requests
replay_plain c s p = accept_plain _ s (
    All-sort_slice _ _ _ (
      All-values_where _ _ c.requests p.is_map
        λ id r e. IsPlain-request r.kind r.message id (p.tracked id r e).message))

-- The server at the start of a connection: the client's versions, and no query yet.
record Opens (s : Server) (c : Client) : Type 0 where
  query_set : s.query_set ≡ c.query_set_version
  identity : s.identity ≡ c.identity_version
  no_queries : s.queries ≡ empty

-- The queued messages bring a new server to mirror the client.
abbrev pub Restored : Client → Type 0
Restored d = (t : Server) × (accept_all d.outgoing fresh_server ≡ some t) × Mirrors t d

queue_adds-Mirrors :
    (ms : List QuerySetModification) (s : Server) (c : Client)
    → ((id : ℕ) → get (apply_mods ms empty) id ≡ active_add id c.query_id_to_token c.queries)
    → accept_all c.outgoing fresh_server ≡ some s
    → Opens s c
    → Restored (queue_adds ms c)
unfolding apply_mods
queue_adds-Mirrors [] s c right e o = (
  s,
  e,
  record {
    query_set = o.query_set;
    identity = o.identity;
    queries = λ id. rw o.no_queries (right id);
  },
)
queue_adds-Mirrors (m ∷ ms) s c right e o =
    unfold queue_query_set in
    (
      record s {
        query_set = next_u32 c.query_set_version;
        queries = apply_mods (m ∷ ms) s.queries;
      },
      accept_all-append c.outgoing _ fresh_server
          ∙ rw e (unfold accept_all accept in ground (arith, o.query_set)),
      record {
        query_set = refl;
        identity = o.identity;
        queries = λ id. rw o.no_queries (right id);
      },
    )

queue_adds-Pending :
    (ms : List QuerySetModification) (c : Client) → PendingAgree c → PendingAgree (queue_adds ms c)
unfolding queue_query_set
queue_adds-Pending [] c p = p
queue_adds-Pending (m ∷ ms) c p = p

queue_adds-TablesAgree :
    (ms : List QuerySetModification) (c : Client) → TablesAgree c → TablesAgree (queue_adds ms c)
unfolding queue_query_set
queue_adds-TablesAgree [] c h = h
queue_adds-TablesAgree (m ∷ ms) c h = h

-- What a restart leaves.
pub record Restarts (c : Client) (went_through : Bool) : Type 0 where
  pub tables : TablesAgree c
  pub pending : PendingAgree c
  pub restored : went_through ≡ true → Restored c

requeue-Restored :
    (s : Server) (c : Client)
    → TablesAgree c
    → PendingAgree c
    → accept_all c.outgoing fresh_server ≡ some s
    → Opens s c
    → Restarts (requeue c) true
unfolding requeue replay_query_adds
requeue-Restored s c h p e o = record {
  tables = queue_adds-TablesAgree (replay_query_adds c) c h;
  pending = queue_adds-Pending (replay_query_adds c) c p;
  restored = λ _.
      let (t, a, m) = queue_adds-Mirrors (replay_query_adds c) s c (replay-active h) e o in
      (
        t,
        accept_all-append (queue_adds (replay_query_adds c) c).outgoing _ fresh_server
            ∙ rw a (
                replay_plain (queue_adds (replay_query_adds c) c) t
                  (queue_adds-Pending (replay_query_adds c) c p)),
        record { query_set = m.query_set; identity = m.identity; queries = m.queries },
      );
}

-- After the reset the queue is empty, and a new server is where the client is.
record Reset (c : Client) : Type 0 where
  tables : TablesAgree c
  pending : PendingAgree c
  queue : c.outgoing ≡ []
  opens : Opens fresh_server c

reset_connection-Reset : (c : Client) → TablesAgree c → PendingAgree c → Reset (reset_connection c)
unfolding reset_connection cancel_pending_actions_for_reconnect
reset_connection-Reset c h p =
    let u = cancel_actions-Unseen _ _ in
    record {
      tables = rw (u.queries, u.tokens, u.subscribers, u.next_id) h;
      pending = cancel_actions-Pending _ _ p;
      queue = u.outgoing;
      opens = record { query_set = sym u.query_set; identity = sym u.identity; no_queries = refl };
    }

requeue-Reset : (c : Client) → Reset c → Restarts (requeue c) true
unfolding accept_all
requeue-Reset c r = requeue-Restored fresh_server c r.tables r.pending (rw r.queue) r.opens

requeue_refreshed :
    (o : Result AuthToken) (c : Client)
    → Reset c
    → Restarts
        (requeue_after (queue_refreshed o c)).0
        (is_ok (requeue_after (queue_refreshed o c)).1)
unfolding queue_auth
requeue_refreshed (err e) c r = record {
  tables = r.tables;
  pending = r.pending;
  restored = λ no_result. cc;
}
requeue_refreshed (ok t) c r =
    requeue-Restored (record fresh_server { identity = next_u32 0 }) (queue_auth t c) r.tables
      r.pending (rw r.queue (unfold accept_all accept in ground (arith, r.opens.identity)))
      (record {
        query_set = r.opens.query_set;
        identity = ap next_u32 r.opens.identity;
        no_queries = refl;
      })

refresh_and_requeue-Restarts :
    (f : Option AuthTokenFetcher) (c : Client)
    → c.auth_fetcher ≡ f
    → Reset c
    → Restarts (refresh_and_requeue c).0 (is_ok (refresh_and_requeue c).1)
unfolding refresh_auth_for_reconnect
refresh_and_requeue-Restarts none c e r = simp e (requeue-Reset c r)
refresh_and_requeue-Restarts (some f) c e r = simp e (requeue_refreshed (f true) c r)

-- While the tables of queries and of requests are well-formed, a restart that goes through queues what
-- brings a new server to mirror the client, and one that fails for want of a token leaves the tables
-- well-formed.
pub restart-Restarts :
    (c : Client)
    → TablesAgree c
    → PendingAgree c
    → Restarts (restart_for_reconnect c).0 (is_ok (restart_for_reconnect c).1)
unfolding restart_for_reconnect
restart-Restarts c h p =
    refresh_and_requeue-Restarts (reset_connection c).auth_fetcher (reset_connection c) refl
      (reset_connection-Reset c h p)
