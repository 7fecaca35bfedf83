-- ===== src/BaseClient/Session/Mirror.antt =====
-- What is sent and queued in a session, over all its calls.
use mathlib.Core.List.{append_assoc}
use convex_go.Prelude.{◌≡◌, refl, ap, sym, ◌∙◌, some, true, List, [], ◌∷◌, ◌++◌, Str, arith}
use convex_go.Prelude.GoMap.{get}
use convex_go.Prelude.Eq.{nat_eq, str_eq}
use convex_go.Core.Wire.{Wire}
use convex_go.Protocol.{ClientMessage}
use convex_go.BaseClient.State.{Client, SubscriberId, subscriber_eq}
use convex_go.BaseClient.Queries.{
  pop_next_message, pop_from, subscribe, unsubscribe, join_query, add_query, queue_query_set,
  leave_query, remove_query,
}
use convex_go.Core.GoValue.{Any}
use convex_go.BaseClient.Pending.{PendingAgree, SamePending, same-Pending}
use convex_go.BaseClient.Pending.Server.{receive_message-Pending}
use convex_go.BaseClient.QuerySet.{
  Server, fresh_server, accept_all, TablesAgree, Mirrors, Follows, count_of,
}
use convex_go.BaseClient.QuerySet.Follow.{accept_all-append, Unseen-Follows}
use convex_go.BaseClient.QuerySet.Unseen.{receive_message-Unseen}
use convex_go.BaseClient.Session.{
  Session, Call, subscribes, unsubscribes, mutates, acts, sets_auth, sets_admin_auth, clears_auth,
  sets_auth_callback, receives, pops, restarts, step, call_client, HasRoom, Reached, first_session,
  start, call, sent_with,
}
use convex_go.BaseClient.Session.Calls.{subscribe-Follows, unsubscribe-Follows}
use convex_go.BaseClient.Session.Starts.{
  KeepsAll, mutation-KeepsAll, action-KeepsAll, set_auth-KeepsAll, set_admin_auth-KeepsAll,
  clear_auth-KeepsAll, set_auth_callback-KeepsAll,
}
use convex_go.BaseClient.Session.Restart.{restart-Restarts}

-- The server has accepted what was sent, will accept what is queued, and then mirrors the client.
abbrev pub Told : List ClientMessage → Client → Type 0
Told sent c = (t : Server) × (accept_all (sent ++ c.outgoing) fresh_server ≡ some t) × Mirrors t c

pub record IsSound (s : Session) : Type 0 where
  pub tables : TablesAgree s.client
  pub pending : PendingAgree s.client
  pub told : s.synced ≡ true → Told s.sent s.client

Follows-Told : (sent : List ClientMessage) {c d : Client} → Follows c d → Told sent c → Told sent d
Follows-Told sent {c} {d} f (t, a, m) =
    let (u, b, n) = f.mirrored t m in
    (
      u,
      ap (λ l. accept_all (sent ++ l) fresh_server) f.appended
          ∙ ap (λ l. accept_all l fresh_server) (sym (append_assoc sent c.outgoing f.emits))
          ∙ accept_all-append (sent ++ c.outgoing) f.emits fresh_server
          ∙ rw a b,
      n,
    )

keeps-IsSound :
    (s : Session) {d : Client}
    → IsSound s
    → Follows s.client d
    → PendingAgree d
    → IsSound (record s { client = d })
keeps-IsSound s h f p = record {
  tables = f.tables;
  pending = p;
  told = λ e. Follows-Told s.sent f (h.told e);
}

KeepsAll-IsSound :
    (s : Session) {d : Client} → IsSound s → KeepsAll s.client d → IsSound (record s { client = d })
KeepsAll-IsSound s h k = keeps-IsSound s h k.follows k.pending

pop-Told :
    (ms sent : List ClientMessage) (c : Client)
    → c.outgoing ≡ ms
    → Told sent c
    → Told (sent_with sent (pop_from ms c).1) (pop_from ms c).0
pop-Told [] sent c e h = h
pop-Told (m ∷ ms) sent c e (t, a, h) = (
  t,
  ap (λ l. accept_all l fresh_server) (append_assoc sent (m ∷ []) ms)
      ∙ ap (λ l. accept_all (sent ++ l) fresh_server) (sym e)
      ∙ a,
  record { query_set = h.query_set; identity = h.identity; queries = h.queries },
)

pop-TablesAgree :
    (ms : List ClientMessage) (c : Client)
    → TablesAgree c
    → PendingAgree c
    → TablesAgree (pop_from ms c).0 × PendingAgree (pop_from ms c).0
pop-TablesAgree [] c h p = (h, p)
pop-TablesAgree (m ∷ ms) c h p = (h, p)

subscribe-Pending :
    (marshal : Wire → Str) (path : Str) (args : Any) (c : Client)
    → SamePending c (subscribe marshal path args c).0
unfolding subscribe join_query add_query queue_query_set
subscribe-Pending marshal path args c = ground arith

unsubscribe-Pending : (id : SubscriberId) (c : Client) → SamePending c (unsubscribe id c).0
unfolding unsubscribe leave_query remove_query queue_query_set
unsubscribe-Pending id c = ground arith

step-IsSound :
    (marshal : Wire → Str) (x : Call) (s : Session)
    → HasRoom s.client
    → IsSound s
    → IsSound (step marshal x s)
unfolding step call_client
step-IsSound marshal (subscribes path args) s room h =
    keeps-IsSound s h (subscribe-Follows marshal path args s.client room h.tables)
      (same-Pending (subscribe-Pending marshal path args s.client) h.pending)
step-IsSound marshal (unsubscribes id) s room h =
    keeps-IsSound s h (unsubscribe-Follows id s.client h.tables)
      (same-Pending (unsubscribe-Pending id s.client) h.pending)
step-IsSound marshal (mutates path args opts) s room h =
    KeepsAll-IsSound s h
      (mutation-KeepsAll s.client h.tables h.pending marshal path args opts room.request_ids)
step-IsSound marshal (acts path args) s room h =
    KeepsAll-IsSound s h (action-KeepsAll s.client h.tables h.pending path args room.request_ids)
step-IsSound marshal (sets_auth t) s room h =
    KeepsAll-IsSound s h (set_auth-KeepsAll s.client h.tables h.pending t room.request_ids)
step-IsSound marshal (sets_admin_auth t as_user) s room h =
    KeepsAll-IsSound s h
      (set_admin_auth-KeepsAll s.client h.tables h.pending t as_user room.request_ids)
step-IsSound marshal clears_auth s room h =
    KeepsAll-IsSound s h (clear_auth-KeepsAll s.client h.tables h.pending room.request_ids)
step-IsSound marshal (sets_auth_callback f) s room h =
    KeepsAll-IsSound s h (set_auth_callback-KeepsAll s.client h.tables h.pending f room.request_ids)
step-IsSound marshal (receives m) s room h =
    keeps-IsSound s h (Unseen-Follows (receive_message-Unseen marshal m s.client) h.tables)
      (receive_message-Pending marshal m s.client h.pending)
step-IsSound marshal pops s room h =
    unfold pop_next_message in
    record {
      tables = (pop-TablesAgree s.client.outgoing s.client h.tables h.pending).0;
      pending = (pop-TablesAgree s.client.outgoing s.client h.tables h.pending).1;
      told = λ e. pop-Told s.client.outgoing s.sent s.client refl (h.told e);
    }
step-IsSound marshal restarts s room h =
    let r = restart-Restarts s.client h.tables h.pending in
    record { tables = r.tables; pending = r.pending; told = r.restored }

first-IsSound : IsSound first_session
unfolding accept_all count_of get
first-IsSound = record {
  tables = record {
    is_map = tt;
    subscribers_map = tt;
    has_query = λ id t e. cc;
    has_token = λ t q e. cc;
    fresh = λ id e. cc;
    subscribed = λ s e. cc;
    counted = λ t q e. cc;
    indexed = λ t q s e. cc;
  };
  pending = record { is_map = tt; tracked = λ id r e. cc };
  told =
      λ e. (fresh_server, refl, record { query_set = refl; identity = refl; queries = λ id. refl });
}

-- In every session that a new client can come to, the tables agree; and unless the last restart
-- failed, a server that starts empty accepts, in order, the messages sent on the connection and
-- those queued, never refusing a base version, and then has the client's query set version and
-- identity version and exactly the client's active queries, with their paths and arguments.
pub Reached-IsSound : (marshal : Wire → Str) {s : Session} → Reached marshal s → IsSound s
Reached-IsSound marshal start = first-IsSound
Reached-IsSound marshal (call {s} x room r) =
    step-IsSound marshal x s room (Reached-IsSound marshal r)
