-- ===== src/BaseClient/QuerySet/Follow.antt =====
-- The operations on subscriptions, on authentication and on requests, as the server sees them.
use mathlib.Core.List.{append-nil, append_assoc}
use convex_go.Prelude.{
  ◌+◌, ◌<◌, ◌≡◌, refl, sym, ap, ◌∙◌, none, some, Option, List, [], ◌∷◌, ◌++◌, Str, arith,
}
use convex_go.Prelude.Eq.{nat_eq, str_eq}
use convex_go.Prelude.GoMap.{get, put, get-put}
use convex_go.Core.GoValue.{Request}
use convex_go.Protocol.{next_u32, next_u64, u32_mod, u64_mod, ClientMessage}
use convex_go.BaseClient.Auth.{queue_auth}
use convex_go.BaseClient.Requests.{track}
use convex_go.BaseClient.State.{
  AuthToken, TrackedSyncRequest, subscriber_eq, LocalBaseQuery, Client,
}
use convex_go.BaseClient.Queries.{join_query, add_query, queue_query_set, add_record, first_query}
use convex_go.BaseClient.QuerySet.{Server, accept, accept_all, TablesAgree, Follows, and_then}
use convex_go.BaseClient.QuerySet.Active.{active_add-replace, active_add-enter}
use convex_go.BaseClient.QuerySet.Tables.{join-Agree, enter-Agree}

and_then_assoc :
    (o : Option Server) (f g h : Server → Option Server)
    → ((r : Server) → h r ≡ and_then (f r) g)
    → and_then o h ≡ and_then (and_then o f) g
and_then_assoc none f g h e = refl
and_then_assoc (some r) f g h e = e r

pub accept_all-append :
    (xs ys : List ClientMessage) (s : Server)
    → accept_all (xs ++ ys) s ≡ and_then (accept_all xs s) (accept_all ys)
unfolding accept_all
accept_all-append [] ys s = refl
accept_all-append (x ∷ xs) ys s =
    and_then_assoc (accept x s) (accept_all xs) (accept_all ys) _ (accept_all-append xs ys)

pub Follows-trans : {c d e : Client} → Follows c d → Follows d e → Follows c e
Follows-trans {c} {d} {e} f g = record {
  tables = g.tables;
  emits = f.emits ++ g.emits;
  appended =
      g.appended ∙ ap (λ l. l ++ g.emits) f.appended ∙ append_assoc c.outgoing f.emits g.emits;
  mirrored = λ s m.
      let (t, a, n) = f.mirrored s m in
      let (u, b, o) = g.mirrored t n in (u, accept_all-append f.emits g.emits s ∙ ground arith, o);
}

-- An operation that leaves the tables, the versions and the queue alone.
pub record Unseen (c d : Client) : Type 0 where
  pub queries : d.queries ≡ c.queries
  pub tokens : d.query_id_to_token ≡ c.query_id_to_token
  pub subscribers : d.subscribers ≡ c.subscribers
  pub next_id : d.next_query_id ≡ c.next_query_id
  pub query_set : d.query_set_version ≡ c.query_set_version
  pub identity : d.identity_version ≡ c.identity_version
  pub outgoing : d.outgoing ≡ c.outgoing

pub Unseen-Follows : {c d : Client} → Unseen c d → TablesAgree c → Follows c d
unfolding accept_all
Unseen-Follows {c} {d} u h = record {
  tables = rw (u.queries, u.tokens, u.subscribers, u.next_id) h;
  emits = [];
  appended = u.outgoing ∙ sym (append-nil c.outgoing);
  mirrored = λ s m. (
    s,
    refl,
    record {
      query_set = m.query_set ∙ sym u.query_set;
      identity = m.identity ∙ sym u.identity;
      queries = λ id. rw (u.tokens, u.queries) (m.queries id);
    },
  );
}

pub join_query-Follows :
    (token : Str) (q : LocalBaseQuery) (c : Client)
    → get c.queries token ≡ some q
    → q.next_subscriber_idx + 1 < u64_mod
    → TablesAgree c
    → Follows c (join_query token q c).0
unfolding join_query next_u64 accept_all
join_query-Follows token q c e room h = record {
  tables = join-Agree h token q _ _ e refl refl refl refl (omega arith);
  emits = [];
  appended = sym (append-nil c.outgoing);
  mirrored = λ s m. (
    s,
    refl,
    record {
      query_set = m.query_set;
      identity = m.identity;
      queries = λ id. m.queries id ∙ sym (active_add-replace h token q _ id e refl);
    },
  );
}

pub add_query-Follows :
    (token : Str) (r : Request) (c : Client)
    → get c.queries token ≡ none
    → c.next_query_id + 1 < u32_mod
    → TablesAgree c
    → Follows c (add_query token r c).0
unfolding add_query queue_query_set next_u32 accept_all accept
add_query-Follows token r c e room h = record {
  tables =
      enter-Agree h token (first_query c.next_query_id r) _ _ e refl refl refl refl (omega arith);
  emits = _;
  appended = refl;
  mirrored = λ s m.
      let q = first_query c.next_query_id r in
      (
        record s {
          query_set = next_u32 c.query_set_version;
          queries = put s.queries q.id (add_record q);
        },
        ground (arith, m.query_set),
        record {
          query_set = refl;
          identity = m.identity;
          queries = λ id. ground (
            arith,
            get-put s.queries q.id id (add_record q),
            m.queries id,
            active_add-enter h token q id,
          );
        },
      );
}

pub queue_auth-Follows : (t : AuthToken) (c : Client) → TablesAgree c → Follows c (queue_auth t c)
unfolding queue_auth accept_all accept
queue_auth-Follows t c h = record {
  tables = h;
  emits = _;
  appended = refl;
  mirrored = λ s m. (
    record s { identity = next_u32 s.identity },
    ground (arith, m.identity),
    record { query_set = m.query_set; identity = ap next_u32 m.identity; queries = m.queries },
  );
}

-- A request message says nothing of queries or of auth.
pub track-Follows :
    (r : TrackedSyncRequest) (c : Client)
    → ((s : Server) → accept r.message s ≡ some s)
    → TablesAgree c
    → Follows c (track r c)
unfolding track accept_all
track-Follows r c plain h = record {
  tables = h;
  emits = r.message ∷ [];
  appended = refl;
  mirrored = λ s m. (
    s,
    ground (arith, plain s),
    record { query_set = m.query_set; identity = m.identity; queries = m.queries },
  );
}
