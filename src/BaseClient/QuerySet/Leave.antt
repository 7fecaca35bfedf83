-- ===== src/BaseClient/QuerySet/Leave.antt =====
-- baseclient/client_state.go: Unsubscribe, as the server sees it.
use mathlib.Core.List.{append-nil}
use convex_go.Prelude.{
  ◌-◌, ◌<◌, ◌≡◌, refl, sym, ◌∙◌, some, [], Str, arith, is_some, true, Bool-cases, inl, inr, ltb,
}
use convex_go.Prelude.Eq.{nat_eq, str_eq}
use convex_go.Prelude.GoMap.{get, put, delete, get-delete}
use convex_go.Protocol.{next_u32}
use convex_go.BaseClient.State.{SubscriberId, subscriber_eq, LocalBaseQuery, Client}
use convex_go.BaseClient.Queries.{queue_query_set, leave_query, remove_query}
use convex_go.BaseClient.QuerySet.{accept, accept_all, TablesAgree, Follows}
use convex_go.BaseClient.QuerySet.Active.{active_add-replace, active_add-remove}
use convex_go.BaseClient.QuerySet.Count.{count-pos}
use convex_go.BaseClient.QuerySet.Tables.{leave-Agree, remove-Agree}

module _ (token : Str) (q : LocalBaseQuery) (id : SubscriberId) (c : Client)
    (e : get c.queries token ≡ some q) (old : is_some (get c.subscribers id) ≡ true)
    (here : id.query_id ≡ q.id) (h : TablesAgree c) where
  abbrev without_id : Client
  without_id = record c { subscribers = delete c.subscribers id }

  -- The subscriber that leaves is counted.
  num-pos : 0 < q.num_subscribers
  num-pos = omega (arith, h.counted token q e, count-pos q.id id c.subscribers old here)

  stay-Follows :
      ltb 1 q.num_subscribers ≡ true
      → Follows c (record without_id {
        queries = put c.queries token (record q { num_subscribers = q.num_subscribers - 1 });
      })
  unfolding accept_all
  stay-Follows more = record {
    tables = leave-Agree h token q _ id e refl (ground arith) refl here old;
    emits = [];
    appended = sym (append-nil c.outgoing);
    mirrored = λ s m. (
      s,
      refl,
      record {
        query_set = m.query_set;
        identity = m.identity;
        queries = λ j. m.queries j ∙ sym (active_add-replace h token q _ j e refl);
      },
    );
  }

  remove_query-Follows : q.num_subscribers ≡ 1 → Follows c (remove_query token q.id without_id)
  unfolding remove_query queue_query_set accept_all accept
  remove_query-Follows last = record {
    tables = remove-Agree h token q id e last here old;
    emits = _;
    appended = refl;
    mirrored = λ s m. (
      record s { query_set = next_u32 c.query_set_version; queries = delete s.queries q.id },
      ground (arith, m.query_set),
      record {
        query_set = refl;
        identity = m.identity;
        queries = λ j.
            ground
              (arith, get-delete s.queries q.id j, m.queries j, active_add-remove h token q j e);
      },
    );
  }

  pub leave_query-Follows : Follows c (leave_query token q q.id without_id)
  unfolding leave_query
  leave_query-Follows = elim (Bool-cases (ltb 1 q.num_subscribers)) [
    | inl more ↦ rw more (stay-Follows more)
    | inr last ↦ rw last (remove_query-Follows (ground (arith, num-pos)))
  ]
