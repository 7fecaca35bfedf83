-- ===== src/BaseClient/QuerySet/Tables.antt =====
-- The four ways in which subscriptions change the tables.
use convex_go.Prelude.{ℕ, ◌+◌, ◌<◌, ◌≡◌, none, some, Str, arith, is_some, true}
use convex_go.Prelude.Eq.{nat_eq, str_eq, list_beq_iff}
use convex_go.Prelude.GoMap.{GoMap, get, put, delete, get-put, get-delete}
use convex_go.Prelude.GoMap.Iterate.{put-IsMap, delete-IsMap}
use convex_go.BaseClient.State.{SubscriberId, subscriber_eq, subscriber_beq_iff, LocalBaseQuery}
use convex_go.BaseClient.QuerySet.{Agree}
use convex_go.BaseClient.QuerySet.Count.{count-put, count-delete, count-pos, count-zero}

module _ {queries : GoMap Str LocalBaseQuery} {tokens : GoMap ℕ Str}
    {subs : GoMap SubscriberId (Unit {0})} {next : ℕ} (h : Agree queries tokens subs next) where
  -- A subscriber with the next index joins a query.
  pub join-Agree :
      (token : Str) (q r : LocalBaseQuery) (s : SubscriberId)
      → get queries token ≡ some q
      → r.id ≡ q.id
      → r.num_subscribers ≡ q.num_subscribers + 1
      → r.next_subscriber_idx ≡ s.index
      → s.query_id ≡ q.id
      → q.next_subscriber_idx < s.index
      → Agree (put queries token r) tokens (put subs s tt) next
  join-Agree token q r s e same num idx here later = record {
    is_map = put-IsMap queries token r h.is_map;
    subscribers_map = put-IsMap subs s tt h.subscribers_map;
    has_query =
        λ id t k. ground (arith, get-put queries token t r, h.has_query id t, list_beq_iff token t);
    has_token = λ t p k. ground (
      arith,
      get-put queries token t r,
      h.has_token t p,
      h.has_token token q,
      list_beq_iff token t,
    );
    fresh = h.fresh;
    subscribed = λ t k.
        ground
          (arith, get-put subs s t tt, h.subscribed t, subscriber_beq_iff s t, h.has_token token q);
    counted = λ t p k. ground (
      arith,
      get-put queries token t r,
      count-put p.id s subs,
      h.counted t p,
      h.counted token q,
      h.has_token t p,
      h.has_token token q,
      h.indexed token q s,
      list_beq_iff token t,
    );
    indexed = λ t p u k l i. ground (
      arith,
      get-put queries token t r,
      get-put subs s u tt,
      subscriber_beq_iff s u,
      h.indexed t p u,
      h.indexed token q u,
      h.has_token t p,
      h.has_token token q,
      list_beq_iff token t,
    );
  }

  -- A subscriber leaves a query that keeps others.
  pub leave-Agree :
      (token : Str) (q r : LocalBaseQuery) (s : SubscriberId)
      → get queries token ≡ some q
      → r.id ≡ q.id
      → r.num_subscribers + 1 ≡ q.num_subscribers
      → r.next_subscriber_idx ≡ q.next_subscriber_idx
      → s.query_id ≡ q.id
      → is_some (get subs s) ≡ true
      → Agree (put queries token r) tokens (delete subs s) next
  leave-Agree token q r s e same num idx here old = record {
    is_map = put-IsMap queries token r h.is_map;
    subscribers_map = delete-IsMap subs s h.subscribers_map;
    has_query =
        λ id t k. ground (arith, get-put queries token t r, h.has_query id t, list_beq_iff token t);
    has_token = λ t p k. ground (
      arith,
      get-put queries token t r,
      h.has_token t p,
      h.has_token token q,
      list_beq_iff token t,
    );
    fresh = h.fresh;
    subscribed = λ t k. ground (arith, get-delete subs s t, h.subscribed t);
    counted = λ t p k. ground (
      arith,
      get-put queries token t r,
      count-delete p.id s subs h.subscribers_map old,
      h.counted t p,
      h.counted token q,
      h.has_token t p,
      h.has_token token q,
      list_beq_iff token t,
    );
    indexed = λ t p u k l i. ground (
      arith,
      get-put queries token t r,
      get-delete subs s u,
      h.indexed t p u,
      h.indexed token q u,
      list_beq_iff token t,
    );
  }

  -- A query enters under a new token and the next id, with its first subscriber.
  pub enter-Agree :
      (token : Str) (q : LocalBaseQuery) (s : SubscriberId) (next' : ℕ)
      → get queries token ≡ none
      → q.id ≡ next
      → q.num_subscribers ≡ 1
      → q.next_subscriber_idx ≡ s.index
      → s.query_id ≡ next
      → next < next'
      → Agree (put queries token q) (put tokens q.id token) (put subs s tt) next'
  enter-Agree token q s next' e same num idx here lt = record {
    is_map = put-IsMap queries token q h.is_map;
    subscribers_map = put-IsMap subs s tt h.subscribers_map;
    has_query = λ id t k. ground (
      arith,
      get-put queries token t q,
      get-put tokens q.id id token,
      h.has_query id t,
      list_beq_iff token t,
    );
    has_token = λ t p k. ground (
      arith,
      get-put queries token t q,
      get-put tokens q.id p.id token,
      h.has_token t p,
      h.fresh p.id,
      list_beq_iff token t,
    );
    fresh = λ id k. ground (arith, get-put tokens q.id id token, h.fresh id);
    subscribed = λ t k. ground (
      arith,
      get-put tokens q.id t.query_id token,
      get-put subs s t tt,
      subscriber_beq_iff s t,
      h.subscribed t,
    );
    counted = λ t p k. ground (
      arith,
      get-put queries token t q,
      count-put p.id s subs,
      h.counted t p,
      h.has_token t p,
      h.fresh p.id,
      h.fresh s.query_id,
      h.subscribed s,
      count-zero q.id subs (λ u l. ground (arith, h.subscribed u l, h.fresh u.query_id)),
      list_beq_iff token t,
    );
    indexed = λ t p u k l i. ground (
      arith,
      get-put queries token t q,
      get-put subs s u tt,
      subscriber_beq_iff s u,
      h.indexed t p u,
      h.has_token t p,
      h.fresh p.id,
      h.fresh u.query_id,
      h.subscribed u,
      list_beq_iff token t,
    );
  }

  -- The last subscriber of a query leaves, and the query with it.
  pub remove-Agree :
      (token : Str) (q : LocalBaseQuery) (s : SubscriberId)
      → get queries token ≡ some q
      → q.num_subscribers ≡ 1
      → s.query_id ≡ q.id
      → is_some (get subs s) ≡ true
      → Agree (delete queries token) (delete tokens q.id) (delete subs s) next
  remove-Agree token q s e num here old = record {
    is_map = delete-IsMap queries token h.is_map;
    subscribers_map = delete-IsMap subs s h.subscribers_map;
    has_query = λ j t k. ground (
      arith,
      get-delete queries token t,
      get-delete tokens q.id j,
      h.has_query j t,
      list_beq_iff token t,
    );
    has_token = λ t p k. ground (
      arith,
      get-delete queries token t,
      get-delete tokens q.id p.id,
      h.has_token t p,
      h.has_token token q,
      list_beq_iff token t,
    );
    fresh = λ j k. ground (arith, get-delete tokens q.id j, h.fresh j);
    subscribed = λ t k. ground (
      arith,
      get-delete tokens q.id t.query_id,
      get-delete subs s t,
      count-delete q.id s subs h.subscribers_map old,
      count-pos q.id t (delete subs s),
      h.counted token q,
      h.subscribed t,
    );
    counted = λ t p k. ground (
      arith,
      get-delete queries token t,
      count-delete p.id s subs h.subscribers_map old,
      h.counted t p,
      h.has_token t p,
      h.has_token token q,
      list_beq_iff token t,
    );
    indexed = λ t p u k l i.
        ground (arith, get-delete queries token t, get-delete subs s u, h.indexed t p u);
  }
