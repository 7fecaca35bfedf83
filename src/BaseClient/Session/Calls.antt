-- ===== src/BaseClient/Session/Calls.antt =====
-- baseclient/client_state.go: Subscribe and Unsubscribe, as the server sees the client.
use convex_go.Prelude.{◌≡◌, refl, sym, if◌then◌else◌, Option, none, some, true, Str, arith, is_some}
use mathlib.Core.Path.{subst}
use convex_go.Prelude.Eq.{nat_eq, str_eq}
use convex_go.Prelude.GoMap.{get, delete}
use convex_go.Core.Error.{Result, ok, err, unknown_subscriber}
use convex_go.Core.Wire.{Wire}
use convex_go.Core.GoValue.{Any, Request, canonical_query}
use convex_go.BaseClient.State.{SubscriberId, subscriber_eq, LocalBaseQuery, Client}
use convex_go.BaseClient.Queries.{
  accepted, subscribe, unsubscribe, join_or_add, leave_if, leave_id, leave_token, leave_query,
}
use convex_go.BaseClient.QuerySet.{TablesAgree, Follows}
use convex_go.BaseClient.QuerySet.Follow.{Unseen-Follows, join_query-Follows, add_query-Follows}
use convex_go.BaseClient.QuerySet.Leave.{leave_query-Follows}
use convex_go.BaseClient.QuerySet.Unseen.{Unseen-refl}
use convex_go.BaseClient.Session.{HasRoom}

join_or_add-Follows :
    (o : Option LocalBaseQuery) (token : Str) (r : Request) (c : Client)
    → get c.queries token ≡ o
    → HasRoom c
    → TablesAgree c
    → Follows c (join_or_add o token r c).0
join_or_add-Follows none token r c e room h = add_query-Follows token r c e room.query_ids h
join_or_add-Follows (some q) token r c e room h =
    join_query-Follows token q c e (room.subscriber_ids token q e) h

pub subscribe-Follows :
    (marshal : Wire → Str) (path : Str) (args : Any) (c : Client)
    → HasRoom c
    → TablesAgree c
    → Follows c (subscribe marshal path args c).0
unfolding subscribe
subscribe-Follows marshal path args c room h = go (canonical_query marshal path args)
  where
    go :
        (o : Result (Request × Str))
        → Follows c
            (elim o as (λ _. Client × Result SubscriberId) [
              | err e ↦ (c, err e)
              | ok (r, token) ↦ accepted (join_or_add (get c.queries token) token r c)
            ]).0
    go (err e) = Unseen-Follows (Unseen-refl c) h
    go (ok (r, token)) = join_or_add-Follows (get c.queries token) token r c refl room h

leave_token-Follows :
    (token : Str) (o : Option LocalBaseQuery) (id : SubscriberId) (c : Client)
    → get c.queries token ≡ o
    → get c.query_id_to_token id.query_id ≡ some token
    → is_some (get c.subscribers id) ≡ true
    → TablesAgree c
    → (Follows c
        (leave_token token o id.query_id (record c { subscribers = delete c.subscribers id })).0)
      × ((leave_token token o id.query_id (record c { subscribers = delete c.subscribers id })).1
          ≡ ok tt)
leave_token-Follows token none id c e t old h =
    absurd (ground (arith, h.has_query id.query_id token))
leave_token-Follows token (some q) id c e t old h =
    let same : q.id ≡ id.query_id = ground (arith, h.has_query id.query_id token) in
    (
      subst
          (λ j.
            Follows c (leave_query token q j (record c { subscribers = delete c.subscribers id })))
          same (leave_query-Follows token q id c e old (sym same) h),
      refl,
    )

leave_id-Follows :
    (o : Option Str) (id : SubscriberId) (c : Client)
    → get c.query_id_to_token id.query_id ≡ o
    → is_some (get c.subscribers id) ≡ true
    → TablesAgree c
    → (Follows c (leave_id o id.query_id (record c { subscribers = delete c.subscribers id })).0)
      × ((leave_id o id.query_id (record c { subscribers = delete c.subscribers id })).1 ≡ ok tt)
leave_id-Follows none id c t old h = absurd (ground (arith, h.subscribed id))
leave_id-Follows (some token) id c t old h =
    leave_token-Follows token (get c.queries token) id c refl t old h

leave_if-Follows :
    (o : Option (Unit {0})) (id : SubscriberId) (c : Client)
    → get c.subscribers id ≡ o
    → TablesAgree c
    → (Follows c (leave_if o id c).0)
      × ((leave_if o id c).1 ≡ (if is_some o then ok tt else err unknown_subscriber))
leave_if-Follows none id c e h = (Unseen-Follows (Unseen-refl c) h, refl)
leave_if-Follows (some _) id c e h =
    leave_id-Follows (get c.query_id_to_token id.query_id) id c refl (ground arith) h

pub unsubscribe-Follows :
    (id : SubscriberId) (c : Client) → TablesAgree c → Follows c (unsubscribe id c).0
unfolding unsubscribe
unsubscribe-Follows id c h = (leave_if-Follows (get c.subscribers id) id c refl h).0

-- Unsubscribe fails for an unknown subscriber, and for no other reason: the errors about a missing
-- token or query cannot come up while the tables agree.
pub unsubscribe-result :
    (id : SubscriberId) (c : Client)
    → TablesAgree c
    → (unsubscribe id c).1
      ≡ (if is_some (get c.subscribers id) then ok tt else err unknown_subscriber)
unfolding unsubscribe
unsubscribe-result id c h = (leave_if-Follows (get c.subscribers id) id c refl h).1
