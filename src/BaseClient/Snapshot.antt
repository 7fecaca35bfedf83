-- ===== src/BaseClient/Snapshot.antt =====
-- baseclient/protocol_exports.go: what an application reads off a QueryResults snapshot.
use convex_go.Prelude.{
  ℕ, ◌≡◌, refl, if◌then◌else◌, Bool, true, not, Option, none, some, List, [], ◌∷◌, map, ltb, ◌==◌,
  is_some, length, arith,
}
use convex_go.Prelude.GoMap.{get}
use convex_go.Prelude.GoMap.Iterate.{elem, keys_where, elem-keys_where, IsMap}
use convex_go.Prelude.Eq.{nat_eq, ◌=?◌}
use convex_go.Prelude.Sort.{sort_slice, elem-sort_slice}
use convex_go.Core.FunctionResult.{FunctionResult}
use convex_go.BaseClient.State.{SubscriberId, subscriber_eq, QueryResults}
use convex_go.BaseClient.Queries.{results_get}

pub record QueryResultEntry : Type 0 where
  pub subscriber_id : SubscriberId
  pub result : Option FunctionResult

unfoldable pub results_len : QueryResults → ℕ
results_len r = length r.subscribers.entries

unfoldable pub results_is_empty : QueryResults → Bool
results_is_empty r = results_len r == 0

unfoldable pub subscriber_less : SubscriberId → SubscriberId → Bool
subscriber_less a b =
    if not (a.query_id == b.query_id) then ltb a.query_id b.query_id else ltb a.index b.index

abbrev pub entry_of : QueryResults → SubscriberId → QueryResultEntry
entry_of r id = record { subscriber_id = id; result = get r.results id.query_id }

abbrev pub subscriber_ids : QueryResults → List SubscriberId
subscriber_ids r =
    sort_slice subscriber_less (keys_where (λ (_ : Unit {0}). true) r.subscribers.entries)

-- QueryResults.Iter
unfoldable pub results_iter : QueryResults → List QueryResultEntry
results_iter r = map (entry_of r) (subscriber_ids r)

-- The entry that a list has for a subscriber.
unfoldable pub entry_for : SubscriberId → List QueryResultEntry → Option QueryResultEntry
entry_for id [] = none
entry_for id (e ∷ es) = let rest = entry_for id es in if e.subscriber_id =? id then some e else rest

abbrev pub result_in : Option QueryResultEntry → Option FunctionResult
result_in none = none
result_in (some e) = e.result

entry_for-map :
    (r : QueryResults) (id : SubscriberId) (ids : List SubscriberId)
    → entry_for id (map (entry_of r) ids) ≡ (if elem id ids then some (entry_of r id) else none)
unfolding entry_for elem
entry_for-map r id [] = refl
entry_for-map r id (i ∷ ids) = ground (arith, entry_for-map r id ids, subscriber_eq.beq_iff i id)

-- Iter lists an entry for a subscriber exactly if the snapshot has the subscriber, and the entry's
-- result is the one that Get returns.
pub results_iter-results_get :
    (r : QueryResults) (id : SubscriberId)
    → IsMap r.subscribers
    → (is_some (entry_for id (results_iter r)) ≡ is_some (get r.subscribers id))
      × (result_in (entry_for id (results_iter r)) ≡ results_get id r)
unfolding results_iter results_get
results_iter-results_get r id h =
    let found = entry_for-map r id (subscriber_ids r) in
    let sorted =
      elem-sort_slice subscriber_less id
        (keys_where (λ (_ : Unit {0}). true) r.subscribers.entries) in
    let kept = elem-keys_where (λ (_ : Unit {0}). true) id r.subscribers h in
    (ground (arith, found, sorted, kept), ground (arith, found, sorted, kept))
