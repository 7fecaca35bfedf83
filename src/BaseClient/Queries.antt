-- ===== src/BaseClient/Queries.antt =====
-- baseclient/client_state.go: subscriptions and the query set.
use convex_go.Prelude.{
  ℕ, ◌+◌, ◌-◌, Option, none, some, List, [], ◌∷◌, ◌++◌, Str, if◌then◌else◌, ltb, is_some,
}
use convex_go.Prelude.Eq.{str_eq, nat_eq}
use convex_go.Prelude.GoMap.{get, put, delete}
use convex_go.Core.Error.{ok, err, unknown_subscriber, unknown_query_id, query_token_missing}
use convex_go.Core.Wire.{Wire}
use convex_go.Core.GoValue.{Any, Request, canonical_query}
use convex_go.Core.FunctionResult.{FunctionResult}
use convex_go.Protocol.{
  next_u32, next_u64, QuerySetAdd, QuerySetModification, add, remove, ClientMessage,
  modify_query_set,
}
use convex_go.BaseClient.State.{
  SubscriberId, subscriber_eq, LocalBaseQuery, Client, Outcome, QueryResults,
  query_results_snapshot,
}

-- One more subscriber of a query that is already in the query set.
unfoldable pub join_query : Str → LocalBaseQuery → Client → Client × SubscriberId
join_query token q c =
    let idx = next_u64 q.next_subscriber_idx in
    let id : SubscriberId = record { query_id = q.id; index = idx } in
    (
      record c {
        queries =
            put c.queries token
              (record q { num_subscribers = q.num_subscribers + 1; next_subscriber_idx = idx });
        subscribers = put c.subscribers id tt;
      },
      id,
    )

-- ModifyQuerySet from the current version to the next.
unfoldable pub queue_query_set : List QuerySetModification → Client → Client
queue_query_set mods c = record c {
  query_set_version = next_u32 c.query_set_version;
  outgoing =
      c.outgoing
      ++ modify_query_set (record {
        base_version = c.query_set_version;
        new_version = next_u32 c.query_set_version;
        modifications = mods;
      })
        ∷ [];
}

abbrev pub add_record : LocalBaseQuery → QuerySetAdd
add_record q = record {
  query_id = q.id;
  udf_path = q.canonical_path;
  args = q.args;
  journal = none;
  component_path = [];
}

abbrev pub add_of : LocalBaseQuery → QuerySetModification
add_of q = add (add_record q)

abbrev pub first_query : ℕ → Request → LocalBaseQuery
first_query id r = record {
  id = id;
  canonical_path = r.path;
  args = r.arg ∷ [];
  num_subscribers = 1;
  next_subscriber_idx = 1;
}

-- A query that enters the query set, with its first subscriber.
unfoldable pub add_query : Str → Request → Client → Client × SubscriberId
add_query token r c =
    let q = first_query c.next_query_id r in
    let id : SubscriberId = record { query_id = q.id; index = 1 } in
    (
      queue_query_set (add_of q ∷ []) (record c {
        next_query_id = next_u32 c.next_query_id;
        queries = put c.queries token q;
        query_id_to_token = put c.query_id_to_token q.id token;
        subscribers = put c.subscribers id tt;
      }),
      id,
    )

abbrev pub join_or_add : Option LocalBaseQuery → Str → Request → Client → Client × SubscriberId
join_or_add (some q) token r c = join_query token q c
join_or_add none token r c = add_query token r c

abbrev pub accepted : Client × SubscriberId → Outcome SubscriberId
accepted (c, id) = (c, ok id)

unfoldable pub subscribe : (Wire → Str) → Str → Any → Client → Outcome SubscriberId
subscribe marshal path args c = elim (canonical_query marshal path args) [
  | err e ↦ (c, err e)
  | ok (r, token) ↦ accepted (join_or_add (get c.queries token) token r c)
]

-- PopNextMessage: the oldest queued message, and nil on an empty queue.
abbrev pub pop_from : List ClientMessage → Client → Client × Option ClientMessage
pop_from [] c = (c, none)
pop_from (m ∷ ms) c = (record c { outgoing = ms }, some m)

unfoldable pub pop_next_message : Client → Client × Option ClientMessage
pop_next_message c = pop_from c.outgoing c

-- The query's last subscriber has gone: it leaves the query set.
unfoldable pub remove_query : Str → ℕ → Client → Client
remove_query token id c = queue_query_set (remove id ∷ []) (record c {
  queries = delete c.queries token;
  query_id_to_token = delete c.query_id_to_token id;
  server_results = delete c.server_results id;
  results = delete c.results id;
})

unfoldable pub leave_query : Str → LocalBaseQuery → ℕ → Client → Client
leave_query token q id c =
    if ltb 1 q.num_subscribers
    then record c {
      queries = put c.queries token (record q { num_subscribers = q.num_subscribers - 1 });
    }
    else remove_query token id c

abbrev pub leave_token : Str → Option LocalBaseQuery → ℕ → Client → Outcome (Unit {0})
leave_token token none id c = (c, err (query_token_missing id))
leave_token token (some q) id c = (leave_query token q id c, ok tt)

abbrev pub leave_id : Option Str → ℕ → Client → Outcome (Unit {0})
leave_id none id c = (c, err (unknown_query_id id))
leave_id (some token) id c = leave_token token (get c.queries token) id c

abbrev pub leave_if : Option (Unit {0}) → SubscriberId → Client → Outcome (Unit {0})
leave_if none id c = (c, err unknown_subscriber)
leave_if (some _) id c =
    leave_id (get c.query_id_to_token id.query_id) id.query_id
      (record c { subscribers = delete c.subscribers id })

unfoldable pub unsubscribe : SubscriberId → Client → Outcome (Unit {0})
unsubscribe id c = leave_if (get c.subscribers id) id c

-- LatestResults, MaxObservedTimestamp, MutationResult, ActionResult
unfoldable pub latest_results : Client → QueryResults
latest_results c = query_results_snapshot c

unfoldable pub max_observed_timestamp_of : Client → Option ℕ
max_observed_timestamp_of c = c.max_observed_timestamp

unfoldable pub mutation_result : ℕ → Client → Option FunctionResult
mutation_result id c = get c.mutation_results id

unfoldable pub action_result : ℕ → Client → Option FunctionResult
action_result id c = get c.action_results id

-- Client.GetQuery: only for a query that is in the query set.
unfoldable pub client_get_query : ℕ → Client → Option FunctionResult
client_get_query id c = if is_some (get c.query_id_to_token id) then get c.results id else none

-- QueryResults.Get: only for a subscriber of the snapshot.
unfoldable pub results_get : SubscriberId → QueryResults → Option FunctionResult
results_get id r = if is_some (get r.subscribers id) then get r.results id.query_id else none
