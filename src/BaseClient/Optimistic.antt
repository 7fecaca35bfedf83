-- ===== src/BaseClient/Optimistic.antt =====
-- baseclient/optimistic_updates.go: the store that an optimistic update sees, its operations, and
-- the run of an update. `marshal` is json.Marshal, for query tokens.
use convex_go.Prelude.{ℕ, true, Option, none, some, List, [], ◌∷◌, Str, if◌then◌else◌, ltb}
use convex_go.Prelude.Eq.{list_beq, str_eq, nat_eq}
use convex_go.Prelude.GoMap.{GoMap, get, put, delete}
use convex_go.Prelude.GoMap.Iterate.{values_where}
use convex_go.Prelude.Sort.{sort_slice}
use convex_go.Core.Error.{Result, ok, err, ◌>>=◌, encode_optimistic_value}
use convex_go.Core.Wire.{Wire}
use convex_go.Core.Value.{Value}
use convex_go.Core.GoValue.{Any, value_from_go, canonical_query}
use convex_go.Core.FunctionPath.{canonical_query_path}
use convex_go.Core.FunctionResult.{FunctionResult, value_result, value_of}
use convex_go.BaseClient.State.{
  LocalBaseQuery, OptimisticQueryResult, OptimisticUpdate, done, fail, get_query, get_all_queries,
  set_query, set_query_loading,
}

pub record OptimisticLocalStore : Type 0 where
  pub results : GoMap ℕ FunctionResult
  pub queries : GoMap Str LocalBaseQuery

-- sortedBaseQueries
unfoldable pub sorted_base_queries : GoMap Str LocalBaseQuery → List LocalBaseQuery
sorted_base_queries qs =
    sort_slice (λ (p q : LocalBaseQuery). ltb p.id q.id) (values_where (λ _. true) qs.entries)

-- optimisticResultValue of what the store holds for a query
abbrev pub visible : Option FunctionResult → Option Value
visible none = none
visible (some r) = value_of r

abbrev first_arg : List Value → Option Value
first_arg [] = none
first_arg (v ∷ vs) = some v

abbrev pub query_entry : OptimisticLocalStore → LocalBaseQuery → OptimisticQueryResult
query_entry s q = record {
  path = q.canonical_path;
  args = first_arg q.args;
  value = visible (get s.results q.id);
}

-- The loop of GetAllQueries.
unfoldable pub entries_at :
    OptimisticLocalStore → Str → List LocalBaseQuery → List OptimisticQueryResult
entries_at s path [] = []
entries_at s path (q ∷ qs) =
    let rest = entries_at s path qs in
    if list_beq q.canonical_path path then query_entry s q ∷ rest else rest

unfoldable pub store_get_all_queries :
    OptimisticLocalStore → Str → Result (List OptimisticQueryResult)
store_get_all_queries s path = do
  canonical_path ← canonical_query_path path
  ok (entries_at s canonical_path (sorted_base_queries s.queries))

-- What GetQuery, SetQuery and SetQueryLoading do with the query that has the token, if there is one.
abbrev pub get_visible : OptimisticLocalStore → Option LocalBaseQuery → Option Value
get_visible s none = none
get_visible s (some q) = visible (get s.results q.id)

abbrev pub set_visible :
    OptimisticLocalStore
    → Option LocalBaseQuery
    → Result Value
    → OptimisticLocalStore × Result (Unit {0})
set_visible s none v = (s, ok tt)
set_visible s (some q) (err e) = (s, err (encode_optimistic_value e))
set_visible s (some q) (ok v) = (record s { results = put s.results q.id (value_result v) }, ok tt)

abbrev pub hide : OptimisticLocalStore → Option LocalBaseQuery → OptimisticLocalStore
hide s none = s
hide s (some q) = record s { results = delete s.results q.id }

module _ (marshal : Wire → Str) where
  unfoldable pub store_get_query : OptimisticLocalStore → Str → Any → Result (Option Value)
  store_get_query s path args = do
    (request, token) ← canonical_query marshal path args
    ok (get_visible s (get s.queries token))

  unfoldable pub store_set_query :
      OptimisticLocalStore → Str → Any → Any → OptimisticLocalStore × Result (Unit {0})
  store_set_query s path args value = elim (canonical_query marshal path args) [
    | err e ↦ (s, err e)
    | ok (request, token) ↦ set_visible s (get s.queries token) (value_from_go value)
  ]

  unfoldable pub store_set_query_loading :
      OptimisticLocalStore → Str → Any → OptimisticLocalStore × Result (Unit {0})
  store_set_query_loading s path args = elim (canonical_query marshal path args) [
    | err e ↦ (s, err e)
    | ok (request, token) ↦ (hide s (get s.queries token), ok tt)
  ]

  -- A run of the callback: the store's results at its end, or the error that it returns.
  unfoldable pub run_update : OptimisticUpdate → OptimisticLocalStore → Result OptimisticLocalStore
  run_update done s = ok s
  run_update (fail e) s = err e
  run_update (get_query path args k) s = run_update (k (store_get_query s path args)) s
  run_update (get_all_queries path k) s = run_update (k (store_get_all_queries s path)) s
  run_update (set_query path args value k) s =
      run_update (k (store_set_query s path args value).1) (store_set_query s path args value).0
  run_update (set_query_loading path args k) s =
      run_update (k (store_set_query_loading s path args).1) (store_set_query_loading s path args).0

-- SyncMutationOption, and syncMutationOptionsFrom: nil options are skipped, the last one counts.
pub data SyncMutationOption : Type 0 where
  with_optimistic_update : Option OptimisticUpdate → SyncMutationOption

options_from : Option OptimisticUpdate → List (Option SyncMutationOption) → Option OptimisticUpdate
options_from out [] = out
options_from out (none ∷ opts) = options_from out opts
options_from out (some (with_optimistic_update update) ∷ opts) = options_from update opts

unfoldable pub sync_mutation_options_from :
    List (Option SyncMutationOption) → Option OptimisticUpdate
unfolding options_from
sync_mutation_options_from opts = options_from none opts
