-- ===== src/BaseClient/Results/Visible.antt =====
-- baseclient/client_receive.go and optimistic_updates.go: which queries may have a result.
use convex_go.Prelude.{ℕ, ◌≡◌, refl, Option, none, some, true, List, [], ◌∷◌, Str, arith, is_some}
use convex_go.Prelude.GoMap.{GoMap, get, put, delete, get-put, get-delete}
use convex_go.Prelude.Eq.{nat_eq, str_eq}
use convex_go.Core.Error.{Result, ok, err, optimistic_update_failed, >>=-eq-ok}
use convex_go.Core.Wire.{Wire}
use convex_go.Core.GoValue.{Any, Request, canonical_query, value_from_go}
use convex_go.Core.FunctionResult.{FunctionResult}
use convex_go.Core.Value.{Value}
use convex_go.BaseClient.State.{
  Client, LocalBaseQuery, OptimisticUpdate, done, fail, get_query, get_all_queries, set_query,
  set_query_loading, TrackedSyncRequest,
}
use convex_go.BaseClient.Optimistic.{
  OptimisticLocalStore, run_update, store_set_query, store_set_query_loading, set_visible, hide,
}
use convex_go.BaseClient.Results.{
  run_optional, run_requests, optimistic_requests, optimistic_results_with,
}

-- Every result belongs to an id that has a token.
abbrev pub Active : GoMap ℕ Str → GoMap ℕ FunctionResult → Type 0
Active tokens results = (id : ℕ) → is_some (get results id) ≡ true → is_some (get tokens id) ≡ true

-- Every query's id has a token.
abbrev pub HasToken : GoMap ℕ Str → GoMap Str LocalBaseQuery → Type 0
HasToken tokens queries =
    (t : Str) (q : LocalBaseQuery) → get queries t ≡ some q → get tokens q.id ≡ some t

pub put-Active :
    (tokens : GoMap ℕ Str) (results : GoMap ℕ FunctionResult) (id : ℕ) (r : FunctionResult)
    → is_some (get tokens id) ≡ true
    → Active tokens results
    → Active tokens (put results id r)
put-Active tokens results id r here h j e = ground (arith, get-put results id j r, h j)

pub delete-Active :
    (tokens : GoMap ℕ Str) (results : GoMap ℕ FunctionResult) (id : ℕ)
    → Active tokens results
    → Active tokens (delete results id)
delete-Active tokens results id h j e = ground (arith, get-delete results id j, h j)

-- Naming the request in an error makes no result out of an error.
named_error-ok :
    (id : ℕ) (o : Result OptimisticLocalStore) (t : OptimisticLocalStore)
    → (elim o as (λ _. Result OptimisticLocalStore) [
      | ok v ↦ ok v
      | err e ↦ err (optimistic_update_failed id e)
    ])
      ≡ ok t
    → o ≡ ok t
named_error-ok id (ok v) t e = e
named_error-ok id (err x) t e = cc

module _ (marshal : Wire → Str) (tokens : GoMap ℕ Str) (queries : GoMap Str LocalBaseQuery)
    (has : HasToken tokens queries) where
  -- A store over these queries, with results for active queries only.
  record IsLocal (s : OptimisticLocalStore) : Type 0 where
    queries_same : s.queries ≡ queries
    active : Active tokens s.results

  set_visible-IsLocal :
      (s : OptimisticLocalStore) (t : Str) (o : Option LocalBaseQuery) (v : Result Value)
      → get s.queries t ≡ o
      → IsLocal s
      → IsLocal (set_visible s o v).0
  set_visible-IsLocal s t none v e h = h
  set_visible-IsLocal s t (some q) (err x) e h = h
  set_visible-IsLocal s t (some q) (ok v) e h = record {
    queries_same = h.queries_same;
    active = put-Active tokens s.results q.id _ (ground (arith, has t q, h.queries_same)) h.active;
  }

  hide-IsLocal :
      (s : OptimisticLocalStore) (o : Option LocalBaseQuery) → IsLocal s → IsLocal (hide s o)
  hide-IsLocal s none h = h
  hide-IsLocal s (some q) h = record {
    queries_same = h.queries_same;
    active = delete-Active tokens s.results q.id h.active;
  }

  set_query-IsLocal :
      (path : Str) (args value : Any) (s : OptimisticLocalStore)
      → IsLocal s
      → IsLocal (store_set_query marshal s path args value).0
  unfolding store_set_query
  set_query-IsLocal path args value s h = go (canonical_query marshal path args)
    where
      go :
          (o : Result (Request × Str))
          → IsLocal
              (elim o as (λ _. OptimisticLocalStore × Result (Unit {0})) [
                | err e ↦ (s, err e)
                | ok (r, t) ↦ set_visible s (get s.queries t) (value_from_go value)
              ]).0
      go (err e) = h
      go (ok (r, t)) = set_visible-IsLocal s t (get s.queries t) (value_from_go value) refl h

  loading-IsLocal :
      (path : Str) (args : Any) (s : OptimisticLocalStore)
      → IsLocal s
      → IsLocal (store_set_query_loading marshal s path args).0
  unfolding store_set_query_loading
  loading-IsLocal path args s h = go (canonical_query marshal path args)
    where
      go :
          (o : Result (Request × Str))
          → IsLocal
              (elim o as (λ _. OptimisticLocalStore × Result (Unit {0})) [
                | err e ↦ (s, err e)
                | ok (r, t) ↦ (hide s (get s.queries t), ok tt)
              ]).0
      go (err e) = h
      go (ok (r, t)) = hide-IsLocal s (get s.queries t) h

  run_update-IsLocal :
      (u : OptimisticUpdate) (s t : OptimisticLocalStore)
      → IsLocal s
      → run_update marshal u s ≡ ok t
      → IsLocal t
  unfolding run_update
  run_update-IsLocal done s t h e = ground arith
  run_update-IsLocal (fail x) s t h e = cc
  run_update-IsLocal (get_query path args k) s t h e = run_update-IsLocal (k _) s t h e
  run_update-IsLocal (get_all_queries path k) s t h e = run_update-IsLocal (k _) s t h e
  run_update-IsLocal (set_query path args value k) s t h e =
      run_update-IsLocal (k _) _ t (set_query-IsLocal path args value s h) e
  run_update-IsLocal (set_query_loading path args k) s t h e =
      run_update-IsLocal (k _) _ t (loading-IsLocal path args s h) e

  run_optional-IsLocal :
      (id : ℕ) (o : Option OptimisticUpdate) (s t : OptimisticLocalStore)
      → IsLocal s
      → run_optional marshal id o s ≡ ok t
      → IsLocal t
  run_optional-IsLocal id none s t h e = ground arith
  run_optional-IsLocal id (some u) s t h e =
      run_update-IsLocal u s t h (named_error-ok id (run_update marshal u s) t e)

  run_requests-IsLocal :
      (rs : List TrackedSyncRequest) (s t : OptimisticLocalStore)
      → IsLocal s
      → run_requests marshal rs s ≡ ok t
      → IsLocal t
  unfolding run_requests
  run_requests-IsLocal [] s t h e = ground arith
  run_requests-IsLocal (r ∷ rs) s t h e =
      let (v, e1, e2) = >>=-eq-ok (run_optional marshal r.id r.optimistic_update s) _ e in
      run_requests-IsLocal rs v t (run_optional-IsLocal r.id r.optimistic_update s v h e1) e2

-- The visible results that the pending optimistic updates leave are those of active queries.
pub optimistic_results_with-Active :
    (marshal : Wire → Str) (candidate : Option TrackedSyncRequest) (c : Client)
    (results : GoMap ℕ FunctionResult)
    → HasToken c.query_id_to_token c.queries
    → Active c.query_id_to_token c.server_results
    → optimistic_results_with marshal candidate c ≡ ok results
    → Active c.query_id_to_token results
unfolding optimistic_results_with
optimistic_results_with-Active marshal candidate c results has h e =
    let (t, e1, e2) = >>=-eq-ok (run_requests marshal (optimistic_requests candidate c) _) _ e in
    let l =
      run_requests-IsLocal marshal c.query_id_to_token c.queries has
        (optimistic_requests candidate c) _ t (record { queries_same = refl; active = h }) e1 in
    ground (arith, l.active)
