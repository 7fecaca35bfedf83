-- ===== src/BaseClient/Results.antt =====
-- baseclient/client_receive.go: the recomputation of visible results from the server's and the
-- pending optimistic updates, and the retention of finished requests.
pub mod Visible
pub mod Retention
use convex_go.Prelude.{
  ℕ, suc, Bool, true, false, ◌&&◌, Option, none, some, List, [], ◌∷◌, ◌++◌, Str, if◌then◌else◌, ltb,
  is_some, length,
}
use convex_go.Prelude.Eq.{nat_eq}
use convex_go.Prelude.GoMap.{GoMap, put, delete}
use convex_go.Prelude.GoMap.Iterate.{values_where}
use convex_go.Prelude.Sort.{sort_slice}
use convex_go.Core.Error.{Result, ok, err, ◌>>=◌, optimistic_update_failed}
use convex_go.Core.Wire.{Wire}
use convex_go.Core.FunctionResult.{FunctionResult}
use convex_go.BaseClient.State.{
  Client, Outcome, OptimisticUpdate, RequestKind, mutation_kind, action_kind, TrackedSyncRequest,
}
use convex_go.BaseClient.Optimistic.{OptimisticLocalStore, run_update}

abbrev pub is_mutation : RequestKind → Bool
is_mutation mutation_kind = true
is_mutation action_kind = false

abbrev pub has_optimistic : TrackedSyncRequest → Bool
has_optimistic r = is_mutation r.kind && is_some r.optimistic_update

abbrev pub by_id : TrackedSyncRequest → TrackedSyncRequest → Bool
by_id p q = ltb p.id q.id

abbrev with_candidate :
    Option TrackedSyncRequest → List TrackedSyncRequest → List TrackedSyncRequest
with_candidate none rs = rs
with_candidate (some r) rs = if has_optimistic r then rs ++ r ∷ [] else rs

-- optimisticRequests
unfoldable pub optimistic_requests : Option TrackedSyncRequest → Client → List TrackedSyncRequest
optimistic_requests candidate c =
    sort_slice by_id (with_candidate candidate (values_where has_optimistic c.requests.entries))

module _ (marshal : Wire → Str) where
  abbrev pub run_optional :
      ℕ → Option OptimisticUpdate → OptimisticLocalStore → Result OptimisticLocalStore
  run_optional id none s = ok s
  run_optional id (some u) s = elim (run_update marshal u s) [
    | ok t ↦ ok t
    | err e ↦ err (optimistic_update_failed id e)
  ]

  unfoldable pub run_requests :
      List TrackedSyncRequest → OptimisticLocalStore → Result OptimisticLocalStore
  run_requests [] s = ok s
  run_requests (r ∷ rs) s = run_optional r.id r.optimistic_update s >>= run_requests rs

  -- optimisticResultsWith
  unfoldable pub optimistic_results_with :
      Option TrackedSyncRequest → Client → Result (GoMap ℕ FunctionResult)
  optimistic_results_with candidate c =
      run_requests (optimistic_requests candidate c)
        (record { results = c.server_results; queries = c.queries })
      >>= λ s. ok s.results

  abbrev pub install : Result (GoMap ℕ FunctionResult) → Client → Outcome (Unit {0})
  install (err e) c = (c, err e)
  install (ok results) c = (record c { results = results }, ok tt)

  -- recomputeOptimisticResults: after an error the old results stay.
  unfoldable pub recompute_optimistic_results : Client → Outcome (Unit {0})
  recompute_optimistic_results c = install (optimistic_results_with none c) c

-- completedRequestRetentionLimit, a variable that only tests change.
abbrev pub completed_request_retention_limit : ℕ
completed_request_retention_limit = 1024

unfoldable pub normalized_retention_limit : ℕ
normalized_retention_limit =
    if ltb completed_request_retention_limit 1 then 1 else completed_request_retention_limit

-- The eviction loops: the oldest ids go until the order is within the limit.
unfoldable pub evict_order : ℕ → List ℕ → List ℕ
evict_order limit [] = []
evict_order limit (id ∷ ids) =
    let rest = evict_order limit ids in if ltb limit (suc (length ids)) then rest else id ∷ ids

unfoldable pub evicted {ℓ} : {V : Type ℓ} → ℕ → List ℕ → GoMap ℕ V → GoMap ℕ V
evicted limit [] m = m
evicted limit (id ∷ ids) m =
    let rest = evicted limit ids (delete m id) in if ltb limit (suc (length ids)) then rest else m

unfoldable pub remember_mutation_result : ℕ → FunctionResult → Client → Client
remember_mutation_result id result c =
    let order = c.completed_mutation_order ++ id ∷ [] in
    record c {
      mutation_results =
          evicted normalized_retention_limit order (put c.mutation_results id result);
      completed_mutations =
          evicted normalized_retention_limit order (put c.completed_mutations id tt);
      completed_mutation_order = evict_order normalized_retention_limit order;
    }

unfoldable pub remember_action_result : ℕ → FunctionResult → Client → Client
remember_action_result id result c =
    let order = c.action_result_order ++ id ∷ [] in
    record c {
      action_results = evicted normalized_retention_limit order (put c.action_results id result);
      action_result_order = evict_order normalized_retention_limit order;
    }
