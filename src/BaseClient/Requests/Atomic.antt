-- ===== src/BaseClient/Requests/Atomic.antt =====
-- baseclient/client_state.go: the calls that start something, when they fail.
use convex_go.Prelude.{ℕ, ◌≡◌, refl, Option, none, some, List, Str, arith, if◌then◌else◌}
use convex_go.Prelude.GoMap.{GoMap}
use convex_go.Prelude.Eq.{nat_eq, str_eq}
use convex_go.Core.Error.{Result, ok, err, is_ok}
use convex_go.Core.Wire.{Wire}
use convex_go.Core.GoValue.{Any, Request}
use convex_go.Core.FunctionResult.{FunctionResult}
use convex_go.BaseClient.State.{
  Client, Outcome, OptimisticUpdate, AuthTokenFetcher, TrackedSyncRequest,
}
use convex_go.BaseClient.Optimistic.{SyncMutationOption, sync_mutation_options_from}
use convex_go.BaseClient.Auth.{set_auth_callback}
use convex_go.BaseClient.Queries.{subscribe}
use convex_go.BaseClient.Requests.{start_optimistic, start_mutation, mutation, action}

-- A call that returns an error has left the client as it was.
abbrev pub IsAtomic {ℓ} : {A : Type ℓ} → Client → Outcome A → Type 0
IsAtomic c (d, r) = d ≡ (if is_ok r then d else c)

start_optimistic-IsAtomic :
    (o : Result (GoMap ℕ FunctionResult)) (r : TrackedSyncRequest) (c : Client)
    → IsAtomic c (start_optimistic o r c)
start_optimistic-IsAtomic (err e) r c = refl
start_optimistic-IsAtomic (ok results) r c = refl

start_mutation-IsAtomic :
    (marshal : Wire → Str) (o : Option OptimisticUpdate) (req : Request) (c : Client)
    → IsAtomic c (start_mutation marshal o req c)
start_mutation-IsAtomic marshal none req c = refl
start_mutation-IsAtomic marshal (some u) req c = start_optimistic-IsAtomic _ _ c

mutation-IsAtomic :
    (marshal : Wire → Str) (path : Str) (args : Any) (opts : List (Option SyncMutationOption))
    (c : Client)
    → IsAtomic c (mutation marshal path args opts c)
unfolding mutation
mutation-IsAtomic marshal path args opts c = ground (
  arith,
  λ (req : Request). start_mutation-IsAtomic marshal (sync_mutation_options_from opts) req c,
)

action-IsAtomic : (path : Str) (args : Any) (c : Client) → IsAtomic c (action path args c)
unfolding action
action-IsAtomic path args c = ground arith

subscribe-IsAtomic :
    (marshal : Wire → Str) (path : Str) (args : Any) (c : Client)
    → IsAtomic c (subscribe marshal path args c)
unfolding subscribe
subscribe-IsAtomic marshal path args c = ground arith

set_auth_callback-IsAtomic :
    (f : Option AuthTokenFetcher) (c : Client) → IsAtomic c (set_auth_callback f c)
unfolding set_auth_callback
set_auth_callback-IsAtomic none c = refl
set_auth_callback-IsAtomic (some f) c = ground arith

-- Subscribe, Mutation, Action and SetAuthCallback leave the client unchanged when they return an error.
pub start-IsAtomic :
    (marshal : Wire → Str) (path : Str) (args : Any) (opts : List (Option SyncMutationOption))
    (f : Option AuthTokenFetcher) (c : Client)
    → IsAtomic c (subscribe marshal path args c)
      × IsAtomic c (mutation marshal path args opts c)
      × IsAtomic c (action path args c)
      × IsAtomic c (set_auth_callback f c)
start-IsAtomic marshal path args opts f c = (
  subscribe-IsAtomic marshal path args c,
  mutation-IsAtomic marshal path args opts c,
  action-IsAtomic path args c,
  set_auth_callback-IsAtomic f c,
)
