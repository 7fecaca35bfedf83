-- ===== src/BaseClient/Requests/Replay.antt =====
-- baseclient/client_state.go: what ReplayOngoingRequests sends again.
use convex_go.Prelude.{ℕ, ◌≡◌, refl, ap, ◌∙◌, if◌then◌else◌, Bool, List, [], ◌∷◌, map}
use convex_go.Prelude.Eq.{nat_eq}
use convex_go.Prelude.GoMap.{get}
use convex_go.Prelude.GoMap.Iterate.{holds, values_where}
use convex_go.Prelude.GoMap.Occurrences.{
  occurrences, occurrences-sort_slice, occurrences-values_where,
}
use convex_go.Prelude.Sort.{sort_slice}
use convex_go.Protocol.{
  ClientMessage, modify_query_set, mutation_message, action_message, authenticate,
}
use convex_go.BaseClient.State.{Client, TrackedSyncRequest, RequestKind, mutation_kind, action_kind}
use convex_go.BaseClient.Results.{is_mutation}
use convex_go.BaseClient.Requests.{replay_less, replay_ongoing_requests}
use convex_go.BaseClient.Pending.{IsRequest, PendingAgree}

-- The request that a message is about.
abbrev pub request_of : ClientMessage → ℕ
request_of (mutation_message m) = m.request_id
request_of (action_message m) = m.request_id
request_of (modify_query_set m) = 0
request_of (authenticate m) = 0

abbrev pub of_mutation : TrackedSyncRequest → Bool
of_mutation r = is_mutation r.kind

request_of-message :
    (k : RequestKind) (m : ClientMessage) (id : ℕ) → IsRequest k m id → request_of m ≡ id
request_of-message mutation_kind (mutation_message m) id h = h
request_of-message action_kind (action_message m) id h = h
request_of-message mutation_kind _ id h = absurd h
request_of-message action_kind _ id h = absurd h

map_map {ℓ κ μ} :
    {A : Type ℓ} {B : Type κ} {D : Type μ} (g : B → D) (f : A → B) (xs : List A)
    → map g (map f xs) ≡ map (λ x. g (f x)) xs
map_map g f [] = refl
map_map g f (x ∷ xs) = ap (λ ys. g (f x) ∷ ys) (map_map g f xs)

-- While the table of requests is well-formed, every pending mutation is replayed exactly once, and
-- nothing else is: no pending action and no id that is not pending.
pub occurrences-replay_ongoing_requests :
    (c : Client) (id : ℕ)
    → PendingAgree c
    → occurrences id (map request_of (replay_ongoing_requests c))
      ≡ (if holds of_mutation (get c.requests id) then 1 else 0)
unfolding replay_ongoing_requests
occurrences-replay_ongoing_requests c id h =
    ap (occurrences id) (
      map_map request_of (λ (r : TrackedSyncRequest). r.message)
        (sort_slice replay_less (values_where of_mutation c.requests.entries)))
    ∙ occurrences-sort_slice (λ (r : TrackedSyncRequest). request_of r.message) replay_less id
        (values_where of_mutation c.requests.entries)
    ∙ occurrences-values_where (λ (r : TrackedSyncRequest). request_of r.message) of_mutation id
        c.requests h.is_map
        (λ j r e. request_of-message r.kind r.message j (h.tracked j r e).message)
