-- ===== src/BaseClient/Pending.antt =====
-- The table of pending requests, and what keeps it well-formed.
pub mod Server
use convex_go.Prelude.{ℕ, ◌+◌, ◌<◌, ◌==◌, ◌≡◌, some, arith, Bool-cases, inl, inr}
use convex_go.Prelude.Eq.{nat_eq}
use convex_go.Prelude.GoMap.{GoMap, get, put, delete, get-put, get-delete}
use convex_go.Prelude.GoMap.Iterate.{IsMap, put-IsMap, delete-IsMap}
use convex_go.Protocol.{ClientMessage, mutation_message, action_message}
use convex_go.BaseClient.State.{Client, TrackedSyncRequest, RequestKind, mutation_kind, action_kind}

-- The message is the request of that kind with that id.
abbrev pub IsRequest : RequestKind → ClientMessage → ℕ → Type 0
IsRequest mutation_kind (mutation_message m) id = m.request_id ≡ id
IsRequest action_kind (action_message m) id = m.request_id ≡ id
IsRequest _ _ id = ⊥

pub record IsTracked (id : ℕ) (next : ℕ) (r : TrackedSyncRequest) : Type 0 where
  pub same_id : r.id ≡ id
  pub used : id < next
  pub message : IsRequest r.kind r.message id

pub record Pending (requests : GoMap ℕ TrackedSyncRequest) (next : ℕ) : Type 0 where
  pub is_map : IsMap requests
  pub tracked : (id : ℕ) (r : TrackedSyncRequest) → get requests id ≡ some r → IsTracked id next r

-- Every pending request stands under its own id, which has been given out, and its message carries
-- that id.
abbrev pub PendingAgree : Client → Type 0
PendingAgree c = Pending c.requests c.next_request_id

module _ {requests : GoMap ℕ TrackedSyncRequest} {next : ℕ} (h : Pending requests next) where
  delete-Pending : (id : ℕ) → Pending (delete requests id) next
  delete-Pending id = record {
    is_map = delete-IsMap requests id h.is_map;
    tracked = λ j r e. h.tracked j r (ground (arith, get-delete requests id j));
  }

  put-Pending :
      (id next' : ℕ) (r : TrackedSyncRequest)
      → IsTracked id next' r
      → next < next' + 1
      → Pending (put requests id r) next'
  put-Pending id next' r t le = record {
    is_map = put-IsMap requests id r h.is_map;
    tracked = λ j p e. elim (Bool-cases (id == j)) [
      | inl same ↦
          let at : id ≡ j = ground arith in
          let it : r ≡ p = ground (arith, get-put requests id j r) in rw (← at, ← it) t
      | inr other ↦
          let old : IsTracked j next p = h.tracked j p (ground (arith, get-put requests id j r)) in
          record { same_id = old.same_id; used = omega arith; message = old.message }
    ];
  }

-- Neither the table nor the next id changes.
pub record SamePending (c d : Client) : Type 0 where
  pub requests : d.requests ≡ c.requests
  pub next_id : d.next_request_id ≡ c.next_request_id

pub same-Pending : {c d : Client} → SamePending c d → PendingAgree c → PendingAgree d
same-Pending e h = rw (e.requests, e.next_id) h
