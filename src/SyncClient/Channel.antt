-- ===== src/SyncClient/Channel.antt =====
-- sendLatest of internal/syncclient/websocket_manager_runtime.go, on a buffered channel of Go: the
-- values that wait, the oldest first, and its capacity. No one receives while it runs.
use convex_go.Prelude.{
  ℕ, suc, ◌<◌, ◌≤◌, ◌≡◌, refl, List, [], ◌∷◌, ◌++◌, Option, none, some, Bool, true, false,
  if◌then◌else◌, ltb, length, arith,
}

pub record Channel {ℓ} (A : Type ℓ) : Type ℓ where
  pub waiting : List A
  pub capacity : ℕ

module _ {ℓ} {A : Type ℓ} where
  -- A send that does not block, and whether it took place.
  unfoldable pub try_send : A → Channel A → Channel A × Bool
  try_send x ch =
      if ltb (length ch.waiting) ch.capacity
      then (record ch { waiting = ch.waiting ++ x ∷ [] }, true)
      else (ch, false)

  abbrev pub drop_first : List A → List A
  drop_first [] = []
  drop_first (x ∷ xs) = xs

  -- A receive that does not block, whose value is dropped.
  unfoldable pub drop_oldest : Channel A → Channel A
  drop_oldest ch = record ch { waiting = drop_first ch.waiting }

  -- sendLatest
  unfoldable pub send_latest : A → Channel A → Channel A
  unfolding try_send drop_oldest
  send_latest x ch =
      let (sent, done) = try_send x ch in
      let retried = (try_send x (drop_oldest ch)).0 in if done then sent else retried

  -- The value that was sent last.
  abbrev pub last : List A → Option A
  last [] = none
  last (x ∷ []) = some x
  last (x ∷ y ∷ xs) = last (y ∷ xs)

module _ {A : Type 0} where
  last-append : (xs : List A) (x : A) → last (xs ++ x ∷ []) ≡ some x
  last-append [] x = refl
  last-append (y ∷ []) x = refl
  last-append (y ∷ z ∷ xs) x = last-append (z ∷ xs) x

  length-append : (xs : List A) (x : A) → length (xs ++ x ∷ []) ≡ suc (length xs)
  length-append [] x = refl
  length-append (y ∷ xs) x = ground (arith, length-append xs x)

  length-drop_first : (xs : List A) → 0 < length xs → suc (length (drop_first xs)) ≡ length xs
  length-drop_first [] h = ground arith
  length-drop_first (x ∷ xs) h = refl

  -- Sending to a channel with room for a value, and not above its capacity, always ends with that
  -- value last, and the channel not above its capacity; an older value is dropped only if it is full.
  pub send_latest-last :
      (x : A) (ch : Channel A)
      → 0 < ch.capacity
      → length ch.waiting ≤ ch.capacity
      → (last (send_latest x ch).waiting ≡ some x)
        × (length (send_latest x ch).waiting ≤ ch.capacity)
        × ((send_latest x ch).waiting
            ≡ (if ltb (length ch.waiting) ch.capacity then ch.waiting else drop_first ch.waiting)
              ++ x ∷ [])
  unfolding send_latest try_send drop_oldest
  send_latest-last x ch h k = ground (
    arith,
    last-append ch.waiting x,
    last-append (drop_first ch.waiting) x,
    length-append ch.waiting x,
    length-append (drop_first ch.waiting) x,
    length-drop_first ch.waiting,
  )
