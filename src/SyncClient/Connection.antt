-- ===== src/SyncClient/Connection.antt =====
-- internal/syncclient/connection_state.go: the phase of the connection and its listeners. A time is a
-- number; a listener stands for a callback, and what is called is a list of calls in order.
pub mod Counts
use convex_go.Prelude.{
  ℕ, ◌+◌, Bool, true, false, ◌&&◌, List, [], ◌∷◌, map, if◌then◌else◌, ◌==◌, Option, none, some,
}
use convex_go.Prelude.Eq.{nat_eq}
use convex_go.Prelude.GoMap.{GoMap, empty, put, delete}
use convex_go.Protocol.{next_u64}

-- The zero ConnectionPhase is the empty text.
pub data ConnectionPhase : Type 0 where
  no_phase disconnected connecting connected reconnecting : ConnectionPhase

pub record ConnectionState : Type 0 where
  pub phase : ConnectionPhase
  pub has_ever_connected : Bool
  pub connection_count : ℕ
  pub connection_retries : ℕ
  pub last_change : ℕ

-- The fields of Manager that stateMu guards; a listener is known by a number.
pub record Watched : Type 0 where
  pub connection_state : ConnectionState
  pub connection_state_subscribers : GoMap ℕ ℕ
  pub next_connection_state_subscriber_id : ℕ

abbrev pub Calls : Type 0
Calls = List (ℕ × ConnectionState)

abbrev pub first_state : ConnectionState
first_state = record {
  phase = disconnected;
  has_ever_connected = false;
  connection_count = 0;
  connection_retries = 0;
  last_change = 0;
}

abbrev pub no_watchers : Watched
no_watchers = record {
  connection_state = first_state;
  connection_state_subscribers = empty;
  next_connection_state_subscriber_id = 0;
}

unfoldable pub phase_code : ConnectionPhase → ℕ
phase_code no_phase = 0
phase_code disconnected = 1
phase_code connecting = 2
phase_code connected = 3
phase_code reconnecting = 4

abbrev flag_eq : Bool → Bool → Bool
flag_eq true b = b
flag_eq false true = false
flag_eq false false = true

-- connectionStateEqual: all but the time.
unfoldable pub connection_state_equal : ConnectionState → ConnectionState → Bool
unfolding phase_code
connection_state_equal left right =
    phase_code left.phase == phase_code right.phase
    && flag_eq left.has_ever_connected right.has_ever_connected
    && left.connection_count == right.connection_count
    && left.connection_retries == right.connection_retries

abbrev pub with_phase : ConnectionState → ConnectionState
with_phase s = elim s.phase [ no_phase ↦ record s { phase = disconnected } | _ ↦ s ]

abbrev pub call_each : ConnectionState → List (ℕ × ℕ) → Calls
call_each s [] = []
call_each s ((id, listener) ∷ rest) = (listener, s) ∷ call_each s rest

-- updateConnectionState: nothing happens when nothing but the time would change.
unfoldable pub update_connection_state :
    (ConnectionState → ConnectionState) → ℕ → Watched → Watched × Calls
unfolding connection_state_equal
update_connection_state update now w =
    let next = with_phase (update w.connection_state) in
    let changed = record next { last_change = now } in
    if connection_state_equal w.connection_state next then (w, []) else (
      record w { connection_state = changed },
      call_each changed w.connection_state_subscribers.entries,
    )

unfoldable pub mark_connecting : ℕ → Watched → Watched × Calls
unfolding update_connection_state
mark_connecting = update_connection_state (λ s. record s { phase = connecting })

unfoldable pub mark_connected : ℕ → Watched → Watched × Calls
unfolding update_connection_state
mark_connected = update_connection_state λ s. record s {
  phase = connected;
  has_ever_connected = true;
  connection_count = next_u64 s.connection_count;
}

unfoldable pub mark_reconnecting : ℕ → Watched → Watched × Calls
unfolding update_connection_state
mark_reconnecting =
    update_connection_state
      λ s. record s { phase = reconnecting; connection_retries = next_u64 s.connection_retries }

unfoldable pub mark_disconnected : ℕ → Watched → Watched × Calls
unfolding update_connection_state
mark_disconnected = update_connection_state (λ s. record s { phase = disconnected })

-- SubscribeToConnectionState; none is a nil callback. The listener is called at once, and the
-- number that comes back is what the function for unsubscribing holds.
unfoldable pub subscribe_to_connection_state : Option ℕ → Watched → Watched × Option ℕ × Calls
subscribe_to_connection_state none w = (w, none, [])
subscribe_to_connection_state (some listener) w =
    let id = w.next_connection_state_subscriber_id in
    (
      record w {
        connection_state_subscribers = put w.connection_state_subscribers id listener;
        next_connection_state_subscriber_id = next_u64 id;
      },
      some id,
      (listener, w.connection_state) ∷ [],
    )

-- The function that SubscribeToConnectionState returns.
unfoldable pub unsubscribe_from_connection_state : Option ℕ → Watched → Watched
unsubscribe_from_connection_state none w = w
unsubscribe_from_connection_state (some id) w = record w {
  connection_state_subscribers = delete w.connection_state_subscribers id;
}
