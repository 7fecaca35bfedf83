-- ===== src/SyncClient/Connection/Counts.antt =====
-- internal/syncclient/connection_state.go: what the marks do to the state and whom they call.
use convex_go.Prelude.{ℕ, ◌+◌, ◌<◌, ◌≡◌, refl, ap, ◌∙◌, true, List, [], ◌∷◌, arith, ◌==◌, ◌||◌, ltb}
use convex_go.Protocol.{next_u64, u64_mod}
use convex_go.SyncClient.Connection.{
  ConnectionPhase, no_phase, disconnected, connecting, connected, reconnecting, ConnectionState,
  Watched, Calls, connection_state_equal, phase_code, update_connection_state, mark_connecting,
  mark_connected, mark_reconnecting, mark_disconnected,
}

-- The four marks.
pub data Mark : Type 0 where
  marks_connecting marks_connected marks_reconnecting marks_disconnected : Mark

unfoldable pub mark : Mark → ℕ → Watched → Watched × Calls
mark marks_connecting = mark_connecting
mark marks_connected = mark_connected
mark marks_reconnecting = mark_reconnecting
mark marks_disconnected = mark_disconnected

abbrev pub after_marks : List (Mark × ℕ) → Watched → Watched
after_marks [] w = w
after_marks ((m, now) ∷ ms) w = after_marks ms (mark m now w).0

abbrev pub phase_of : Mark → ConnectionPhase
phase_of marks_connecting = connecting
phase_of marks_connected = connected
phase_of marks_reconnecting = reconnecting
phase_of marks_disconnected = disconnected

-- Whether a mark counts as a connection, and as a retry.
abbrev pub connects : Mark → ℕ
connects marks_connected = 1
connects _ = 0

abbrev pub retries : Mark → ℕ
retries marks_reconnecting = 1
retries _ = 0

abbrev pub total : (Mark → ℕ) → List (Mark × ℕ) → ℕ
total f [] = 0
total f ((m, now) ∷ ms) = f m + total f ms

abbrev pub phase_after : ConnectionPhase → List (Mark × ℕ) → ConnectionPhase
phase_after p [] = p
phase_after p ((m, now) ∷ ms) = phase_after (phase_of m) ms

-- One mark: its phase and its counts.
pub record Marked (m : Mark) (s t : ConnectionState) : Type 0 where
  pub phase : t.phase ≡ phase_of m
  pub connection_count : t.connection_count ≡ connects m + s.connection_count
  pub connection_retries : t.connection_retries ≡ retries m + s.connection_retries
  pub has_ever_connected : t.has_ever_connected ≡ (s.has_ever_connected || ltb 0 (connects m))

same_phase : (p q : ConnectionPhase) → (phase_code p == phase_code q) ≡ true → p ≡ q
unfolding phase_code
same_phase no_phase q h = ground arith
same_phase disconnected q h = ground arith
same_phase connecting q h = ground arith
same_phase connected q h = ground arith
same_phase reconnecting q h = ground arith

mark-Marked :
    (m : Mark) (now : ℕ) (w : Watched)
    → connects m + w.connection_state.connection_count < u64_mod
    → retries m + w.connection_state.connection_retries < u64_mod
    → Marked m w.connection_state (mark m now w).0.connection_state
unfolding mark mark_connecting mark_connected mark_reconnecting mark_disconnected
    update_connection_state connection_state_equal next_u64
mark-Marked marks_connecting now w h k = record {
  phase = ground (arith, same_phase w.connection_state.phase connecting);
  connection_count = ground arith;
  connection_retries = ground arith;
  has_ever_connected = ground arith;
}
mark-Marked marks_connected now w h k = record {
  phase = ground (arith, same_phase w.connection_state.phase connected);
  connection_count = ground arith;
  connection_retries = ground arith;
  has_ever_connected = ground arith;
}
mark-Marked marks_reconnecting now w h k = record {
  phase = ground (arith, same_phase w.connection_state.phase reconnecting);
  connection_count = ground arith;
  connection_retries = ground arith;
  has_ever_connected = ground arith;
}
mark-Marked marks_disconnected now w h k = record {
  phase = ground (arith, same_phase w.connection_state.phase disconnected);
  connection_count = ground arith;
  connection_retries = ground arith;
  has_ever_connected = ground arith;
}

-- What a sequence of marks has made of a state.
pub record Tracks (ms : List (Mark × ℕ)) (s t : ConnectionState) : Type 0 where
  pub phase : t.phase ≡ phase_after s.phase ms
  pub connection_count : t.connection_count ≡ total connects ms + s.connection_count
  pub connection_retries : t.connection_retries ≡ total retries ms + s.connection_retries
  pub has_ever_connected :
      t.has_ever_connected ≡ (s.has_ever_connected || ltb 0 (total connects ms))

module _ (m : Mark) (now : ℕ) (ms : List (Mark × ℕ)) (w : Watched)
    (h : total connects ((m, now) ∷ ms) + w.connection_state.connection_count < u64_mod)
    (k : total retries ((m, now) ∷ ms) + w.connection_state.connection_retries < u64_mod) where
  marked : Marked m w.connection_state (mark m now w).0.connection_state
  marked = mark-Marked m now w (omega (arith)) (omega (arith))

  first_count : total connects ms + (mark m now w).0.connection_state.connection_count < u64_mod
  first_count = omega (arith, marked.connection_count)

  first_retries : total retries ms + (mark m now w).0.connection_state.connection_retries < u64_mod
  first_retries = omega (arith, marked.connection_retries)

  Tracks-after :
      Tracks ms (mark m now w).0.connection_state (after_marks ms (mark m now w).0).connection_state
      → Tracks ((m, now) ∷ ms) w.connection_state (after_marks ms (mark m now w).0).connection_state
  Tracks-after ih = record {
    phase = ih.phase ∙ ap (λ p. phase_after p ms) marked.phase;
    connection_count = omega (arith, marked.connection_count, ih.connection_count);
    connection_retries = omega (arith, marked.connection_retries, ih.connection_retries);
    has_ever_connected = ground (arith, marked.has_ever_connected, ih.has_ever_connected);
  }

-- After any sequence of marks the phase is that of the last one, the counts are how many marks were
-- connects and reconnects, and a connection was ever made exactly if there was a connect, while
-- neither count reaches 2^64.
pub after_marks-Tracks :
    (ms : List (Mark × ℕ)) (w : Watched)
    → total connects ms + w.connection_state.connection_count < u64_mod
    → total retries ms + w.connection_state.connection_retries < u64_mod
    → Tracks ms w.connection_state (after_marks ms w).connection_state
after_marks-Tracks [] w h k = record {
  phase = refl;
  connection_count = omega arith;
  connection_retries = omega arith;
  has_ever_connected = ground arith;
}
after_marks-Tracks ((m, now) ∷ ms) w h k = Tracks-after m now ms w h k (
    after_marks-Tracks ms (mark m now w).0 (first_count m now ms w h k)
      (first_retries m now ms w h k))
