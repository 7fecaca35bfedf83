-- ===== src/SyncClient/SessionId.antt =====
-- formatSyncSessionID of internal/syncclient/websocket_manager_runtime.go. `b & 0x0f | 0x40` is
-- `b % 16 + 64`, and `b & 0x3f | 0x80` is `b % 64 + 128`.
use convex_go.Prelude.{
  ℕ, ◌+◌, ◌/◌, ◌%◌, ◌≡◌, ◌⊎◌, List, [], ◌∷◌, Str, length, if◌then◌else◌, ltb, Option, some, none,
}

-- A [16]byte.
pub record Bytes16 : Type 0 where
  pub b0 : ℕ
  pub b1 : ℕ
  pub b2 : ℕ
  pub b3 : ℕ
  pub b4 : ℕ
  pub b5 : ℕ
  pub b6 : ℕ
  pub b7 : ℕ
  pub b8 : ℕ
  pub b9 : ℕ
  pub b10 : ℕ
  pub b11 : ℕ
  pub b12 : ℕ
  pub b13 : ℕ
  pub b14 : ℕ
  pub b15 : ℕ

unfoldable pub hex_digit : ℕ → ℕ
hex_digit d = if ltb d 10 then d + 48 else d + 87

-- hex.EncodeToString, with what follows.
unfoldable pub hex_onto : List ℕ → Str → Str
unfolding hex_digit
hex_onto [] rest = rest
hex_onto (b ∷ bs) rest = hex_digit (b / 16) ∷ hex_digit (b % 16) ∷ hex_onto bs rest

unfoldable pub format_sync_session_id : Bytes16 → Str
unfolding hex_onto
format_sync_session_id s = hex_onto (s.b0 ∷ s.b1 ∷ s.b2 ∷ s.b3 ∷ []) (
    b'-'
    ∷ hex_onto (s.b4 ∷ s.b5 ∷ []) (
        b'-'
        ∷ hex_onto ((s.b6 % 16 + 64) ∷ s.b7 ∷ []) (
            b'-'
            ∷ hex_onto ((s.b8 % 64 + 128) ∷ s.b9 ∷ [])
                (b'-' ∷ hex_onto (s.b10 ∷ s.b11 ∷ s.b12 ∷ s.b13 ∷ s.b14 ∷ s.b15 ∷ []) []))))

abbrev pub char_at : ℕ → Str → Option ℕ
char_at n [] = none
char_at ℕ.zero (c ∷ s) = some c
char_at (ℕ.suc n) (c ∷ s) = char_at n s

-- The texts of a random UUID: 36 characters, the hyphens in their places, version 4, and the variant digit.
pub record IsUuid4 (s : Str) : Type 0 where
  pub size : length s ≡ 36
  pub hyphens :
      (char_at 8 s ≡ some b'-')
      × (char_at 13 s ≡ some b'-')
      × (char_at 18 s ≡ some b'-')
      × (char_at 23 s ≡ some b'-')
  pub version : char_at 14 s ≡ some b'4'
  pub variant :
      (char_at 19 s ≡ some b'8')
      ⊎ (char_at 19 s ≡ some b'9')
      ⊎ (char_at 19 s ≡ some b'a')
      ⊎ (char_at 19 s ≡ some b'b')
