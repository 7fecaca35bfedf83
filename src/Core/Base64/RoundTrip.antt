-- ===== src/Core/Base64/RoundTrip.antt =====
-- Decoding what was encoded: bytes and 64-bit words.
use convex_go.Prelude.{
  ℕ, ◌+◌, ◌*◌, ◌/◌, ◌%◌, ◌^◌, ◌<◌, ◌≡◌, refl, ap, false, ◌∙◌, some, List, [], ◌∷◌, Str, arith, ◌==◌,
  length, All,
}
use convex_go.Core.Error.{ok}
use convex_go.Core.Base64.{
  std_encoding, byte_0, byte_1, byte_2, prefixed, encode_digit, decode_digit, encode_to_string,
  skip_breaks, padded, decode_quanta, decode_string, decode_base64_compat, put_uint64, uint64,
  encode_bits, decode_bits,
}

decode-encode_digit : (s : ℕ) → s < 64 → decode_digit std_encoding (encode_digit s) ≡ some s
unfolding decode_digit encode_digit
decode-encode_digit s h = ground arith

-- A digit is no line break and no padding.
encode_digit-plain :
    (s : ℕ)
    → s < 64
    → ((encode_digit s == 10) ≡ false)
      × ((encode_digit s == 13) ≡ false)
      × ((encode_digit s == b'=') ≡ false)
unfolding encode_digit
encode_digit-plain s h = ground arith

abbrev pub IsBytes : List ℕ → Type 0
IsBytes = All (λ b. b < 256)

skip_digit :
    (s : ℕ) (rest : Str)
    → s < 64
    → skip_breaks (encode_digit s ∷ rest) ≡ encode_digit s ∷ skip_breaks rest
unfolding skip_breaks
skip_digit s rest h = ground (arith, encode_digit-plain s)

quantum :
    (s0 s1 s2 s3 : ℕ) (rest : Str)
    → s0 < 64
    → s1 < 64
    → s2 < 64
    → s3 < 64
    → decode_quanta std_encoding
        (encode_digit s0 ∷ encode_digit s1 ∷ encode_digit s2 ∷ encode_digit s3 ∷ rest)
      ≡ prefixed (byte_0 s0 s1) (byte_1 s1 s2) (byte_2 s2 s3) (decode_quanta std_encoding rest)
unfolding decode_quanta
quantum s0 s1 s2 s3 rest h0 h1 h2 h3 = ground (
  arith,
  encode_digit-plain s3,
  decode-encode_digit s0,
  decode-encode_digit s1,
  decode-encode_digit s2,
  decode-encode_digit s3,
)

padded_two :
    (s0 s1 : ℕ)
    → s0 < 64
    → s1 < 64
    → decode_quanta std_encoding (encode_digit s0 ∷ encode_digit s1 ∷ b'=' ∷ b'=' ∷ [])
      ≡ some (byte_0 s0 s1 ∷ [])
unfolding decode_quanta padded
padded_two s0 s1 h0 h1 = ground (arith, decode-encode_digit s0, decode-encode_digit s1)

padded_one :
    (s0 s1 s2 : ℕ)
    → s0 < 64
    → s1 < 64
    → s2 < 64
    → decode_quanta std_encoding (encode_digit s0 ∷ encode_digit s1 ∷ encode_digit s2 ∷ b'=' ∷ [])
      ≡ some (byte_0 s0 s1 ∷ byte_1 s1 s2 ∷ [])
unfolding decode_quanta padded
padded_one s0 s1 s2 h0 h1 h2 = ground (
  arith,
  encode_digit-plain s2,
  decode-encode_digit s0,
  decode-encode_digit s1,
  decode-encode_digit s2,
)

skip_breaks-encode :
    (bs : List ℕ) → IsBytes bs → skip_breaks (encode_to_string bs) ≡ encode_to_string bs
unfolding encode_to_string
skip_breaks-encode [] h = unfold skip_breaks in refl
skip_breaks-encode (x ∷ []) h =
    rw (skip_digit (x / 4) _ (omega arith), skip_digit (x % 4 * 16) _ (omega arith))
      (unfold skip_breaks in refl)
skip_breaks-encode (x ∷ y ∷ []) h =
    rw
      (
        skip_digit (x / 4) _ (omega arith),
        skip_digit (x % 4 * 16 + y / 16) _ (omega arith),
        skip_digit (y % 16 * 4) _ (omega arith),
      )
      (unfold skip_breaks in refl)
skip_breaks-encode (x ∷ y ∷ z ∷ rest) h = rw (
  skip_digit (x / 4) _ (omega arith),
  skip_digit (x % 4 * 16 + y / 16) _ (omega arith),
  skip_digit (y % 16 * 4 + z / 64) _ (omega arith),
  skip_digit (z % 64) _ (omega arith),
  skip_breaks-encode rest h.1.1.1,
)

decode_quanta-encode :
    (bs : List ℕ) → IsBytes bs → decode_quanta std_encoding (encode_to_string bs) ≡ some bs
unfolding encode_to_string
decode_quanta-encode [] h = unfold decode_quanta in refl
decode_quanta-encode (x ∷ []) h =
    padded_two (x / 4) (x % 4 * 16) (omega arith) (omega arith) ∙ ground arith
decode_quanta-encode (x ∷ y ∷ []) h =
    padded_one (x / 4) (x % 4 * 16 + y / 16) (y % 16 * 4) (omega arith) (omega arith) (omega arith)
    ∙ ground arith
decode_quanta-encode (x ∷ y ∷ z ∷ rest) h =
    quantum (x / 4) (x % 4 * 16 + y / 16) (y % 16 * 4 + z / 64) (z % 64) (encode_to_string rest)
      (omega arith) (omega arith) (omega arith) (omega arith)
    ∙ ground (arith, decode_quanta-encode rest h.1.1.1)

-- The URL alphabet is never needed for text that the client encoded itself.
pub decode-encode_to_string :
    (bs : List ℕ) → IsBytes bs → decode_base64_compat (encode_to_string bs) ≡ ok bs
unfolding decode_base64_compat decode_string
decode-encode_to_string bs h =
    ground
      (arith, decode_quanta-encode bs, ap (decode_quanta std_encoding) (skip_breaks-encode bs h))

pub put_uint64-IsBytes : (n : ℕ) → IsBytes (put_uint64 n)
unfolding put_uint64
put_uint64-IsBytes n = omega arith

pub uint64-put : (n : ℕ) → n < 2 ^ 64 → uint64 (put_uint64 n) ≡ n
unfolding uint64 put_uint64
uint64-put n h = omega arith

pub length-put_uint64 : (n : ℕ) → length (put_uint64 n) ≡ 8
unfolding put_uint64
length-put_uint64 n = refl

decode_bits_at :
    (s : Str) (bs : List ℕ)
    → decode_base64_compat s ≡ ok bs
    → length bs ≡ 8
    → decode_bits s ≡ ok (uint64 bs)
unfolding decode_bits
decode_bits_at s bs h k = ground arith

-- A 64-bit word survives its textual form.
pub decode-encode_bits : (n : ℕ) → n < 2 ^ 64 → decode_bits (encode_bits n) ≡ ok n
unfolding encode_bits
decode-encode_bits n h =
    decode_bits_at (encode_bits n) (put_uint64 n)
      (decode-encode_to_string (put_uint64 n) (put_uint64-IsBytes n)) (length-put_uint64 n)
    ∙ ap ok (uint64-put n h)
