-- ===== src/Core/Base64.antt =====
-- encoding/base64 and encoding/binary as internal/core/value.go uses them: the standard and the URL
-- alphabet with padding, and 64-bit words as eight little-endian bytes.
pub mod RoundTrip
use convex_go.Prelude.{
  ℕ, ◌+◌, ◌-◌, ◌*◌, ◌/◌, ◌%◌, ◌^◌, Bool, ◌&&◌, ◌||◌, Option, none, some, List, [], ◌∷◌, Str,
  if◌then◌else◌, ◌==◌, ltb, leb, length,
}
use convex_go.Core.Error.{Result, ok, err, malformed_base64, wrong_length}

-- The two characters in which the alphabets differ.
pub record Alphabet : Type 0 where
  pub c62 : ℕ
  pub c63 : ℕ

abbrev pub std_encoding : Alphabet
std_encoding = record { c62 = b'+'; c63 = b'/' }

abbrev pub url_encoding : Alphabet
url_encoding = record { c62 = b'-'; c63 = b'_' }

unfoldable pub encode_digit : ℕ → ℕ
encode_digit s =
    if ltb s 26
    then s + 65
    else if ltb s 52
    then s + 71
    else if ltb s 62
    then s - 4
    else if s == 62
    then b'+'
    else b'/'

unfoldable pub decode_digit : Alphabet → ℕ → Option ℕ
decode_digit a c =
    if leb b'A' c && leb c b'Z'
    then some (c - 65)
    else if leb b'a' c && leb c b'z'
    then some (c - 71)
    else if leb b'0' c && leb c b'9'
    then some (c + 4)
    else if c == a.c62
    then some 62
    else if c == a.c63
    then some 63
    else none

-- StdEncoding.EncodeToString
unfoldable pub encode_to_string : List ℕ → Str
unfolding encode_digit
encode_to_string [] = []
encode_to_string (x ∷ []) = encode_digit (x / 4) ∷ encode_digit (x % 4 * 16) ∷ b'=' ∷ b'=' ∷ []
encode_to_string (x ∷ y ∷ []) =
    encode_digit (x / 4)
    ∷ encode_digit (x % 4 * 16 + y / 16)
    ∷ encode_digit (y % 16 * 4)
    ∷ b'='
    ∷ []
encode_to_string (x ∷ y ∷ z ∷ rest) =
    encode_digit (x / 4)
    ∷ encode_digit (x % 4 * 16 + y / 16)
    ∷ encode_digit (y % 16 * 4 + z / 64)
    ∷ encode_digit (z % 64)
    ∷ encode_to_string rest

-- The decoder skips line breaks.
unfoldable pub skip_breaks : Str → Str
skip_breaks [] = []
skip_breaks (c ∷ s) = let rest = skip_breaks s in if c == 10 || c == 13 then rest else c ∷ rest

abbrev byte_0 : ℕ → ℕ → ℕ
byte_0 s t = (s * 4 + t / 16) % 256

abbrev byte_1 : ℕ → ℕ → ℕ
byte_1 t u = (t * 16 + u / 4) % 256

abbrev byte_2 : ℕ → ℕ → ℕ
byte_2 u v = (u * 64 + v) % 256

abbrev both : Option ℕ → Option ℕ → (ℕ → ℕ → Option (List ℕ)) → Option (List ℕ)
both (some s) (some t) f = f s t
both _ _ f = none

abbrev prefixed : ℕ → ℕ → ℕ → Option (List ℕ) → Option (List ℕ)
prefixed x y z (some bs) = some (x ∷ y ∷ z ∷ bs)
prefixed x y z none = none

-- Padding ends the text, after two or three digits.
padded : Alphabet → ℕ → ℕ → ℕ → Str → Option (List ℕ)
unfolding decode_digit
padded a p q r [] = both (decode_digit a p) (decode_digit a q) λ s t.
    if r == b'='
    then some (byte_0 s t ∷ [])
    else elim (decode_digit a r) [ none ↦ none | some u ↦ some (byte_0 s t ∷ byte_1 t u ∷ []) ]
padded a p q r (c ∷ rest) = none

unfoldable pub decode_quanta : Alphabet → Str → Option (List ℕ)
unfolding padded
decode_quanta a [] = some []
decode_quanta a (p ∷ q ∷ r ∷ t ∷ rest) =
    let more = decode_quanta a rest in
    if t == b'='
    then padded a p q r rest
    else both (decode_digit a p) (decode_digit a q) λ s0 s1.
      both (decode_digit a r) (decode_digit a t)
        λ s2 s3. prefixed (byte_0 s0 s1) (byte_1 s1 s2) (byte_2 s2 s3) more
decode_quanta a _ = none

-- StdEncoding.DecodeString, URLEncoding.DecodeString
unfoldable pub decode_string : Alphabet → Str → Option (List ℕ)
unfolding skip_breaks decode_quanta
decode_string a s = decode_quanta a (skip_breaks s)

-- decodeBase64Compat: the standard alphabet, or else the URL alphabet.
unfoldable pub decode_base64_compat : Str → Result (List ℕ)
decode_base64_compat s = elim (decode_string std_encoding s) [
  | some bs ↦ ok bs
  | none ↦ (elim (decode_string url_encoding s) [ some bs ↦ ok bs | none ↦ err malformed_base64 ])
]

-- binary.LittleEndian.PutUint64
unfoldable pub put_uint64 : ℕ → List ℕ
put_uint64 n =
    n % 256
    ∷ n / 2 ^ 8 % 256
    ∷ n / 2 ^ 16 % 256
    ∷ n / 2 ^ 24 % 256
    ∷ n / 2 ^ 32 % 256
    ∷ n / 2 ^ 40 % 256
    ∷ n / 2 ^ 48 % 256
    ∷ n / 2 ^ 56 % 256
    ∷ []

-- binary.LittleEndian.Uint64, on the bytes that are there.
unfoldable pub uint64 : List ℕ → ℕ
uint64 [] = 0
uint64 (b ∷ bs) = b + 256 * uint64 bs

-- encodeInt64 and encodeFloat64: the 64 bits as text.
unfoldable pub encode_bits : ℕ → Str
encode_bits n = encode_to_string (put_uint64 n)

-- decodeInt64 and decodeFloat64: the text must hold exactly eight bytes.
unfoldable pub decode_bits : Str → Result ℕ
decode_bits s = elim (decode_base64_compat s) [
  | err e ↦ err e
  | ok bs ↦ if length bs == 8 then ok (uint64 bs) else err wrong_length
]
