-- ===== src/SyncProtocol/Timestamp.antt =====
-- SyncTimestamp of internal/syncprotocol/sync_protocol.go: base64 over eight little-endian bytes.
use convex_go.Prelude.{ℕ, ◌-◌, ◌^◌, none, some, Str, if◌then◌else◌, ◌==◌, ltb, length, List}
use convex_go.Core.Error.{
  Result, ok, err, ◌>>=◌, malformed_base64, timestamp_too_large, timestamp_length,
}
use convex_go.Core.Base64.{
  std_encoding, url_encoding, encode_to_string, decode_string, put_uint64, uint64,
}
use convex_go.SyncProtocol.Json.{Json, json_string, unmarshal_string}

abbrev pub max_int64 : ℕ
max_int64 = 2 ^ 63 - 1

-- SyncTimestamp.MarshalJSON
unfoldable pub marshal_timestamp : ℕ → Result Json
marshal_timestamp t =
    if ltb max_int64 t
    then err timestamp_too_large
    else ok (json_string (encode_to_string (put_uint64 t)))

-- decodeSyncBase64Compat
unfoldable pub decode_sync_base64_compat : Str → Result (List ℕ)
decode_sync_base64_compat s = elim (decode_string std_encoding s) [
  | some bs ↦ ok bs
  | none ↦ (elim (decode_string url_encoding s) [ some bs ↦ ok bs | none ↦ err malformed_base64 ])
]

unfoldable pub timestamp_of_bytes : List ℕ → Result ℕ
timestamp_of_bytes bs =
    if length bs == 8
    then (if ltb max_int64 (uint64 bs) then err timestamp_too_large else ok (uint64 bs))
    else err timestamp_length

-- SyncTimestamp.UnmarshalJSON
unfoldable pub unmarshal_timestamp : Json → Result ℕ
unfolding unmarshal_string decode_sync_base64_compat timestamp_of_bytes
unmarshal_timestamp j =
    unmarshal_string j >>= λ s. decode_sync_base64_compat s >>= timestamp_of_bytes
