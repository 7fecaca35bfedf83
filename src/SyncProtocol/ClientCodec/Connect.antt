-- ===== src/SyncProtocol/ClientCodec/Connect.antt =====
-- ConnectMessage of internal/syncprotocol/sync_protocol.go.
use convex_go.Prelude.{Bool, true, false, ◌&&◌, Option, none, some, [], Str, str, if◌then◌else◌}
use convex_go.Core.Error.{Result, ok, err, ◌>>=◌, field_failed}
use convex_go.SyncProtocol.Json.{
  Json, JsonFields, json_null, json_string, json_object, no_entries, entry, lookup, raw_object,
  raw_is_null, unmarshal_exact_field, unmarshal_string, unmarshal_uint32, marshal_uint32,
  unmarshal_int64, marshal_int64, unmarshal_pointer,
}
use convex_go.SyncProtocol.Timestamp.{marshal_timestamp, unmarshal_timestamp}
use convex_go.SyncProtocol.Messages.{ConnectMessage}
use convex_go.SyncProtocol.Fields.{with_field, nonempty_string}
use convex_go.SyncProtocol.Identity.{is_empty}

abbrev pub unknown_reason : Str
unknown_reason = str "unknown"

abbrev pub close_reason : ConnectMessage → Option Json
close_reason m =
    if m.last_close_reason_present && m.last_close_reason_null
    then some json_null
    else nonempty_string m.last_close_reason

abbrev pub marshal_pointer {ℓ} : {A : Type ℓ} → (A → Result Json) → Option A → Result (Option Json)
marshal_pointer marshal none = ok none
marshal_pointer marshal (some x) = marshal x >>= λ j. ok (some j)

-- ConnectMessage.MarshalJSON
unfoldable pub marshal_connect : ConnectMessage → Result Json
unfolding marshal_uint32 marshal_int64 marshal_timestamp with_field
marshal_connect m = do
  ts ← marshal_pointer marshal_timestamp m.max_observed_timestamp
  client_ts ← marshal_pointer (λ t. ok (marshal_int64 t)) m.client_ts
  ok (
      json_object (
        with_field (str "clientTs") client_ts (
          entry (str "connectionCount") (marshal_uint32 m.connection_count) (
            with_field (str "lastCloseReason") (close_reason m) (
              with_field (str "maxObservedTimestamp") ts (
                entry (str "sessionId") (json_string m.session_id)
                  (entry (str "type") (json_string (str "Connect")) no_entries)))))))

abbrev pub reason_or_unknown : Str → Str
reason_or_unknown s = if is_empty s then unknown_reason else s

-- The text of the reason, whether the field is there, and whether it is null.
unfoldable pub read_close_reason : JsonFields → Result (Str × Bool × Bool)
unfolding lookup raw_is_null unmarshal_string
read_close_reason raw = elim (lookup (str "lastCloseReason") raw) [
  | none ↦ ok ([], false, false)
  | some j ↦ (elim (unmarshal_string j) [
    | ok s ↦ ok (s, true, raw_is_null j)
    | err e ↦ err (field_failed (str "lastCloseReason") e)
  ])
]

-- ConnectMessage.UnmarshalJSON
unfoldable pub unmarshal_connect : Json → Result ConnectMessage
unfolding raw_object unmarshal_exact_field unmarshal_string unmarshal_uint32 unmarshal_pointer
    unmarshal_timestamp unmarshal_int64 read_close_reason
unmarshal_connect j = do
  raw ← raw_object j
  session_id ← unmarshal_exact_field unmarshal_string [] raw (str "sessionId")
  connection_count ← unmarshal_exact_field unmarshal_uint32 0 raw (str "connectionCount")
  max_observed_timestamp ←
      unmarshal_exact_field (unmarshal_pointer unmarshal_timestamp) none raw
        (str "maxObservedTimestamp")
  client_ts ← unmarshal_exact_field (unmarshal_pointer unmarshal_int64) none raw (str "clientTs")
  reason ← read_close_reason raw
  let (last_close_reason, last_close_reason_present, last_close_reason_null) = reason
  ok (record {
    session_id = session_id;
    connection_count = connection_count;
    last_close_reason = reason_or_unknown last_close_reason;
    max_observed_timestamp = max_observed_timestamp;
    client_ts = client_ts;
    last_close_reason_present = last_close_reason_present;
    last_close_reason_null = last_close_reason_null;
  })
