-- ===== src/SyncProtocol/ServerCodec/Transition.antt =====
-- TransitionMessage of internal/syncprotocol/sync_protocol.go.
use convex_go.Prelude.{ℕ, some, str}
use convex_go.Core.Error.{Result, ok, ◌>>=◌}
use convex_go.SyncProtocol.Json.{
  Json, no_elements, Strconv, json_string, json_object, no_entries, entry, raw_object,
  unmarshal_exact_field, marshal_int64, marshal_float64,
}
use convex_go.SyncProtocol.Messages.{TransitionMessage}
use convex_go.SyncProtocol.Fields.{
  optional_float64_from_raw, optional_int64_from_raw, with_field, marshal_slice, marshal_optional,
  decode_elements, marshal_elements, marshal_state_version, unmarshal_state_version, no_version,
  unmarshal_raw_list,
}
use convex_go.SyncProtocol.ServerCodec.Results.{
  marshal_state_modification, decode_state_modification,
}

abbrev pub write_int64 : ℕ → Result Json
write_int64 t = ok (marshal_int64 t)

module _ (S : Strconv) where
  -- TransitionMessage.MarshalJSON
  unfoldable pub marshal_transition : TransitionMessage → Result Json
  unfolding marshal_state_version marshal_slice marshal_elements marshal_state_modification
      marshal_optional marshal_float64 marshal_int64 with_field
  marshal_transition m = do
    start_version ← marshal_state_version m.start_version
    end_version ← marshal_state_version m.end_version
    modifications ← marshal_slice (marshal_elements (marshal_state_modification S)) m.modifications
    client_clock_skew ← marshal_optional (marshal_float64 S) m.client_clock_skew
    server_ts ← marshal_optional write_int64 m.server_ts
    ok (
        json_object (
          with_field (str "clientClockSkew") client_clock_skew (
            entry (str "endVersion") end_version (
              entry (str "modifications") modifications (
                with_field (str "serverTs") server_ts (
                  entry (str "startVersion") start_version
                    (entry (str "type") (json_string (str "Transition")) no_entries)))))))

  -- TransitionMessage.UnmarshalJSON. The list of raw messages may be missing or null.
  unfoldable pub unmarshal_transition : Json → Result TransitionMessage
  unfolding raw_object unmarshal_exact_field unmarshal_state_version unmarshal_raw_list
      decode_elements decode_state_modification optional_float64_from_raw optional_int64_from_raw
  unmarshal_transition j = do
    raw ← raw_object j
    start_version ←
        unmarshal_exact_field unmarshal_state_version no_version raw (str "startVersion")
    end_version ← unmarshal_exact_field unmarshal_state_version no_version raw (str "endVersion")
    modification_raw ←
        unmarshal_exact_field unmarshal_raw_list no_elements raw (str "modifications")
    modifications ← decode_elements (decode_state_modification S) 0 modification_raw
    client_clock_skew ← optional_float64_from_raw S raw (str "clientClockSkew")
    server_ts ← optional_int64_from_raw raw (str "serverTs")
    ok (record {
      start_version = start_version;
      end_version = end_version;
      modifications = some modifications;
      client_clock_skew = client_clock_skew;
      server_ts = server_ts;
    })
