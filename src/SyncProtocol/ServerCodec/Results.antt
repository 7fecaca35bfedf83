-- ===== src/SyncProtocol/ServerCodec/Results.antt =====
-- QueryUpdated, QueryFailed and QueryRemoved of internal/syncprotocol/sync_protocol.go.
use convex_go.Prelude.{ℕ, Option, none, some, List, [], Str, str, if◌then◌else◌}
use convex_go.Prelude.Eq.{list_beq}
use convex_go.Core.Error.{
  Result, ok, err, ◌>>=◌, map_ok, missing_journal, unknown_modification_type,
}
use convex_go.Core.Value.{null}
use convex_go.Protocol.{OptionalValue, OptionalString}
use convex_go.SyncProtocol.Json.{
  Json, Strconv, json_string, json_object, no_entries, entry, raw_object, unmarshal_exact_field,
  unmarshal_string, unmarshal_uint32, marshal_uint32,
}
use convex_go.SyncProtocol.Values.{marshal_value, unmarshal_value}
use convex_go.SyncProtocol.Messages.{
  QueryUpdated, QueryFailed, StateModification, query_updated, query_failed, query_removed,
}
use convex_go.SyncProtocol.Fields.{
  optional_string_from_raw, optional_value_from_raw, discriminator, optional_string_wire,
  with_field, unmarshal_slice, marshal_string_slice, unmarshal_string_list,
}

-- The journal must be there.
unfoldable pub present_journal : OptionalString → Result OptionalString
present_journal none = err missing_journal
present_journal (some s) = ok (some s)

-- json.Unmarshal into []string.
abbrev pub unmarshal_strings : Json → Result (Option (List Str))
unmarshal_strings = unmarshal_slice unmarshal_string_list

-- QueryRemoved.MarshalJSON
unfoldable pub marshal_query_removed : ℕ → Json
unfolding marshal_uint32
marshal_query_removed id = json_object (
    entry (str "queryId") (marshal_uint32 id)
      (entry (str "type") (json_string (str "QueryRemoved")) no_entries))

-- QueryRemoved.UnmarshalJSON
unfoldable pub unmarshal_query_removed : Json → Result ℕ
unfolding raw_object unmarshal_exact_field unmarshal_uint32
unmarshal_query_removed j =
    raw_object j >>= λ raw. unmarshal_exact_field unmarshal_uint32 0 raw (str "queryId")

module _ (S : Strconv) where
  -- QueryUpdated.MarshalJSON
  unfoldable pub marshal_query_updated : QueryUpdated → Result Json
  unfolding marshal_value optional_string_wire marshal_string_slice marshal_uint32
  marshal_query_updated m = do
    value ← marshal_value S m.value
    ok (
        json_object (
          entry (str "journal") (optional_string_wire m.journal) (
            entry (str "logLines") (marshal_string_slice m.log_lines) (
              entry (str "queryId") (marshal_uint32 m.query_id) (
                entry (str "type") (json_string (str "QueryUpdated"))
                  (entry (str "value") value no_entries))))))

  -- QueryUpdated.UnmarshalJSON
  unfoldable pub unmarshal_query_updated : Json → Result QueryUpdated
  unfolding raw_object unmarshal_exact_field unmarshal_uint32 unmarshal_value
      optional_string_from_raw present_journal
  unmarshal_query_updated j = do
    raw ← raw_object j
    query_id ← unmarshal_exact_field unmarshal_uint32 0 raw (str "queryId")
    value ← unmarshal_exact_field (unmarshal_value S) null raw (str "value")
    log_lines ← unmarshal_exact_field unmarshal_strings none raw (str "logLines")
    read ← optional_string_from_raw raw (str "journal")
    journal ← present_journal read
    ok (record { query_id = query_id; value = value; log_lines = log_lines; journal = journal })

  -- The value of a field that may be left out.
  unfoldable pub marshal_error_data : OptionalValue → Result (Option Json)
  unfolding marshal_value
  marshal_error_data none = ok none
  marshal_error_data (some v) = map_ok some (marshal_value S v)

  -- QueryFailed.MarshalJSON
  unfoldable pub marshal_query_failed : QueryFailed → Result Json
  unfolding marshal_error_data optional_string_wire marshal_string_slice marshal_uint32 with_field
  marshal_query_failed m = do
    error_data ← marshal_error_data m.error_data
    ok (
        json_object (
          with_field (str "errorData") error_data (
            entry (str "errorMessage") (json_string m.error_message) (
              entry (str "journal") (optional_string_wire m.journal) (
                entry (str "logLines") (marshal_string_slice m.log_lines) (
                  entry (str "queryId") (marshal_uint32 m.query_id)
                    (entry (str "type") (json_string (str "QueryFailed")) no_entries)))))))

  -- QueryFailed.UnmarshalJSON
  unfoldable pub unmarshal_query_failed : Json → Result QueryFailed
  unfolding raw_object unmarshal_exact_field unmarshal_uint32 unmarshal_string
      optional_string_from_raw present_journal optional_value_from_raw
  unmarshal_query_failed j = do
    raw ← raw_object j
    query_id ← unmarshal_exact_field unmarshal_uint32 0 raw (str "queryId")
    error_message ← unmarshal_exact_field unmarshal_string [] raw (str "errorMessage")
    log_lines ← unmarshal_exact_field unmarshal_strings none raw (str "logLines")
    read ← optional_string_from_raw raw (str "journal")
    journal ← present_journal read
    error_data ← optional_value_from_raw S raw (str "errorData")
    ok (record {
      query_id = query_id;
      error_message = error_message;
      log_lines = log_lines;
      journal = journal;
      error_data = error_data;
    })

  unfoldable pub marshal_state_modification : StateModification → Result Json
  unfolding marshal_query_updated marshal_query_failed marshal_query_removed
  marshal_state_modification (query_updated m) = marshal_query_updated m
  marshal_state_modification (query_failed m) = marshal_query_failed m
  marshal_state_modification (query_removed id) = ok (marshal_query_removed id)

  -- The switch of decodeStateModification.
  unfoldable pub decode_state_as : Str → Json → Result StateModification
  unfolding unmarshal_query_updated unmarshal_query_failed unmarshal_query_removed
  decode_state_as mod_type j =
      if list_beq mod_type (str "QueryUpdated")
      then map_ok query_updated (unmarshal_query_updated j)
      else if list_beq mod_type (str "QueryFailed")
      then map_ok query_failed (unmarshal_query_failed j)
      else if list_beq mod_type (str "QueryRemoved")
      then map_ok query_removed (unmarshal_query_removed j)
      else err (unknown_modification_type mod_type)

  -- decodeStateModification
  unfoldable pub decode_state_modification : Json → Result StateModification
  unfolding discriminator decode_state_as
  decode_state_modification j = discriminator j >>= λ mod_type. decode_state_as mod_type j
