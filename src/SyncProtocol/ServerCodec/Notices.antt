-- ===== src/SyncProtocol/ServerCodec/Notices.antt =====
-- AuthErrorMessage, FatalErrorMessage, PingMessage and TransitionChunkMessage of sync_protocol.go.
use convex_go.Prelude.{ℕ, Option, none, some, [], Str, str}
use convex_go.Core.Error.{Result, ok, ◌>>=◌}
use convex_go.SyncProtocol.Json.{
  Json, json_null, json_bool, json_string, json_object, no_entries, entry, raw_object,
  unmarshal_exact_field, unmarshal_string, unmarshal_bool, unmarshal_uint32, marshal_uint32,
  unmarshal_pointer,
}
use convex_go.SyncProtocol.Messages.{AuthErrorMessage, TransitionChunkMessage}
use convex_go.SyncProtocol.Fields.{optional_identity_version_from_raw, with_field}

abbrev version_json : Option (Option ℕ) → Option Json
version_json none = none
version_json (some none) = some json_null
version_json (some (some n)) = some (marshal_uint32 n)

-- AuthErrorMessage.MarshalJSON
unfoldable pub marshal_auth_error : AuthErrorMessage → Json
unfolding marshal_uint32 with_field
marshal_auth_error m = json_object (
    with_field (str "authUpdateAttempted")
      (elim m.auth_update_attempted [ none ↦ none | some b ↦ some (json_bool b) ])
      (with_field (str "baseVersion") (version_json m.base_version) (
        entry (str "error") (json_string m.error)
          (entry (str "type") (json_string (str "AuthError")) no_entries))))

-- AuthErrorMessage.UnmarshalJSON
unfoldable pub unmarshal_auth_error : Json → Result AuthErrorMessage
unfolding raw_object unmarshal_exact_field unmarshal_string unmarshal_pointer unmarshal_bool
    optional_identity_version_from_raw
unmarshal_auth_error j = do
  raw ← raw_object j
  error ← unmarshal_exact_field unmarshal_string [] raw (str "error")
  auth_update_attempted ←
      unmarshal_exact_field (unmarshal_pointer unmarshal_bool) none raw (str "authUpdateAttempted")
  base_version ← optional_identity_version_from_raw raw (str "baseVersion")
  ok (record {
    error = error;
    base_version = base_version;
    auth_update_attempted = auth_update_attempted;
  })

-- FatalErrorMessage.MarshalJSON
unfoldable pub marshal_fatal_error : Str → Json
marshal_fatal_error message = json_object (
    entry (str "error") (json_string message)
      (entry (str "type") (json_string (str "FatalError")) no_entries))

-- FatalErrorMessage.UnmarshalJSON
unfoldable pub unmarshal_fatal_error : Json → Result Str
unfolding raw_object unmarshal_exact_field unmarshal_string
unmarshal_fatal_error j =
    raw_object j >>= λ raw. unmarshal_exact_field unmarshal_string [] raw (str "error")

-- PingMessage.MarshalJSON
unfoldable pub marshal_ping : Json
marshal_ping = json_object (entry (str "type") (json_string (str "Ping")) no_entries)

-- TransitionChunkMessage.MarshalJSON
unfoldable pub marshal_transition_chunk : TransitionChunkMessage → Json
unfolding marshal_uint32
marshal_transition_chunk m = json_object (
    entry (str "chunk") (json_string m.chunk) (
      entry (str "partNumber") (marshal_uint32 m.part_number) (
        entry (str "totalParts") (marshal_uint32 m.total_parts) (
          entry (str "transitionId") (json_string m.transition_id)
            (entry (str "type") (json_string (str "TransitionChunk")) no_entries)))))

-- TransitionChunkMessage.UnmarshalJSON
unfoldable pub unmarshal_transition_chunk : Json → Result TransitionChunkMessage
unfolding raw_object unmarshal_exact_field unmarshal_string unmarshal_uint32
unmarshal_transition_chunk j = do
  raw ← raw_object j
  chunk ← unmarshal_exact_field unmarshal_string [] raw (str "chunk")
  part_number ← unmarshal_exact_field unmarshal_uint32 0 raw (str "partNumber")
  total_parts ← unmarshal_exact_field unmarshal_uint32 0 raw (str "totalParts")
  transition_id ← unmarshal_exact_field unmarshal_string [] raw (str "transitionId")
  ok (record {
    chunk = chunk;
    part_number = part_number;
    total_parts = total_parts;
    transition_id = transition_id;
  })
