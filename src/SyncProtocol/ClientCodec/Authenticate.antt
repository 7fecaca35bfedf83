-- ===== src/SyncProtocol/ClientCodec/Authenticate.antt =====
-- AuthenticateMessage of internal/syncprotocol/sync_protocol.go.
use convex_go.Prelude.{Option, none, some, [], str, if◌then◌else◌}
use convex_go.Core.Error.{Result, ok, err, ◌>>=◌, field_failed}
use convex_go.SyncProtocol.Json.{
  Json, JsonFields, json_string, json_object, no_entries, entry, lookup, raw_object, raw_is_null,
  unmarshal_exact_field, unmarshal_string, unmarshal_uint32, marshal_uint32,
}
use convex_go.SyncProtocol.Messages.{IdentityAttributes, AuthenticateMessage}
use convex_go.SyncProtocol.Fields.{with_field, nonempty_string}
use convex_go.SyncProtocol.Identity.{marshal_identity, unmarshal_identity}

-- AuthenticateMessage.MarshalJSON
unfoldable pub marshal_authenticate : AuthenticateMessage → Json
unfolding marshal_uint32 with_field marshal_identity
marshal_authenticate m = json_object (
    entry (str "baseVersion") (marshal_uint32 m.base_version) (
      with_field (str "impersonating")
        (elim m.acting_as [ none ↦ none | some i ↦ some (marshal_identity i) ])
        (entry (str "tokenType") (json_string m.token_type) (
          entry (str "type") (json_string (str "Authenticate"))
            (with_field (str "value") (nonempty_string m.value) no_entries)))))

-- The identity under its new name, or else under the old one.
abbrev identity_field : JsonFields → Option Json
unfolding lookup
identity_field raw = elim (lookup (str "actingAs") raw) [
  | some j ↦ some j
  | none ↦ lookup (str "impersonating") raw
]

unfoldable pub read_acting_as : JsonFields → Result (Option IdentityAttributes)
unfolding lookup raw_is_null unmarshal_identity
read_acting_as raw = elim (identity_field raw) [
  | none ↦ ok none
  | some j ↦
      (let decoded = unmarshal_identity j in
        if raw_is_null j
        then ok none
        else elim decoded [ ok i ↦ ok (some i) | err e ↦ err (field_failed (str "actingAs") e) ])
]

-- AuthenticateMessage.UnmarshalJSON
unfoldable pub unmarshal_authenticate : Json → Result AuthenticateMessage
unfolding raw_object unmarshal_exact_field unmarshal_string unmarshal_uint32 read_acting_as
unmarshal_authenticate j = do
  raw ← raw_object j
  base_version ← unmarshal_exact_field unmarshal_uint32 0 raw (str "baseVersion")
  token_type ← unmarshal_exact_field unmarshal_string [] raw (str "tokenType")
  value ← unmarshal_exact_field unmarshal_string [] raw (str "value")
  acting_as ← read_acting_as raw
  ok (record {
    base_version = base_version;
    token_type = token_type;
    value = value;
    acting_as = acting_as;
  })
