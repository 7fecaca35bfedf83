-- ===== src/SyncProtocol/ClientCodec/QuerySet.antt =====
-- ModifyQuerySetMessage and its modifications in internal/syncprotocol/sync_protocol.go.
use convex_go.Prelude.{ℕ, none, some, [], Str, str, if◌then◌else◌}
use convex_go.Prelude.Eq.{list_beq}
use convex_go.Core.Error.{
  Result, ok, err, ◌>>=◌, map_ok, missing_modifications, unknown_modification_type,
}
use convex_go.SyncProtocol.Json.{
  Json, JsonFields, Strconv, json_string, json_object, no_entries, entry, lookup, raw_object,
  raw_is_null, unmarshal_exact_field, unmarshal_string, unmarshal_uint32, marshal_uint32,
}
use convex_go.SyncProtocol.Messages.{
  QuerySetAdd, QuerySetModification, add, remove, ModifyQuerySetMessage,
}
use convex_go.SyncProtocol.Fields.{
  optional_string_from_raw, discriminator, optional_string_wire, with_field, nonempty_string,
  unmarshal_slice, marshal_slice, decode_elements, marshal_elements, marshal_args, unmarshal_args,
}

-- QuerySetRemove.MarshalJSON
unfoldable pub marshal_remove : ℕ → Json
unfolding marshal_uint32
marshal_remove id = json_object (
    entry (str "queryId") (marshal_uint32 id)
      (entry (str "type") (json_string (str "Remove")) no_entries))

-- QuerySetRemove.UnmarshalJSON
unfoldable pub unmarshal_remove : Json → Result ℕ
unfolding raw_object unmarshal_exact_field unmarshal_uint32
unmarshal_remove j =
    raw_object j >>= λ raw. unmarshal_exact_field unmarshal_uint32 0 raw (str "queryId")

module _ (S : Strconv) where
  -- QuerySetAdd.MarshalJSON
  unfoldable pub marshal_add : QuerySetAdd → Result Json
  unfolding marshal_args marshal_uint32 with_field optional_string_wire
  marshal_add m = do
    args ← marshal_args S m.args
    ok (
        json_object (
          entry (str "args") args (
            with_field (str "componentPath") (nonempty_string m.component_path) (
              with_field (str "journal")
                (elim m.journal [ none ↦ none | some s ↦ some (optional_string_wire (some s)) ])
                (entry (str "queryId") (marshal_uint32 m.query_id) (
                  entry (str "type") (json_string (str "Add"))
                    (entry (str "udfPath") (json_string m.udf_path) no_entries)))))))

  -- QuerySetAdd.UnmarshalJSON
  unfoldable pub unmarshal_add : Json → Result QuerySetAdd
  unfolding raw_object unmarshal_exact_field unmarshal_string unmarshal_uint32 unmarshal_args
      optional_string_from_raw
  unmarshal_add j = do
    raw ← raw_object j
    query_id ← unmarshal_exact_field unmarshal_uint32 0 raw (str "queryId")
    udf_path ← unmarshal_exact_field unmarshal_string [] raw (str "udfPath")
    args ← unmarshal_exact_field (unmarshal_args S) none raw (str "args")
    component_path ← unmarshal_exact_field unmarshal_string [] raw (str "componentPath")
    journal ← optional_string_from_raw raw (str "journal")
    ok (record {
      query_id = query_id;
      udf_path = udf_path;
      args = args;
      journal = journal;
      component_path = component_path;
    })

  unfoldable pub marshal_query_set_modification : QuerySetModification → Result Json
  unfolding marshal_add marshal_remove
  marshal_query_set_modification (add m) = marshal_add m
  marshal_query_set_modification (remove id) = ok (marshal_remove id)

  -- The switch of decodeQuerySetModification.
  unfoldable pub decode_modification_as : Str → Json → Result QuerySetModification
  unfolding unmarshal_add unmarshal_remove
  decode_modification_as mod_type j =
      if list_beq mod_type (str "Add")
      then map_ok add (unmarshal_add j)
      else if list_beq mod_type (str "Remove")
      then map_ok remove (unmarshal_remove j)
      else err (unknown_modification_type mod_type)

  -- decodeQuerySetModification
  unfoldable pub decode_query_set_modification : Json → Result QuerySetModification
  unfolding discriminator decode_modification_as
  decode_query_set_modification j =
      discriminator j >>= λ mod_type. decode_modification_as mod_type j

  -- ModifyQuerySetMessage.MarshalJSON
  unfoldable pub marshal_modify_query_set : ModifyQuerySetMessage → Result Json
  unfolding marshal_slice marshal_elements marshal_query_set_modification marshal_uint32
  marshal_modify_query_set m = do
    modifications ← marshal_slice (marshal_elements marshal_query_set_modification) m.modifications
    ok (
        json_object (
          entry (str "baseVersion") (marshal_uint32 m.base_version) (
            entry (str "modifications") modifications (
              entry (str "newVersion") (marshal_uint32 m.new_version)
                (entry (str "type") (json_string (str "ModifyQuerySet")) no_entries)))))

  -- The modifications must be there and not null.
  unfoldable pub present_modifications : JsonFields → Result Json
  unfolding lookup raw_is_null
  present_modifications raw = elim (lookup (str "modifications") raw) [
    | none ↦ err missing_modifications
    | some j ↦ if raw_is_null j then err missing_modifications else ok j
  ]

  -- ModifyQuerySetMessage.UnmarshalJSON
  unfoldable pub unmarshal_modify_query_set : Json → Result ModifyQuerySetMessage
  unfolding raw_object present_modifications unmarshal_exact_field unmarshal_uint32 unmarshal_slice
      decode_elements decode_query_set_modification
  unmarshal_modify_query_set j = do
    raw ← raw_object j
    modifications_raw ← present_modifications raw
    base_version ← unmarshal_exact_field unmarshal_uint32 0 raw (str "baseVersion")
    new_version ← unmarshal_exact_field unmarshal_uint32 0 raw (str "newVersion")
    modifications ←
        unmarshal_slice (decode_elements decode_query_set_modification 0) modifications_raw
    ok (record {
      base_version = base_version;
      new_version = new_version;
      modifications = modifications;
    })
