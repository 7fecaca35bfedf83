-- ===== src/SyncProtocol/RoundTrip/QuerySet.antt =====
-- ModifyQuerySetMessage and its modifications in sync_protocol.go, there and back.
use convex_go.Prelude.{is_some, str, ℕ, ◌≡◌, arith, true}
use convex_go.Core.Error.{ok, >>=-eq-ok}
use convex_go.Core.Value.RoundTrip.{IsSized}
use convex_go.SyncProtocol.Json.{
  Json, Strconv, lookup, raw_object, unmarshal_exact_field, unmarshal_string, raw_is_null,
}
use convex_go.SyncProtocol.Fields.{
  with_field, marshal_args, optional_string_from_raw, optional_from_raw, optional_string_wire,
  discriminator, marshal_slice, unmarshal_slice, marshal_elements,
}
use convex_go.SyncProtocol.Messages.{
  QuerySetAdd, QuerySetModification, add, remove, ModifyQuerySetMessage,
}
use convex_go.SyncProtocol.ClientCodec.QuerySet.{
  marshal_add, unmarshal_add, marshal_remove, unmarshal_remove, marshal_query_set_modification,
  decode_query_set_modification, decode_modification_as, marshal_modify_query_set,
  unmarshal_modify_query_set, present_modifications,
}
use convex_go.SyncProtocol.RoundTrip.{
  IsU32, OnSlice, unmarshal-marshal_uint32, text_cases, optional_cases, decode-marshal_slice,
}
use convex_go.SyncProtocol.RoundTrip.Values.{unmarshal-marshal_args}

pub record IsAdd (m : QuerySetAdd) : Type 0 where
  pub query_id_fits : IsU32 m.query_id
  pub args_fit : OnSlice IsSized m.args

unmarshal-marshal_add :
    (S : Strconv) (m : QuerySetAdd) (j : Json)
    → IsAdd m
    → marshal_add S m ≡ ok j
    → (discriminator j ≡ ok (str "Add")) × (unmarshal_add S j ≡ ok m)
unfolding marshal_add unmarshal_add raw_object unmarshal_exact_field lookup unmarshal_string
    with_field optional_string_from_raw optional_from_raw optional_string_wire raw_is_null
    discriminator
unmarshal-marshal_add S m j h e =
    let (args, e1, e2) = >>=-eq-ok (marshal_args S m.args) _ e in
    ground (
      arith,
      unmarshal-marshal_args S m.args args h.args_fit e1,
      text_cases m.component_path,
      optional_cases m.journal,
      unmarshal-marshal_uint32 m.query_id h.query_id_fits,
    )

unmarshal-marshal_remove :
    (id : ℕ)
    → IsU32 id
    → (discriminator (marshal_remove id) ≡ ok (str "Remove"))
      × (unmarshal_remove (marshal_remove id) ≡ ok id)
unfolding marshal_remove unmarshal_remove raw_object unmarshal_exact_field lookup unmarshal_string
    discriminator
unmarshal-marshal_remove id h = ground (arith, unmarshal-marshal_uint32 id h)

abbrev pub IsEdit : QuerySetModification → Type 0
IsEdit (add m) = IsAdd m
IsEdit (remove id) = IsU32 id

-- A modification of the query set that could be written is read back.
pub decode-marshal_modification :
    (S : Strconv) (m : QuerySetModification) (j : Json)
    → IsEdit m
    → marshal_query_set_modification S m ≡ ok j
    → decode_query_set_modification S j ≡ ok m
unfolding marshal_query_set_modification decode_query_set_modification decode_modification_as
decode-marshal_modification S (add m) j h e = ground (arith, unmarshal-marshal_add S m j h e)
decode-marshal_modification S (remove id) j h e = ground (arith, unmarshal-marshal_remove id h)

-- The versions fit their Go type, and the modifications are not nil.
pub record IsModify (m : ModifyQuerySetMessage) : Type 0 where
  pub base_version_fits : IsU32 m.base_version
  pub new_version_fits : IsU32 m.new_version
  pub modifications_there : is_some m.modifications ≡ true
  pub modifications_fit : OnSlice IsEdit m.modifications

pub unmarshal-marshal_modify :
    (S : Strconv) (m : ModifyQuerySetMessage) (j : Json)
    → IsModify m
    → marshal_modify_query_set S m ≡ ok j
    → (discriminator j ≡ ok (str "ModifyQuerySet")) × (unmarshal_modify_query_set S j ≡ ok m)
unfolding marshal_modify_query_set unmarshal_modify_query_set raw_object unmarshal_exact_field
    lookup unmarshal_string discriminator present_modifications marshal_slice unmarshal_slice
    raw_is_null
unmarshal-marshal_modify S m j h e =
    let write = marshal_query_set_modification S in
    let (mods, e1, e2) = >>=-eq-ok (marshal_slice (marshal_elements write) m.modifications) _ e in
    let read =
      decode-marshal_slice IsEdit write _ (decode-marshal_modification S) m.modifications mods
        h.modifications_fit e1 in
    ground (
      arith,
      read,
      h.modifications_there,
      unmarshal-marshal_uint32 m.base_version h.base_version_fits,
      unmarshal-marshal_uint32 m.new_version h.new_version_fits,
    )
