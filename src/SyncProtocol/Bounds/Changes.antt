-- ===== src/SyncProtocol/Bounds/Changes.antt =====
-- The ids and versions that the decoders of query results and responses in sync_protocol.go accept.
use convex_go.Prelude.{ℕ, ◌≡◌, none, arith, Option, Bool, true, false, List, [], Str, str}
use convex_go.Core.Error.{ok, >>=-eq-ok}
use convex_go.Core.Value.{null}
use convex_go.SyncProtocol.Json.{
  Json, JsonFields, Strconv, raw_object, unmarshal_exact_field, unmarshal_string, unmarshal_uint32,
}
use convex_go.SyncProtocol.Fields.{
  optional_string_from_raw, optional_value_from_raw, unmarshal_state_version, no_version,
}
use convex_go.SyncProtocol.Values.{unmarshal_value}
use convex_go.Protocol.{OptionalValue}
use convex_go.SyncProtocol.Messages.{
  QueryUpdated, QueryFailed, StateModification, query_updated, query_failed, query_removed,
}
use convex_go.SyncProtocol.ServerCodec.Results.{
  unmarshal_query_updated, unmarshal_query_failed, unmarshal_query_removed,
  decode_state_modification, decode_state_as, present_journal,
}
use mathlib.Core.Path.{subst}
use convex_go.SyncProtocol.Values.{unmarshal_value}
use convex_go.SyncProtocol.Messages
use convex_go.Protocol.{OptionalValue}
use convex_go.Protocol.{StateVersion}
use convex_go.SyncProtocol.ServerCodec.Results.{
  unmarshal_strings, present_journal, unmarshal_query_updated, unmarshal_query_failed,
  unmarshal_query_removed, decode_state_as, decode_state_modification,
}
use convex_go.SyncProtocol.ServerCodec.Responses.{response_of}
use convex_go.SyncProtocol.RoundTrip.{IsU32}
use convex_go.SyncProtocol.Bounds.{
  IsServerVersion, ok_injective, unmarshal_uint32-IsU32, version_fits, field_fits,
}

-- A uint32 field of a message.
pub unmarshal_exact_field-IsU32 :
    (raw : JsonFields) (k : Str) (n : ℕ)
    → unmarshal_exact_field unmarshal_uint32 0 raw k ≡ ok n
    → IsU32 n
unmarshal_exact_field-IsU32 raw k n e =
    field_fits IsU32 unmarshal_uint32 unmarshal_uint32-IsU32 0 raw k n (omega arith) e

pub version_field :
    (raw : JsonFields) (k : Str) (v : StateVersion)
    → unmarshal_exact_field unmarshal_state_version no_version raw k ≡ ok v
    → IsServerVersion v
version_field raw k v e =
    field_fits IsServerVersion unmarshal_state_version version_fits no_version raw k v
      (record { query_set_fits = omega arith; identity_fits = omega arith; ts_fits = omega arith })
      e

abbrev pub HasU32 : Messages.StateModification → Type 0
HasU32 (Messages.query_updated m) = IsU32 m.query_id
HasU32 (Messages.query_failed m) = IsU32 m.query_id
HasU32 (Messages.query_removed id) = IsU32 id

module _ (S : Strconv) where
  updated_fits :
      (j : Json) (m : Messages.QueryUpdated) → unmarshal_query_updated S j ≡ ok m → IsU32 m.query_id
  unfolding unmarshal_query_updated
  updated_fits j m h =
      let (raw, e1, f1) = >>=-eq-ok (raw_object j) _ h in
      let (id, e2, f2) =
        >>=-eq-ok (unmarshal_exact_field unmarshal_uint32 0 raw (str "queryId")) _ f1 in
      let (value, e3, f3) =
        >>=-eq-ok (unmarshal_exact_field (unmarshal_value S) null raw (str "value")) _ f2 in
      let (lines, e4, f4) =
        >>=-eq-ok (unmarshal_exact_field unmarshal_strings none raw (str "logLines")) _ f3 in
      let (read, e5, f5) = >>=-eq-ok (optional_string_from_raw raw (str "journal")) _ f4 in
      let (journal, e6, f6) = >>=-eq-ok (present_journal read) _ f5 in
      subst (λ (n : Messages.QueryUpdated). IsU32 n.query_id) (ok_injective f6)
        (unmarshal_exact_field-IsU32 raw (str "queryId") id e2)

  failed_fits :
      (j : Json) (m : Messages.QueryFailed) → unmarshal_query_failed S j ≡ ok m → IsU32 m.query_id
  unfolding unmarshal_query_failed
  failed_fits j m h =
      let (raw, e1, f1) = >>=-eq-ok (raw_object j) _ h in
      let (id, e2, f2) =
        >>=-eq-ok (unmarshal_exact_field unmarshal_uint32 0 raw (str "queryId")) _ f1 in
      let (message, e3, f3) =
        >>=-eq-ok (unmarshal_exact_field unmarshal_string [] raw (str "errorMessage")) _ f2 in
      let (lines, e4, f4) =
        >>=-eq-ok (unmarshal_exact_field unmarshal_strings none raw (str "logLines")) _ f3 in
      let (read, e5, f5) = >>=-eq-ok (optional_string_from_raw raw (str "journal")) _ f4 in
      let (journal, e6, f6) = >>=-eq-ok (present_journal read) _ f5 in
      let (field, e7, f7) = >>=-eq-ok (optional_value_from_raw S raw (str "errorData")) _ f6 in
      subst (λ (n : Messages.QueryFailed). IsU32 n.query_id) (ok_injective f7)
        (unmarshal_exact_field-IsU32 raw (str "queryId") id e2)

  removed_fits : (j : Json) (id : ℕ) → unmarshal_query_removed j ≡ ok id → IsU32 id
  unfolding unmarshal_query_removed
  removed_fits j id h =
      let (raw, e1, f1) = >>=-eq-ok (raw_object j) _ h in
      unmarshal_exact_field-IsU32 raw (str "queryId") id f1

  pub change_fits :
      (j : Json) (m : Messages.StateModification) → decode_state_modification S j ≡ ok m → HasU32 m
  unfolding decode_state_modification decode_state_as
  change_fits j (Messages.query_updated m) h = updated_fits j m (ground arith)
  change_fits j (Messages.query_failed m) h = failed_fits j m (ground arith)
  change_fits j (Messages.query_removed id) h = removed_fits j id (ground arith)

  -- The request of a response.
  pub response_fits :
      (id : ℕ) (success : Bool) (lines : Option (List Str)) (field : OptionalValue) (j : Json)
      (m : Messages.ActionResponseMessage)
      → response_of S id success lines field j ≡ ok m
      → IsU32 id
      → IsU32 m.request_id
  unfolding response_of
  response_fits id true lines field j m e h =
      let (v, e1, e2) = >>=-eq-ok (unmarshal_value S j) _ e in
      subst (λ (n : Messages.ActionResponseMessage). IsU32 n.request_id) (ok_injective e2) h
  response_fits id false lines field j m e h =
      let (v, e1, e2) = >>=-eq-ok (unmarshal_string j) _ e in
      subst (λ (n : Messages.ActionResponseMessage). IsU32 n.request_id) (ok_injective e2) h
