-- ===== src/SyncProtocol/Bounds/Server.antt =====
-- What DecodeServerMessage of sync_protocol.go accepts.
use convex_go.Prelude.{◌≡◌, refl, none, arith, Bool, true, false, [], Str, str, if◌then◌else◌}
use convex_go.Prelude.Eq.{list_beq}
use convex_go.Core.Error.{Error, unknown_message_type, Result, ok, err, >>=-eq-ok, map_ok}
use convex_go.SyncProtocol.Json.{
  no_elements, Json, Strconv, raw_object, unmarshal_exact_field, unmarshal_string, unmarshal_bool,
  unmarshal_uint32, unmarshal_pointer,
}
use convex_go.SyncProtocol.Fields.{
  discriminator, optional_from_raw, optional_value_from_raw, optional_timestamp_from_raw,
  optional_float64_from_raw, optional_int64_from_raw, unmarshal_state_version, unmarshal_raw_list,
  no_version, decode_elements,
}
use convex_go.SyncProtocol.Messages.{
  QueryUpdated, QueryFailed, StateModification, query_updated, query_failed, query_removed,
}
use convex_go.SyncProtocol.ServerCodec.Results.{decode_state_modification}
use mathlib.Core.Path.{subst}
use convex_go.SyncProtocol.Timestamp.{unmarshal_timestamp}
use convex_go.SyncProtocol.Messages
use convex_go.SyncProtocol.Fields.{optional_identity_version_from_raw}
use convex_go.SyncProtocol.ServerCodec.Results.{unmarshal_strings, decode_state_modification}
use convex_go.SyncProtocol.ServerCodec.Transition.{unmarshal_transition}
use convex_go.SyncProtocol.ServerCodec.Responses.{
  raw_result, response_of, unmarshal_action_response, unmarshal_mutation_response,
}
use convex_go.SyncProtocol.ServerCodec.Notices.{
  unmarshal_fatal_error, unmarshal_auth_error, unmarshal_transition_chunk,
}
use convex_go.SyncProtocol.ServerCodec.{decode_server_as, decode_server_message}
use convex_go.SyncProtocol.RoundTrip.{IsU32, OnOption, OnSlice}
use convex_go.SyncProtocol.RoundTrip.Server.{IsChunk}
use convex_go.SyncProtocol.Bounds.{
  IsTimestamp, IsServerVersion, ok_injective, unmarshal_uint32-IsU32,
  unmarshal_timestamp-IsTimestamp, optional_fits, elements_fit,
}
use convex_go.SyncProtocol.Bounds.Changes.{
  unmarshal_exact_field-IsU32, version_field, HasU32, change_fits, response_fits,
}

-- The versions, timestamps and ids of a message are in the ranges of their Go types.
pub record IsServerTransition (m : Messages.TransitionMessage) : Type 0 where
  pub start_fits : IsServerVersion m.start_version
  pub end_fits : IsServerVersion m.end_version
  pub modifications_fit : OnSlice HasU32 m.modifications

pub record IsServerResponse (m : Messages.MutationResponseMessage) : Type 0 where
  pub request_id_fits : IsU32 m.response.request_id
  pub ts_fits : OnOption (OnOption IsTimestamp) m.ts

abbrev pub HasRange : Messages.ServerMessage → Type 0
HasRange (Messages.transition m) = IsServerTransition m
HasRange (Messages.transition_chunk m) = IsChunk m
HasRange (Messages.mutation_response m) = IsServerResponse m
HasRange (Messages.action_response m) = IsU32 m.request_id
HasRange (Messages.auth_error m) = OnOption (OnOption IsU32) m.base_version
HasRange (Messages.fatal_error message) = Unit
HasRange Messages.ping = Unit

module _ (S : Strconv) where
  unmarshal_transition-IsServerTransition :
      (j : Json) (m : Messages.TransitionMessage)
      → unmarshal_transition S j ≡ ok m
      → IsServerTransition m
  unfolding unmarshal_transition
  unmarshal_transition-IsServerTransition j m h =
      let (raw, e1, f1) = >>=-eq-ok (raw_object j) _ h in
      let (start, e2, f2) =
        >>=-eq-ok
          (unmarshal_exact_field unmarshal_state_version no_version raw (str "startVersion")) _
          f1 in
      let (stop, e3, f3) =
        >>=-eq-ok (unmarshal_exact_field unmarshal_state_version no_version raw (str "endVersion"))
          _ f2 in
      let (list, e4, f4) =
        >>=-eq-ok (unmarshal_exact_field unmarshal_raw_list no_elements raw (str "modifications")) _
          f3 in
      let (changes, e5, f5) =
        >>=-eq-ok (decode_elements (decode_state_modification S) 0 list) _ f4 in
      let (skew, e6, f6) =
        >>=-eq-ok (optional_float64_from_raw S raw (str "clientClockSkew")) _ f5 in
      let (ts, e7, f7) = >>=-eq-ok (optional_int64_from_raw raw (str "serverTs")) _ f6 in
      subst IsServerTransition (ok_injective f7) (record {
        start_fits = version_field raw (str "startVersion") start e2;
        end_fits = version_field raw (str "endVersion") stop e3;
        modifications_fit =
            elements_fit HasU32 (decode_state_modification S) (change_fits S) 0 list changes e5;
      })

  action_fits :
      (j : Json) (m : Messages.ActionResponseMessage)
      → unmarshal_action_response S j ≡ ok m
      → IsU32 m.request_id
  unfolding unmarshal_action_response
  action_fits j m h =
      let (raw, e1, f1) = >>=-eq-ok (raw_object j) _ h in
      let (id, e2, f2) =
        >>=-eq-ok (unmarshal_exact_field unmarshal_uint32 0 raw (str "requestId")) _ f1 in
      let (success, e3, f3) =
        >>=-eq-ok (unmarshal_exact_field unmarshal_bool false raw (str "success")) _ f2 in
      let (lines, e4, f4) =
        >>=-eq-ok (unmarshal_exact_field unmarshal_strings none raw (str "logLines")) _ f3 in
      let (field, e5, f5) = >>=-eq-ok (optional_value_from_raw S raw (str "errorData")) _ f4 in
      let (result, e6, f6) = >>=-eq-ok (raw_result raw) _ f5 in
      response_fits S id success lines field result m f6
        (unmarshal_exact_field-IsU32 raw (str "requestId") id e2)

  unmarshal_mutation_response-IsServerResponse :
      (j : Json) (m : Messages.MutationResponseMessage)
      → unmarshal_mutation_response S j ≡ ok m
      → IsServerResponse m
  unfolding unmarshal_mutation_response optional_timestamp_from_raw
  unmarshal_mutation_response-IsServerResponse j m h =
      let (raw, e1, f1) = >>=-eq-ok (raw_object j) _ h in
      let (id, e2, f2) =
        >>=-eq-ok (unmarshal_exact_field unmarshal_uint32 0 raw (str "requestId")) _ f1 in
      let (success, e3, f3) =
        >>=-eq-ok (unmarshal_exact_field unmarshal_bool false raw (str "success")) _ f2 in
      let (lines, e4, f4) =
        >>=-eq-ok (unmarshal_exact_field unmarshal_strings none raw (str "logLines")) _ f3 in
      let (ts, e5, f5) = >>=-eq-ok (optional_from_raw unmarshal_timestamp raw (str "ts")) _ f4 in
      let (field, e6, f6) = >>=-eq-ok (optional_value_from_raw S raw (str "errorData")) _ f5 in
      let (result, e7, f7) = >>=-eq-ok (raw_result raw) _ f6 in
      let (response, e8, f8) = >>=-eq-ok (response_of S id success lines field result) _ f7 in
      subst IsServerResponse (ok_injective f8) (record {
        request_id_fits =
            response_fits S id success lines field result response e8
              (unmarshal_exact_field-IsU32 raw (str "requestId") id e2);
        ts_fits =
            optional_fits IsTimestamp unmarshal_timestamp unmarshal_timestamp-IsTimestamp raw
              (str "ts") ts e5;
      })

unmarshal_transition_chunk-IsChunk :
    (j : Json) (m : Messages.TransitionChunkMessage)
    → unmarshal_transition_chunk j ≡ ok m
    → IsChunk m
unfolding unmarshal_transition_chunk
unmarshal_transition_chunk-IsChunk j m h =
    let (raw, e1, f1) = >>=-eq-ok (raw_object j) _ h in
    let (chunk, e2, f2) =
      >>=-eq-ok (unmarshal_exact_field unmarshal_string [] raw (str "chunk")) _ f1 in
    let (part, e3, f3) =
      >>=-eq-ok (unmarshal_exact_field unmarshal_uint32 0 raw (str "partNumber")) _ f2 in
    let (total, e4, f4) =
      >>=-eq-ok (unmarshal_exact_field unmarshal_uint32 0 raw (str "totalParts")) _ f3 in
    let (id, e5, f5) =
      >>=-eq-ok (unmarshal_exact_field unmarshal_string [] raw (str "transitionId")) _ f4 in
    subst IsChunk (ok_injective f5) (record {
      part_number_fits = unmarshal_exact_field-IsU32 raw (str "partNumber") part e3;
      total_parts_fits = unmarshal_exact_field-IsU32 raw (str "totalParts") total e4;
    })

auth_error_fits :
    (j : Json) (m : Messages.AuthErrorMessage)
    → unmarshal_auth_error j ≡ ok m
    → OnOption (OnOption IsU32) m.base_version
unfolding unmarshal_auth_error optional_identity_version_from_raw
auth_error_fits j m h =
    let (raw, e1, f1) = >>=-eq-ok (raw_object j) _ h in
    let (message, e2, f2) =
      >>=-eq-ok (unmarshal_exact_field unmarshal_string [] raw (str "error")) _ f1 in
    let (attempted, e3, f3) =
      >>=-eq-ok
        (unmarshal_exact_field (unmarshal_pointer unmarshal_bool) none raw
          (str "authUpdateAttempted"))
        _ f2 in
    let (version, e4, f4) =
      >>=-eq-ok (optional_from_raw unmarshal_uint32 raw (str "baseVersion")) _ f3 in
    subst (λ (n : Messages.AuthErrorMessage). OnOption (OnOption IsU32) n.base_version)
      (ok_injective f4)
      (optional_fits IsU32 unmarshal_uint32 unmarshal_uint32-IsU32 raw (str "baseVersion") version
        e4)

-- The range of a message, if there is one.
abbrev HasRangeIfOk : Result Messages.ServerMessage → Type 0
HasRangeIfOk r = (m : Messages.ServerMessage) → r ≡ ok m → HasRange m

if_HasRange :
    (b : Bool) (x y : Result Messages.ServerMessage)
    → HasRangeIfOk x
    → HasRangeIfOk y
    → HasRangeIfOk (if b then x else y)
if_HasRange true x y h k = h
if_HasRange false x y h k = k

map_HasRange :
    {A : Type 0} (f : A → Messages.ServerMessage) (r : Result A)
    → ((x : A) → r ≡ ok x → HasRange (f x))
    → HasRangeIfOk (map_ok f r)
map_HasRange f (err e) h m k = ground arith
map_HasRange f (ok x) h m k = subst HasRange (ok_injective k) (h x refl)

err_HasRange : (e : Error) → HasRangeIfOk (err e)
err_HasRange e m k = ground arith

module _ (S : Strconv) (j : Json) where
  decode_as_HasRange : (t : Str) → HasRangeIfOk (decode_server_as S t j)
  unfolding decode_server_as
  decode_as_HasRange t =
      if_HasRange (list_beq t (str "Transition")) _ _
        (map_HasRange Messages.transition _ (unmarshal_transition-IsServerTransition S j))
        (if_HasRange (list_beq t (str "TransitionChunk")) _ _
          (map_HasRange Messages.transition_chunk _ (unmarshal_transition_chunk-IsChunk j))
          (if_HasRange (list_beq t (str "MutationResponse")) _ _
            (map_HasRange Messages.mutation_response _
              (unmarshal_mutation_response-IsServerResponse S j))
            (if_HasRange (list_beq t (str "ActionResponse")) _ _
              (map_HasRange Messages.action_response _ (action_fits S j))
              (if_HasRange (list_beq t (str "AuthError")) _ _
                (map_HasRange Messages.auth_error _ (auth_error_fits j))
                (if_HasRange (list_beq t (str "FatalError")) _ _
                  (map_HasRange Messages.fatal_error (unmarshal_fatal_error j) (λ x e. tt))
                  (if_HasRange (list_beq t (str "Ping")) _ _
                    (λ m e. subst HasRange (ok_injective e) tt)
                    (err_HasRange (unknown_message_type t))))))))

  -- A server message that is decoded has ids, versions and part numbers below 2^32, and timestamps
  -- below 2^63 in its versions and in a mutation response.
  pub decode_server_message-HasRange :
      (m : Messages.ServerMessage) → decode_server_message S j ≡ ok m → HasRange m
  unfolding decode_server_message
  decode_server_message-HasRange m h =
      let (t, e1, e2) = >>=-eq-ok (discriminator j) _ h in decode_as_HasRange t m e2
