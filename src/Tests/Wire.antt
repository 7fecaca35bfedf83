-- ===== src/Tests/Wire.antt =====
-- The theorems about messages on the wire, at concrete messages.
use convex_go.Prelude.{
  ℕ, ◌<◌, ◌^◌, ◌≡◌, Option, none, some, [], ◌∷◌, Str, str, arith, true, false, refl,
}
use convex_go.Core.Error.{Result, ok, err}
use convex_go.Core.Base64.{encode_bits, encode_to_string, put_uint64, encode_digit, decode_bits}
use convex_go.Core.Base64.RoundTrip.{decode-encode_bits}
use convex_go.Core.Wire.{Wire}
use convex_go.Core.Value.{int64, string, convex_json}
use convex_go.Core.Value.RoundTrip.{IsSized}
use convex_go.BaseClient.State.{new}
use convex_go.BaseClient.Receive.{receive_message}
use convex_go.SyncProtocol.Json.{
  Number, decimal, integer, Json, Strconv, json_string, json_number, json_array, json_object,
  JsonFields, json_bool, json_null, no_elements, element, no_entries, entry, is_finite, lookup,
  raw_object, unmarshal_string, unmarshal_uint32, uint32_of, unmarshal_exact_field, marshal_uint32,
  raw_is_null, unmarshal_bool, unmarshal_pointer,
}
use convex_go.SyncProtocol.Timestamp.{marshal_timestamp}
use convex_go.SyncProtocol.Values.{marshal_value, marshal_wire}
use convex_go.SyncProtocol.Fields.{
  discriminator, marshal_slice, marshal_elements, marshal_state_version, with_field,
  optional_identity_version_from_raw, optional_from_raw, marshal_optional, marshal_string_slice,
  optional_string_wire,
}
use convex_go.SyncProtocol.Messages
use convex_go.SyncProtocol.Identity.{
  unmarshal_identity, marshal_identity, identity_fields, identity_of_claims, claim_string,
}
use convex_go.SyncProtocol.ServerCodec.Results.{
  marshal_state_modification, marshal_query_updated, marshal_query_removed,
}
use convex_go.SyncProtocol.ServerCodec.Transition.{marshal_transition}
use convex_go.SyncProtocol.ServerCodec.Notices.{unmarshal_auth_error}
use convex_go.SyncProtocol.ServerCodec.{
  encode_server_message, decode_server_message, decode_server_as,
}
use convex_go.SyncProtocol.RoundTrip.Server.{IsReply}
use convex_go.SyncProtocol.RoundTrip.Identity.{unmarshal_identity-marshal_identity}
use convex_go.SyncProtocol.Bounds.Server.{HasRange, decode_server_message-HasRange}
use convex_go.SyncProtocol.Projection.{server_view}
use convex_go.SyncProtocol.Projection.Transport.{receive_message-decode_server_message}

-- Floats whose text is the base64 of their bits.
abbrev bits_of : Result ℕ → Option ℕ
bits_of (err e) = none
bits_of (ok f) = some f

abbrev pub parse_bits : Number → Option ℕ
parse_bits (integer negative n) = some 0
parse_bits (decimal s) = bits_of (decode_bits s)

pub parse-format_bits :
    (f : ℕ) → f < 2 ^ 64 → is_finite f ≡ true → parse_bits (decimal (encode_bits f)) ≡ some f
parse-format_bits f h k = rw (decode-encode_bits f h) refl

abbrev pub as_bits : Strconv
as_bits = record {
  parse_float = parse_bits;
  format_float = λ f. decimal (encode_bits f);
  parse-format = parse-format_bits;
}

-- A mutation with one integer argument.
abbrev greeting : Messages.ClientMessage
greeting = Messages.mutation_message (record {
  request_id = 3;
  udf_path = str "messages:send";
  args = some (int64 7 ∷ []);
  component_path = [];
})

abbrev greeting_json : Json
greeting_json = json_object (
    entry (str "args")
      (json_array (
        element (json_object (entry (str "$integer") (json_string (str "BwAAAAAAAAA=")) no_entries))
          no_elements))
      (entry (str "requestId") (json_number (integer false 3)) (
        entry (str "type") (json_string (str "Mutation"))
          (entry (str "udfPath") (json_string (str "messages:send")) no_entries))))

-- A transition that brings a text and takes a query away.
abbrev first_version : Messages.TransitionMessage
first_version = record {
  start_version = record { query_set = 0; identity = 0; ts = 0 };
  end_version = record { query_set = 1; identity = 0; ts = 5 };
  modifications = some (
      Messages.query_updated (record {
        query_id = 0;
        value = string (str "hi");
        log_lines = some [];
        journal = some none;
      })
      ∷ Messages.query_removed 4
      ∷ []);
  client_clock_skew = none;
  server_ts = none;
}

abbrev version_json : ℕ → Str → Json
version_json query_set ts = json_object (
    entry (str "identity") (json_number (integer false 0)) (
      entry (str "querySet") (json_number (integer false query_set))
        (entry (str "ts") (json_string ts) no_entries)))

abbrev transition_json : Json
transition_json = json_object (
    entry (str "endVersion") (version_json 1 (str "BQAAAAAAAAA=")) (
      entry (str "modifications")
        (json_array (
          element
            (json_object (
              entry (str "journal") json_null (
                entry (str "logLines") (json_array no_elements) (
                  entry (str "queryId") (json_number (integer false 0)) (
                    entry (str "type") (json_string (str "QueryUpdated"))
                      (entry (str "value") (json_string (str "hi")) no_entries))))))
            (element
              (json_object (
                entry (str "queryId") (json_number (integer false 4))
                  (entry (str "type") (json_string (str "QueryRemoved")) no_entries)))
              no_elements)))
        (entry (str "startVersion") (version_json 0 (str "AAAAAAAAAAA="))
          (entry (str "type") (json_string (str "Transition")) no_entries))))

abbrev arrival : Messages.ServerMessage
arrival = Messages.transition first_version

arrival-json : encode_server_message as_bits (some arrival) ≡ ok transition_json
unfolding encode_server_message marshal_transition marshal_state_version marshal_timestamp
    marshal_slice marshal_elements marshal_state_modification marshal_query_updated
    marshal_query_removed marshal_value marshal_wire convex_json encode_to_string put_uint64
    encode_digit marshal_uint32 with_field marshal_optional marshal_string_slice
    optional_string_wire
arrival-json = refl

arrival-IsReply : IsReply arrival
arrival-IsReply = record {
  start_fits = record { query_set_fits = omega arith; identity_fits = omega arith };
  end_fits = record { query_set_fits = omega arith; identity_fits = omega arith };
  modifications_fit = (
    record { query_id_fits = omega arith; value_fits = unfold IsSized in tt; journal_there = refl },
    (omega arith, tt),
  );
  skew_fits = tt;
  server_ts_fits = tt;
}

-- A document's text plays no part here.
abbrev no_text : Wire → Str
no_text w = []

receive_message-decode_server_message_example :
    (d : Messages.ServerMessage) × (decode_server_message as_bits transition_json ≡ ok d)
    × (receive_message no_text (server_view d) new
        ≡ receive_message no_text (server_view arrival) new)
receive_message-decode_server_message_example =
    receive_message-decode_server_message as_bits arrival transition_json arrival-IsReply
      arrival-json no_text new

abbrev refusal : Messages.ServerMessage
refusal = Messages.auth_error (record {
  error = str "expired";
  base_version = some (some 4);
  auth_update_attempted = some true;
})

abbrev refusal_json : Json
refusal_json = json_object (
    entry (str "authUpdateAttempted") (json_bool true) (
      entry (str "baseVersion") (json_number (integer false 4)) (
        entry (str "error") (json_string (str "expired"))
          (entry (str "type") (json_string (str "AuthError")) no_entries))))

refusal-decoded : decode_server_message as_bits refusal_json ≡ ok refusal
unfolding decode_server_message decode_server_as discriminator unmarshal_auth_error raw_object
    unmarshal_exact_field lookup unmarshal_string unmarshal_pointer unmarshal_bool
    optional_identity_version_from_raw optional_from_raw raw_is_null unmarshal_uint32 uint32_of
refusal-decoded = refl

decode_server_message-HasRange_example : HasRange refusal
decode_server_message-HasRange_example =
    decode_server_message-HasRange as_bits refusal_json refusal refusal-decoded

abbrev visitor_claims : JsonFields
visitor_claims = entry (str "issuer") (json_string (str "https://id")) (
    entry (str "subject") (json_string (str "u1"))
      (entry (str "role") (json_string (str "admin")) no_entries))

-- An identity whose identifier is made of its issuer and its subject.
abbrev visitor : Messages.IdentityAttributes
visitor = record {
  token_identifier = str "https://id|u1";
  issuer = str "https://id";
  subject = str "u1";
  claims = visitor_claims;
}

visitor-decoded : unmarshal_identity (json_object visitor_claims) ≡ ok visitor
unfolding unmarshal_identity raw_object claim_string identity_of_claims lookup
visitor-decoded = refl

unmarshal_identity-marshal_identity_example :
    unmarshal_identity (marshal_identity visitor)
    ≡ ok (record visitor { claims = identity_fields visitor })
unmarshal_identity-marshal_identity_example =
    unmarshal_identity-marshal_identity (json_object visitor_claims) visitor visitor-decoded
