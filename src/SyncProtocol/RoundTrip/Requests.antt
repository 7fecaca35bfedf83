-- ===== src/SyncProtocol/RoundTrip/Requests.antt =====
-- MutationMessage, ActionMessage and EventMessage of sync_protocol.go, there and back.
use convex_go.Prelude.{str, if◌then◌else◌, [], ◌≡◌, some, none, arith, Str}
use convex_go.Core.Error.{ok, err, missing_message_type, >>=-eq-ok}
use convex_go.Prelude.Eq.{list_beq}
use convex_go.Core.Value.RoundTrip.{IsSized}
use convex_go.SyncProtocol.Json.{
  Json, json_null, Strconv, lookup, raw_object, unmarshal_exact_field, unmarshal_string,
}
use convex_go.SyncProtocol.Fields.{with_field, discriminator, marshal_args}
use convex_go.SyncProtocol.Messages.{RequestMessage, EventMessage}
use convex_go.SyncProtocol.ClientCodec.Requests.{
  marshal_request, unmarshal_request, marshal_event, unmarshal_event,
}
use convex_go.SyncProtocol.RoundTrip.{IsU32, OnSlice, unmarshal-marshal_uint32, text_cases}
use convex_go.SyncProtocol.RoundTrip.Values.{unmarshal-marshal_args}

-- The numbers of a request fit their Go types.
pub record IsRequest (m : RequestMessage) : Type 0 where
  pub request_id_fits : IsU32 m.request_id
  pub args_fit : OnSlice IsSized m.args

pub unmarshal-marshal_request :
    (S : Strconv) (message_type : Str) (m : RequestMessage) (j : Json)
    → IsRequest m
    → marshal_request S message_type m ≡ ok j
    → (discriminator j
        ≡ (if list_beq message_type [] then err missing_message_type else ok message_type))
      × (unmarshal_request S j ≡ ok m)
unfolding marshal_request unmarshal_request raw_object unmarshal_exact_field lookup unmarshal_string
    with_field discriminator
unmarshal-marshal_request S message_type m j h e =
    let (args, e1, e2) = >>=-eq-ok (marshal_args S m.args) _ e in
    ground (
      arith,
      unmarshal-marshal_args S m.args args h.args_fit e1,
      text_cases m.component_path,
      unmarshal-marshal_uint32 m.request_id h.request_id_fits,
    )

-- An event that was sent with a nil payload comes back with a null one.
pub unmarshal-marshal_event :
    (m : EventMessage)
    → (discriminator (marshal_event m) ≡ ok (str "Event"))
      × (unmarshal_event (marshal_event m)
          ≡ ok (record m { event = some (elim m.event [ none ↦ json_null | some j ↦ j ]) }))
unfolding marshal_event unmarshal_event raw_object unmarshal_exact_field lookup unmarshal_string
    discriminator
unmarshal-marshal_event m = ground arith
