-- ===== src/SyncProtocol/ClientCodec/Requests.antt =====
-- MutationMessage, ActionMessage and EventMessage of internal/syncprotocol/sync_protocol.go.
use convex_go.Prelude.{none, some, [], Str, str}
use convex_go.Core.Error.{Result, ok, ◌>>=◌}
use convex_go.SyncProtocol.Json.{
  Json, Strconv, json_null, json_string, json_object, no_entries, entry, lookup, raw_object,
  unmarshal_exact_field, unmarshal_string, unmarshal_uint32, marshal_uint32,
}
use convex_go.SyncProtocol.Messages.{RequestMessage, EventMessage}
use convex_go.SyncProtocol.Fields.{with_field, nonempty_string, marshal_args, unmarshal_args}

-- EventMessage.MarshalJSON: a nil RawMessage is written as null.
unfoldable pub marshal_event : EventMessage → Json
marshal_event m = json_object (
    entry (str "event") (elim m.event [ none ↦ json_null | some j ↦ j ])
      (entry (str "eventType") (json_string m.event_type)
        (entry (str "type") (json_string (str "Event")) no_entries)))

-- EventMessage.UnmarshalJSON
unfoldable pub unmarshal_event : Json → Result EventMessage
unfolding raw_object unmarshal_exact_field unmarshal_string lookup
unmarshal_event j = do
  raw ← raw_object j
  event_type ← unmarshal_exact_field unmarshal_string [] raw (str "eventType")
  ok (record { event_type = event_type; event = lookup (str "event") raw })

module _ (S : Strconv) where
  -- The body that MutationMessage.MarshalJSON and ActionMessage.MarshalJSON share: they differ in
  -- their type.
  unfoldable pub marshal_request : Str → RequestMessage → Result Json
  unfolding marshal_args marshal_uint32 with_field
  marshal_request message_type m = do
    args ← marshal_args S m.args
    ok (
        json_object (
          entry (str "args") args (
            with_field (str "componentPath") (nonempty_string m.component_path) (
              entry (str "requestId") (marshal_uint32 m.request_id) (
                entry (str "type") (json_string message_type)
                  (entry (str "udfPath") (json_string m.udf_path) no_entries))))))

  -- The body that MutationMessage.UnmarshalJSON and ActionMessage.UnmarshalJSON share.
  unfoldable pub unmarshal_request : Json → Result RequestMessage
  unfolding raw_object unmarshal_exact_field unmarshal_string unmarshal_uint32 unmarshal_args
  unmarshal_request j = do
    raw ← raw_object j
    request_id ← unmarshal_exact_field unmarshal_uint32 0 raw (str "requestId")
    udf_path ← unmarshal_exact_field unmarshal_string [] raw (str "udfPath")
    args ← unmarshal_exact_field (unmarshal_args S) none raw (str "args")
    component_path ← unmarshal_exact_field unmarshal_string [] raw (str "componentPath")
    ok (record {
      request_id = request_id;
      udf_path = udf_path;
      args = args;
      component_path = component_path;
    })

  -- MutationMessage.MarshalJSON and MutationMessage.UnmarshalJSON.
  abbrev pub marshal_mutation : RequestMessage → Result Json
  marshal_mutation = marshal_request (str "Mutation")

  abbrev pub unmarshal_mutation : Json → Result RequestMessage
  unmarshal_mutation = unmarshal_request

  -- ActionMessage.MarshalJSON and ActionMessage.UnmarshalJSON.
  abbrev pub marshal_action : RequestMessage → Result Json
  marshal_action = marshal_request (str "Action")

  abbrev pub unmarshal_action : Json → Result RequestMessage
  unmarshal_action = unmarshal_request
