-- ===== src/Lib.antt =====
-- The sync client of convex-go: the state machine of baseclient, the parts of internal/core that it
-- rests on, the messages of internal/syncprotocol, and the manager of internal/syncclient.
--
-- The program. An application subscribes to queries and starts mutations and actions through
-- baseclient.Client, which never does any input or output: each call changes its tables and queues
-- messages, a connection manager (internal/syncclient) takes the messages from the queue and sends
-- them, hands the server's messages to ReceiveMessage, and calls RestartForReconnect when it has
-- opened a new connection. Queries are identified by a token, the stable JSON text of their path and
-- arguments, which baseclient/canonical.go makes with internal/core/path.go and value.go.
--
-- The files.
--   Prelude and its child modules: Boolean tests, lists, equality as an instance, Go maps (GoMap, an
--     association list without repeated keys; GoMap/Iterate, `for ... range` loops) and sort.Slice.
--   Core/Error: the errors, and results that carry them; an error keeps what the code can tell
--     apart, not its text. Core/Text: the functions of strings and path that the code calls.
--   Core/Base64: encoding/base64 and the little-endian words of encodeInt64 and encodeFloat64.
--   Core/Wire: documents as encoding/json has them, and stableJSONValue.
--   Core/Value: internal/core/value.go, Value and its wire form: ConvexJSON is convex_json, and
--     valueFromWire is value_from_wire. An int64 and a float64 are the 64 bits of their word.
--   Core/GoValue: EncodeValue of that file on the basic kinds, and the argument encoding and
--     canonicalQuery of baseclient/canonical.go. Core/GoValue/Idiomatic: GoValue and the accessors.
--   Core/Identifier, Core/FunctionPath: internal/core/path.go and canonicalQueryPath.
--   Core/FunctionResult: internal/core/function_result.go.
--   Protocol: the messages of internal/syncprotocol/sync_protocol.go as far as the base client reads
--     and makes them. Versions and ids have their widths, and next_u32 and next_u64 wrap around as
--     the code's counters do.
--   SyncProtocol: the messages with all fields (Messages) and their JSON (Json: a raw message is the
--     document that its text stands for). MarshalJSON of a type is a function marshal_*, and
--     UnmarshalJSON one named unmarshal_*: Timestamp, Values, Fields, Identity (of
--     identity_attributes.go), ClientCodec and ServerCodec, whose parents hold EncodeClientMessage,
--     DecodeClientMessage and those of the server. RoundTrip and Bounds: laws of the codecs.
--     Projection: the base client's view of a message.
--   BaseClient/State: the fields of baseclient.Client. BaseClient/Queries, Auth, Requests, Receive,
--     Results and Optimistic: its methods, each a function of the client that returns the client
--     after it, by the same name in snake case, with the code's error branches.
--   BaseClient/Snapshot: QueryResults of baseclient/protocol_exports.go.
--   BaseClient/QuerySet: what a server does with the messages (accept), and when it mirrors the
--     client's tables (Mirrors); its child modules treat the tables. BaseClient/Pending: the table of
--     pending requests. BaseClient/Session: a client with the messages sent on its connection, and
--     every call as a step (Reached); its child modules treat the calls.
--   SyncClient/Connection: internal/syncclient/connection_state.go. SyncClient/Channel: sendLatest.
--     SyncClient/SessionId: formatSyncSessionID.
--     SyncClient/Manager: the operations of websocket_manager.go and websocket_manager_runtime.go.
--     SyncClient/Run: Manager.Run and runConnection as steps (Step), with the calls of the
--     application between them; what dials, reads and writes answer is an input of a step.
--   RealtimeClient: subscription_client.go and subscription_handles.go, the delivery of snapshots and
--     the end of a subscription; its channels are those of SyncClient/Channel.
--   Tests: runs of the functions, and the theorems at concrete inputs.
--
-- Bounds. Every function is total without fuel, but for flush_queued: its fuel is the number of
-- rounds of the loop, and one more round than there are messages is enough. Counters wrap around at their width; the sessions of
-- Reached are those in which no counter is about to wrap (HasRoom), which a client meets for its
-- first 2 ^ 32 - 2 queries and requests. The runs of the manager keep to the same sessions.
--
-- Parameters. `marshal` is json.Marshal on a document whose objects have their keys in order; no
-- theorem assumes anything of it. An auth callback is a function from forceRefresh to a token or an
-- error. An optimistic update is the tree of the store operations that its callback makes. Strconv is
-- how floats are read and written in JSON, with the law that the text of a finite float reads back.
-- `error_text` is the text of an error, and `deep_equal` is reflect.DeepEqual on snapshots.
--
-- Not modelled: the texts of error messages, and the text of a JSON document, which encoding/json
-- reads and writes (its objects have distinct keys here); Go values that are structs, pointers or
-- json.Number. Of internal/syncclient: the channels between the goroutines, pauses and timers, URLs
-- and options. A write loop that outlives its connection is left out: Step lets no message be taken
-- from the queue but on the present connection. A snapshot that the loop has received is not followed
-- into the channel of results. Of the root package: the HTTP client, the facade and the options, and
-- of the realtime client what waits for a result or hands a call on to the manager. The code
-- generator, the commands and the examples.
pub mod Prelude
pub mod Core
pub mod Tests
pub mod Protocol
pub mod SyncProtocol
pub mod BaseClient
pub mod SyncClient
pub mod RealtimeClient
