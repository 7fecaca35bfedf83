-- ===== src/SyncClient/Manager.antt =====
-- internal/syncclient/websocket_manager.go and websocket_manager_runtime.go: the state of Manager and
-- of a run, and the operations of the run loop. Errors of the transport are of the dialer or the
-- connection. What a lock guards is one step; goroutines are the order of the steps.
pub mod Flush
use convex_go.Prelude.{ℕ, Bool, true, false, not, Option, none, some, List, Str, str, if◌then◌else◌}
use convex_go.Core.Error.{Error, Result, ok, err, ◌>>=◌, already_running}
use convex_go.Core.Wire.{Wire}
use convex_go.Core.GoValue.{Any}
use convex_go.Protocol.{next_u32, ClientMessage}
use convex_go.BaseClient.State.{Client, QueryResults, Outcome, query_results_snapshot}
use convex_go.BaseClient.Optimistic.{SyncMutationOption}
use convex_go.BaseClient.Queries.{pop_next_message, latest_results}
use convex_go.BaseClient.Requests.{mutation, restart_for_reconnect}
use convex_go.BaseClient.Receive.{receive_message}
use convex_go.BaseClient.Snapshot.{results_iter, QueryResultEntry}
use convex_go.SyncProtocol.Json.{Json, Strconv}
use convex_go.SyncProtocol.Messages
use convex_go.SyncProtocol.ClientCodec.{encode_client_message}
use convex_go.SyncProtocol.ServerCodec.{decode_server_message}
use convex_go.SyncProtocol.Projection.{server_view, client_sent}
use convex_go.SyncClient.Connection.{
  Watched, no_watchers, mark_connecting, mark_connected, mark_reconnecting, mark_disconnected,
}
use convex_go.SyncClient.Channel.{Channel, send_latest}

-- websocketRunState
pub record RunState : Type 0 where
  pub session_id : Str
  pub connection_count : ℕ
  pub last_close_reason : Str
  pub needs_restart : Bool

-- newWebSocketRunState, with the session id that it drew.
unfoldable pub new_run_state : Str → RunState
new_run_state id = record {
  session_id = id;
  connection_count = 0;
  last_close_reason = str "InitialConnect";
  needs_restart = false;
}

-- The fields of Manager that change; `done` says that the channel is closed.
pub record Manager : Type 0 where
  pub client : Client
  pub watched : Watched
  pub results : Channel QueryResults
  pub run_started : Bool
  pub run_err : Option Error
  pub done : Bool

-- startRun; `now` is the time of the change of phase.
unfoldable pub start_run : ℕ → Manager → Manager × Result (Unit {0})
unfolding mark_connecting
start_run now m =
    let started = record m { run_started = true; watched = (mark_connecting now m.watched).0 } in
    if m.run_started then (m, err already_running) else (started, ok tt)

-- finishRun
unfoldable pub finish_run : ℕ → Option Error → Manager → Manager
unfolding mark_disconnected
finish_run now e m = record m {
  run_err = e;
  watched = (mark_disconnected now m.watched).0;
  done = true;
}

-- A connection that was refused: handleDialFailure after its pause.
unfoldable pub handle_dial_failure : Str → RunState → RunState
unfolding next_u32
handle_dial_failure reason run = record run {
  connection_count = next_u32 run.connection_count;
  last_close_reason = reason;
}

-- A connection that was lost: the end of runConnectedConnection.
unfoldable pub connection_lost : Str → Bool → RunState → RunState
unfolding next_u32
connection_lost reason replay run = record run {
  connection_count = next_u32 run.connection_count;
  last_close_reason = reason;
  needs_restart = replay;
}

-- The message that opens a connection.
unfoldable pub connect_message : RunState → Option ℕ → ℕ → Messages.ClientMessage
connect_message run max_observed client_ts = Messages.connect (record {
  session_id = run.session_id;
  connection_count = run.connection_count;
  last_close_reason = run.last_close_reason;
  max_observed_timestamp = max_observed;
  client_ts = some client_ts;
  last_close_reason_present = false;
  last_close_reason_null = false;
})

-- One attempt of prepareReconnect.
unfoldable pub try_restart : Manager → Manager × Result (Unit {0})
unfolding restart_for_reconnect
try_restart m = let (c, r) = restart_for_reconnect m.client in (record m { client = c }, r)

module _ (S : Strconv) where
  -- writeClientMessage; `write` is Conn.Write.
  unfoldable pub write_client_message :
      (Json → Result (Unit {0})) → Messages.ClientMessage → Result (Unit {0})
  unfolding encode_client_message
  write_client_message write msg = encode_client_message S (some msg) >>= write

  -- What receiveServerMessage does with a decoded message: a ping never reaches the client.
  unfoldable pub receive_decoded :
      (Wire → Str) → Messages.ServerMessage → Manager → Manager × Result (Option QueryResults)
  unfolding receive_message server_view
  receive_decoded marshal Messages.ping m = (m, ok none)
  receive_decoded marshal msg m =
      let (c, r) = receive_message marshal (server_view msg) m.client in
      (record m { client = c }, r)

  -- receiveServerMessage: the state, and the snapshot that is then sent to the results.
  unfoldable pub receive_server_message :
      (Wire → Str) → Json → Manager → Manager × Result (Option QueryResults)
  unfolding decode_server_message receive_decoded
  receive_server_message marshal j m = elim (decode_server_message S j) [
    | err e ↦ (m, err e)
    | ok msg ↦ receive_decoded marshal msg m
  ]

-- publishLatest
unfoldable pub publish_latest : QueryResults → Manager → Manager
unfolding send_latest
publish_latest results m = record m { results = send_latest results m.results }

-- Manager.Mutation; `deep_equal` is reflect.DeepEqual on the entries of two snapshots.
unfoldable pub manager_mutation :
    (List QueryResultEntry → List QueryResultEntry → Bool)
    → (Wire → Str)
    → Str
    → Any
    → List (Option SyncMutationOption)
    → Manager
    → Manager × Result ℕ
unfolding mutation latest_results results_iter publish_latest
manager_mutation deep_equal marshal path args opts m =
    let before = latest_results m.client in
    let (c, r) = mutation marshal path args opts m.client in
    let after = latest_results c in
    let kept = record m { client = c } in
    let published = publish_latest after kept in
    elim r [
      | err e ↦ (kept, err e)
      | ok (id, visible) ↦
          if deep_equal (results_iter before) (results_iter after)
          then (kept, ok id)
          else (published, ok id)
    ]
