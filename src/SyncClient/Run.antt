-- ===== src/SyncClient/Run.antt =====
-- Manager.Run of internal/syncclient/websocket_manager.go: the loop as steps between which calls of
-- the application, the write loop and the read loop come in any order. A pause takes no step, and
-- cancelling the context may end the run at any of them.
pub mod Told
pub mod Recovers
use convex_go.Prelude.{ℕ, ◌≡◌, Bool, true, false, Option, none, some, List, [], ◌∷◌, ◌++◌, Str}
use convex_go.Core.Error.{Error, Result, ok, err}
use convex_go.Core.Wire.{Wire}
use convex_go.Protocol.{ClientMessage}
use convex_go.BaseClient.State.{QueryResults, new}
use convex_go.BaseClient.Queries.{pop_next_message, max_observed_timestamp_of}
use convex_go.BaseClient.Session.{
  Call, subscribes, unsubscribes, mutates, acts, sets_auth, sets_admin_auth, clears_auth,
  sets_auth_callback, receives, pops, restarts, call_client, HasRoom,
}
use convex_go.SyncProtocol.Json.{Json, Strconv}
use convex_go.SyncProtocol.Projection.{client_sent}
use convex_go.SyncClient.Connection.{Watched, no_watchers, mark_connected, mark_reconnecting}
use convex_go.SyncClient.Channel.{Channel}
use convex_go.SyncClient.Manager.{
  RunState, new_run_state, Manager, start_run, finish_run, handle_dial_failure, connection_lost,
  connect_message, try_restart, write_client_message, receive_server_message,
}

-- Where the loop is: not begun, at its head, about to dial, on a connection, or returned.
pub data Stage : Type 0 where
  idle : Stage
  preparing dialing connected : RunState → Stage
  returned : Stage

abbrev pub is_running : Stage → Bool
is_running idle = false
is_running returned = false
is_running _ = true

-- The manager, its loop, and the messages that were written on the present connection.
pub record World : Type 0 where
  pub manager : Manager
  pub stage : Stage
  pub sent : List ClientMessage

abbrev pub world : Manager → Stage → List ClientMessage → World
world m stage sent = record { manager = m; stage = stage; sent = sent }

-- New, with its default channel of results.
abbrev pub new_manager : Manager
new_manager = record {
  client = new;
  watched = no_watchers;
  results = record { waiting = []; capacity = 16 };
  run_started = false;
  run_err = none;
  done = false;
}

-- The calls of an application: the rest belong to the loop.
abbrev pub IsOfApplication : Call → Type 0
IsOfApplication (receives m) = ⊥
IsOfApplication pops = ⊥
IsOfApplication restarts = ⊥
IsOfApplication _ = Unit

abbrev pub with_client_call : (Wire → Str) → Call → Manager → Manager
with_client_call marshal x m = record m { client = call_client marshal x m.client }

abbrev pub popped : Manager → Manager
popped m = record m { client = (pop_next_message m.client).0 }

abbrev pub marked_connected : ℕ → Manager → Manager
marked_connected now m = record m { watched = (mark_connected now m.watched).0 }

abbrev pub marked_reconnecting : ℕ → Manager → Manager
marked_reconnecting now m = record m { watched = (mark_reconnecting now m.watched).0 }

module _ (S : Strconv) (marshal : Wire → Str) (error_text : Error → Str) where
  -- The message that opens the connection.
  abbrev pub open_connection :
      (Json → Result (Unit {0})) → RunState → ℕ → Manager → Result (Unit {0})
  open_connection write run client_ts m =
      write_client_message S write
        (connect_message run (max_observed_timestamp_of m.client) client_ts)

  pub data Step : World → World → Type 0 where
    -- Run begins: startRun and the state of the run.
    starts :
        {m : Manager} (now : ℕ) (session_id : Str)
        → (start_run now m).1 ≡ ok tt
        → Step
            (world m idle [])
            (world (start_run now m).0 (preparing (new_run_state session_id)) [])
    -- prepareNextConnection after a connection that needs no restart.
    prepares :
        {m : Manager} {run : RunState} {sent : List ClientMessage}
        → run.needs_restart ≡ false
        → Step (world m (preparing run) sent) (world m (dialing run) [])
    -- prepareReconnect: an attempt that goes through, and one after which it tries again.
    restarts_client :
        {m : Manager} {run : RunState} {sent : List ClientMessage}
        → run.needs_restart ≡ true
        → HasRoom m.client
        → (try_restart m).1 ≡ ok tt
        → Step (world m (preparing run) sent) (world (try_restart m).0 (dialing run) [])
    restart_fails :
        {m : Manager} {run : RunState} {sent : List ClientMessage} (e : Error)
        → run.needs_restart ≡ true
        → HasRoom m.client
        → (try_restart m).1 ≡ err e
        → Step (world m (preparing run) sent) (world (try_restart m).0 (preparing run) sent)
    -- The dialer fails.
    dial_fails :
        {m : Manager} {run : RunState} {sent : List ClientMessage} (now : ℕ) (e : Error)
        → Step (world m (dialing run) sent) (
            world
              (marked_reconnecting now m)
              (preparing (handle_dial_failure (error_text e) run))
              sent)
    -- The dialer answers, and the first message is written or not.
    connects :
        {m : Manager} {run : RunState} {sent : List ClientMessage} (now client_ts : ℕ)
        (write : Json → Result (Unit {0}))
        → open_connection write run client_ts m ≡ ok tt
        → Step (world m (dialing run) sent) (world (marked_connected now m) (connected run) sent)
    connect_fails :
        {m : Manager} {run : RunState} {sent : List ClientMessage} (now client_ts : ℕ)
        (write : Json → Result (Unit {0})) (e : Error)
        → open_connection write run client_ts m ≡ err e
        → Step (world m (dialing run) sent) (
            world
              (marked_reconnecting now m)
              (preparing (connection_lost (error_text e) false run))
              sent)
    -- One round of flushQueued, whose message is written or not.
    flushes :
        {m : Manager} {run : RunState} {sent : List ClientMessage} (message : ClientMessage)
        (write : Json → Result (Unit {0}))
        → HasRoom m.client
        → (pop_next_message m.client).1 ≡ some message
        → write_client_message S write (client_sent message) ≡ ok tt
        → Step
            (world m (connected run) sent)
            (world (popped m) (connected run) (sent ++ message ∷ []))
    flush_fails :
        {m : Manager} {run : RunState} {sent : List ClientMessage} (now : ℕ)
        (message : ClientMessage) (write : Json → Result (Unit {0})) (e : Error)
        → HasRoom m.client
        → (pop_next_message m.client).1 ≡ some message
        → write_client_message S write (client_sent message) ≡ err e
        → Step (world m (connected run) sent) (
            world
              (marked_reconnecting now (popped m))
              (preparing (connection_lost (error_text e) true run))
              sent)
    -- A message arrives and is taken in, or ends the run.
    receives_message :
        {m : Manager} {run : RunState} {sent : List ClientMessage} (j : Json)
        (results : Option QueryResults)
        → HasRoom m.client
        → (receive_server_message S marshal j m).1 ≡ ok results
        → Step
            (world m (connected run) sent)
            (world (receive_server_message S marshal j m).0 (connected run) sent)
    receive_fails :
        {m : Manager} {run : RunState} {sent : List ClientMessage} (now : ℕ) (j : Json) (e : Error)
        → HasRoom m.client
        → (receive_server_message S marshal j m).1 ≡ err e
        → Step
            (world m (connected run) sent)
            (world (finish_run now (some e) (receive_server_message S marshal j m).0) returned sent)
    -- The connection cannot be read, or the server was silent for too long.
    loses :
        {m : Manager} {run : RunState} {sent : List ClientMessage} (now : ℕ) (e : Error)
        → Step (world m (connected run) sent) (
            world
              (marked_reconnecting now m)
              (preparing (connection_lost (error_text e) true run))
              sent)
    -- The context is cancelled.
    cancels :
        {m : Manager} {stage : Stage} {sent : List ClientMessage} (now : ℕ) (e : Error)
        → is_running stage ≡ true
        → Step (world m stage sent) (world (finish_run now (some e) m) returned sent)
    -- A call of the application, at any time.
    calls :
        {m : Manager} {stage : Stage} {sent : List ClientMessage} (x : Call)
        → IsOfApplication x
        → HasRoom m.client
        → Step (world m stage sent) (world (with_client_call marshal x m) stage sent)

  -- What a new manager can come to.
  pub data Runs : World → Type 0 where
    begins : Runs (world new_manager idle [])
    goes : {w v : World} → Step w v → Runs w → Runs v
