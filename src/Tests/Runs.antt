-- ===== src/Tests/Runs.antt =====
-- The theorems about the manager of the connection, at concrete runs.
use convex_go.Prelude.{ℕ, ◌≡◌, true, none, some, List, [], ◌∷◌, Str, str, arith, length, ◌≤◌}
use convex_go.Core.Error.{Error, Result, ok, transport_failed}
use convex_go.Protocol.{ClientMessage, authenticate, token_user}
use convex_go.Core.GoValue.{nil}
use convex_go.Prelude.Eq.{str_eq, nat_eq}
use convex_go.BaseClient.Session.{subscribes, sets_auth}
use convex_go.BaseClient.Session.Mirror.{Told}
use convex_go.SyncProtocol.Json.{Json}
use convex_go.SyncClient.Connection.{no_watchers}
use convex_go.SyncClient.Connection.Counts.{
  Mark, marks_connecting, marks_connected, marks_reconnecting, Tracks, after_marks,
  after_marks-Tracks,
}
use convex_go.SyncClient.Channel.{Channel, send_latest, last, send_latest-last}
use convex_go.SyncClient.Manager.{RunState, Manager, new_run_state, start_run, connection_lost}
use convex_go.SyncClient.Manager.Flush.{IsFlushed, flush_queued, flush_queued-IsFlushed}
use convex_go.SyncClient.Run.{
  popped, new_manager, with_client_call, marked_connected, marked_reconnecting,
}
use convex_go.SyncClient.SessionId.{Bytes16}
use convex_go.Tests.Sessions.{one_token}
use convex_go.Tests.Wire.{as_bits}

-- A channel with no room.
abbrev full : Channel ℕ
full = record { waiting = 1 ∷ 2 ∷ []; capacity = 2 }

send_latest-last_example :
    (last (send_latest 3 full).waiting ≡ some 3)
    × (length (send_latest 3 full).waiting ≤ 2)
    × ((send_latest 3 full).waiting ≡ 2 ∷ 3 ∷ [])
send_latest-last_example = send_latest-last 3 full (omega arith) (omega arith)

-- A first connection, a loss, and a second one.
abbrev marks : List (Mark × ℕ)
marks =
    (marks_connecting, 1)
    ∷ (marks_connected, 2)
    ∷ (marks_reconnecting, 3)
    ∷ (marks_connected, 4)
    ∷ []

after_marks-Tracks_example :
    Tracks marks no_watchers.connection_state (after_marks marks no_watchers).connection_state
after_marks-Tracks_example = after_marks-Tracks marks no_watchers (omega arith) (omega arith)

-- The text of an error of the transport.
abbrev text_of : Error → Str
text_of (transport_failed s) = s
text_of _ = str "error"

-- A connection that takes every message.
abbrev taking : Json → Result (Unit {0})
taking j = ok tt

abbrev first_run : RunState
first_run = new_run_state (str "session")

abbrev started : Manager
started = (start_run 1 new_manager).0

-- On a connection, with a token queued, sent, and then a query subscribed.
abbrev online : Manager
online = marked_connected 2 started

abbrev signed : Manager
signed = with_client_call one_token (sets_auth (str "jwt")) online

abbrev hello : ClientMessage
hello =
    authenticate
      (record { base_version = 0; token_type = token_user; value = str "jwt"; acting_as = none })

abbrev sent_hello : Manager
sent_hello = popped signed

abbrev watching_online : Manager
watching_online = with_client_call one_token (subscribes (str "messages:list") nil) sent_hello

-- The connection is lost, and a second one is made.
abbrev lost_manager : Manager
lost_manager = marked_reconnecting 3 signed

abbrev lost_run : RunState
lost_run = connection_lost (str "reset") true first_run

-- The client after the restart: the token is queued again.
abbrev back : Manager
back = record lost_manager { client = record lost_manager.client { outgoing = hello ∷ [] } }

flush_queued-IsFlushed_example :
    IsFlushed as_bits (λ m. taking) back.client (flush_queued as_bits (λ m. taking) 2 back.client)
flush_queued-IsFlushed_example =
    flush_queued-IsFlushed as_bits (λ m. taking) 2 back.client (omega arith)

-- Bytes that a random source may draw.
abbrev drawn : Bytes16
drawn = record {
  b0 = 0;
  b1 = 17;
  b2 = 34;
  b3 = 51;
  b4 = 68;
  b5 = 85;
  b6 = 102;
  b7 = 119;
  b8 = 136;
  b9 = 153;
  b10 = 170;
  b11 = 187;
  b12 = 204;
  b13 = 221;
  b14 = 238;
  b15 = 255;
}
