-- ===== src/SyncClient/Run/Recovers.antt =====
-- Runs of the manager (websocket_manager.go) after a lost connection, when the dialer answers again and
-- the connection takes what is written.
use convex_go.Prelude.{◌≡◌, List, Str, All}
use convex_go.Core.Error.{Error, Result, ok}
use convex_go.Core.Wire.{Wire}
use convex_go.Protocol.{ClientMessage}
use convex_go.BaseClient.Session.Mirror.{Told}
use convex_go.SyncProtocol.Json.{Json, Strconv}
use convex_go.SyncProtocol.Projection.{client_sent}
use convex_go.SyncClient.Manager.{Manager, write_client_message}
use convex_go.SyncClient.Run.{World, Step}

module _ (S : Strconv) (marshal : Wire → Str) (error_text : Error → Str) where
  -- Any number of steps.
  pub data Steps : World → World → Type 0 where
    rests : {w : World} → Steps w w
    moves : {u v w : World} → Step S marshal error_text u v → Steps v w → Steps u w

  -- The connection takes every message.
  abbrev pub Takes : (Json → Result (Unit {0})) → List ClientMessage → Type 0
  Takes write = All (λ message. write_client_message S write (client_sent message) ≡ ok tt)

  abbrev with_queue : List ClientMessage → Manager → Manager
  with_queue ms m = record m { client = record m.client { outgoing = ms } }
