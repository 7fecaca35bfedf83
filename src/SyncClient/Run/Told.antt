-- ===== src/SyncClient/Run/Told.antt =====
-- Runs of the manager (websocket_manager.go) as sessions of the base client, and what the server of
-- the present connection is told.
use convex_go.Prelude.{◌≡◌, Bool, true, false, List, [], Str}
use convex_go.Core.Error.{Error}
use convex_go.Core.Wire.{Wire}
use convex_go.Protocol.{ClientMessage}
use convex_go.BaseClient.State.{Client}
use convex_go.BaseClient.Session.{Session, Reached}
use convex_go.SyncProtocol.Json.{Json, Strconv}
use convex_go.SyncProtocol.Messages
use convex_go.SyncClient.Manager.{Manager}
use convex_go.SyncClient.Run.{Stage, idle, preparing, dialing, connected, returned, World}

abbrev session : Client → List ClientMessage → Bool → Session
session c sent synced = record { client = c; sent = sent; synced = synced }

module _ (S : Strconv) (marshal : Wire → Str) (error_text : Error → Str) where
  -- The client is that of a session with these messages sent, whose last restart went through.
  abbrev Exactly : List ClientMessage → Client → Type 0
  Exactly sent c = Reached marshal (session c sent true)

  -- The client is that of some session.
  abbrev Somehow : Client → Type 0
  Somehow c =
      (sent : List ClientMessage) × (synced : Bool) × Reached marshal (session c sent synced)

  abbrev AtHead : Bool → Client → Type 0
  AtHead true c = Somehow c
  AtHead false c = Exactly [] c

  -- What is known of the client at each stage.
  abbrev AtStage : Stage → List ClientMessage → Client → Type 0
  AtStage idle sent c = Exactly [] c
  AtStage (preparing run) sent c = AtHead run.needs_restart c
  AtStage (dialing run) sent c = (sent ≡ []) × Exactly [] c
  AtStage (connected run) sent c = Exactly sent c
  AtStage returned sent c = Somehow c

  abbrev Known : World → Type 0
  Known w = AtStage w.stage w.sent w.manager.client
