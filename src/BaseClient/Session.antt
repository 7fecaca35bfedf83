-- ===== src/BaseClient/Session.antt =====
-- A client with the messages that were sent on the present connection: the calls of an application
-- and of the connection manager in any order.
pub mod Calls
pub mod Starts
pub mod Restart
pub mod Mirror
pub mod Shown
pub mod Visible
pub mod Retained
pub mod Retention
use convex_go.Prelude.{
  ℕ, ◌+◌, ◌<◌, ◌≡◌, Option, none, some, Bool, true, false, List, [], ◌∷◌, ◌++◌, Str,
}
use convex_go.Prelude.Eq.{str_eq}
use convex_go.Prelude.GoMap.{get}
use convex_go.Core.Error.{Result, ok, err, is_ok}
use convex_go.Core.Wire.{Wire}
use convex_go.Core.GoValue.{Any}
use convex_go.Protocol.{u32_mod, u64_mod, ClientMessage, ServerMessage, SyncUserIdentityAttributes}
use convex_go.BaseClient.State.{
  SubscriberId, LocalBaseQuery, AuthTokenFetcher, Client, Outcome, new,
}
use convex_go.BaseClient.Optimistic.{SyncMutationOption}
use convex_go.BaseClient.Queries.{subscribe, unsubscribe, pop_next_message}
use convex_go.BaseClient.Auth.{set_auth, set_admin_auth, clear_auth, set_auth_callback}
use convex_go.BaseClient.Requests.{mutation, action, restart_for_reconnect}
use convex_go.BaseClient.Receive.{receive_message}

-- `synced` says that the last restart, if there was one, went through.
pub record Session : Type 0 where
  pub client : Client
  pub sent : List ClientMessage
  pub synced : Bool

pub data Call : Type 0 where
  subscribes : Str → Any → Call
  unsubscribes : SubscriberId → Call
  mutates : Str → Any → List (Option SyncMutationOption) → Call
  acts : Str → Any → Call
  sets_auth : Str → Call
  sets_admin_auth : Str → List SyncUserIdentityAttributes → Call
  clears_auth : Call
  sets_auth_callback : Option AuthTokenFetcher → Call
  receives : ServerMessage → Call
  pops : Call
  restarts : Call

abbrev pub sent_with : List ClientMessage → Option ClientMessage → List ClientMessage
sent_with sent none = sent
sent_with sent (some m) = sent ++ m ∷ []

abbrev pub started : Outcome (Unit {0}) → Session
started (c, r) = record { client = c; sent = []; synced = is_ok r }

module _ (marshal : Wire → Str) where
  -- What a call does to the client; the rest of its result goes to the caller.
  unfoldable pub call_client : Call → Client → Client
  call_client (subscribes path args) c = (subscribe marshal path args c).0
  call_client (unsubscribes id) c = (unsubscribe id c).0
  call_client (mutates path args opts) c = (mutation marshal path args opts c).0
  call_client (acts path args) c = (action path args c).0
  call_client (sets_auth token) c = set_auth token c
  call_client (sets_admin_auth token acting_as) c = set_admin_auth token acting_as c
  call_client clears_auth c = clear_auth c
  call_client (sets_auth_callback f) c = (set_auth_callback f c).0
  call_client (receives m) c = (receive_message marshal m c).0
  call_client pops c = (pop_next_message c).0
  call_client restarts c = (restart_for_reconnect c).0

  -- A message that is taken from the queue is sent; a restart belongs to a new connection.
  unfoldable pub step : Call → Session → Session
  step pops s = record s {
    client = (pop_next_message s.client).0;
    sent = sent_with s.sent (pop_next_message s.client).1;
  }
  step restarts s = started (restart_for_reconnect s.client)
  step call s = record s { client = call_client call s.client }

-- No counter of the client is about to wrap around.
pub record HasRoom (c : Client) : Type 0 where
  pub query_ids : c.next_query_id + 1 < u32_mod
  pub request_ids : c.next_request_id + 1 < u32_mod
  pub subscriber_ids :
      (t : Str) (q : LocalBaseQuery)
      → get c.queries t ≡ some q
      → q.next_subscriber_idx + 1 < u64_mod

abbrev pub first_session : Session
first_session = record { client = new; sent = []; synced = true }

-- The sessions that a new client can come to while its counters have room.
pub data Reached (marshal : Wire → Str) : Session → Type 0 where
  start : Reached marshal first_session
  call :
      {s : Session} (x : Call)
      → HasRoom s.client
      → Reached marshal s
      → Reached marshal (step marshal x s)
