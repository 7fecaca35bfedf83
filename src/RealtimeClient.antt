-- ===== src/RealtimeClient.antt =====
-- subscription_client.go and subscription_handles.go: how WebSocketClient hands results to its
-- subscriptions and watchers, and how a subscription ends. A subscription's channel is known by its
-- subscriber, a watcher and its channel by a number; the mutex makes each operation one step.
pub mod Delivery
pub mod Ending
use convex_go.Prelude.{ℕ, Bool, true, false, Option, none, some, List, [], ◌∷◌, if◌then◌else◌}
use convex_go.Prelude.Eq.{nat_eq}
use convex_go.Prelude.GoMap.{GoMap, put, delete}
use convex_go.Core.Error.{Error, Result, ok, err}
use convex_go.Core.FunctionResult.{FunctionResult}
use convex_go.BaseClient.State.{
  SubscriberId, subscriber_eq, Client, QueryResults, query_results_snapshot,
}
use convex_go.BaseClient.Queries.{unsubscribe, latest_results, results_get}
use convex_go.SyncClient.Channel.{Channel, send_latest}

-- The manager's base client, and the fields that mu guards.
pub record WebSocketClient : Type 0 where
  pub base : Client
  pub subscriptions : GoMap SubscriberId (Channel FunctionResult)
  pub watchers : GoMap ℕ (Channel QueryResults)
  pub latest : QueryResults
  pub has_latest : Bool

-- `closed` says that the channel of that name is closed.
pub record QuerySubscription : Type 0 where
  pub id : SubscriberId
  pub closed : Bool
  pub closed_ok : Bool
  pub unsubscribe_queued : Bool
  pub close_err : Option Error

abbrev pub one_slot {ℓ} : {A : Type ℓ} → Channel A
one_slot = record { waiting = []; capacity = 1 }

abbrev pub offer : Option FunctionResult → Channel FunctionResult → Channel FunctionResult
offer none ch = ch
offer (some r) ch = send_latest r ch

-- The two loops of publishLatest.
unfoldable pub offer_each :
    QueryResults
    → List (SubscriberId × Channel FunctionResult)
    → List (SubscriberId × Channel FunctionResult)
unfolding results_get send_latest
offer_each results [] = []
offer_each results ((id, ch) ∷ rest) =
    (id, offer (results_get id results) ch) ∷ offer_each results rest

unfoldable pub send_each :
    QueryResults → List (ℕ × Channel QueryResults) → List (ℕ × Channel QueryResults)
unfolding send_latest
send_each results [] = []
send_each results ((w, ch) ∷ rest) = (w, send_latest results ch) ∷ send_each results rest

-- WebSocketClient.publishLatest
unfoldable pub publish_snapshot : QueryResults → WebSocketClient → WebSocketClient
unfolding offer_each send_each
publish_snapshot results c = record c {
  latest = results;
  has_latest = true;
  subscriptions = record { entries = offer_each results c.subscriptions.entries };
  watchers = record { entries = send_each results c.watchers.entries };
}

-- The part of Subscribe that registers the new subscriber, before its flush.
unfoldable pub register : SubscriberId → WebSocketClient → WebSocketClient
unfolding put publish_snapshot latest_results
register id c =
    let known = if c.has_latest then results_get id c.latest else none in
    publish_snapshot (latest_results c.base)
      (record c { subscriptions = put c.subscriptions id (offer known one_slot) })

-- WatchAll, with the number of the new watcher.
unfoldable pub watch_all : ℕ → WebSocketClient → WebSocketClient
unfolding put send_latest
watch_all w c =
    let first = if c.has_latest then send_latest c.latest one_slot else one_slot in
    record c { watchers = put c.watchers w first }

-- WebSocketClient.unwatch; the channel that tells the readers of the end is not modelled.
unfoldable pub unwatch : ℕ → WebSocketClient → WebSocketClient
unfolding delete
unwatch w c = record c { watchers = delete c.watchers w }

-- WebSocketClient.finishUnsubscribe
unfoldable pub finish_unsubscribe : SubscriberId → WebSocketClient → WebSocketClient
unfolding delete
finish_unsubscribe id c = record c { subscriptions = delete c.subscriptions id }

-- WebSocketClient.unsubscribe
unfoldable pub client_unsubscribe :
    SubscriberId → WebSocketClient → WebSocketClient × Result (Unit {0})
unfolding unsubscribe publish_snapshot latest_results
client_unsubscribe id c =
    let (base, r) = unsubscribe id c.base in
    let c' = record c { base = base } in
    let published = publish_snapshot (latest_results base) c' in
    elim r [ err e ↦ (c', err e) | ok done ↦ (published, ok tt) ]

-- The subscription is closed, with the error that later calls will give.
unfoldable pub close_handle : Option Error → QuerySubscription → QuerySubscription
close_handle e s = record s { closed = true; closed_ok = true; close_err = e }

abbrev pub result_of : Option Error → Result (Unit {0})
result_of none = ok tt
result_of (some e) = err e

-- The end of Unsubscribe: `flushed` is what flush gives, `ended` whether the client's context is done.
unfoldable pub after_flush :
    Result (Unit {0})
    → Bool
    → QuerySubscription
    → WebSocketClient
    → QuerySubscription × WebSocketClient × Result (Unit {0})
unfolding finish_unsubscribe close_handle
after_flush (ok done) ended s c = (close_handle none s, finish_unsubscribe s.id c, ok tt)
after_flush (err e) ended s c =
    if ended then (close_handle (some e) s, finish_unsubscribe s.id c, err e) else (s, c, err e)

-- The part of Unsubscribe that leaves the base client, once.
unfoldable pub queue_unsubscribe :
    QuerySubscription → WebSocketClient → QuerySubscription × WebSocketClient × Result (Unit {0})
unfolding client_unsubscribe
queue_unsubscribe s c =
    let (c', r) = client_unsubscribe s.id c in
    if s.unsubscribe_queued then (s, c, ok tt) else elim r [
      | err e ↦ (s, c', err e)
      | ok done ↦ (record s { unsubscribe_queued = true }, c', ok tt)
    ]

-- QuerySubscription.Unsubscribe; `cancelled` is the error of the caller's context.
unfoldable pub end_subscription :
    Option Error
    → Result (Unit {0})
    → Bool
    → QuerySubscription
    → WebSocketClient
    → QuerySubscription × WebSocketClient × Result (Unit {0})
unfolding queue_unsubscribe after_flush
end_subscription (some e) flushed ended s c = (s, c, err e)
end_subscription none flushed ended s c =
    let (s', c', r) = queue_unsubscribe s c in
    let rest = after_flush flushed ended s' c' in
    if s.closed_ok
    then (s, c, result_of s.close_err)
    else elim r [ err e ↦ (s', c', err e) | ok done ↦ rest ]
