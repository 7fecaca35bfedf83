-- ===== src/RealtimeClient/Ending.antt =====
-- QuerySubscription.Unsubscribe of subscription_handles.go, called more than once.
use convex_go.Prelude.{◌≡◌, Bool, true, false, none, arith}
use convex_go.Core.Error.{Error, Result, ok, err}
use convex_go.RealtimeClient.{
  WebSocketClient, QuerySubscription, close_handle, finish_unsubscribe, result_of, after_flush,
  queue_unsubscribe, end_subscription,
}

-- If the flush of a first Unsubscribe fails while the client goes on, on a subscription that is not
-- closed and whose query could be left, the next call does not unsubscribe again: when its flush goes
-- through it closes the subscription, removes its channel and gives no error.
pub end_subscription-retry :
    (flush_error : Error) (s : QuerySubscription) (c : WebSocketClient)
    → s.closed_ok ≡ false
    → (queue_unsubscribe s c).2 ≡ ok tt
    → let first = end_subscription none (err flush_error) false s c in
      let second = end_subscription none (ok tt) false first.0 first.1 in
      (first.2 ≡ err flush_error)
      × (second.0 ≡ close_handle none first.0)
      × (second.1 ≡ finish_unsubscribe s.id first.1)
      × (second.2 ≡ ok tt)
unfolding end_subscription after_flush queue_unsubscribe
end_subscription-retry flush_error s c pending queued = ground arith

-- A closed subscription stays as it is, and every later call gives the error it was closed with.
pub end_subscription-closed :
    (flushed : Result (Unit {0})) (ended : Bool) (s : QuerySubscription) (c : WebSocketClient)
    → s.closed_ok ≡ true
    → end_subscription none flushed ended s c ≡ (s, c, result_of s.close_err)
unfolding end_subscription
end_subscription-closed flushed ended s c h = ground arith
