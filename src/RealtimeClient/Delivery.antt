-- ===== src/RealtimeClient/Delivery.antt =====
-- publishLatest of subscription_client.go: what each subscription then has.
use convex_go.Prelude.{◌≡◌, refl, ap, ◌∙◌, Option, none, some, List, [], ◌∷◌, length, ◌≤◌, arith}
use convex_go.Prelude.GoMap.{lookup, get}
use convex_go.Core.FunctionResult.{FunctionResult}
use convex_go.BaseClient.State.{SubscriberId, subscriber_eq, subscriber_beq_iff, QueryResults}
use convex_go.BaseClient.Queries.{results_get}
use convex_go.SyncClient.Channel.{Channel, send_latest, try_send, drop_oldest}
use convex_go.RealtimeClient.{WebSocketClient, offer, offer_each, publish_snapshot}

abbrev offered :
    SubscriberId → QueryResults → Option (Channel FunctionResult) → Option (Channel FunctionResult)
offered id results none = none
offered id results (some ch) = some (offer (results_get id results) ch)

lookup-offer_each :
    (id : SubscriberId) (results : QueryResults) (l : List (SubscriberId × Channel FunctionResult))
    → lookup id (offer_each results l) ≡ offered id results (lookup id l)
unfolding lookup offer_each
lookup-offer_each id results [] = refl
lookup-offer_each id results ((j, ch) ∷ l) =
    ground (arith, lookup-offer_each id results l, subscriber_beq_iff j id)

-- A channel of one slot that holds at most one value, as Subscribe makes it.
pub record IsOneSlot (ch : Channel FunctionResult) : Type 0 where
  pub one : ch.capacity ≡ 1
  pub fits : length ch.waiting ≤ 1

replaced :
    (r : FunctionResult) (waiting : List FunctionResult)
    → length waiting ≤ 1
    → send_latest r (record { waiting = waiting; capacity = 1 })
      ≡ record { waiting = r ∷ []; capacity = 1 }
unfolding send_latest try_send drop_oldest
replaced r [] h = refl
replaced r (x ∷ []) h = refl
replaced r (x ∷ y ∷ xs) h = absurd (omega arith)

offer_one :
    (o : Option FunctionResult) (ch : Channel FunctionResult)
    → IsOneSlot ch
    → offer o ch ≡ elim o [ none ↦ ch | some r ↦ record ch { waiting = r ∷ [] } ]
offer_one none ch slot = refl
offer_one (some r) ch slot = ground (arith, slot.one, replaced r ch.waiting slot.fits)

-- After publishLatest, the channel of a subscription holds the subscription's result in the snapshot
-- and nothing else, if the snapshot has one, and is as it was if not, where it had one slot.
pub publish_snapshot-get :
    (results : QueryResults) (c : WebSocketClient) (id : SubscriberId) (ch : Channel FunctionResult)
    → get c.subscriptions id ≡ some ch
    → IsOneSlot ch
    → get (publish_snapshot results c).subscriptions id
      ≡ some (elim (results_get id results) [ none ↦ ch | some r ↦ record ch { waiting = r ∷ [] } ])
unfolding get publish_snapshot
publish_snapshot-get results c id ch h slot =
    lookup-offer_each id results c.subscriptions.entries
    ∙ ap (offered id results) h
    ∙ ap some (offer_one (results_get id results) ch slot)
