-- ===== src/Tests/Subscriptions.antt =====
-- The theorems about realtime subscriptions, at concrete clients.
use convex_go.Prelude.{◌≡◌, refl, true, false, none, some, [], ◌∷◌, str, arith}
use convex_go.Prelude.Eq.{nat_eq, str_eq}
use convex_go.Prelude.GoMap.{empty, get, lookup}
use convex_go.Core.Error.{Error, ok, err, transport_failed}
use convex_go.Core.Value.{string}
use convex_go.Core.FunctionResult.{FunctionResult, value_result}
use convex_go.BaseClient.State.{Client, new, SubscriberId, subscriber_eq, QueryResults}
use convex_go.BaseClient.Queries.{results_get, unsubscribe}
use convex_go.SyncClient.Channel.{Channel}
use convex_go.RealtimeClient.{
  WebSocketClient, QuerySubscription, publish_snapshot, queue_unsubscribe, client_unsubscribe,
  end_subscription, close_handle, finish_unsubscribe,
}
use convex_go.RealtimeClient.Delivery.{publish_snapshot-get}
use convex_go.RealtimeClient.Ending.{end_subscription-retry}

abbrev reader : SubscriberId
reader = record { query_id = 0; index = 0 }

-- An old result that was not read yet, and a newer snapshot.
abbrev unread : Channel FunctionResult
unread = record { waiting = value_result (string (str "old")) ∷ []; capacity = 1 }

abbrev newer : QueryResults
newer = record {
  subscribers = record { entries = (reader, tt) ∷ [] };
  results = record { entries = (0, value_result (string (str "new"))) ∷ [] };
}

-- A base client with one query and one subscriber.
abbrev watching_one : Client
watching_one = record new {
  next_query_id = 1;
  query_set_version = 1;
  queries = record {
    entries =
        (
          str "token",
          record {
            id = 0;
            canonical_path = str "messages:list";
            args = [];
            num_subscribers = 1;
            next_subscriber_idx = 1;
          },
        )
        ∷ [];
  };
  query_id_to_token = record { entries = (0, str "token") ∷ [] };
  subscribers = record { entries = (reader, tt) ∷ [] };
}

abbrev listening : WebSocketClient
listening = record {
  base = watching_one;
  subscriptions = record { entries = (reader, unread) ∷ [] };
  watchers = empty;
  latest = record { subscribers = empty; results = empty };
  has_latest = true;
}

listening-get : get listening.subscriptions reader ≡ some unread
unfolding get lookup
listening-get = refl

publish_snapshot-get_example :
    get (publish_snapshot newer listening).subscriptions reader
    ≡ some (elim (results_get reader newer) [
      | none ↦ unread
      | some r ↦ record unread { waiting = r ∷ [] }
    ])
publish_snapshot-get_example =
    publish_snapshot-get newer listening reader unread listening-get
      (record { one = refl; fits = omega arith })

abbrev open_handle : QuerySubscription
open_handle = record {
  id = reader;
  closed = false;
  closed_ok = false;
  unsubscribe_queued = false;
  close_err = none;
}

leaves : (queue_unsubscribe open_handle listening).2 ≡ ok tt
unfolding queue_unsubscribe client_unsubscribe unsubscribe get lookup
leaves = refl

abbrev timeout : Error
timeout = transport_failed (str "deadline exceeded")

end_subscription-retry_example :
    let first = end_subscription none (err timeout) false open_handle listening in
    let second = end_subscription none (ok tt) false first.0 first.1 in
    (first.2 ≡ err timeout)
    × (second.0 ≡ close_handle none first.0)
    × (second.1 ≡ finish_unsubscribe reader first.1)
    × (second.2 ≡ ok tt)
end_subscription-retry_example = end_subscription-retry timeout open_handle listening refl leaves
