-- ===== src/Tests/Sessions.antt =====
-- The theorems about sessions and subscriptions, at concrete clients.
use convex_go.Prelude.{◌≡◌, if◌then◌else◌, is_some, Str, str, arith}
use convex_go.Prelude.Eq.{nat_eq, str_eq}
use convex_go.Prelude.GoMap.{get}
use convex_go.Core.Error.{ok, err, unknown_subscriber, is_ok}
use convex_go.Core.Wire.{Wire}
use convex_go.Core.GoValue.{nil}
use convex_go.BaseClient.State.{SubscriberId, subscriber_eq, new}
use convex_go.BaseClient.Auth.{set_auth, queue_auth}
use convex_go.BaseClient.Queries.{unsubscribe}
use convex_go.BaseClient.Queries.{results_get}
use convex_go.BaseClient.State.{QueryResults}
use convex_go.BaseClient.Snapshot.{entry_for, result_in, results_iter, results_iter-results_get}
use convex_go.BaseClient.Requests.{restart_for_reconnect}
use convex_go.BaseClient.Pending.{PendingAgree}
use convex_go.BaseClient.QuerySet.{TablesAgree}
use convex_go.BaseClient.Session.{
  Session, subscribes, sets_auth, step, call_client, HasRoom, Reached, start, call, first_session,
}
use convex_go.BaseClient.Session.Calls.{unsubscribe-result}
use convex_go.BaseClient.Session.Restart.{Restarts, restart-Restarts}
use convex_go.BaseClient.Session.Mirror.{IsSound, Reached-IsSound}

-- A text for every document: enough where one query is subscribed.
abbrev pub one_token : Wire → Str
one_token w = str "token"

pub new-HasRoom : HasRoom new
unfolding get
new-HasRoom = record {
  query_ids = omega arith;
  request_ids = omega arith;
  subscriber_ids = λ t q e. cc;
}

abbrev pub signed_in : Session
unfolding step
signed_in = step one_token (sets_auth (str "jwt")) first_session

pub signed_in-HasRoom : HasRoom signed_in.client
unfolding get step call_client set_auth queue_auth
signed_in-HasRoom = record {
  query_ids = omega arith;
  request_ids = omega arith;
  subscriber_ids = λ t q e. cc;
}

abbrev pub watching : Session
unfolding step
watching = step one_token (subscribes (str "messages:list") nil) signed_in

pub watching-Reached : Reached one_token watching
unfolding step
watching-Reached =
    call (subscribes (str "messages:list") nil) signed_in-HasRoom
      (call (sets_auth (str "jwt")) new-HasRoom start)

Reached-IsSound_example : IsSound watching
Reached-IsSound_example = Reached-IsSound one_token watching-Reached

watching-TablesAgree : TablesAgree watching.client
watching-TablesAgree = (Reached-IsSound one_token watching-Reached).tables

-- The id the subscription was given.
abbrev first_subscriber : SubscriberId
first_subscriber = record { query_id = 0; index = 0 }

unsubscribe-result_example : (unsubscribe first_subscriber watching.client).1 ≡ (
    if is_some (get watching.client.subscribers first_subscriber)
    then ok tt
    else err unknown_subscriber)
unsubscribe-result_example =
    unsubscribe-result first_subscriber watching.client watching-TablesAgree

watching-PendingAgree : PendingAgree watching.client
watching-PendingAgree = (Reached-IsSound one_token watching-Reached).pending

restart-Restarts_example :
    Restarts
      (restart_for_reconnect watching.client).0
      (is_ok (restart_for_reconnect watching.client).1)
restart-Restarts_example =
    restart-Restarts watching.client watching-TablesAgree watching-PendingAgree

abbrev watching_results : QueryResults
watching_results = record {
  subscribers = watching.client.subscribers;
  results = watching.client.results;
}

results_iter-results_get_example :
    (is_some (entry_for first_subscriber (results_iter watching_results))
      ≡ is_some (get watching_results.subscribers first_subscriber))
    × (result_in (entry_for first_subscriber (results_iter watching_results))
        ≡ results_get first_subscriber watching_results)
results_iter-results_get_example =
    results_iter-results_get watching_results first_subscriber watching-TablesAgree.subscribers_map
