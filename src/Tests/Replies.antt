-- ===== src/Tests/Replies.antt =====
-- The theorems about server messages, at concrete clients.
use convex_go.Prelude.{
  ◌≡◌, refl, if◌then◌else◌, not, ◌&&◌, ◌||◌, some, none, true, false, [], Str, str, arith,
}
use convex_go.Prelude.Eq.{nat_eq, str_eq}
use convex_go.Prelude.GoMap.{get}
use convex_go.Prelude.GoMap.Iterate.{holds}
use convex_go.Core.Value.{null}
use convex_go.Core.GoValue.{nil}
use convex_go.Core.FunctionResult.{is_value, value_result}
use convex_go.Protocol.{mutation_message, TransitionMessage, ResponseMessage, state_version_eq}
use convex_go.BaseClient.State.{Client, TrackedSyncRequest, mutation_kind, new, zero_version}
use convex_go.BaseClient.Queries.{subscribe}
use convex_go.BaseClient.Auth.{set_auth_callback}
use convex_go.BaseClient.Requests.{mutation, action, track}
use convex_go.BaseClient.Requests.{replay_ongoing_requests, restart_for_reconnect}
use convex_go.BaseClient.Requests.Replay.{
  request_of, of_mutation, occurrences-replay_ongoing_requests,
}
use convex_go.BaseClient.Requests.Cancel.{restart-requests}
use convex_go.Prelude.{map}
use convex_go.Prelude.GoMap.Occurrences.{occurrences}
use convex_go.BaseClient.Requests.Atomic.{IsAtomic, start-IsAtomic}
use convex_go.BaseClient.Receive.{receive_transition, completes_by, function_result_from_response}
use convex_go.BaseClient.Receive.Completion.{receive_transition-requests}
use convex_go.BaseClient.Receive.Outcomes.{function_result_from_response-is_value}
use convex_go.BaseClient.Results.Retention.{IsRetained}
use convex_go.BaseClient.Pending.{PendingAgree}
use convex_go.BaseClient.Pending.Server.{track-Pending}
use convex_go.BaseClient.Session.{start}
use convex_go.BaseClient.Session.Mirror.{Reached-IsSound}
use convex_go.BaseClient.Session.Retention.{Reached-IsRetained}
use convex_go.Tests.Sessions.{one_token, watching, watching-Reached}

-- A pending mutation, visible from timestamp 5 on.
abbrev answered : TrackedSyncRequest
answered = record {
  id = 0;
  kind = mutation_kind;
  message =
      mutation_message
        (record { request_id = 0; udf_path = str "messages:send"; args = []; component_path = [] });
  optimistic_update = none;
  result = some (value_result null);
  ts = some 5;
}

abbrev waiting : Client
unfolding track
waiting = track answered new

waiting-PendingAgree : PendingAgree waiting
unfolding track
waiting-PendingAgree =
    track-Pending answered new refl refl (omega arith) (Reached-IsSound one_token start).pending

abbrev arrival : TransitionMessage
arrival = record {
  start_version = zero_version;
  end_version = record { query_set = 0; identity = 0; ts = 7 };
  modifications = [];
}

at_zero : state_version_eq zero_version waiting.remote_version ≡ true
unfolding state_version_eq track
at_zero = refl

receive_transition-requests_example :
    get (receive_transition one_token arrival waiting).0.requests 0
    ≡ (if holds (completes_by 7) (get waiting.requests 0) then none else get waiting.requests 0)
receive_transition-requests_example =
    receive_transition-requests one_token arrival waiting 0 waiting-PendingAgree at_zero

Reached-IsRetained_example : IsRetained watching.client
Reached-IsRetained_example = Reached-IsRetained one_token watching-Reached

-- A path that cannot be parsed.
abbrev bad_path : Str
bad_path = str "../x:y"

start-IsAtomic_example :
    IsAtomic new (subscribe one_token bad_path nil new)
    × IsAtomic new (mutation one_token bad_path nil [] new)
    × IsAtomic new (action bad_path nil new)
    × IsAtomic new (set_auth_callback none new)
start-IsAtomic_example = start-IsAtomic one_token bad_path nil [] none new

-- A failure without a message and without data.
abbrev silent_failure : ResponseMessage
silent_failure = record {
  request_id = 0;
  success = false;
  value = null;
  error_message = [];
  error_data = none;
}

function_result_from_response-is_value_example :
    is_value (function_result_from_response silent_failure) ≡ (false || (true && not false))
function_result_from_response-is_value_example =
    function_result_from_response-is_value silent_failure

occurrences-replay_ongoing_requests_example :
    occurrences 0 (map request_of (replay_ongoing_requests waiting))
    ≡ (if holds of_mutation (get waiting.requests 0) then 1 else 0)
occurrences-replay_ongoing_requests_example =
    occurrences-replay_ongoing_requests waiting 0 waiting-PendingAgree

restart-requests_example :
    get (restart_for_reconnect waiting).0.requests 0
    ≡ (if holds of_mutation (get waiting.requests 0) then get waiting.requests 0 else none)
restart-requests_example = restart-requests waiting 0 waiting-PendingAgree
