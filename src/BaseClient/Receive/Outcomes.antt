-- ===== src/BaseClient/Receive/Outcomes.antt =====
-- baseclient/client_receive.go: how a response is told apart as a value or a failure.
use convex_go.Prelude.{◌≡◌, none, some, not, ◌&&◌, ◌||◌, is_some, [], ◌∷◌, Str, arith}
use convex_go.Prelude.Eq.{list_beq}
use convex_go.Core.FunctionResult.{
  is_value, value_result, error_message_result, convex_error_result,
}
use convex_go.Protocol.{ResponseMessage, OptionalValue}
use convex_go.BaseClient.Receive.{function_result_from_response, failed_result}

failed_result-is_value :
    (message : Str) (o : OptionalValue)
    → is_value (failed_result message o) ≡ (list_beq message [] && not (is_some o))
unfolding failed_result is_value error_message_result convex_error_result
failed_result-is_value [] none = ground arith
failed_result-is_value (b ∷ message) none = ground arith
failed_result-is_value message (some v) = ground arith

-- A response is kept as a value when it reports success, and also when it reports a failure with an
-- empty message and no error data; in no other case.
pub function_result_from_response-is_value :
    (m : ResponseMessage)
    → is_value (function_result_from_response m)
      ≡ (m.success || (list_beq m.error_message [] && not (is_some m.error_data)))
unfolding function_result_from_response is_value value_result
function_result_from_response-is_value m =
    ground (arith, failed_result-is_value m.error_message m.error_data)
