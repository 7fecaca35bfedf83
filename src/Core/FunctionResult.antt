-- ===== src/Core/FunctionResult.antt =====
-- internal/core/function_result.go: the outcome of a function, as the struct that the code keeps.
use convex_go.Prelude.{Bool, not, ◌&&◌, Option, none, some, [], Str, if◌then◌else◌, is_some}
use convex_go.Prelude.Eq.{list_beq}
use convex_go.Core.Value.{Value, null}

pub record ConvexError : Type 0 where
  pub message : Str
  pub value : Value

pub record FunctionResult : Type 0 where
  pub value : Value
  pub error_message : Str
  pub convex_error : Option ConvexError

unfoldable pub value_result : Value → FunctionResult
value_result v = record { value = v; error_message = []; convex_error = none }

unfoldable pub error_message_result : Str → FunctionResult
error_message_result m = record { value = null; error_message = m; convex_error = none }

unfoldable pub convex_error_result : ConvexError → FunctionResult
convex_error_result e = record { value = null; error_message = []; convex_error = some e }

unfoldable pub is_value : FunctionResult → Bool
is_value r = list_beq r.error_message [] && not (is_some r.convex_error)

-- FunctionResult.Value
unfoldable pub value_of : FunctionResult → Option Value
unfolding is_value
value_of r = if is_value r then some r.value else none

-- FunctionResult.ErrorMessage
unfoldable pub error_message_of : FunctionResult → Option Str
error_message_of r = if list_beq r.error_message [] then none else some r.error_message

pub data FunctionError : Type 0 where
  convex_error : ConvexError → FunctionError
  function_error : Str → FunctionError

-- FunctionResult.Err
unfoldable pub err_of : FunctionResult → Option FunctionError
unfolding is_value
err_of r = if is_value r then none else elim r.convex_error [
  | some e ↦ some (FunctionError.convex_error e)
  | none ↦ some (function_error r.error_message)
]
