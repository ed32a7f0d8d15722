-- ===== src/Agent/Runner.antt =====
-- Running planned tool calls, one after the other, with events and retries: `ToolRunner` of
-- backend-python/app/ai/agent/executor/tool_runner.py. Its branches for parallel tools are not
-- modelled: this is the runner with `parallel_tools_enabled` off.
pub mod Bracket
pub mod Kept
use Prim.Native.String.{◌++◌}
use mathlib.Core.List
use chatbot_react_python_nod.Prelude.{
  ℕ, String, Bool, true, false, not, ◌&&◌, Option, none, some, List, [], ◌∷◌, if◌then◌else◌,
}
use chatbot_react_python_nod.Agent.Models.{ToolCall, ToolResult, PlannedStep, tool_start, tool_end}
use chatbot_react_python_nod.Agent.Exn.{Exn, Result, ok, err, tool_retryable, is_exception}
use chatbot_react_python_nod.Agent.World.{
  Action, pure, raise, lift, ◌>>=◌, ◌>>◌, catching, emit, next_call,
}
use chatbot_react_python_nod.Agent.Env.{Env}
use chatbot_react_python_nod.Agent.Retry.{
  RetryPolicy, retry_operation, is_retryable_agent_error, is_retryable_tool_result,
}
use chatbot_react_python_nod.Agent.Results.{ToolRunRecord, new_record}
use chatbot_react_python_nod.Agent.Resolver.{resolve_step_batches}

-- `_ToolResultRetryPolicy.is_retryable`
unfoldable pub is_retryable_run : Exn → Bool
is_retryable_run (tool_retryable r) = true
is_retryable_run e = is_retryable_agent_error e

-- `except ToolExecutionRetryableError as exc: return exc.result`
unfoldable pub last_result : Exn → Action ToolResult
last_result (tool_retryable r) = pure r
last_result e = raise e

module _ (env : Env) (policy : RetryPolicy) (execution_id : String) where
  unfoldable pub id_from : String → Option String → Action String
  id_from step_id (some id) = pure id
  id_from step_id none = next_call >>= λ n. pure (step_id ++ "-" ++ env.fresh_hex n)

  -- `_resolve_call_id`
  unfoldable pub resolve_call_id : ToolCall → String → Action String
  resolve_call_id call step_id = id_from step_id call.call_id

  -- `operation` of `_execute_with_retry`
  unfoldable pub attempt_tool : ToolCall → Action ToolResult
  attempt_tool call = do
    n ← next_call
    result ← lift (env.execute_tool n call)
    if not result.success && is_retryable_tool_result result
        then raise (tool_retryable result)
        else pure result

  unfoldable pub execute_with_retry : ToolCall → Action ToolResult
  execute_with_retry call =
      catching (retry_operation env (attempt_tool call) policy is_retryable_run) last_result

  -- `except Exception:` around the execution
  unfoldable pub report_failure : String → String → Exn → Action ToolResult
  report_failure name id e =
      if is_exception e then emit (tool_end execution_id name id false) >> raise e else raise e

  unfoldable pub run_single_tool : String → ToolCall → Action ToolRunRecord
  run_single_tool step_id call = do
    id ← resolve_call_id call step_id
    let normalized = record call { call_id = some id }
    emit (tool_start execution_id call.name id)
    result ← catching (execute_with_retry normalized) (report_failure call.name id)
    emit (tool_end execution_id call.name id result.success)
    lift (new_record step_id normalized result)

  unfoldable pub run_calls : String → List ToolCall → Action (List ToolRunRecord)
  run_calls step_id [] = pure []
  run_calls step_id (call ∷ calls) = do
    r ← run_single_tool step_id call
    rs ← run_calls step_id calls
    pure (r ∷ rs)

  unfoldable pub run_single_step : PlannedStep → Action (List ToolRunRecord)
  run_single_step step = run_calls step.step_id step.tool_calls

  unfoldable pub run_step_batch : List PlannedStep → Action (List ToolRunRecord)
  run_step_batch [] = pure []
  run_step_batch (step ∷ steps) = do
    rs ← run_single_step step
    more ← run_step_batch steps
    pure (List.◌++◌ rs more)

  unfoldable pub run_batches : List (List PlannedStep) → Action (List ToolRunRecord)
  run_batches [] = pure []
  run_batches (batch ∷ batches) = do
    rs ← run_step_batch batch
    more ← run_batches batches
    pure (List.◌++◌ rs more)

  unfoldable pub run_tool_steps : List PlannedStep → Action (List ToolRunRecord)
  run_tool_steps steps = do batches ← lift (resolve_step_batches steps); run_batches batches
