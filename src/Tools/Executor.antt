-- ===== src/Tools/Executor.antt =====
-- `ToolAuthorizer` of backend-python/app/ai/tools/authorizer.py and `ToolExecutor` of
-- backend-python/app/ai/tools/executor.py. A handler is code from outside: it takes and leaves a world,
-- whose clock is read in milliseconds. `asyncio.wait_for` ends it when its time is up. The log lines are
-- not kept.
pub mod Guarded
pub mod Answers
use chatbot_react_python_nod.Prelude.{
  ℕ, ◌-◌, String, Bool, true, false, Option, none, some, [], ◌∷◌, if◌then◌else◌, Dict, lookup,
  insert,
}
use Prim.Native.String.{◌++◌}
use chatbot_react_python_nod.Json.{Json, null, int, str, Fields}
use chatbot_react_python_nod.Agent.Models.{ToolCall, ToolResult}
use chatbot_react_python_nod.Tools.Schema.{
  ToolDefinition, ToolExecutionContext, CallerKind, user, guest, Envelope,
}
use chatbot_react_python_nod.Tools.Validator.{Validation, valid, invalid, type_error, validate}
use chatbot_react_python_nod.Tools.Registry.{Registered, Registry, get_definition, get_handler}

-- how the call of a handler ends: with a result, with a TimeoutError (its own or that of `wait_for`),
-- with another Exception, or cancelled from outside
pub data Run : Type 0 where
  returned : Envelope → Run
  timed_out : Run
  raised : Run
  cancelled : Run

-- how an execution ends: with a result, with a TypeError that reaches the caller, or cancelled
pub data Outcome : Type 0 where
  answered : Envelope → Outcome
  propagated : Outcome
  interrupted : Outcome

-- `ToolResult(success=False, error=…, error_code=…)`
abbrev pub failure : String → String → Envelope
failure error code = record {
  result = record { success = false; result = null; error = some error; error_code = some code };
  metadata = [];
}

-- none, or the reason of the refusal
unfoldable pub authorize : ToolDefinition → ToolExecutionContext → Option String
authorize tool context = elim context.caller [
  | user ↦ none
  | guest ↦ some "Tool invocation requires an authenticated user"
]

-- `metadata.setdefault(key, value)`
unfoldable pub setdefault : String → Json → Dict Json → Dict Json
setdefault key value d = elim (lookup key d) [ some v ↦ d | none ↦ insert key value d ]

-- what `_finalize` writes into the metadata
unfoldable pub tag : ToolCall → ℕ → Dict Json → Dict Json
tag call latency d =
    let timed = insert "latency_ms" (int latency) (insert "tool_name" (str call.name) d) in
    elim call.call_id [ none ↦ timed | some id ↦ insert "call_id" (str id) timed ]

-- a handler over worlds
abbrev pub Handler : Type 0 → Type 0
Handler W = W → Fields → ToolExecutionContext → Run × W

module _ (W : Type 0) (clock : W → ℕ) (render : Json → String) where
  unfoldable pub finalize : ToolCall → Envelope → ℕ → W → Outcome × W
  finalize call e start w =
      (answered (record { result = e.result; metadata = tag call (clock w - start) e.metadata }), w)

  -- what is answered to the end of a handler
  unfoldable pub conclude : ToolCall → ℕ → Run × W → Outcome × W
  unfolding finalize
  conclude call start (returned e, w) =
      if e.result.success
      then finalize call
          (record {
            result = e.result;
            metadata = setdefault "tool_name" (str call.name) e.metadata;
          })
          start w
      else finalize call e start w
  conclude call start (timed_out, w) =
      finalize call (failure "Tool execution timed out" "timeout") start w
  conclude call start (raised, w) =
      finalize call (failure "Tool execution failed" "handler_error") start w
  conclude call start (cancelled, w) = (interrupted, w)

  unfoldable pub run_handler :
      Option (Handler W) → ToolCall → ToolExecutionContext → ℕ → W → Outcome × W
  unfolding finalize conclude
  run_handler none call context start w =
      finalize call
        (failure ("Handler for tool '" ++ call.name ++ "' is not registered") "not_found") start w
  run_handler (some handler) call context start w =
      conclude call start (handler w call.arguments context)

  -- the steps after the validation
  unfoldable pub authorized :
      Registry (Handler W) → ToolDefinition → ToolCall → ToolExecutionContext → ℕ → W → Outcome × W
  unfolding finalize run_handler
  authorized tools tool call context start w = elim (authorize tool context) [
    | some reason ↦ finalize call (failure reason "forbidden") start w
    | none ↦ run_handler (get_handler call.name tools) call context start w
  ]

  unfoldable pub validated :
      Validation
      → Registry (Handler W)
      → ToolDefinition
      → ToolCall
      → ToolExecutionContext
      → ℕ
      → W
      → Outcome × W
  unfolding finalize authorized
  validated valid tools tool call context start w = authorized tools tool call context start w
  validated (invalid error) tools tool call context start w =
      finalize call (failure error "validation_error") start w
  validated type_error tools tool call context start w = (propagated, w)

  unfoldable pub execute : Registry (Handler W) → ToolCall → ToolExecutionContext → W → Outcome × W
  unfolding finalize validated
  execute tools call context w = elim (get_definition call.name tools) [
    | none ↦
        finalize call (failure ("Tool '" ++ call.name ++ "' is not registered") "not_found")
          (clock w) w
    | some tool ↦
        validated (validate render tool call.arguments) tools tool call context (clock w) w
  ]
