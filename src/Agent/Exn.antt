-- ===== src/Agent/Exn.antt =====
-- The exceptions that the agent runtime raises, catches or tells apart: agent/exceptions.py, the
-- error classes of the state manager, the scratchpad store, the publishers and the tool runner, and
-- the classes of pydantic, httpx and Python that agent/retry/classifier.py names.
use Prim.Native.String.{◌++◌}
use chatbot_react_python_nod.Prelude.{ℕ, String, Bool, true, false, decimal}
use chatbot_react_python_nod.Agent.Models.{Status, ToolResult}

pub data Exn : Type 0 where
  agent_error : String → Exn
  iteration_limit : ℕ → Exn
  agent_timeout : ℕ → Exn
  invalid_transition : Status → Status → Exn
  scratchpad_exists : String → Exn
  scratchpad_not_found : String → Exn
  validation_error : Exn
  value_error : String → Exn
  publisher_closed : Exn
  tool_retryable : ToolResult → Exn
  http_status : ℕ → Exn
  connection_error : Exn
  timeout_error : Exn
  permission_error : Exn
  lookup_error : Exn
  file_not_found : Exn
  other_error : String → Exn
  cancelled : Exn

-- `isinstance(exc, AgentError)`
unfoldable pub is_agent_error : Exn → Bool
is_agent_error (agent_error m) = true
is_agent_error (iteration_limit n) = true
is_agent_error (agent_timeout n) = true
is_agent_error (invalid_transition a b) = true
is_agent_error (scratchpad_exists k) = true
is_agent_error (scratchpad_not_found k) = true
is_agent_error _ = false

-- `isinstance(exc, Exception)`: `CancelledError` derives from `BaseException` alone
unfoldable pub is_exception : Exn → Bool
is_exception cancelled = false
is_exception _ = true

unfoldable pub status_value : Status → String
status_value Status.created = "created"
status_value Status.planning = "planning"
status_value Status.executing = "executing"
status_value Status.reflecting = "reflecting"
status_value Status.completed = "completed"
status_value Status.failed = "failed"

-- `str(exc)` of an `AgentError`
unfoldable pub message : Exn → String
message (agent_error m) = m
message (iteration_limit n) = "Agent iteration limit (" ++ decimal n ++ ") reached."
message (agent_timeout n) = "Agent execution timed out after " ++ decimal n ++ " seconds."
message (invalid_transition a b) =
    "Invalid agent state transition: " ++ status_value a ++ " -> " ++ status_value b
message (scratchpad_exists k) = "Scratchpad already exists for execution '" ++ k ++ "'."
message (scratchpad_not_found k) = "No scratchpad found for execution '" ++ k ++ "'."
message _ = ""

pub data Result {ℓ} (A : Type ℓ) : Type ℓ where
  ok : A → Result A
  err : Exn → Result A
