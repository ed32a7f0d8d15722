-- ===== src/Agent/Env.antt =====
-- What the agent runtime calls and does not implement: the provider, the tool executor, prompt
-- templates, random numbers. Each call has a number, so that two calls with the same arguments may
-- differ. A call's outcome under `asyncio.wait_for` includes the timeout.
use chatbot_react_python_nod.Prelude.{ℕ, String, Option, List}
use chatbot_react_python_nod.Json.{Json, Fields}
use chatbot_react_python_nod.Agent.Models.{AgentRequest, ToolCall, ToolResult}
use chatbot_react_python_nod.Agent.Exn.{Exn, Result}
use chatbot_react_python_nod.Agent.Scratchpad.{ChatMessage}

-- providers/base.py: `ProviderToolCall`, `ProviderToolCompletion`
pub record ProviderToolCall : Type 0 where
  pub id : String
  pub name : String
  pub arguments : Fields

pub record ToolCompletion : Type 0 where
  pub content : Option String
  pub tool_calls : List ProviderToolCall

-- a tool schema as the planner reads it
pub record ToolSchema : Type 0 where
  pub name : String
  pub description : String

-- One attempt to read the next chunk of a stream: the time in seconds since the stream began, and a
-- chunk with its content, a stall past the deadline, or an exception. A stream is its attempts, and the
-- time of the last one, which finds that the stream has ended.
pub data Pulled : Type 0 where
  chunk : Option String → Pulled
  stalled : Pulled
  failed : Exn → Pulled

pub record Pull : Type 0 where
  pub elapsed : ℕ
  pub pulled : Pulled

pub record Stream : Type 0 where
  pub pulls : List Pull
  pub ended : ℕ

pub record Env : Type 0 where
  pub complete_chat : ℕ → AgentRequest → List ChatMessage → Result String
  pub complete_chat_with_tools :
      ℕ → AgentRequest → List ToolSchema → List ChatMessage → Result ToolCompletion
  pub stream_chat : ℕ → AgentRequest → List ChatMessage → Stream
  pub execute_tool : ℕ → ToolCall → Result ToolResult
  pub fresh_hex : ℕ → String
  -- `random.uniform(0, bound)`
  pub uniform : ℕ → ℕ → ℕ
  -- the planner's and the reflection's prompt
  pub render_planner : String → ℕ → ℕ → Result String
  pub render_reflection : String → String → Result String
  -- `str(data)` of a tool's data, as f-strings show it
  pub show_data : Json → String
  -- the schemas of the registered tools
  pub tool_schemas : List ToolSchema
