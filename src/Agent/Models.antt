-- ===== src/Agent/Models.antt =====
-- The data of the agent runtime: backend-python/app/ai/agent/models, and the tool schemas of
-- backend-python/app/ai/tools/schemas.py. Session and caller identities are not kept: no code
-- modelled here reads them.
use chatbot_react_python_nod.Prelude.{ℕ, String, Bool, false, Option, none, some, List}
use chatbot_react_python_nod.Json.{Json, Fields}

-- models/messages.py
pub data Role : Type 0 where
  system user assistant : Role

pub record AgentMessage : Type 0 where
  pub role : Role
  pub content : String

-- tools/schemas.py
pub record ToolCall : Type 0 where
  pub name : String
  pub arguments : Fields
  pub call_id : Option String

-- `data` is `null` for None
pub record ToolResult : Type 0 where
  pub success : Bool
  pub result : Json
  pub error : Option String
  pub error_code : Option String

-- models/state.py
pub data Status : Type 0 where
  created planning executing reflecting completed failed : Status

-- models/plan.py
pub data StepAction : Type 0 where
  tool_call llm finalize : StepAction

pub record PlannedStep : Type 0 where
  pub step_id : String
  pub action : StepAction
  pub tool_calls : List ToolCall
  pub depends_on : List String
  pub reasoning : Option String

-- `steps` has at least one element (`min_length=1`): the first one and the rest
pub record ExecutionPlan : Type 0 where
  pub first : PlannedStep
  pub rest : List PlannedStep
  pub iteration : ℕ
  pub is_final : Bool

-- models/config.py; delays are in milliseconds
pub record AgentConfig : Type 0 where
  pub max_iterations : ℕ
  pub reflection_enabled : Bool
  pub max_reflections : ℕ
  pub max_retries : ℕ
  pub retry_base_delay : ℕ
  pub parallel_tools_enabled : Bool
  pub timeout_seconds : Option ℕ

abbrev pub default_config : AgentConfig
default_config = record {
  max_iterations = 5;
  reflection_enabled = false;
  max_reflections = 2;
  max_retries = 3;
  retry_base_delay = 1000;
  parallel_tools_enabled = false;
  timeout_seconds = none;
}

-- models/context.py
pub record AgentContext : Type 0 where
  pub execution_id : String
  pub allowed_tool_names : Option (List String)
  pub metadata : List (String × Json)

-- models/request.py
pub record AgentRequest : Type 0 where
  pub messages : List AgentMessage
  pub model : String
  pub max_tokens : Option ℕ
  pub tool_names : Option (List String)
  pub system_prompt : Option String
  pub config : Option AgentConfig

-- `request.config or AgentConfig()`
abbrev pub resolved : Option AgentConfig → AgentConfig
resolved none = default_config
resolved (some c) = c

-- models/response.py
pub record AgentResponse : Type 0 where
  pub content : String
  pub tools_used : List String
  pub iterations : ℕ
  pub finish_reason : Option String

-- models/events.py
pub data ReflectionDecision : Type 0 where
  replan retry_step continue_ finish : ReflectionDecision

pub data Event : Type 0 where
  start : String → Event
  planned : String → ℕ → Event
  tool_start : String → String → String → Event
  tool_end : String → String → String → Bool → Event
  token : String → String → Event
  reflected : String → ReflectionDecision → Option String → Event
  complete : String → String → List String → Event
  error : String → String → String → Event
