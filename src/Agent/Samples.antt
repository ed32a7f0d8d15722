-- ===== src/Agent/Samples.antt =====
-- A small environment with one tool, and what the tests run in it.
use chatbot_react_python_nod.Prelude.{ℕ, true, none, some, [], ◌∷◌, nat_eq, if◌then◌else◌}
use chatbot_react_python_nod.Json.{str, end, field}
use chatbot_react_python_nod.Agent.Models.{
  AgentRequest, AgentContext, Role, ToolResult, AgentResponse,
}
use chatbot_react_python_nod.Agent.Exn.{ok}
use chatbot_react_python_nod.Agent.Publisher.{no_op}
use chatbot_react_python_nod.Agent.World.{World}
use chatbot_react_python_nod.Agent.Env.{Env, ToolCompletion, chunk, ToolSchema}

abbrev pub weather : ToolResult
weather = record { success = true; result = str "sunny"; error = none; error_code = none }

-- the first plan calls the tool, later plans answer
abbrev pub plans : ℕ → ToolCompletion
plans n =
    if nat_eq n 0
    then record {
      content = some "I look at the weather.";
      tool_calls =
          record { id = "call-1"; name = "weather"; arguments = field "city" (str "Oslo") end }
          ∷ [];
    }
    else record { content = some "It is sunny."; tool_calls = [] }

abbrev pub weather_schema : ToolSchema
weather_schema = record { name = "weather"; description = "The weather in a city." }

abbrev pub sample_env : Env
sample_env = record {
  complete_chat = λ n request messages. ok "It is sunny.";
  complete_chat_with_tools = λ n request tools messages. ok (plans n);
  stream_chat = λ n request messages. record {
    pulls = record { elapsed = 1; pulled = chunk (some "Sunny.") } ∷ [];
    ended = 2;
  };
  execute_tool = λ n call. ok weather;
  fresh_hex = λ n. "0af3";
  uniform = λ n bound. 0;
  render_planner = λ tools iteration limit. ok "Plan.";
  render_reflection = λ content summary. ok "Reflect.";
  show_data = λ d. "sunny";
  tool_schemas = weather_schema ∷ [];
}

abbrev pub sample_request : AgentRequest
sample_request = record {
  messages = record { role = Role.user; content = "How is the weather in Oslo?" } ∷ [];
  model = "model-1";
  max_tokens = none;
  tool_names = none;
  system_prompt = none;
  config = none;
}

abbrev pub sample_context : AgentContext
sample_context = record { execution_id = "run-1"; allowed_tool_names = none; metadata = [] }

-- another execution is under way
abbrev pub sample_world : World
sample_world = record { store = ("run-2", []) ∷ []; publisher = no_op; calls = 0; slept = [] }

-- the sample execution: the tool in the first cycle, the answer in the second
abbrev pub answered : AgentResponse
answered = record {
  content = "It is sunny.";
  tools_used = "weather" ∷ [];
  iterations = 2;
  finish_reason = some "stop";
}
