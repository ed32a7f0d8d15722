-- ===== src/Agent/Planner.antt =====
-- Planning: the plans of backend-python/app/ai/agent/planner/parser.py, and the ReAct planner of
-- backend-python/app/ai/agent/planner/react_planner.py.
pub mod Allowed
pub mod Kept
use Prim.Native.String.{◌++◌}
use chatbot_react_python_nod.Prelude.{
  ℕ, ◌+◌, String, ◌==◌, Bool, true, false, Option, none, some, List, [], ◌∷◌, map, if◌then◌else◌,
  leb, mem, select, is_empty, decimal, join,
}
use chatbot_react_python_nod.Agent.Models.{
  AgentRequest, AgentContext, AgentConfig, AgentMessage, Role, StepAction, PlannedStep,
  ExecutionPlan, ToolCall, resolved,
}
use chatbot_react_python_nod.Agent.Exn.{Result}
use chatbot_react_python_nod.Agent.Scratchpad.{
  Entry, ChatMessage, agent, plain, to_message_context, append_thought,
}
use chatbot_react_python_nod.Agent.Scratchpad.Store
use chatbot_react_python_nod.Agent.World.{
  World, Action, pure, lift, gets, ◌>>=◌, ◌>>◌, modify, next_call, on_scratchpad,
}
use chatbot_react_python_nod.Agent.Env.{Env, ToolSchema, ToolCompletion, ProviderToolCall}
use chatbot_react_python_nod.Agent.Retry.{
  retry_operation, llm_retry_policy_from_config, is_retryable_agent_error,
}

abbrev pub one_step : String → StepAction → List ToolCall → Option String → ℕ → Bool → ExecutionPlan
one_step id action calls reasoning iteration is_final = record {
  first = record {
    step_id = id;
    action = action;
    tool_calls = calls;
    depends_on = [];
    reasoning = reasoning;
  };
  rest = [];
  iteration = iteration;
  is_final = is_final;
}

unfoldable pub build_iteration_limit_plan : ℕ → ExecutionPlan
build_iteration_limit_plan iteration =
    one_step ("finalize-limit-" ++ decimal iteration) StepAction.finalize []
      (some "Iteration limit reached.") iteration true

unfoldable pub build_no_tools_finalize_plan : ℕ → ExecutionPlan
build_no_tools_finalize_plan iteration =
    one_step ("finalize-" ++ decimal iteration) StepAction.finalize []
      (some "No tools available; proceeding to final answer.") iteration true

-- `_provider_tool_call_to_tool_call`
unfoldable pub to_tool_call : ProviderToolCall → ToolCall
to_tool_call c = record { name = c.name; arguments = c.arguments; call_id = some c.id }

-- `_agent_message_to_input`, `_scratchpad_message_to_input`
unfoldable pub to_input : ChatMessage → ChatMessage
to_input (agent m) = plain m.role m.content
to_input m = m

abbrev pub agent_input : AgentMessage → ChatMessage
agent_input m = plain m.role m.content

abbrev admits : Option (List String) → ToolSchema → Bool
admits none s = true
admits (some names) s = mem s.name names

-- the request's own system prompt, if it has one, before another
unfoldable pub system_text : Option String → String → String
system_text none prompt = prompt
system_text (some p) prompt = if p == "" then prompt else p ++ "\n\n" ++ prompt

module _ (env : Env) where
  unfoldable pub parse_tool_completion : ToolCompletion → ℕ → Action ExecutionPlan
  parse_tool_completion completion iteration =
      if is_empty completion.tool_calls
      then pure (
          one_step ("finalize-" ++ decimal iteration) StepAction.finalize [] completion.content
            iteration true)
      else (next_call >>= λ n. pure (
          one_step ("tool-" ++ decimal iteration ++ "-" ++ env.fresh_hex n) StepAction.tool_call
            (map to_tool_call completion.tool_calls) completion.content iteration false))

  module _ (request : AgentRequest) (context : AgentContext) where
    -- the filters by the context's and the request's tool names
    unfoldable pub resolve_tool_schemas : List ToolSchema
    resolve_tool_schemas =
        select (admits request.tool_names)
          (select (admits context.allowed_tool_names) env.tool_schemas)

    unfoldable pub messages_from : Option (List Entry) → Action (List ChatMessage)
    messages_from none = pure (map agent_input request.messages)
    messages_from (some entries) =
        if is_empty entries
        then pure (map agent_input request.messages)
        else (lift (to_message_context entries) >>= λ ms. pure (map to_input ms))

    unfoldable pub conversation_messages : Action (List ChatMessage)
    conversation_messages =
        gets (λ w. w.store) >>= λ s. messages_from (Store.get s context.execution_id)

    unfoldable pub describe : ToolSchema → String
    describe s = "- " ++ s.name ++ ": " ++ s.description

    unfoldable pub build_messages : List ToolSchema → ℕ → AgentConfig → Action (List ChatMessage)
    build_messages tools iteration config = do
      prompt ← lift (
          env.render_planner (join "\n" (map describe tools)) (iteration + 1) config.max_iterations)
      rest ← conversation_messages
      pure (plain Role.system (system_text request.system_prompt prompt) ∷ rest)

    -- `operation` of `_complete_with_tools`
    unfoldable pub plan_once : List ToolSchema → List ChatMessage → Action ToolCompletion
    plan_once tools messages =
        next_call >>= λ n. lift (env.complete_chat_with_tools n request tools messages)

    unfoldable pub complete_with_tools :
        List ToolSchema → List ChatMessage → AgentConfig → Action ToolCompletion
    complete_with_tools tools messages config =
        retry_operation env (plan_once tools messages) (llm_retry_policy_from_config (some config))
          is_retryable_agent_error

    unfoldable pub thought_on : String → Option (List Entry) → Action (Unit {0})
    thought_on text none = pure tt
    thought_on text (some entries) =
        on_scratchpad context.execution_id (λ es. append_thought es text)

    unfoldable pub record_reasoning : Option String → Action (Unit {0})
    record_reasoning none = pure tt
    record_reasoning (some text) =
        if text == ""
        then pure tt
        else gets (λ w. w.store) >>= λ s. thought_on text (Store.get s context.execution_id)

    -- the rest of `plan_next`, once there are tools to plan with
    unfoldable pub plan_with : List ToolSchema → ℕ → Action ExecutionPlan
    plan_with tools iteration = do
      messages ← build_messages tools iteration (resolved request.config)
      completion ← complete_with_tools tools messages (resolved request.config)
      record_reasoning completion.content
      parse_tool_completion completion iteration

    unfoldable pub plan_next : ℕ → Action ExecutionPlan
    plan_next iteration =
        if leb (resolved request.config).max_iterations iteration
        then pure (build_iteration_limit_plan iteration)
        else if is_empty resolve_tool_schemas
        then pure (build_no_tools_finalize_plan iteration)
        else plan_with resolve_tool_schemas iteration
