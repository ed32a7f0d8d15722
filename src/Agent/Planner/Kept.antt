-- ===== src/Agent/Planner/Kept.antt =====
-- What planning keeps.
use chatbot_react_python_nod.Prelude.{ℕ, String, Option, none, some, List, leb, is_empty}
use chatbot_react_python_nod.Agent.Models.{AgentRequest, AgentContext, AgentConfig, resolved}
use chatbot_react_python_nod.Agent.Scratchpad.{Entry}
use chatbot_react_python_nod.Agent.World.{World}
use chatbot_react_python_nod.Agent.World.Keeps.{
  Keeps, IsStable, next_call-Keeps, on_scratchpad-Keeps, Keeps-bind, Keeps-if, Keeps-lift,
  Keeps-pure, Keeps-gets,
}
use chatbot_react_python_nod.Agent.Env.{Env, ToolSchema, ToolCompletion}
use chatbot_react_python_nod.Agent.Retry.Kept.{retry_operation-Keeps}
use chatbot_react_python_nod.Agent.Planner.{
  parse_tool_completion, messages_from, conversation_messages, build_messages, plan_once,
  complete_with_tools, thought_on, record_reasoning, plan_with, plan_next, resolve_tool_schemas,
  build_iteration_limit_plan, build_no_tools_finalize_plan,
}

module _ (env : Env) (request : AgentRequest) (context : AgentContext) {I : World → Type 0}
    (stable : IsStable context.execution_id I) where
  parse_tool_completion-Keeps :
      (c : ToolCompletion) (n : ℕ) → Keeps I (parse_tool_completion env c n)
  unfolding parse_tool_completion
  parse_tool_completion-Keeps c n =
      Keeps-if _ (Keeps-pure _) (Keeps-bind (next_call-Keeps stable) λ _. Keeps-pure _)

  messages_from-Keeps : (o : Option (List Entry)) → Keeps I (messages_from env request context o)
  unfolding messages_from
  messages_from-Keeps none = Keeps-pure _
  messages_from-Keeps (some es) =
      Keeps-if _ (Keeps-pure _) (Keeps-bind (Keeps-lift _) λ _. Keeps-pure _)

  build_messages-Keeps :
      (tools : List ToolSchema) (n : ℕ) (config : AgentConfig)
      → Keeps I (build_messages env request context tools n config)
  unfolding build_messages conversation_messages
  build_messages-Keeps tools n config =
      Keeps-bind (Keeps-lift _)
        λ p. Keeps-bind (Keeps-bind (Keeps-gets _) λ s. messages_from-Keeps _) λ r. Keeps-pure _

  thought_on-Keeps :
      (t : String) (o : Option (List Entry)) → Keeps I (thought_on env request context t o)
  unfolding thought_on
  thought_on-Keeps t none = Keeps-pure _
  thought_on-Keeps t (some es) = on_scratchpad-Keeps stable _

  record_reasoning-Keeps : (o : Option String) → Keeps I (record_reasoning env request context o)
  unfolding record_reasoning
  record_reasoning-Keeps none = Keeps-pure _
  record_reasoning-Keeps (some t) =
      Keeps-if _ (Keeps-pure _) (Keeps-bind (Keeps-gets _) λ s. thought_on-Keeps t _)

  plan_with-Keeps :
      (tools : List ToolSchema) (n : ℕ) → Keeps I (plan_with env request context tools n)
  unfolding plan_with complete_with_tools plan_once
  plan_with-Keeps tools n = Keeps-bind (build_messages-Keeps tools n _) λ ms.
      Keeps-bind
        (retry_operation-Keeps env stable.paused _ _ _
          (Keeps-bind (next_call-Keeps stable) λ k. Keeps-lift _))
        λ c. Keeps-bind (record_reasoning-Keeps _) λ _. parse_tool_completion-Keeps c n

  -- Planning keeps whatever publishing, writing the execution's own scratchpad, calling the outside and
  -- sleeping keep.
  pub plan_next-Keeps : (n : ℕ) → Keeps I (plan_next env request context n)
  unfolding plan_next
  plan_next-Keeps n =
      Keeps-if (leb (resolved request.config).max_iterations n)
        (Keeps-pure (build_iteration_limit_plan n))
        (Keeps-if (is_empty (resolve_tool_schemas env request context))
          (Keeps-pure (build_no_tools_finalize_plan n))
          (plan_with-Keeps (resolve_tool_schemas env request context) n))
