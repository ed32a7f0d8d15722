-- ===== src/Agent/Reflection.antt =====
-- Reflection on an executed step: the rules of backend-python/app/ai/agent/reflection/quality_checker.py
-- and the engine of backend-python/app/ai/agent/reflection/engine.py.
pub mod Parse
pub mod Rules
pub mod Kept
use chatbot_react_python_nod.Prelude.{
  ℕ, String, ◌==◌, Bool, true, false, not, Option, none, some, List, [], ◌∷◌, if◌then◌else◌,
  is_empty, strip, map, join,
}
use Prim.Native.String.{◌++◌}
use chatbot_react_python_nod.Agent.Models.{
  AgentRequest, ReflectionDecision, replan, retry_step, continue_, finish, resolved, Role,
}
use chatbot_react_python_nod.Agent.World.{Action, pure, World, lift, gets, ◌>>=◌, next_call}
use Parse.{parse_reflection_response}
use Prim.Native.String.{◌++◌}
use chatbot_react_python_nod.Agent.Scratchpad.Store
use chatbot_react_python_nod.Agent.Env.{Env}
use chatbot_react_python_nod.Agent.Scratchpad.{Entry, ChatMessage, plain, to_message_context}
use chatbot_react_python_nod.Agent.Answer.{or_else}
use chatbot_react_python_nod.Agent.Planner.{agent_input, to_input, system_text}
use chatbot_react_python_nod.Agent.Retry.{
  retry_operation, llm_retry_policy_from_config, is_retryable_agent_error,
}
use chatbot_react_python_nod.Agent.Results.{ToolRunRecord, any_succeeded, all_succeeded}

-- `llm_content is not None and not llm_content.strip()`
unfoldable pub is_blank : Option String → Bool
unfolding strip
is_blank none = false
is_blank (some t) = strip t == ""

abbrev pub has_records : Option (List ToolRunRecord) → Bool
has_records none = false
has_records (some rs) = not (is_empty rs)

rule_on : List ToolRunRecord → ReflectionDecision
unfolding any_succeeded all_succeeded
rule_on rs =
    if not (any_succeeded rs) then replan else if not (all_succeeded rs) then continue_ else finish

unfoldable pub evaluate_rule_based :
    Option (List ToolRunRecord) → Option String → Option ReflectionDecision
unfolding is_blank rule_on
evaluate_rule_based results content =
    if is_blank content
    then some retry_step
    else elim results [ none ↦ none | some rs ↦ if is_empty rs then none else some (rule_on rs) ]

-- the last two answers of the source are for no decision
unfoldable pub rule_reason : ReflectionDecision → String
rule_reason retry_step = "Planner or LLM step returned empty content."
rule_reason replan = "All tool calls in the latest step failed."
rule_reason continue_ = "Some tool calls failed; continuing with partial results."
rule_reason finish = "All tool calls in the latest step succeeded."

pub data Source : Type 0 where
  rules llm disabled : Source

pub record ReflectionResult : Type 0 where
  pub decision : ReflectionDecision
  pub reason : Option String
  pub source : Source

-- `record.result.error or record.result.data`
abbrev detail : Env → ToolRunRecord → String
detail env r = or_else r.result.error (env.show_data r.result.result)

unfoldable pub summary_line : Env → ToolRunRecord → String
summary_line env r =
    "- "
    ++ r.call.name
    ++ " ("
    ++ (if r.result.success then "success" else "failure")
    ++ "): "
    ++ detail env r

unfoldable pub format_tool_summary : Env → Option (List ToolRunRecord) → String
format_tool_summary env none = "- (none)"
format_tool_summary env (some rs) =
    if is_empty rs then "- (none)" else join "\n" (map (summary_line env) rs)

module _ (env : Env) (request : AgentRequest) (execution_id : String) where
  -- `_scratchpad_messages`
  unfoldable pub reflection_messages : List Entry → Action (List ChatMessage)
  reflection_messages entries =
      if is_empty entries
      then pure (map agent_input request.messages)
      else (lift (to_message_context entries) >>= λ ms. pure (map to_input ms))

  -- `operation` of `_complete_with_retry`
  unfoldable pub reflect_once : List ChatMessage → Action String
  reflect_once messages = next_call >>= λ n. lift (env.complete_chat n request messages)

  abbrev parsed : ReflectionDecision × Option String → ReflectionResult
  parsed (d, reason) = record { decision = d; reason = reason; source = llm }

  unfoldable pub reflect_with_llm :
      Option (List ToolRunRecord) → Option String → Action ReflectionResult
  reflect_with_llm results content = do
    prompt ←
        lift (env.render_reflection (or_else content "(none)") (format_tool_summary env results))
    s ← gets (λ w. w.store)
    entries ← lift (Store.require s execution_id)
    rest ← reflection_messages entries
    answer ←
        retry_operation env
          (reflect_once (plain Role.system (system_text request.system_prompt prompt) ∷ rest))
          (llm_retry_policy_from_config (some (resolved request.config))) is_retryable_agent_error
    pure (parsed (parse_reflection_response answer))

  -- the engine once reflection is on and the rules have been asked
  unfoldable pub by_rules :
      Option ReflectionDecision
      → Option (List ToolRunRecord)
      → Option String
      → Action ReflectionResult
  by_rules (some d) results content =
      pure (record { decision = d; reason = some (rule_reason d); source = rules })
  by_rules none results content = reflect_with_llm results content

  unfoldable pub reflect : Option (List ToolRunRecord) → Option String → Action ReflectionResult
  reflect results content =
      if not (resolved request.config).reflection_enabled
      then pure
          (record { decision = continue_; reason = some "Reflection disabled."; source = disabled })
      else by_rules (evaluate_rule_based results content) results content
