-- ===== src/Agent/Answer.antt =====
-- The final answer: streaming from the provider, and precomputed text as tokens
-- (backend-python/app/ai/agent/executor/llm_step.py), and the choice between these
-- (backend-python/app/ai/agent/executor/finalizer.py).
pub mod Tokens
pub mod Words
pub mod Kept
use Prim.Native.String.{◌++◌}
use chatbot_react_python_nod.Prelude.{
  ℕ, String, ◌==◌, Bool, true, false, not, ◌&&◌, Option, none, some, List, [], ◌∷◌, if◌then◌else◌,
  leb, strip, lower, codes, occurs, split_space, starts_with,
}
use chatbot_react_python_nod.Agent.Models.{
  AgentRequest, AgentConfig, StepAction, PlannedStep, ExecutionPlan, resolved, token,
}
use chatbot_react_python_nod.Agent.Exn.{Exn, Result, agent_timeout, timeout_error}
use chatbot_react_python_nod.Agent.Scratchpad.{Entry, ChatMessage, to_message_context}
use chatbot_react_python_nod.Agent.Scratchpad.Store
use chatbot_react_python_nod.Agent.World.{
  World, Action, pure, raise, lift, gets, ◌>>=◌, ◌>>◌, emit, next_call,
}
use chatbot_react_python_nod.Agent.Env.{Env, Pull, Pulled, chunk, stalled, failed, Stream}
use chatbot_react_python_nod.Agent.Retry.{
  retry_operation, llm_retry_policy_from_config, is_retryable_agent_error,
}

-- `_scratchpad_to_chat_messages`: its filter on roles passes the three roles that there are
unfoldable pub chat_messages : List Entry → Result (List ChatMessage)
chat_messages entries = to_message_context entries

-- the messages of an execution's scratchpad
unfoldable pub scratchpad_messages : String → Action (List ChatMessage)
scratchpad_messages execution_id = do
  s ← gets (λ w. w.store)
  entries ← lift (Store.require s execution_id)
  lift (chat_messages entries)

-- `chunk.get("content") or ""`
abbrev chunk_text : Option String → String
chunk_text none = ""
chunk_text (some s) = s

-- whether `remaining <= 0`
abbrev is_late : Option ℕ → ℕ → Bool
is_late none elapsed = false
is_late (some t) elapsed = leb t elapsed

-- raised when it is late
abbrev late_error : Option ℕ → Exn
late_error none = timeout_error
late_error (some t) = agent_timeout t

-- what a raise in the stream becomes
abbrev stream_error : Option ℕ → Exn → Exn
stream_error (some t) timeout_error = agent_timeout t
stream_error _ e = e

module _ (execution_id : String) where
  -- a token that is not empty is published
  unfoldable pub emit_token : String → Action (Unit {0})
  emit_token t = if t == "" then pure tt else emit (token execution_id t)

  -- what the loop does with an attempt, where `rest` is the loop from there on
  unfoldable pub on_pulled : Option ℕ → Action String → Pulled → Action String
  on_pulled timeout rest (chunk c) =
      emit_token (chunk_text c) >>= λ _. rest >>= λ s. pure (chunk_text c ++ s)
  on_pulled none rest stalled = rest
  on_pulled (some t) rest stalled = raise (agent_timeout t)
  on_pulled timeout rest (failed e) = raise (stream_error timeout e)

  -- the loop of `stream_final_answer` over `_iter_stream_with_timeout`
  unfoldable pub consume : Option ℕ → List Pull → ℕ → Action String
  consume timeout [] ended = if is_late timeout ended then raise (late_error timeout) else pure ""
  consume timeout (p ∷ ps) ended =
      let rest = consume timeout ps ended in
      if is_late timeout p.elapsed
      then raise (late_error timeout)
      else on_pulled timeout rest p.pulled

  -- `emit_answer_stream_start`
  unfoldable pub emit_answer_stream_start : Action (Unit {0})
  emit_answer_stream_start = emit (token execution_id "")

  unfoldable pub emit_words : List String → Action (Unit {0})
  emit_words [] = pure tt
  emit_words (w ∷ []) = emit (token execution_id w)
  emit_words (w ∷ v ∷ ws) = emit (token execution_id (w ++ " ")) >> emit_words (v ∷ ws)

  unfoldable pub emit_final_content_as_tokens : String → Action (Unit {0})
  emit_final_content_as_tokens content =
      if content == "" then pure tt else emit_words (split_space content)

module _ (env : Env) (request : AgentRequest) where
  abbrev config : AgentConfig
  config = resolved request.config

  unfoldable pub stream_final_answer : String → Action String
  stream_final_answer execution_id = do
    messages ← scratchpad_messages execution_id
    n ← next_call
    let stream = env.stream_chat n request messages
    consume execution_id config.timeout_seconds stream.pulls stream.ended

  -- `operation` of `complete_llm_step`
  unfoldable pub complete_once : List ChatMessage → Action String
  complete_once messages = next_call >>= λ n. lift (env.complete_chat n request messages)

  unfoldable pub complete_llm_step : String → Action String
  complete_llm_step execution_id = do
    messages ← scratchpad_messages execution_id
    retry_operation env (complete_once messages) (llm_retry_policy_from_config (some config))
        is_retryable_agent_error

abbrev pub iteration_limit_message : String
iteration_limit_message =
    "I reached the tool-use limit for this request. Please try a simpler question or ask again."

pub record FinalizeResult : Type 0 where
  pub content : String
  pub finish_reason : String

-- the first step that finalizes, or else the first step
unfoldable pub find_finalize : PlannedStep → List PlannedStep → PlannedStep
find_finalize first [] = first
find_finalize first (s ∷ ss) =
    let rest = find_finalize first ss in elim s.action [ StepAction.finalize ↦ s | _ ↦ rest ]

unfoldable pub resolve_finalize_step : ExecutionPlan → PlannedStep
resolve_finalize_step plan = find_finalize plan.first (plan.first ∷ plan.rest)

unfoldable pub is_iteration_limit_plan : PlannedStep → Bool
is_iteration_limit_plan step = starts_with step.step_id "finalize-limit-"

abbrev says_no_tools : Option String → Bool
says_no_tools none = false
says_no_tools (some r) = occurs (codes "no tools available") (lower r)

unfoldable pub is_no_tools_plan : PlannedStep → Bool
is_no_tools_plan step =
    starts_with step.step_id "finalize-"
    && not (starts_with step.step_id "finalize-limit-")
    && says_no_tools step.reasoning

-- `text or default`
abbrev pub or_else : Option String → String → String
or_else none default = default
or_else (some s) default = if s == "" then default else s

module _ (env : Env) (request : AgentRequest) (execution_id : String) where
  unfoldable pub stream_answer : Action FinalizeResult
  stream_answer = stream_final_answer env request execution_id >>= λ content.
      pure (record { content = content; finish_reason = "stop" })

  unfoldable pub tell : String → String → Action FinalizeResult
  tell content reason =
      emit_final_content_as_tokens execution_id content
      >> pure (record { content = content; finish_reason = reason })

  -- the branches of `finalize_execution`, on the step that it resolved
  unfoldable pub answer : PlannedStep → Option String → Action FinalizeResult
  answer step last_planner_content =
      if is_iteration_limit_plan step
      then tell (or_else last_planner_content iteration_limit_message) "tool_iteration_cap"
      else if is_no_tools_plan step
      then stream_answer
      else let content = strip (or_else step.reasoning "") in
        if content == "" then stream_answer else tell content "stop"

  unfoldable pub finalize_execution : ExecutionPlan → Option String → Action FinalizeResult
  finalize_execution plan last_planner_content =
      emit_answer_stream_start execution_id
      >> answer (resolve_finalize_step plan) last_planner_content
