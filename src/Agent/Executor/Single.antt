-- ===== src/Agent/Executor/Single.antt =====
-- One plan or one step alone: `execute_plan` and `execute_step` of `AgentExecutor` in
-- backend-python/app/ai/agent/executor/agent_executor.py. `given` tells whether the caller passed a
-- tool context.
pub mod Left
use chatbot_react_python_nod.Prelude.{
  ℕ, String, ◌==◌, Bool, true, not, Option, none, some, List, [], ◌∷◌, if◌then◌else◌,
}
use chatbot_react_python_nod.Agent.Models.{
  AgentRequest, AgentContext, AgentResponse, ExecutionPlan, PlannedStep, StepAction, Status,
}
use chatbot_react_python_nod.Agent.Exn.{value_error}
use chatbot_react_python_nod.Agent.State.{State, transition}
use chatbot_react_python_nod.Agent.Scratchpad.{Entry, append_thought, extend_messages}
use chatbot_react_python_nod.Agent.Scratchpad.Store
use chatbot_react_python_nod.Agent.World.{
  World, Action, pure, raise, lift, gets, ◌>>=◌, ◌>>◌, on_scratchpad,
}
use chatbot_react_python_nod.Agent.Env.{Env}
use chatbot_react_python_nod.Agent.Retry.{RetryPolicy}
use chatbot_react_python_nod.Agent.Results.{ToolRunRecord}
use chatbot_react_python_nod.Agent.Runner.{run_tool_steps}
use chatbot_react_python_nod.Agent.Answer.{FinalizeResult, complete_llm_step, finalize_execution}
use chatbot_react_python_nod.Agent.Executor.Kept.{Engine}
use chatbot_react_python_nod.Agent.Executor.{
  announce, open_scratchpad, prepare, execute_tool_plan, finalize_and_complete, record_tool_results,
}

-- what `execute_step` returns
pub data StepOutcome : Type 0 where
  ran : List ToolRunRecord → StepOutcome
  answered : String → StepOutcome
  finalized : FinalizeResult → StepOutcome

module _ (env : Env) (policy : RetryPolicy) (plan_next : ℕ → Action ExecutionPlan)
    (reflect : Engine) (request : AgentRequest) (context : AgentContext) where
  -- the answer to a plan that is not final
  abbrev unfinished : State → AgentResponse
  unfinished s = record {
    content = "";
    tools_used = s.tools_used;
    iterations = s.current_iteration;
    finish_reason = some "continue";
  }

  unfoldable pub plan_alone : Bool → ExecutionPlan → State → Action AgentResponse
  plan_alone given plan s =
      if plan.is_final
      then (lift (transition s Status.executing none) >>= λ u.
          finalize_and_complete env policy plan_next reflect request context plan u none)
      else if not given
      then raise (value_error "tool_context is required for non-final plans")
      else (lift (transition s Status.executing none) >>= λ u.
          execute_tool_plan env policy plan_next reflect request context plan u >>= λ r.
          pure (unfinished r.0))

  unfoldable pub execute_plan : Bool → ExecutionPlan → Action AgentResponse
  execute_plan given plan = do
    s ← prepare env policy plan_next reflect request context
    t ← lift (transition s Status.planning none)
    plan_alone given plan t

  -- the scratchpad that is there, or else a new one with the request's messages
  unfoldable pub found_or_new : Option (List Entry) → Action (Unit {0})
  found_or_new (some es) = pure tt
  found_or_new none =
      open_scratchpad env policy plan_next reflect request context
      >> on_scratchpad context.execution_id (λ es. extend_messages es request.messages)

  -- `if completion.content: scratchpad.append_thought(…)`
  unfoldable pub thought_of : String → Action (Unit {0})
  thought_of text =
      if text == ""
      then pure tt
      else on_scratchpad context.execution_id (λ es. append_thought es text)

  unfoldable pub step_alone : Bool → PlannedStep → StepAction → Action StepOutcome
  step_alone given step StepAction.tool_call =
      if not given
      then raise (value_error "tool_context is required for tool steps")
      else (on_scratchpad context.execution_id (λ es. announce es (step ∷ []))
          >> (run_tool_steps env policy context.execution_id (step ∷ []) >>= λ records.
              record_tool_results env policy plan_next reflect request context records
              >> pure (ran records)))
  step_alone given step StepAction.llm =
      complete_llm_step env request context.execution_id >>= λ text.
      thought_of text >> pure (answered text)
  step_alone given step StepAction.finalize =
      finalize_execution env request context.execution_id
        (record { first = step; rest = []; iteration = 0; is_final = true }) none
      >>= λ result. pure (finalized result)

  unfoldable pub execute_step : Bool → PlannedStep → Action StepOutcome
  execute_step given step = do
    s ← gets (λ w. w.store)
    found_or_new (Store.get s context.execution_id)
    step_alone given step step.action
