-- ===== src/Agent/Executor.antt =====
-- The execution loop: `AgentExecutor` of backend-python/app/ai/agent/executor/agent_executor.py. The
-- planner and the reflection engine are arguments, as they are in the source.
pub mod Kept
pub mod Counters
pub mod Rounds
pub mod Outcome
pub mod Single
use Prim.Native.String.{◌++◌}
use chatbot_react_python_nod.Prelude.{
  ℕ, zero, suc, ◌+◌, ◌-◌, String, ◌==◌, Bool, true, false, not, ◌||◌, Option, none, some, List, [],
  ◌∷◌, map, if◌then◌else◌, leb, is_empty, select, decimal,
}
use chatbot_react_python_nod.Json.{Json, null, bool, str, obj, end, field, dumps}
use chatbot_react_python_nod.Agent.Models.{
  AgentRequest, AgentContext, AgentConfig, AgentResponse, Status, StepAction, PlannedStep,
  ExecutionPlan, ToolCall, ToolResult, ReflectionDecision, replan, retry_step, continue_, finish,
  resolved, start, planned, reflected, complete, error,
}
use chatbot_react_python_nod.Agent.Exn.{
  Exn, Result, ok, err, value_error, other_error, is_agent_error, is_exception, message,
}
use chatbot_react_python_nod.Agent.State.{
  State, status_eq, initial_state, transition, begin_iteration, has_remaining_iterations,
  record_tool_used, record_reflection, mark_iteration_limit_reached,
}
use chatbot_react_python_nod.Agent.Scratchpad.{
  Entry, CallEntry, ProviderMessage, append_tool_result, append_provider_message, append_thought,
  extend_messages,
}
use chatbot_react_python_nod.Agent.Scratchpad.Store
use chatbot_react_python_nod.Agent.Publisher
use chatbot_react_python_nod.Agent.World.{
  World, Action, pure, raise, lift, gets, ◌>>=◌, ◌>>◌, modify, catching, finally, emit,
  on_scratchpad,
}
use chatbot_react_python_nod.Agent.Env.{Env}
use chatbot_react_python_nod.Agent.Retry.{RetryPolicy}
use chatbot_react_python_nod.Agent.Results.{ToolRunRecord, tools_used}
use chatbot_react_python_nod.Agent.Resolver.{is_tool_step}
use chatbot_react_python_nod.Agent.Runner.{run_tool_steps}
use chatbot_react_python_nod.Agent.Answer.{FinalizeResult, finalize_execution, or_else}
use chatbot_react_python_nod.Agent.Planner.{one_step, build_iteration_limit_plan}
use chatbot_react_python_nod.Agent.Reflection.{ReflectionResult, has_records}

abbrev json_text : Option String → Json
json_text none = null
json_text (some s) = str s

unfoldable pub format_tool_result : ToolResult → String
format_tool_result r = dumps (
    obj (
      field "success" (bool r.success) (
        field "data" r.result
          (field "error" (json_text r.error) (field "error_code" (json_text r.error_code) end)))))

-- `call.call_id or call.name`
abbrev pub announced_id : ToolCall → String
announced_id c = or_else c.call_id c.name

-- `record.call.call_id or record.step_id`
abbrev pub answered_id : ToolRunRecord → String
answered_id r = or_else r.call.call_id r.step_id

abbrev call_entry : ToolCall → CallEntry
call_entry c = record { id = announced_id c; name = c.name; arguments = dumps (obj c.arguments) }

unfoldable pub assistant_tool_call_message : Option String → List ToolCall → ProviderMessage
assistant_tool_call_message content calls = record {
  content = content;
  tool_calls = map call_entry calls;
}

unfoldable pub add_results : List Entry → List ToolRunRecord → Result (List Entry)
add_results entries [] = ok entries
add_results entries (r ∷ rs) =
    elim (append_tool_result entries (answered_id r) (format_tool_result r.result)) [
      | ok next ↦ add_results next rs
      | err e ↦ err e
    ]

unfoldable pub announce : List Entry → List PlannedStep → Result (List Entry)
announce entries [] = ok entries
announce entries (s ∷ ss) =
    let rest = announce entries ss in
    if is_empty s.tool_calls
    then rest
    else elim (append_provider_message entries
        (assistant_tool_call_message s.reasoning s.tool_calls)) [
          | ok next ↦ announce next ss
          | err e ↦ err e
        ]

unfoldable pub record_tools_used : State → List String → State
record_tools_used s [] = s
record_tools_used s (n ∷ ns) = record_tools_used (record_tool_used s n) ns

-- what a pass of the loop leads to
pub data Next : Type 0 where
  done : AgentResponse → Next
  again : State → Option String → Next

-- return, or go on with the loop
unfoldable pub proceed :
    Next → (State → Option String → Action AgentResponse) → Action AgentResponse
proceed (done r) k = pure r
proceed (again s last) k = k s last

module _ (env : Env) (policy : RetryPolicy) (plan_next : ℕ → Action ExecutionPlan)
    (reflect : Option (Option (List ToolRunRecord) → Option String → Action ReflectionResult))
    (request : AgentRequest) (context : AgentContext) where
  abbrev config : AgentConfig
  config = resolved request.config

  -- `_record_tool_results`
  unfoldable pub record_tool_results : List ToolRunRecord → Action (Unit {0})
  record_tool_results records = on_scratchpad context.execution_id (λ es. add_results es records)

  unfoldable pub execute_tool_plan :
      ExecutionPlan → State → Action (State × Option (List ToolRunRecord))
  execute_tool_plan plan s =
      let steps = select is_tool_step (plan.first ∷ plan.rest) in
      if is_empty steps
      then pure (s, none)
      else (on_scratchpad context.execution_id (λ es. announce es steps)
          >> (run_tool_steps env policy context.execution_id steps >>= λ records.
              record_tool_results records
              >> pure (record_tools_used s (tools_used records), some records)))

  -- `_resolve_reflection_engine`
  unfoldable pub engine : Option (List ToolRunRecord) → Option String → Action ReflectionResult
  engine results content = elim reflect [
    | some r ↦ r results content
    | none ↦ raise (
        value_error
          "prompt_manager is required when reflection is enabled and no reflection_engine is provided")
  ]

  -- what each decision leads to: the state, whether to finalize, and a plan to run again
  unfoldable pub follow :
      ReflectionDecision → State → ExecutionPlan → Result (State × Bool × Option ExecutionPlan)
  follow retry_step s plan = elim (transition s Status.executing none) [
    | ok t ↦ ok (t, false, some plan)
    | err e ↦ err e
  ]
  follow finish s plan = elim (transition s Status.executing none) [
    | ok t ↦ ok (t, true, none)
    | err e ↦ err e
  ]
  follow d s plan = elim (transition s Status.planning none) [
    | ok t ↦ ok (t, false, none)
    | err e ↦ err e
  ]

  unfoldable pub maybe_reflect :
      State
      → Option (List ToolRunRecord)
      → Option String
      → ExecutionPlan
      → Action (State × Bool × Option ExecutionPlan)
  maybe_reflect s results content plan =
      if not config.reflection_enabled
        || not (has_records results)
        || leb config.max_reflections s.reflection_count
      then pure (s, false, none)
      else do
        t ← lift (transition s Status.reflecting none)
        result ← engine results content
        let u = record_reflection t
        emit (reflected context.execution_id result.decision result.reason)
        lift (follow result.decision u plan)

  unfoldable pub finalize_and_complete :
      ExecutionPlan → State → Option String → Action AgentResponse
  finalize_and_complete plan s last_content = do
    result ← finalize_execution env request context.execution_id plan last_content
    t ← lift (transition s Status.completed none)
    emit (complete context.execution_id result.finish_reason t.tools_used)
    pure (record {
      content = result.content;
      tools_used = t.tools_used;
      iterations = t.current_iteration;
      finish_reason = some result.finish_reason;
    })

  -- the plan that FINISH leads to
  abbrev finish_plan : State → Option String → ExecutionPlan
  finish_plan s content =
      one_step ("finalize-reflect-" ++ decimal s.current_iteration) StepAction.finalize [] content
        s.current_iteration true

  unfoldable pub rerun : Option ExecutionPlan → State → Action State
  rerun none s = pure s
  rerun (some plan) s = execute_tool_plan plan s >>= λ r. pure r.0

  -- the end of a pass: finalize, or plan again
  unfoldable pub settle : Bool → State → Option String → Action Next
  settle true s last = finalize_and_complete (finish_plan s last) s last >>= λ r. pure (done r)
  settle false s last =
      if status_eq s.status Status.planning
      then pure (again s last)
      else (lift (transition s Status.planning none) >>= λ t. pure (again t last))

  -- a pass with a plan that is not final, from its execution on
  unfoldable pub act : ExecutionPlan → State → Option String → Action Next
  act plan s last = do
    r ← execute_tool_plan plan s
    d ← maybe_reflect r.0 r.1 last plan
    t ← rerun d.2 d.0
    settle d.1 t last

  unfoldable pub cycle : State → Action Next
  cycle s = do
    t ← lift (begin_iteration s)
    emit (planned context.execution_id (t.current_iteration - 1))
    plan ← plan_next (t.current_iteration - 1)
    u ← lift (transition t Status.executing none)
    if plan.is_final
        then (finalize_and_complete plan u plan.first.reasoning >>= λ r. pure (done r))
        else act plan u plan.first.reasoning

  -- after the loop
  unfoldable pub stop_at_limit : State → Option String → Action AgentResponse
  stop_at_limit s last = do
    t ← lift (transition (mark_iteration_limit_reached s) Status.executing none)
    finalize_and_complete (build_iteration_limit_plan s.current_iteration) t last

  -- the loop with `fuel` passes at most; `max_iterations` are enough
  unfoldable pub loop : ℕ → State → Option String → Action AgentResponse
  loop zero s last =
      if has_remaining_iterations s then raise (other_error "out of fuel") else stop_at_limit s last
  loop (suc fuel) s last =
      if has_remaining_iterations s
      then cycle s >>= (λ n. proceed n (loop fuel))
      else stop_at_limit s last

  -- `store.create`
  unfoldable pub open_scratchpad : Action (Unit {0})
  open_scratchpad = do
    s ← gets (λ w. w.store)
    created ← lift (Store.create s context.execution_id)
    modify (λ w. record w { store = created })

  -- `create_initial_state`, `require` and `extend_messages`; the new scratchpad is empty
  unfoldable pub prepare : Action State
  prepare = do
    open_scratchpad
    on_scratchpad context.execution_id
        (λ es. if is_empty es then extend_messages es request.messages else ok es)
    pure (initial_state context request.config)

  unfoldable pub body : Action AgentResponse
  body = do
    s ← prepare
    emit (start context.execution_id)
    t ← lift (transition s Status.planning none)
    loop t.max_iterations t none

  -- the two `except` clauses
  unfoldable pub report : Exn → Action AgentResponse
  report e =
      if is_agent_error e
      then emit (error context.execution_id "agent_error" (message e)) >> raise e
      else if is_exception e
      then emit (error context.execution_id "agent_error" "Agent execution failed.") >> raise e
      else raise e

  -- the `finally` clause
  unfoldable pub cleanup : World → World
  cleanup w = record w {
    publisher = Publisher.close w.publisher;
    store = Store.drop w.store context.execution_id;
  }

  unfoldable pub run : Action AgentResponse
  run = finally (catching body report) cleanup
