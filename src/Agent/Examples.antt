-- ===== src/Agent/Examples.antt =====
-- A whole execution, computed, and the theorems on the runtime's parts at the samples.
use chatbot_react_python_nod.Prelude.{
  Worded, max, ℕ, String, ◌≡◌, refl, true, false, Option, none, some, List, [], ◌∷◌, nat_eq,
  if◌then◌else◌, ◌==◌, arith, ◌≤◌, Bool, ◌++◌, length, ◌<◌, Elem, ◌↔◌, concat,
}
use chatbot_react_python_nod.Json.{str, end, field}
use chatbot_react_python_nod.Agent.Models.{
  AgentRequest, default_config, continue_, ExecutionPlan, StepAction,
}
use chatbot_react_python_nod.Agent.Exn.{ok, err, Exn, connection_error, scratchpad_exists}
use chatbot_react_python_nod.Agent.Scratchpad.Store
use chatbot_react_python_nod.Agent.Publisher.{no_op, queue}
use chatbot_react_python_nod.Agent.World.{World, Action}
use chatbot_react_python_nod.Prelude
use chatbot_react_python_nod.Agent.Scratchpad
use chatbot_react_python_nod.Agent.Publisher
use chatbot_react_python_nod.Agent.State
use chatbot_react_python_nod.Agent.Results
use chatbot_react_python_nod.Agent.World
use chatbot_react_python_nod.Agent.Resolver
use chatbot_react_python_nod.Agent.Runner
use chatbot_react_python_nod.Agent.Planner
use chatbot_react_python_nod.Agent.Default
use chatbot_react_python_nod.Json
use chatbot_react_python_nod.Agent.Retry
use chatbot_react_python_nod.Agent.Executor
use chatbot_react_python_nod.Agent.Answer
use chatbot_react_python_nod.Agent.Reflection
use chatbot_react_python_nod.Agent.Executor.Single
use chatbot_react_python_nod.Agent.Default.{execute, stream}
use chatbot_react_python_nod.Agent.Default.Cleanup.{execute_cleans}
use chatbot_react_python_nod.Agent.Default.Rounds.{execute_iterations}
use chatbot_react_python_nod.Agent.Default.Events.{Told, Delivered, stream_ends}
use chatbot_react_python_nod.Agent.State.{State}
use chatbot_react_python_nod.Agent.World.Triples.{Post}
use chatbot_react_python_nod.Agent.Retry.{default_tool_policy}
use chatbot_react_python_nod.Agent.Results.{ToolRunRecord}
use chatbot_react_python_nod.Agent.Default.Duplicate.{execute_duplicate}
use chatbot_react_python_nod.Agent.Executor.Rounds.{loop_bound}
use chatbot_react_python_nod.Agent.Reflection.Rules.{reflect_by_count}
use chatbot_react_python_nod.Agent.Retry.Attempts.{
  Backoffs, LastOf, retry_operation-pauses, retry_operation-attempt,
}
use chatbot_react_python_nod.Agent.Runner.Bracket.{Recorded, Broken, run_single_tool-brackets}
use chatbot_react_python_nod.Agent.Answer.Tokens.{Spoken, stream_final_answer-tokens, tokens}
use chatbot_react_python_nod.Agent.Answer.Words.{emit_final_content_as_tokens-whole}
use chatbot_react_python_nod.Agent.Executor.Single.Left.{execute_plan-again}
use chatbot_react_python_nod.Agent.Samples.{
  sample_env, sample_request, sample_context, sample_world, answered, weather,
}

execute_cleans_example :
    Store.get (execute sample_env sample_request sample_context sample_world).1.store "run-2"
    ≡ (if "run-1" == "run-2" then none else Store.get sample_world.store "run-2")
execute_cleans_example =
    execute_cleans sample_env sample_request sample_context sample_world "run-2"

stream_ends_example :
    let (r, w) = stream sample_env sample_request sample_context sample_world in
    Delivered (Told "run-1" r) w
stream_ends_example = stream_ends sample_env sample_request sample_context sample_world

-- the whole run, computed
sample_run : (execute sample_env sample_request sample_context sample_world).0 ≡ ok answered
unfolding State.has_remaining_iterations State.initial_state State.transition State.begin_iteration
    State.record_tool_used Scratchpad.append_thought Scratchpad.append_tool_result
    Scratchpad.append_provider_message Scratchpad.extend_messages Scratchpad.to_message_context
    Store.create Store.require Store.write Publisher.new_event Publisher.publish World.◌>>=◌
    World.catching World.finally World.on_scratchpad World.emit World.next_call
    Retry.llm_retry_policy_from_config Retry.retry_operation Results.new_record Results.tools_used
    Resolver.resolve_step_batches Runner.id_from Runner.resolve_call_id Runner.attempt_tool
    Runner.execute_with_retry Runner.run_single_tool Runner.run_calls Runner.run_single_step
    Runner.run_step_batch Runner.run_batches Runner.run_tool_steps Answer.emit_answer_stream_start
    Answer.emit_words Answer.emit_final_content_as_tokens Answer.find_finalize
    Answer.resolve_finalize_step Answer.is_iteration_limit_plan Answer.is_no_tools_plan Answer.tell
    Answer.answer Answer.finalize_execution Planner.to_tool_call Planner.parse_tool_completion
    Planner.resolve_tool_schemas Planner.messages_from Planner.conversation_messages
    Planner.build_messages Planner.plan_once Planner.complete_with_tools Planner.thought_on
    Planner.record_reasoning Planner.plan_with Planner.plan_next Executor.format_tool_result
    Executor.assistant_tool_call_message Executor.add_results Executor.announce
    Executor.record_tools_used Executor.proceed Executor.record_tool_results
    Executor.execute_tool_plan Executor.maybe_reflect Executor.finalize_and_complete Executor.rerun
    Executor.settle Executor.act Executor.cycle Executor.loop Executor.open_scratchpad
    Executor.prepare Executor.body Executor.run Default.execute Prelude.strip Prelude.lower
    Prelude.occurs Prelude.split_space Prelude.decimal Json.dumps
sample_run = refl

execute_iterations_example : (1 ≤ 2) × (2 ≤ 5)
execute_iterations_example =
    execute_iterations sample_env sample_request sample_context sample_world answered (omega arith)
      sample_run

execute_duplicate_example :
    let (r, v) =
      execute sample_env sample_request
        (record sample_context { execution_id = "run-2" })
        sample_world in
    (e : Exn) × (r ≡ err e) × (v.calls ≡ 0) × (Store.get v.store "run-2" ≡ none)
unfolding Store.get Prelude.lookup
execute_duplicate_example =
    execute_duplicate sample_env sample_request (record sample_context { execution_id = "run-2" })
      sample_world [] refl

abbrev fresh : State
fresh = State.initial_state sample_context none

loop_bound_example :
    Executor.loop sample_env default_tool_policy
      (Planner.plan_next sample_env sample_request sample_context)
      none
      sample_request
      sample_context
      9
      fresh
      none
      sample_world
    ≡ Executor.loop sample_env default_tool_policy
        (Planner.plan_next sample_env sample_request sample_context)
        none
        sample_request
        sample_context
        5
        fresh
        none
        sample_world
unfolding State.initial_state
loop_bound_example =
    loop_bound sample_env default_tool_policy
      (Planner.plan_next sample_env sample_request sample_context) none sample_request
      sample_context 9 5 fresh none sample_world (omega arith) (omega arith)

abbrev ran : Bool → ToolRunRecord
ran good = record {
  step_id = "tool-0";
  call = record { name = "weather"; arguments = end; call_id = some "call-1" };
  result = record weather { success = good };
}

abbrev reflecting : AgentRequest
reflecting = record sample_request {
  config = some (record default_config { reflection_enabled = true });
}

reflect_by_count_example :
    Reflection.reflect sample_env reflecting "run-1"
      (some (ran true ∷ ran false ∷ []))
      none
      sample_world
    ≡ (
      ok (record {
        decision = continue_;
        reason = some (Reflection.rule_reason continue_);
        source = Reflection.rules;
      }),
      sample_world,
    )
unfolding Reflection.is_blank
reflect_by_count_example =
    reflect_by_count sample_env reflecting "run-1" (ran true) (ran false ∷ []) none sample_world
      refl

-- an operation that always fails, and may be tried again
abbrev refusing : Action String
refusing w = (err connection_error, w)

retry_operation-pauses_example :
    (ds : List ℕ) × Backoffs 1000 0 ds
    × (length ds < 3)
    × ((Retry.retry_operation sample_env refusing default_tool_policy
          (λ e. true)
          sample_world).1.slept
        ≡ [] ++ ds)
retry_operation-pauses_example =
    retry_operation-pauses sample_env (λ n bound. omega arith) String refusing (λ w. refl)
      default_tool_policy (λ e. true) sample_world

abbrev open_world : World
open_world = record sample_world { store = ("run-1", []) ∷ []; publisher = queue [] false }

run_single_tool-brackets_example :
    Post (Recorded "run-1" (ran true).call []) (Broken "run-1" (ran true).call []) (
      Runner.run_single_tool sample_env default_tool_policy "run-1" "tool-0"
        (ran true).call
        open_world)
run_single_tool-brackets_example =
    run_single_tool-brackets sample_env default_tool_policy "run-1" "tool-0" (ran true).call []
      open_world refl

streamed : (Answer.stream_final_answer sample_env sample_request "run-1" open_world).0 ≡ ok "Sunny."
unfolding Answer.stream_final_answer World.◌>>=◌ Answer.scratchpad_messages Store.require
    Prelude.lookup Answer.chat_messages Scratchpad.to_message_context World.next_call Answer.consume
    Answer.on_pulled Answer.emit_token World.emit Publisher.new_event Publisher.publish
streamed = refl

stream_final_answer-tokens_example :
    Spoken "run-1" [] "Sunny."
      (Answer.stream_final_answer sample_env sample_request "run-1" open_world).1
stream_final_answer-tokens_example =
    stream_final_answer-tokens sample_env sample_request "run-1" [] open_world "Sunny." refl
      streamed

emit_final_content_as_tokens-whole_example :
    (ts : List String) × (concat ts ≡ "It is sunny.")
    × Worded ts
    × (Answer.emit_final_content_as_tokens "run-1" "It is sunny." open_world
        ≡ (ok tt, record open_world { publisher = queue ([] ++ tokens "run-1" ts) false }))
emit_final_content_as_tokens-whole_example =
    emit_final_content_as_tokens-whole "run-1" "It is sunny." open_world [] refl refl

abbrev tool_plan : ExecutionPlan
tool_plan = record {
  first = record {
    step_id = "tool-0";
    action = StepAction.tool_call;
    tool_calls = (ran true).call ∷ [];
    depends_on = [];
    reasoning = none;
  };
  rest = [];
  iteration = 0;
  is_final = false;
}

execute_plan-again_example :
    let single =
      Single.execute_plan sample_env default_tool_policy
        (Planner.plan_next sample_env sample_request sample_context)
        (some (Reflection.reflect sample_env sample_request "run-1"))
        sample_request
        sample_context in
    let v = (single true tool_plan sample_world).1 in
    single true tool_plan v ≡ (err (scratchpad_exists "run-1"), v)
execute_plan-again_example =
    execute_plan-again sample_env default_tool_policy sample_request sample_context true true
      tool_plan tool_plan sample_world

retry_operation-attempt_example :
    LastOf sample_env refusing default_tool_policy.base_delay
      (λ e. true)
      sample_world
      (max 1 default_tool_policy.max_retries)
      (Retry.retry_operation sample_env refusing default_tool_policy (λ e. true) sample_world)
retry_operation-attempt_example =
    retry_operation-attempt sample_env String refusing default_tool_policy (λ e. true) sample_world
