-- ===== src/Agent/Runner/Kept.antt =====
-- What running tools keeps.
use chatbot_react_python_nod.Prelude.{String, Option, none, some, List, [], ◌∷◌, ℕ, ◌+◌}
use chatbot_react_python_nod.Agent.Models.{ToolCall, PlannedStep}
use chatbot_react_python_nod.Agent.Exn.{Exn, tool_retryable}
use chatbot_react_python_nod.Agent.World.{World, next_call}
use chatbot_react_python_nod.Agent.World.Keeps.{
  Keeps, IsStable, keeps_rules, emit-Keeps, next_call-Keeps, Keeps-bind, Keeps-if, Keeps-lift,
  Keeps-pure, Keeps-raise,
}
use chatbot_react_python_nod.Agent.Env.{Env}
use chatbot_react_python_nod.Agent.Retry.{RetryPolicy}
use chatbot_react_python_nod.Agent.Retry.Kept.{retry_operation-Keeps}
use chatbot_react_python_nod.Agent.Runner.{
  id_from, resolve_call_id, attempt_tool, execute_with_retry, last_result, report_failure,
  run_single_tool, run_calls, run_single_step, run_step_batch, run_batches, run_tool_steps,
}

module _ (env : Env) (policy : RetryPolicy) (x : String) {I : World → Type 0}
    (called : (w : World) → I w → I (record w { calls = w.calls + 1 }))
    (paused : (w : World) (ds : List ℕ) → I w → I (record w { slept = ds })) where
  numbered-Keeps : Keeps I next_call
  unfolding next_call
  numbered-Keeps = record { at = called }

  attempt-Keeps : (call : ToolCall) → Keeps I (attempt_tool env policy x call)
  unfolding attempt_tool
  attempt-Keeps call =
      Keeps-bind numbered-Keeps
        λ n. Keeps-bind (Keeps-lift _) λ r. Keeps-if _ (Keeps-raise _) (Keeps-pure _)

  last_result-Keeps : (e : Exn) → Keeps I (last_result e)
  unfolding last_result
  last_result-Keeps (tool_retryable r) = search keeps_rules
  last_result-Keeps _ = search keeps_rules

  pub execute_with_retry-Keeps : (call : ToolCall) → Keeps I (execute_with_retry env policy x call)
  unfolding execute_with_retry
  execute_with_retry-Keeps call =
      search (keeps_rules, retry_operation-Keeps env paused, attempt-Keeps, last_result-Keeps)

module _ (env : Env) (policy : RetryPolicy) {x : String} {I : World → Type 0}
    (stable : IsStable x I) where
  id-Keeps :
      (call : ToolCall) (step_id : String) → Keeps I (resolve_call_id env policy x call step_id)
  unfolding resolve_call_id id_from
  id-Keeps call step_id = from call.call_id
    where
      from : (o : Option String) → Keeps I (id_from env policy x step_id o)
      from none = search (keeps_rules, next_call-Keeps stable)
      from (some id) = search keeps_rules

  retried-Keeps : (call : ToolCall) → Keeps I (execute_with_retry env policy x call)
  retried-Keeps call = execute_with_retry-Keeps env policy x stable.called stable.paused call

  report_failure-Keeps :
      (name id : String) (e : Exn) → Keeps I (report_failure env policy x name id e)
  unfolding report_failure
  report_failure-Keeps name id e = search (keeps_rules, Keeps-bind, Keeps-lift, emit-Keeps stable)

  run_single_tool-Keeps :
      (step_id : String) (call : ToolCall) → Keeps I (run_single_tool env policy x step_id call)
  unfolding run_single_tool
  run_single_tool-Keeps step_id call =
      search (keeps_rules, emit-Keeps stable, id-Keeps, retried-Keeps, report_failure-Keeps)

  run_calls-Keeps :
      (step_id : String) (calls : List ToolCall) → Keeps I (run_calls env policy x step_id calls)
  unfolding run_calls
  run_calls-Keeps step_id [] = search keeps_rules
  run_calls-Keeps step_id (c ∷ cs) =
      Keeps-bind (run_single_tool-Keeps step_id c)
        λ r. Keeps-bind (run_calls-Keeps step_id cs) λ rs. Keeps-pure _

  run_step_batch-Keeps : (steps : List PlannedStep) → Keeps I (run_step_batch env policy x steps)
  unfolding run_step_batch run_single_step
  run_step_batch-Keeps [] = search keeps_rules
  run_step_batch-Keeps (s ∷ ss) =
      Keeps-bind (run_calls-Keeps s.step_id s.tool_calls)
        λ r. Keeps-bind (run_step_batch-Keeps ss) λ rs. Keeps-pure _

  run_batches-Keeps : (bs : List (List PlannedStep)) → Keeps I (run_batches env policy x bs)
  unfolding run_batches
  run_batches-Keeps [] = search keeps_rules
  run_batches-Keeps (b ∷ bs) =
      Keeps-bind (run_step_batch-Keeps b) λ r. Keeps-bind (run_batches-Keeps bs) λ rs. Keeps-pure _

  pub run_tool_steps-Keeps :
      (steps : List PlannedStep) → Keeps I (run_tool_steps env policy x steps)
  unfolding run_tool_steps
  run_tool_steps-Keeps steps = Keeps-bind (Keeps-lift _) λ bs. run_batches-Keeps bs
