-- ===== src/Agent/Executor/Kept.antt =====
-- What an execution keeps, if its planner and its reflection engine keep it.
use chatbot_react_python_nod.Prelude.{
  ℕ, String, Bool, true, false, Option, none, some, List, [], ◌≡◌, refl, sym, zero, suc,
}
use chatbot_react_python_nod.Agent.Models.{
  AgentRequest, AgentContext, ExecutionPlan, AgentResponse, Event,
}
use chatbot_react_python_nod.Agent.Exn.{Exn, Result, ok, err, is_agent_error, is_exception}
use chatbot_react_python_nod.Agent.State.{State}
use chatbot_react_python_nod.Agent.Scratchpad.Store
use chatbot_react_python_nod.Agent.Scratchpad.Store.{Store}
use chatbot_react_python_nod.Agent.World.{
  World, Action, emit, raise, modify, continue, catching, ◌>>=◌,
}
use chatbot_react_python_nod.Agent.World.Keeps.{
  Keeps, IsStable, emit-Keeps, on_scratchpad-Keeps, Keeps-bind, Keeps-if, Keeps-lift, Keeps-pure,
  Keeps-raise, Keeps-catching, Publishes, publish-Keeps,
}
use chatbot_react_python_nod.Agent.Env.{Env}
use chatbot_react_python_nod.Agent.Retry.{RetryPolicy}
use chatbot_react_python_nod.Agent.Results.{ToolRunRecord}
use chatbot_react_python_nod.Agent.Reflection.{ReflectionResult}
use chatbot_react_python_nod.Agent.Runner.Kept.{run_tool_steps-Keeps}
use chatbot_react_python_nod.Agent.Answer.Kept.{finalize_execution-Keeps}
use chatbot_react_python_nod.Agent.Executor.{
  record_tool_results, execute_tool_plan, engine, maybe_reflect, finalize_and_complete, rerun,
  settle, act, cycle, stop_at_limit, report, loop, proceed, open_scratchpad, prepare, body, Next,
  done, again,
}

-- the reflection engine that the executor was given
abbrev pub Engine : Type 0
Engine = Option (Option (List ToolRunRecord) → Option String → Action ReflectionResult)

abbrev pub EngineKeeps : (World → Type 0) → Engine → Type 0
EngineKeeps I none = Unit
EngineKeeps I (some r) = (rs : Option (List ToolRunRecord)) (c : Option String) → Keeps I (r rs c)

module _ (env : Env) (policy : RetryPolicy) (plan_next : ℕ → Action ExecutionPlan)
    (reflect : Engine) (request : AgentRequest) (context : AgentContext) {I : World → Type 0}
    (stable : IsStable context.execution_id I) (plans : (n : ℕ) → Keeps I (plan_next n))
    (reflects : EngineKeeps I reflect) where
  pub execute_tool_plan-Keeps :
      (plan : ExecutionPlan) (s : State)
      → Keeps I (execute_tool_plan env policy plan_next reflect request context plan s)
  unfolding execute_tool_plan record_tool_results
  execute_tool_plan-Keeps plan s = Keeps-if _ (Keeps-pure _) (
      Keeps-bind (on_scratchpad-Keeps stable _) λ _.
        Keeps-bind (run_tool_steps-Keeps env policy stable _)
          λ rs. Keeps-bind (on_scratchpad-Keeps stable _) λ _. Keeps-pure _)

  engine-Keeps :
      (rs : Option (List ToolRunRecord)) (c : Option String) (r : Engine)
      → EngineKeeps I r
      → Keeps I (engine env policy plan_next r request context rs c)
  unfolding engine
  engine-Keeps rs c none k = Keeps-raise _
  engine-Keeps rs c (some r) k = k rs c

  pub maybe_reflect-Keeps :
      (s : State) (rs : Option (List ToolRunRecord)) (c : Option String) (plan : ExecutionPlan)
      → Keeps I (maybe_reflect env policy plan_next reflect request context s rs c plan)
  unfolding maybe_reflect
  maybe_reflect-Keeps s rs c plan = Keeps-if _ (Keeps-pure _) (
      Keeps-bind (Keeps-lift _) λ t.
        Keeps-bind (engine-Keeps rs c reflect reflects)
          λ r. Keeps-bind (emit-Keeps stable _ tt) λ _. Keeps-lift _)

  pub rerun-Keeps :
      (o : Option ExecutionPlan) (s : State)
      → Keeps I (rerun env policy plan_next reflect request context o s)
  unfolding rerun
  rerun-Keeps none s = Keeps-pure _
  rerun-Keeps (some plan) s = Keeps-bind (execute_tool_plan-Keeps plan s) λ r. Keeps-pure _

  opened-keeps :
      (w : World) (r : Result Store)
      → r ≡ Store.create w.store context.execution_id
      → I w
      → I (continue r (λ created. modify (λ v. record v { store = created })) w).1
  opened-keeps w (ok created) e i =
      let p : created ≡ Store.write w.store context.execution_id [] =
        Store.create-write w.store context.execution_id created (sym e) in
      rw p (stable.written w [] i)
  opened-keeps w (err x) e i = i

  open_scratchpad-Keeps : Keeps I (open_scratchpad env policy plan_next reflect request context)
  unfolding open_scratchpad ◌>>=◌
  open_scratchpad-Keeps = record { at = λ w i. opened-keeps w _ refl i }

  pub prepare-Keeps : Keeps I (prepare env policy plan_next reflect request context)
  unfolding prepare
  prepare-Keeps =
      Keeps-bind open_scratchpad-Keeps
        λ _. Keeps-bind (on_scratchpad-Keeps stable _) λ _. Keeps-pure _

  module _ (concludes : (e : Event) → Publishes I e) where
    pub finalize_and_complete-Keeps :
        (plan : ExecutionPlan) (s : State) (last : Option String)
        → Keeps I (finalize_and_complete env policy plan_next reflect request context plan s last)
    unfolding finalize_and_complete
    finalize_and_complete-Keeps plan s last =
        Keeps-bind (finalize_execution-Keeps stable env request plan last) λ r.
          Keeps-bind (Keeps-lift _)
            λ t. Keeps-bind (publish-Keeps _ (concludes _)) λ _. Keeps-pure _

    settle-Keeps :
        (b : Bool) (s : State) (last : Option String)
        → Keeps I (settle env policy plan_next reflect request context b s last)
    unfolding settle
    settle-Keeps true s last = Keeps-bind (finalize_and_complete-Keeps _ s last) λ r. Keeps-pure _
    settle-Keeps false s last =
        Keeps-if _ (Keeps-pure _) (Keeps-bind (Keeps-lift _) λ t. Keeps-pure _)

    act-Keeps :
        (plan : ExecutionPlan) (s : State) (last : Option String)
        → Keeps I (act env policy plan_next reflect request context plan s last)
    unfolding act
    act-Keeps plan s last = Keeps-bind (execute_tool_plan-Keeps plan s) λ r.
        Keeps-bind (maybe_reflect-Keeps r.0 r.1 last plan)
          λ d. Keeps-bind (rerun-Keeps d.2 d.0) λ t. settle-Keeps d.1 t last

    cycle-Keeps : (s : State) → Keeps I (cycle env policy plan_next reflect request context s)
    unfolding cycle
    cycle-Keeps s = Keeps-bind (Keeps-lift _) λ t. Keeps-bind (emit-Keeps stable _ tt) λ _.
        Keeps-bind (plans _) λ plan. Keeps-bind (Keeps-lift _) λ u.
          Keeps-if _ (Keeps-bind (finalize_and_complete-Keeps plan u _) λ r. Keeps-pure _)
            (act-Keeps plan u _)

    stop_at_limit-Keeps :
        (s : State) (last : Option String)
        → Keeps I (stop_at_limit env policy plan_next reflect request context s last)
    unfolding stop_at_limit
    stop_at_limit-Keeps s last = Keeps-bind (Keeps-lift _) λ t. finalize_and_complete-Keeps _ t last

    pub report-Keeps : (e : Exn) → Keeps I (report env policy plan_next reflect request context e)
    unfolding report
    report-Keeps e =
        Keeps-if (is_agent_error e) (emit_then_raise _)
          (Keeps-if (is_exception e) (emit_then_raise _) (Keeps-raise e))
      where
        emit_then_raise :
            (event : Event) → Keeps I (emit event >>= λ _. raise {A = AgentResponse} e)
        emit_then_raise event =
            Keeps-bind (publish-Keeps event (concludes event)) λ _. Keeps-raise e

    proceed-Keeps :
        (n : Next) (k : State → Option String → Action AgentResponse)
        → ((s : State) (l : Option String) → Keeps I (k s l))
        → Keeps I (proceed n k)
    unfolding proceed
    proceed-Keeps (done r) k h = Keeps-pure r
    proceed-Keeps (again s l) k h = h s l

    loop-Keeps :
        (fuel : ℕ) (s : State) (last : Option String)
        → Keeps I (loop env policy plan_next reflect request context fuel s last)
    unfolding loop
    loop-Keeps zero s last = Keeps-if _ (Keeps-raise _) (stop_at_limit-Keeps s last)
    loop-Keeps (suc fuel) s last =
        Keeps-if _ (Keeps-bind (cycle-Keeps s) λ n. proceed-Keeps n _ (loop-Keeps fuel))
          (stop_at_limit-Keeps s last)

    body-Keeps : Keeps I (body env policy plan_next reflect request context)
    unfolding body
    body-Keeps = Keeps-bind prepare-Keeps λ s.
        Keeps-bind (emit-Keeps stable _ tt) λ _. Keeps-bind (Keeps-lift _) λ t. loop-Keeps _ t none

    -- up to the `finally` clause
    pub guarded-Keeps : Keeps I (
        catching
          (body env policy plan_next reflect request context)
          (report env policy plan_next reflect request context))
    guarded-Keeps = Keeps-catching body-Keeps report-Keeps
