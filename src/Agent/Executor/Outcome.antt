-- ===== src/Agent/Executor/Outcome.antt =====
-- How the events of an execution end: with COMPLETE if it returns, with ERROR if it raises.
use chatbot_react_python_nod.Prelude.{
  ℕ, zero, suc, String, ◌≡◌, refl, Bool, true, false, Option, none, some, List, ◌⊎◌, inl, inr,
  if◌then◌else◌, Bool-cases, All,
}
use chatbot_react_python_nod.Agent.Models.{
  AgentRequest, AgentContext, AgentResponse, ExecutionPlan, Event, complete, error,
}
use chatbot_react_python_nod.Agent.Exn.{
  Exn, Result, is_agent_error, is_exception, message, validation_error,
}
use chatbot_react_python_nod.Agent.State.{State}
use chatbot_react_python_nod.Agent.World.{World, Action, emit, lift, raise, catching, ◌>>=◌}
use chatbot_react_python_nod.Agent.World.Keeps.{Keeps, emit-Keeps, Keeps-lift}
use chatbot_react_python_nod.Agent.World.Triples.{
  Triple, Triple-pure, Triple-raise, Triple-bind, Triple-if, Triple-weaken, Triple-catching,
  Triple-keeps,
}
use chatbot_react_python_nod.Agent.World.Streamed.{Holds, EndsIn, Open, Open-IsStable, emit-Triple}
use chatbot_react_python_nod.Agent.Env.{Env}
use chatbot_react_python_nod.Agent.Retry.{RetryPolicy}
use chatbot_react_python_nod.Agent.Answer.Kept.{finalize_execution-Keeps}
use chatbot_react_python_nod.Agent.Executor.Kept.{
  Engine, EngineKeeps, execute_tool_plan-Keeps, maybe_reflect-Keeps, rerun-Keeps, prepare-Keeps,
}
use chatbot_react_python_nod.Agent.Publisher.{IsProgress}
use chatbot_react_python_nod.Agent.Executor.{
  Next, done, again, proceed, finalize_and_complete, settle, act, cycle, stop_at_limit, loop, body,
  report,
}

-- the last event tells the response's finish reason and tools
abbrev pub Completed : String → AgentResponse → World → Type 0
Completed x r w =
    (reason : String) × (r.finish_reason ≡ some reason)
    × Holds (EndsIn (complete x reason r.tools_used)) w

-- An agent error is reported with its message, any other `Exception` with a fixed one, unless the report
-- itself is refused; a cancellation is not reported.
abbrev pub ToldError : String → Exn → List Event → Type 0
ToldError x e es =
    if is_agent_error e
    then EndsIn (error x "agent_error" (message e)) es
    else if is_exception e
    then (EndsIn (error x "agent_error" "Agent execution failed.") es
        ⊎ ((e ≡ validation_error) × All IsProgress es))
    else All IsProgress es

abbrev pub Reported : String → Exn → World → Type 0
Reported x e w = Holds (ToldError x e) w

abbrev Passed : String → Next → World → Type 0
Passed x (done r) w = Completed x r w
Passed x (again s l) w = Open w

abbrev StillOpen : Exn → World → Type 0
StillOpen e w = Open w

module _ (env : Env) (policy : RetryPolicy) (plan_next : ℕ → Action ExecutionPlan)
    (reflect : Engine) (request : AgentRequest) (context : AgentContext)
    (plans : (n : ℕ) → Keeps Open (plan_next n)) (reflects : EngineKeeps Open reflect) where
  abbrev x : String
  x = context.execution_id

  lifted : {A : Type 0} (r : Result A) → Triple Open (lift r) (λ a. Open) StillOpen
  lifted r = Triple-keeps (Keeps-lift r)

  finalize_and_complete-Completed :
      (plan : ExecutionPlan) (s : State) (last : Option String)
      → Triple Open
          (finalize_and_complete env policy plan_next reflect request context plan s last)
          (Completed x)
          StillOpen
  unfolding finalize_and_complete
  finalize_and_complete-Completed plan s last =
      Triple-bind (Triple-keeps (finalize_execution-Keeps (Open-IsStable x) env request plan last))
        λ r. Triple-bind (lifted _) λ t.
          Triple-bind (Triple-weaken (emit-Triple _) (λ _ v h. h) (λ y v h. h.1))
            λ _. Triple-pure _ (λ w h. (r.finish_reason, refl, h))

  settle-Passed :
      (b : Bool) (s : State) (last : Option String)
      → Triple Open
          (settle env policy plan_next reflect request context b s last)
          (Passed x)
          StillOpen
  unfolding settle
  settle-Passed true s last =
      Triple-bind (finalize_and_complete-Completed _ s last) λ r. Triple-pure _ (λ w h. h)
  settle-Passed false s last =
      Triple-if _ (Triple-pure _ (λ w h. h)) (Triple-bind (lifted _) λ t. Triple-pure _ (λ w h. h))

  act-Passed :
      (plan : ExecutionPlan) (s : State) (last : Option String)
      → Triple Open
          (act env policy plan_next reflect request context plan s last)
          (Passed x)
          StillOpen
  unfolding act
  act-Passed plan s last =
      Triple-bind
        (Triple-keeps (
          execute_tool_plan-Keeps env policy plan_next reflect request context (Open-IsStable x)
            plans reflects plan s))
        λ r.
          Triple-bind
            (Triple-keeps (
              maybe_reflect-Keeps env policy plan_next reflect request context (Open-IsStable x)
                plans reflects r.0 r.1 last plan))
            λ d.
              Triple-bind
                (Triple-keeps (
                  rerun-Keeps env policy plan_next reflect request context (Open-IsStable x) plans
                    reflects d.2 d.0))
                λ t. settle-Passed d.1 t last

  cycle-Passed :
      (s : State)
      → Triple Open (cycle env policy plan_next reflect request context s) (Passed x) StillOpen
  unfolding cycle
  cycle-Passed s = Triple-bind (lifted _) λ t.
      Triple-bind (Triple-keeps (emit-Keeps (Open-IsStable x) _ tt)) λ _.
        Triple-bind (Triple-keeps (plans _)) λ plan. Triple-bind (lifted _) λ u.
          Triple-if _
            (Triple-bind (finalize_and_complete-Completed plan u _) λ r. Triple-pure _ (λ w h. h))
            (act-Passed plan u _)

  stop_at_limit-Completed :
      (s : State) (last : Option String)
      → Triple Open
          (stop_at_limit env policy plan_next reflect request context s last)
          (Completed x)
          StillOpen
  unfolding stop_at_limit
  stop_at_limit-Completed s last =
      Triple-bind (lifted _) λ t. finalize_and_complete-Completed _ t last

  proceed-Completed :
      (n : Next) (k : State → Option String → Action AgentResponse)
      → ((s : State) (l : Option String) → Triple Open (k s l) (Completed x) StillOpen)
      → Triple (Passed x n) (proceed n k) (Completed x) StillOpen
  unfolding proceed
  proceed-Completed (done r) k h = Triple-pure r (λ w i. i)
  proceed-Completed (again s l) k h = h s l

  loop-Completed :
      (fuel : ℕ) (s : State) (last : Option String)
      → Triple Open
          (loop env policy plan_next reflect request context fuel s last)
          (Completed x)
          StillOpen
  unfolding loop
  loop-Completed zero s last =
      Triple-if _ (Triple-raise _ (λ w h. h)) (stop_at_limit-Completed s last)
  loop-Completed (suc fuel) s last =
      Triple-if _ (Triple-bind (cycle-Passed s) λ n. proceed-Completed n _ (loop-Completed fuel))
        (stop_at_limit-Completed s last)

  body-Completed :
      Triple Open (body env policy plan_next reflect request context) (Completed x) StillOpen
  unfolding body
  body-Completed =
      Triple-bind
        (Triple-keeps (
          prepare-Keeps env policy plan_next reflect request context (Open-IsStable x) plans
            reflects))
        λ s.
          Triple-bind (Triple-keeps (emit-Keeps (Open-IsStable x) _ tt))
            λ _. Triple-bind (lifted _) λ t. loop-Completed _ t none

  refused-Reported : (y : Exn) (w : World) → (y ≡ validation_error) × Open w → Reported x y w
  unfolding is_agent_error is_exception
  refused-Reported y w (e, (es, all, q)) = (es, rw e (inr (refl, all)), q)

  agent-Reported :
      (e : Exn) (w : World)
      → is_agent_error e ≡ true
      → Holds (EndsIn (error x "agent_error" (message e))) w
      → Reported x e w
  agent-Reported e w a (es, h, q) = (es, rw a h, q)

  other-Reported :
      (e : Exn) (w : World)
      → is_agent_error e ≡ false
      → is_exception e ≡ true
      → Holds (EndsIn (error x "agent_error" "Agent execution failed.")) w
      → Reported x e w
  other-Reported e w a b (es, h, q) = (es, rw (a, b) (inl h), q)

  silent-Reported :
      (e : Exn) (w : World)
      → is_agent_error e ≡ false
      → is_exception e ≡ false
      → Open w
      → Reported x e w
  silent-Reported e w a b (es, h, q) = (es, rw (a, b) h, q)

  tell_and_raise :
      (event : Event) (e : Exn)
      → ((w : World) → Holds (EndsIn event) w → Reported x e w)
      → Triple Open (emit event >>= λ _. raise {A = AgentResponse} e) (Completed x) (Reported x)
  tell_and_raise event e h =
      Triple-bind (Triple-weaken (emit-Triple event) (λ _ w i. i) refused-Reported)
        λ _. Triple-raise e h

  report-Reported :
      (e : Exn)
      → Triple Open
          (report env policy plan_next reflect request context e)
          (Completed x)
          (Reported x)
  unfolding report is_agent_error
  report-Reported e = elim (Bool-cases (is_agent_error e)) [
    | inl a ↦ rw (report, a) (tell_and_raise _ e (λ w. agent-Reported e w a))
    | inr a ↦ elim (Bool-cases (is_exception e)) [
      | inl b ↦ rw (report, a, b) (tell_and_raise _ e (λ w. other-Reported e w a b))
      | inr b ↦ rw (report, a, b) (Triple-raise e (λ w. silent-Reported e w a b))
    ]
  ]

  -- what the `try` block leaves in the queue
  pub guarded-Reported :
      Triple Open
        (catching
          (body env policy plan_next reflect request context)
          (report env policy plan_next reflect request context))
        (Completed x)
        (Reported x)
  guarded-Reported = Triple-catching body-Completed report-Reported
