-- ===== src/Agent/Executor/Single/Left.antt =====
-- What `execute_plan` leaves in the scratchpad store.
use chatbot_react_python_nod.Prelude.{
  ℕ, String, ◌≡◌, ap, ◌∙◌, Bool, none, some, List, [], if◌then◌else◌, inl, inr, eq_refl, lookup,
}
use chatbot_react_python_nod.Agent.Models.{AgentRequest, AgentContext, AgentResponse, ExecutionPlan}
use chatbot_react_python_nod.Agent.Exn.{Result, ok, err, scratchpad_exists}
use chatbot_react_python_nod.Agent.State.{State}
use chatbot_react_python_nod.Agent.Scratchpad.{Entry}
use chatbot_react_python_nod.Agent.Scratchpad.Store
use chatbot_react_python_nod.Agent.Scratchpad.Store.{create_exact, get-write}
use chatbot_react_python_nod.Agent.World.{World, Action, gets, lift, ◌>>=◌}
use chatbot_react_python_nod.Agent.World.Keeps.{
  Keeps, IsStable, Keeps-bind, Keeps-if, Keeps-lift, Keeps-pure, Keeps-raise, on_scratchpad-Keeps,
}
use chatbot_react_python_nod.Agent.World.Triples.{Triple, Post, Triple-bind, Triple-keeps}
use chatbot_react_python_nod.Agent.Env.{Env}
use chatbot_react_python_nod.Agent.Retry.{RetryPolicy}
use chatbot_react_python_nod.Agent.Planner
use chatbot_react_python_nod.Agent.Planner.Kept.{plan_next-Keeps}
use chatbot_react_python_nod.Agent.Reflection
use chatbot_react_python_nod.Agent.Reflection.Kept.{reflect-Keeps}
use chatbot_react_python_nod.Agent.Executor.Kept.{
  Engine, EngineKeeps, execute_tool_plan-Keeps, finalize_and_complete-Keeps,
}
use chatbot_react_python_nod.Agent.Executor.{open_scratchpad, prepare}
use chatbot_react_python_nod.Agent.Executor.Single.{plan_alone, execute_plan}

-- there is a scratchpad for `x`
abbrev Held : String → World → Type 0
Held x w = (es : List Entry) × (Store.get w.store x ≡ some es)

written_back :
    (x : String) (w : World) (es : List Entry) → Store.get (Store.write w.store x es) x ≡ some es
written_back x w es =
    get-write w.store x x es ∙ ap (λ b. if b then some es else Store.get w.store x) (eq_refl x)

Held-IsStable : (x : String) → IsStable x (Held x)
Held-IsStable x = record {
  published = λ w q e g p h. h;
  written = λ w es h. (es, written_back x w es);
  called = λ w h. h;
  paused = λ w ds h. h;
}

module _ (env : Env) (policy : RetryPolicy) (plan_next : ℕ → Action ExecutionPlan)
    (reflect : Engine) (request : AgentRequest) (context : AgentContext) where
  abbrev x : String
  x = context.execution_id

  opened-Held :
      Triple
        (λ w. Unit {0})
        (open_scratchpad env policy plan_next reflect request context)
        (λ _. Held x)
        (λ _. Held x)
  unfolding open_scratchpad ◌>>=◌ gets lift
  opened-Held = record {
    at = λ w _. elim (create_exact w.store x) [
      | inl (empty, e) ↦ rw e ([], written_back x w [])
      | inr (es, taken, e) ↦ rw e (es, taken)
    ];
  }

  prepared-Held :
      Triple
        (λ w. Unit {0})
        (prepare env policy plan_next reflect request context)
        (λ _. Held x)
        (λ _. Held x)
  unfolding prepare
  prepared-Held =
      Triple-bind opened-Held
        λ _. Triple-keeps (Keeps-bind (on_scratchpad-Keeps (Held-IsStable x) _) λ _. Keeps-pure _)

  module _ (plans : (n : ℕ) → Keeps (Held x) (plan_next n))
      (reflects : EngineKeeps (Held x) reflect) where
    plan_alone-Keeps :
        (given : Bool) (plan : ExecutionPlan) (s : State)
        → Keeps (Held x) (plan_alone env policy plan_next reflect request context given plan s)
    unfolding plan_alone
    plan_alone-Keeps given plan s =
        Keeps-if _
          (Keeps-bind (Keeps-lift _) λ u.
            finalize_and_complete-Keeps env policy plan_next reflect request context
              (Held-IsStable x) plans reflects (λ e w q p h. h) plan u none)
          (Keeps-if _ (Keeps-raise _) (
            Keeps-bind (Keeps-lift _) λ u.
              Keeps-bind
                (execute_tool_plan-Keeps env policy plan_next reflect request context
                  (Held-IsStable x) plans reflects plan u)
                λ r. Keeps-pure _))

    execute_plan-Held :
        (given : Bool) (plan : ExecutionPlan)
        → Triple
            (λ w. Unit {0})
            (execute_plan env policy plan_next reflect request context given plan)
            (λ _. Held x)
            (λ _. Held x)
    unfolding execute_plan
    execute_plan-Held given plan =
        Triple-bind prepared-Held
          λ s. Triple-keeps (Keeps-bind (Keeps-lift _) λ t. plan_alone-Keeps given plan t)

  create_refused : (w : World) → Held x w → Store.create w.store x ≡ err (scratchpad_exists x)
  unfolding Store.create Store.get
  create_refused w (es, taken) = let h : lookup x w.store ≡ some es = taken in rw (h, Store.create)

  execute_plan-refused :
      (w : World) (given : Bool) (plan : ExecutionPlan)
      → Held x w
      → execute_plan env policy plan_next reflect request context given plan w
        ≡ (err (scratchpad_exists x), w)
  unfolding execute_plan prepare open_scratchpad ◌>>=◌ gets lift
  execute_plan-refused w given plan h = rw (create_refused w h)

either_way :
    (x : String) (r : Result AgentResponse) (w : World)
    → Post (λ _. Held x) (λ _. Held x) (r, w)
    → Held x w
either_way x (ok r) w h = h
either_way x (err e) w h = h

-- However `execute_plan` ends, it leaves a scratchpad under its execution id, so that every further call
-- with the same context is refused at once and changes nothing, also after the finish reason "continue".
pub execute_plan-again :
    (env : Env) (policy : RetryPolicy) (request : AgentRequest) (context : AgentContext)
    (given given' : Bool) (plan next : ExecutionPlan) (w : World)
    → let single =
        execute_plan env policy
          (Planner.plan_next env request context)
          (some (Reflection.reflect env request context.execution_id))
          request
          context in
      let v = (single given plan w).1 in
      single given' next v ≡ (err (scratchpad_exists context.execution_id), v)
execute_plan-again env policy request context given given' plan next w =
    let planner = Planner.plan_next env request context in
    let engine = some (Reflection.reflect env request context.execution_id) in
    let stable = Held-IsStable context.execution_id in
    let p = execute_plan env policy planner engine request context given plan w in
    execute_plan-refused env policy planner engine request context p.1 given' next (
      either_way context.execution_id p.0 p.1 (
        (execute_plan-Held env policy planner engine request context
            (plan_next-Keeps env request context stable) (reflect-Keeps env request stable) given
            plan).at
          w tt))
