-- ===== src/Agent/Default/Duplicate.antt =====
-- An execution under the id of another that is still under way.
use chatbot_react_python_nod.Prelude.{
  ◌≡◌, refl, ap, ◌∙◌, none, some, List, if◌then◌else◌, ℕ, eq_refl, lookup,
}
use chatbot_react_python_nod.Agent.Models.{AgentRequest, AgentContext, AgentResponse, Event, error}
use chatbot_react_python_nod.Agent.Exn.{
  Exn, Result, ok, err, scratchpad_exists, is_agent_error, message,
}
use chatbot_react_python_nod.Agent.Scratchpad.{Entry}
use chatbot_react_python_nod.Agent.Scratchpad.Store
use chatbot_react_python_nod.Agent.World.{World, lift, gets, raise, ◌>>=◌, emit, catching}
use chatbot_react_python_nod.Agent.World.Keeps.{publish-Keeps}
use chatbot_react_python_nod.Agent.World.Triples.{
  Triple, Post, Triple-bind, Triple-raise, Triple-keeps,
}
use chatbot_react_python_nod.Agent.Env.{Env}
use chatbot_react_python_nod.Agent.Retry.{default_tool_policy}
use chatbot_react_python_nod.Agent.Planner
use chatbot_react_python_nod.Agent.Reflection
use chatbot_react_python_nod.Agent.Executor
use chatbot_react_python_nod.Agent.Default.{execute}
use chatbot_react_python_nod.Agent.Default.Cleanup.{execute_cleans}
use chatbot_react_python_nod.Agent.Default.Guarded.{guarded, closing, execute-guarded}

abbrev Refused : ℕ → Result AgentResponse × World → Type 0
Refused n p = Post (λ r w. ⊥) (λ e w. w.calls ≡ n) p

refusal :
    (n : ℕ) (r : Result AgentResponse) (w : World)
    → Refused n (r, w)
    → (e : Exn) × (r ≡ err e) × (w.calls ≡ n)
refusal n (ok r) w h = elim h [ ]
refusal n (err e) w h = (e, refl, h)

told_refused :
    (n : ℕ) (event : Event) (e : Exn)
    → Triple
        (λ w. w.calls ≡ n)
        (emit event >>= λ _. raise {A = AgentResponse} e)
        (λ r w. ⊥)
        (λ y w. w.calls ≡ n)
told_refused n event e =
    Triple-bind (Triple-keeps (publish-Keeps event (λ w q p i. i))) λ _. Triple-raise e (λ w i. i)

module _ (env : Env) (request : AgentRequest) (context : AgentContext) (w : World) (es : List Entry)
    (taken : Store.get w.store context.execution_id ≡ some es) where
  create_refused :
      Store.create w.store context.execution_id ≡ err (scratchpad_exists context.execution_id)
  unfolding Store.create Store.get
  create_refused =
      let h : lookup context.execution_id w.store ≡ some es = taken in rw (h, Store.create)

  body_refused :
      Executor.body env default_tool_policy
        (Planner.plan_next env request context)
        (some (Reflection.reflect env request context.execution_id))
        request
        context
        w
      ≡ (err (scratchpad_exists context.execution_id), w)
  unfolding Executor.body Executor.prepare Executor.open_scratchpad ◌>>=◌ gets lift
  body_refused = rw create_refused

  guarded-Refused : Refused w.calls (guarded env request context w)
  unfolding guarded catching Executor.report is_agent_error
  guarded-Refused = rw body_refused (
      (told_refused w.calls
          (error context.execution_id "agent_error"
            (message (scratchpad_exists context.execution_id)))
          (scratchpad_exists context.execution_id)).at
        w refl)

-- If the store already has a scratchpad for the execution's id, the execution raises without any call to
-- the outside, and afterwards that scratchpad, which is another execution's, is gone from the store.
pub execute_duplicate :
    (env : Env) (request : AgentRequest) (context : AgentContext) (w : World) (es : List Entry)
    → Store.get w.store context.execution_id ≡ some es
    → let (r, v) = execute env request context w in
      (e : Exn) × (r ≡ err e)
      × (v.calls ≡ w.calls)
      × (Store.get v.store context.execution_id ≡ none)
unfolding closing Executor.cleanup
execute_duplicate env request context w es taken =
    let (e, raised, calls) =
      refusal w.calls (guarded env request context w).0 (guarded env request context w).1
        (guarded-Refused env request context w es taken) in
    let same = execute-guarded env request context w in
    (
      e,
      ap (λ p. p.0) same ∙ raised,
      ap (λ p. p.1.calls) same ∙ calls,
      execute_cleans env request context w context.execution_id
          ∙ ap (λ b. if b then none else Store.get w.store context.execution_id)
              (eq_refl context.execution_id),
    )
