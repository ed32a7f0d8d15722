-- ===== src/Agent/Default/Cleanup.antt =====
-- What an execution leaves behind in the scratchpad store.
use chatbot_react_python_nod.Prelude.{
  String, ◌≡◌, refl, ◌∙◌, false, none, ◌==◌, if◌then◌else◌, Bool-cases, inl, inr,
}
use chatbot_react_python_nod.Agent.Models.{AgentRequest, AgentContext}
use chatbot_react_python_nod.Agent.Scratchpad.Store
use chatbot_react_python_nod.Agent.Scratchpad.Store.{get-write, get-drop}
use chatbot_react_python_nod.Agent.World.{World}
use chatbot_react_python_nod.Agent.World.Keeps.{IsStable}
use chatbot_react_python_nod.Agent.Env.{Env}
use chatbot_react_python_nod.Agent.Executor
use chatbot_react_python_nod.Agent.Default.{execute}
use chatbot_react_python_nod.Agent.Default.Guarded.{guarded, closing, execute-guarded, whole-Keeps}

-- every scratchpad but that of `x` is as it was in `v`
abbrev Frame : String → World → World → Type 0
Frame x v w = (j : String) → (x == j) ≡ false → Store.get w.store j ≡ Store.get v.store j

Frame-IsStable : (x : String) (v : World) → IsStable x (Frame x v)
Frame-IsStable x v = record {
  published = λ w q e g p h. h;
  written = λ w es h j ne. get-write w.store x j es ∙ rw ne (h j ne);
  called = λ w h. h;
  paused = λ w ds h. h;
}

-- When an execution has ended, however it ended, the store has no scratchpad for its id, and the
-- scratchpads of all other executions are as they were before.
pub execute_cleans :
    (env : Env) (request : AgentRequest) (context : AgentContext) (w : World) (j : String)
    → Store.get (execute env request context w).1.store j
      ≡ (if context.execution_id == j then none else Store.get w.store j)
unfolding closing Executor.cleanup
execute_cleans env request context w j = rw (execute-guarded env request context w) (
    get-drop (guarded env request context w).1.store context.execution_id j
    ∙ elim (Bool-cases (context.execution_id == j)) [
      | inl same ↦ rw same
      | inr other ↦ rw other (
          (whole-Keeps env request context (Frame-IsStable context.execution_id w)
              (λ e v q p h. h)).at
            w (λ k ne. refl) j other)
    ])
