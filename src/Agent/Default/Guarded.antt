-- ===== src/Agent/Default/Guarded.antt =====
-- A whole execution: what it keeps up to its `finally` clause, and what that clause then does.
use chatbot_react_python_nod.Prelude.{◌≡◌, refl, some}
use chatbot_react_python_nod.Agent.Models.{AgentRequest, AgentContext, AgentResponse, Event}
use chatbot_react_python_nod.Agent.World.{World, Action, catching, finally}
use chatbot_react_python_nod.Agent.World.Keeps.{Keeps, IsStable, Publishes}
use chatbot_react_python_nod.Agent.Env.{Env}
use chatbot_react_python_nod.Agent.Retry.{default_tool_policy}
use chatbot_react_python_nod.Agent.Planner
use chatbot_react_python_nod.Agent.Planner.Kept.{plan_next-Keeps}
use chatbot_react_python_nod.Agent.Reflection
use chatbot_react_python_nod.Agent.Reflection.Kept.{reflect-Keeps}
use chatbot_react_python_nod.Agent.Executor
use chatbot_react_python_nod.Agent.Executor.Kept.{guarded-Keeps}
use chatbot_react_python_nod.Agent.Default.{execute}

module _ (env : Env) (request : AgentRequest) (context : AgentContext) where
  -- the `try` block with its `except` clauses
  unfoldable pub guarded : Action AgentResponse
  guarded =
      catching
        (Executor.body env default_tool_policy (Planner.plan_next env request context)
          (some (Reflection.reflect env request context.execution_id)) request context)
        (Executor.report env default_tool_policy (Planner.plan_next env request context)
          (some (Reflection.reflect env request context.execution_id)) request context)

  unfoldable pub closing : World → World
  closing =
      Executor.cleanup env default_tool_policy (Planner.plan_next env request context)
        (some (Reflection.reflect env request context.execution_id)) request context

  pub execute-guarded :
      (w : World) → execute env request context w ≡ ((guarded w).0, closing (guarded w).1)
  unfolding execute guarded closing Executor.run finally
  execute-guarded w = refl

  pub whole-Keeps :
      {I : World → Type 0}
      → IsStable context.execution_id I
      → ((e : Event) → Publishes I e)
      → Keeps I guarded
  unfolding guarded
  whole-Keeps stable concludes =
      guarded-Keeps env default_tool_policy (Planner.plan_next env request context)
        (some (Reflection.reflect env request context.execution_id)) request context stable
        (plan_next-Keeps env request context stable) (reflect-Keeps env request stable) concludes
