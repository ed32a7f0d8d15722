-- ===== src/Agent/Default.antt =====
-- The runtime's entry point: `DefaultAgent` of backend-python/app/ai/agent/runtime/default_agent.py,
-- which puts the planner, the tool runner and the reflection engine together. One execution runs
-- from a world with its publisher; the parallel tool branches are off.
pub mod Guarded
pub mod Cleanup
pub mod Events
pub mod Rounds
pub mod Duplicate
use chatbot_react_python_nod.Prelude.{some, false, []}
use chatbot_react_python_nod.Agent.Models.{AgentRequest, AgentContext, AgentResponse}
use chatbot_react_python_nod.Agent.Publisher.{queue, no_op}
use chatbot_react_python_nod.Agent.World.{World, Action}
use chatbot_react_python_nod.Agent.Env.{Env}
use chatbot_react_python_nod.Agent.Retry.{default_tool_policy}
use chatbot_react_python_nod.Agent.Planner
use chatbot_react_python_nod.Agent.Reflection
use chatbot_react_python_nod.Agent.Executor
use chatbot_react_python_nod.Agent.Exn.{Result}

module _ (env : Env) (request : AgentRequest) (context : AgentContext) where
  -- `_create_executor` and the executor's `run`
  unfoldable pub execute : Action AgentResponse
  execute =
      Executor.run env default_tool_policy (Planner.plan_next env request context)
        (some (Reflection.reflect env request context.execution_id)) request context

  -- `run`, without events
  unfoldable pub run : World → Result AgentResponse × World
  run w = execute (record w { publisher = no_op })

  -- `_stream`, to the end of the queue: the task runs with a new queue
  unfoldable pub stream : World → Result AgentResponse × World
  stream w = execute (record w { publisher = queue [] false })
