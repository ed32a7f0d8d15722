-- ===== src/Agent/Default/Events.antt =====
-- The events that a client of `stream` reads.
use chatbot_react_python_nod.Prelude.{
  String, ◌≡◌, refl, true, false, none, some, List, [], ◌∷◌, ◌++◌, map,
}
use chatbot_react_python_nod.Agent.Models.{
  AgentRequest, AgentContext, AgentResponse, Event, complete,
}
use chatbot_react_python_nod.Agent.Exn.{Result, ok, err}
use chatbot_react_python_nod.Agent.Publisher.{queue, close}
use chatbot_react_python_nod.Agent.World.{World}
use chatbot_react_python_nod.Agent.World.Triples.{Post}
use chatbot_react_python_nod.Agent.World.Streamed.{Holds, EndsIn, Open-IsStable}
use chatbot_react_python_nod.Agent.Env.{Env}
use chatbot_react_python_nod.Agent.Retry.{default_tool_policy}
use chatbot_react_python_nod.Agent.Planner
use chatbot_react_python_nod.Agent.Planner.Kept.{plan_next-Keeps}
use chatbot_react_python_nod.Agent.Reflection
use chatbot_react_python_nod.Agent.Reflection.Kept.{reflect-Keeps}
use chatbot_react_python_nod.Agent.Executor
use chatbot_react_python_nod.Agent.Executor.Outcome.{
  Completed, Reported, ToldError, guarded-Reported,
}
use chatbot_react_python_nod.Agent.Default.{stream}
use chatbot_react_python_nod.Agent.Default.Guarded.{guarded, closing, execute-guarded}

-- Which events an execution `x` with this result has published: progress, and then at most one more.
abbrev pub Told : String → Result AgentResponse → List Event → Type 0
Told x (ok r) es =
    (reason : String) × (r.finish_reason ≡ some reason) × EndsIn (complete x reason r.tools_used) es
Told x (err e) es = ToldError x e es

-- the queue, closed, with the events `es` and the end mark
abbrev pub Delivered : (List Event → Type 0) → World → Type 0
Delivered F w = (es : List Event) × F es × (w.publisher ≡ queue (map some es ++ none ∷ []) true)

module _ (env : Env) (request : AgentRequest) (context : AgentContext) where
  closed :
      (F : List Event → Type 0) (w : World)
      → Holds F w
      → Delivered F (closing env request context w)
  unfolding closing Executor.cleanup close
  closed F w (es, h, q) = (es, h, rw q)

  told :
      (r : Result AgentResponse) (w : World)
      → Post (Completed context.execution_id) (Reported context.execution_id) (r, w)
      → Delivered (Told context.execution_id r) (closing env request context w)
  told (ok r) w (reason, same, h) = let (es, e, q) = closed _ w h in (es, (reason, same, e), q)
  told (err e) w h = closed (ToldError context.execution_id e) w h

  guarded-Post :
      (w : World)
      → w.publisher ≡ queue [] false
      → Post
          (Completed context.execution_id)
          (Reported context.execution_id)
          (guarded env request context w)
  unfolding guarded
  guarded-Post w q =
      (guarded-Reported env default_tool_policy (Planner.plan_next env request context)
          (some (Reflection.reflect env request context.execution_id)) request context
          (plan_next-Keeps env request context (Open-IsStable context.execution_id))
          (reflect-Keeps env request (Open-IsStable context.execution_id))).at
        w ([], tt, q)

-- The client of `stream` reads events and then the end mark, once, and the queue is closed. If the
-- execution returned, the last event is COMPLETE with the response's finish reason and tools; if it raised
-- an agent error, the last event is ERROR with that error's message; if it raised another `Exception`, the
-- last event is ERROR with a fixed message, or the report was itself refused by validation. No event
-- before the last is a COMPLETE or an ERROR, and a cancelled execution publishes neither.
pub stream_ends :
    (env : Env) (request : AgentRequest) (context : AgentContext) (w : World)
    → let (r, w') = stream env request context w in Delivered (Told context.execution_id r) w'
unfolding stream
stream_ends env request context w =
    let v = record w { publisher = queue [] false } in
    rw (execute-guarded env request context v) (
      told env request context (guarded env request context v).0 (guarded env request context v).1
        (guarded-Post env request context v refl))
