-- ===== src/Agent/Default/Rounds.antt =====
-- How many cycles an execution's answer counts.
use chatbot_react_python_nod.Prelude.{◌≤◌, ◌≡◌, some, sym, ap, ◌∙◌}
use chatbot_react_python_nod.Agent.Models.{AgentRequest, AgentContext, AgentResponse, resolved}
use chatbot_react_python_nod.Agent.Exn.{Result, ok, err}
use chatbot_react_python_nod.Agent.World.{World}
use chatbot_react_python_nod.Agent.World.Triples.{Post}
use chatbot_react_python_nod.Agent.World.Ensures.{Ensures, Anyhow}
use chatbot_react_python_nod.Agent.Env.{Env}
use chatbot_react_python_nod.Agent.Retry.{default_tool_policy}
use chatbot_react_python_nod.Agent.Planner
use chatbot_react_python_nod.Agent.Reflection
use chatbot_react_python_nod.Agent.Executor.Rounds.{guarded-InLimit}
use chatbot_react_python_nod.Agent.Default.{execute}
use chatbot_react_python_nod.Agent.Default.Guarded.{guarded, execute-guarded}

transport_ok : {A : Type 0} (Q : A → Type 0) (b a : A) → ok b ≡ ok a → Q b → Q a
transport_ok Q b a e q = let same : b ≡ a = cc in rw (sym same) q

returned :
    {A : Type 0} (Q : A → Type 0) (r : Result A) (w : World) (a : A)
    → Post (λ x v. Q x) Anyhow (r, w)
    → r ≡ ok a
    → Q a
returned Q (ok b) w a p e = transport_ok Q b a e p
returned Q (err b) w a p e = absurd cc

module _ (env : Env) (request : AgentRequest) (context : AgentContext) where
  guarded_bound :
      1 ≤ (resolved request.config).max_iterations
      → Ensures
          (guarded env request context)
          (λ r. (1 ≤ r.iterations) × (r.iterations ≤ (resolved request.config).max_iterations))
  unfolding guarded
  guarded_bound h =
      guarded-InLimit env default_tool_policy (Planner.plan_next env request context)
        (some (Reflection.reflect env request context.execution_id)) request context h

-- An execution that answers has begun at least one cycle and at most `max_iterations`.
pub execute_iterations :
    (env : Env) (request : AgentRequest) (context : AgentContext) (w : World) (r : AgentResponse)
    → 1 ≤ (resolved request.config).max_iterations
    → (execute env request context w).0 ≡ ok r
    → (1 ≤ r.iterations) × (r.iterations ≤ (resolved request.config).max_iterations)
execute_iterations env request context w r h e =
    returned _ (guarded env request context w).0 (guarded env request context w).1 r
      ((guarded_bound env request context h).at w tt)
      (sym (ap (λ p. p.0) (execute-guarded env request context w)) ∙ e)
