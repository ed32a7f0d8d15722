-- ===== src/Agent/Resolver/Examples.antt =====
-- Resolutions of small plans.
use chatbot_react_python_nod.Prelude.{String, ◌≡◌, refl, none, List, [], ◌∷◌, ◌⊎◌, select, length}
use chatbot_react_python_nod.Agent.Models.{StepAction, PlannedStep}
use chatbot_react_python_nod.Agent.Exn.{ok, err, agent_error}
use chatbot_react_python_nod.Agent.Resolver.{is_tool_step, visited, resolve_step_batches}
use chatbot_react_python_nod.Agent.Resolver.Order.{IsOrdered, resolve_step_batches-IsOrdered}

abbrev step : String → List String → PlannedStep
step id deps = record {
  step_id = id;
  action = StepAction.tool_call;
  tool_calls = [];
  depends_on = deps;
  reasoning = none;
}

abbrev diamond : List PlannedStep
diamond =
    step "d" ("b" ∷ "c" ∷ []) ∷ step "b" ("a" ∷ []) ∷ step "c" ("a" ∷ "a" ∷ []) ∷ step "a" [] ∷ []

abbrev diamond_batches : List (List PlannedStep)
diamond_batches =
    (step "a" [] ∷ [])
    ∷ (step "b" ("a" ∷ []) ∷ step "c" ("a" ∷ "a" ∷ []) ∷ [])
    ∷ (step "d" ("b" ∷ "c" ∷ []) ∷ [])
    ∷ []

resolve_diamond : resolve_step_batches diamond ≡ ok diamond_batches
unfolding resolve_step_batches
resolve_diamond = refl

resolve_cycle :
    resolve_step_batches (step "a" ("b" ∷ []) ∷ step "b" ("a" ∷ []) ∷ [])
    ≡ err (agent_error "Circular dependency detected among planned tool steps")
unfolding resolve_step_batches
resolve_cycle = refl

resolve_step_batches-IsOrdered_example :
    ((batches : List (List PlannedStep)) × (resolve_step_batches diamond ≡ ok batches)
      × (visited batches ≡ length (select is_tool_step diamond))
      × IsOrdered (select is_tool_step diamond) [] batches)
    ⊎ ((message : String) × (resolve_step_batches diamond ≡ err (agent_error message)))
resolve_step_batches-IsOrdered_example = resolve_step_batches-IsOrdered diamond
