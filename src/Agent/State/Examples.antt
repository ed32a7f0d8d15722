-- ===== src/Agent/State/Examples.antt =====
-- Sample states, and the theorems on the lifecycle and the budget at these.
use chatbot_react_python_nod.Prelude.{◌≡◌, refl, ◌⊎◌, ◌↔◌, none, some, [], ◌∷◌, Elem}
use chatbot_react_python_nod.Json.{str}
use chatbot_react_python_nod.Agent.Models.{Status, AgentConfig, AgentContext, default_config}
use chatbot_react_python_nod.Agent.Exn.{ok, err, invalid_transition, iteration_limit}
use chatbot_react_python_nod.Agent.State.{
  State, transition, to_dict, initial_state, begin_iteration,
}
use chatbot_react_python_nod.Agent.State.Lifecycle.{
  Edge, moved, transition_exact, IsSecret, to_dict_redacts,
}
use chatbot_react_python_nod.Agent.State.Budget.{cycles}

abbrev sample_context : AgentContext
sample_context = record {
  execution_id = "run-1";
  allowed_tool_names = none;
  metadata = ("api_key", str "hidden") ∷ ("locale", str "en") ∷ [];
}

abbrev two_cycles : AgentConfig
two_cycles = record default_config { max_iterations = 2 }

abbrev fresh : State
fresh = initial_state sample_context (some two_cycles)

transition_exact_example :
    (Edge Status.created Status.failed
      × (transition fresh Status.failed (some "boom")
          ≡ ok (moved fresh Status.failed (some "boom"))))
    ⊎ ((¬ Edge Status.created Status.failed)
        × (transition fresh Status.failed (some "boom")
            ≡ err (invalid_transition Status.created Status.failed)))
unfolding initial_state
transition_exact_example = transition_exact fresh Status.failed (some "boom")

to_dict_redacts_example :
    (Elem ("api_key", str "hidden") (to_dict fresh).metadata
      ↔ (Elem ("api_key", str "hidden") fresh.metadata × ¬ IsSecret "api_key"))
    × (record (to_dict fresh) { metadata = fresh.metadata } ≡ fresh)
to_dict_redacts_example = to_dict_redacts fresh "api_key" (str "hidden")

-- the sample metadata loses its key
redacted : (to_dict fresh).metadata ≡ ("locale", str "en") ∷ []
unfolding to_dict initial_state
redacted = refl

-- a third cycle is refused
third_refused : cycles 3 fresh ≡ err (iteration_limit 2)
unfolding cycles begin_iteration initial_state
third_refused = refl
