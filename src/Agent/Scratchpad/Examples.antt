-- ===== src/Agent/Scratchpad/Examples.antt =====
-- A sample scratchpad store.
use chatbot_react_python_nod.Prelude.{◌≡◌, List, [], ◌∷◌, refl}
use chatbot_react_python_nod.Agent.Exn.{ok}
use chatbot_react_python_nod.Agent.Scratchpad.{Entry, agent, extend_messages, to_message_context}
use chatbot_react_python_nod.Agent.Models.{Role, AgentMessage}
use chatbot_react_python_nod.Agent.Scratchpad.Messages.{extend_messages-context}
use chatbot_react_python_nod.Agent.Scratchpad.Store.{Store}

abbrev one_run : Store
one_run = ("run-1", []) ∷ []

abbrev question : AgentMessage
question = record { role = Role.user; content = "How is the weather?" }

extend_messages-context_example :
    (fs : List Entry) × (extend_messages [] (question ∷ []) ≡ ok fs)
    × (to_message_context fs ≡ ok (agent question ∷ []))
unfolding to_message_context
extend_messages-context_example = extend_messages-context [] (question ∷ []) [] (refl, tt) refl
