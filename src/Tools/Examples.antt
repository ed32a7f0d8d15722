-- ===== src/Tools/Examples.antt =====
-- The theorems on the tools at the echo tool and at one search, in a world that is its clock.
use chatbot_react_python_nod.Prelude.{
  ℕ, ◌+◌, String, ◌≡◌, refl, true, false, Option, none, some, List, [], ◌∷◌, ◌⊎◌, ◌↔◌, inl, inr,
  arith,
}
use chatbot_react_python_nod.Json.{Json, int, str, Fields, end, field}
use chatbot_react_python_nod.Agent.Models.{ToolCall}
use chatbot_react_python_nod.Tools.Schema.{ToolExecutionContext, CallerKind, user, guest, Envelope}
use chatbot_react_python_nod.Tools.Validator.{valid, validate}
use chatbot_react_python_nod.Tools.Validator.Conforms.{Conforms}
use chatbot_react_python_nod.Tools.Validator.Exact.{validate-Conforms}
use chatbot_react_python_nod.Tools.Registry.{Registered, Registry, register}
use chatbot_react_python_nod.Tools.Executor.{Handler, timed_out, execute, failure, answered, tag}
use chatbot_react_python_nod.Tools.Executor.Guarded.{
  Ran, Refused, EndsAs, Admissible, execute_guarded,
}
use chatbot_react_python_nod.Tools.Executor.Answers.{TaggedAnswer, execute_tagged, retryable_ran}
use chatbot_react_python_nod.Tools.Echo.{echo_tool_definition}
use chatbot_react_python_nod.Tools.WebSearch.{Client, found, web_search}
use chatbot_react_python_nod.Tools.WebSearch.Bounded.{Searches, Declines, web_search_bounded}

abbrev plain : Json → String
plain v = "?"

abbrev hello : Fields
hello = field "message" (str "hello") end

validate-Conforms_example :
    (validate plain echo_tool_definition hello ≡ valid) ↔ Conforms echo_tool_definition hello
validate-Conforms_example = validate-Conforms plain echo_tool_definition hello

-- `SlowEchoToolHandler`: the time is up before it answers
abbrev slow_handler : Handler ℕ
slow_handler w arguments context = (timed_out, w + 30000)

abbrev tools : Registry (Handler ℕ)
tools = ("echo", record { definition = echo_tool_definition; handler = slow_handler }) ∷ []

abbrev call : ToolCall
call = record { name = "echo"; arguments = hello; call_id = some "call-1" }

abbrev by_user : ToolExecutionContext
by_user = record { caller = user; request_id = none }

abbrev by_guest : ToolExecutionContext
by_guest = record { caller = guest; request_id = none }

abbrev clock : ℕ → ℕ
clock w = w

execute_guarded_example :
    Ran ℕ clock plain tools call by_user 5 (execute ℕ clock plain tools call by_user 5)
    ⊎ Refused ℕ clock plain tools call by_user 5 (execute ℕ clock plain tools call by_user 5)
execute_guarded_example = execute_guarded ℕ clock plain tools call by_user 5

execute_tagged_example :
    let (o, w') = execute ℕ clock plain tools call by_guest 5 in TaggedAnswer call 5 w' o
execute_tagged_example = execute_tagged ℕ clock plain tools call by_guest 5

abbrev late : Envelope
late = record {
  result = (failure "Tool execution timed out" "timeout").result;
  metadata = ("tool_name", str "echo") ∷ ("latency_ms", int 30000) ∷ ("call_id", str "call-1") ∷ [];
}

retryable_ran_example :
    (t : Registered (Handler ℕ)) × Admissible ℕ clock plain tools call by_user t
    × (let (run, after) = t.handler 5 call.arguments by_user in
        EndsAs run (answered late) × ((execute ℕ clock plain tools call by_user 5).1 ≡ after))
unfolding execute chatbot_react_python_nod.Prelude.lookup chatbot_react_python_nod.Prelude.insert
    validate chatbot_react_python_nod.Tools.Validator.validate_against
    chatbot_react_python_nod.Tools.Validator.and_then
    chatbot_react_python_nod.Tools.Validator.validate_list
    chatbot_react_python_nod.Tools.Validator.validate_required
    chatbot_react_python_nod.Tools.Validator.validate_name
    chatbot_react_python_nod.Tools.Validator.validate_fields
    chatbot_react_python_nod.Tools.Validator.validate_field
    chatbot_react_python_nod.Tools.Validator.validate_type
    chatbot_react_python_nod.Tools.Validator.matches_name
    chatbot_react_python_nod.Tools.Validator.any_matches
    chatbot_react_python_nod.Tools.Schema.get_field
    chatbot_react_python_nod.Tools.Registry.get_definition
    chatbot_react_python_nod.Tools.Registry.get_handler
    chatbot_react_python_nod.Tools.Executor.authorize chatbot_react_python_nod.Tools.Executor.tag
    chatbot_react_python_nod.Tools.Executor.authorized
    chatbot_react_python_nod.Tools.Executor.conclude
    chatbot_react_python_nod.Tools.Executor.finalize
    chatbot_react_python_nod.Tools.Executor.run_handler
    chatbot_react_python_nod.Tools.Executor.validated
    chatbot_react_python_nod.Agent.Retry.is_retryable_tool_result
retryable_ran_example = retryable_ran ℕ clock plain tools call by_user 5 late refl refl

abbrev client : Client ℕ
client query n w = (found [], w + 100)

web_search_bounded_example :
    Searches client 5 7
      (field "query" (str " antt ") end)
      (web_search client 5 7 (field "query" (str " antt ") end) by_user)
    ⊎ Declines client 5 7 (web_search client 5 7 (field "query" (str " antt ") end) by_user)
web_search_bounded_example =
    web_search_bounded client 5 7 (field "query" (str " antt ") end) by_user (omega arith)
