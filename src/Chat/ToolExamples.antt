-- ===== src/Chat/ToolExamples.antt =====
-- The theorems on turns with tools at a model that calls the echo tool.
use chatbot_react_python_nod.Prelude.{
  ℕ, zero, suc, ◌≡◌, ◌⊎◌, refl, String, true, none, some, [], ◌∷◌, is_empty,
}
use chatbot_react_python_nod.Json.{Json, str, Fields, end, field}
use chatbot_react_python_nod.Tools.Registry.{Registry, get_schemas_for_llm}
use chatbot_react_python_nod.Tools.Executor.{Handler}
use chatbot_react_python_nod.Tools.Echo.{echo_tool_definition, echo_handler}
use chatbot_react_python_nod.Documents.Ask.{ProviderName}
use chatbot_react_python_nod.Chat.Complete.Gapless.{Gapless}
use chatbot_react_python_nod.Chat.Samples.{visitor, settings, answering, start, turn, start-Gapless}
use chatbot_react_python_nod.Chat.ToolCalls.{
  ProviderToolCall, ToolCompletion, given, ToolEnv, ToolState, allowed_schemas,
}
use chatbot_react_python_nod.Chat.ToolLoop.{run_tool_loop, ask, opening}
use chatbot_react_python_nod.Chat.ToolLoop.Asked.{Asked}
use chatbot_react_python_nod.Chat.ToolLoop.Guests.{Untouched, Answers, run_tool_loop-guest}
use chatbot_react_python_nod.Chat.ToolChat.{complete_chat}
use chatbot_react_python_nod.Chat.ToolChat.InTurn.{tool_chat-Gapless}

abbrev hello : Fields
hello = field "message" (str "hello") end

abbrev echo_call : ProviderToolCall
echo_call = record { id = "call-1"; name = "echo"; arguments = hello; thought_signature = none }

-- first the call of the tool, then the answer
abbrev replies : ℕ → ToolCompletion
replies zero = given (record {
  content = none;
  tool_calls = echo_call ∷ [];
  finish_reason = some "tool_calls";
  usage = none;
})
replies (suc n) =
    given (record { content = some "Hello."; tool_calls = []; finish_reason = none; usage = none })

abbrev env : ToolEnv
env = record {
  chat = answering;
  complete_chat_with_tools = λ n name messages model schemas temperature. replies n;
  tool_prompt = "Use tools.";
  request_id = none;
}

abbrev clock : ℕ → ℕ
clock w = w

abbrev render : Json → String
render v = "?"

abbrev tools : Registry (Handler ℕ)
tools = ("echo", record { definition = echo_tool_definition; handler = echo_handler }) ∷ []

abbrev tool_start : ToolState ℕ
tool_start = record { chat = start; world = 0; activity = []; asked = [] }

run_tool_loop-guest_example :
    let schemas = allowed_schemas none (get_schemas_for_llm tools) in
    let (end_, st') =
      run_tool_loop ℕ clock render tools env ProviderName.openai "model-1" "0.7" settings 3
        turn.request
        (some visitor)
        true
        none
        tool_start in
    Untouched tool_start st'
    × ((is_empty schemas ≡ true)
        ⊎ (◌≡◌ {A = ℕ} 3 0)
        ⊎ Answers
            (ask ℕ clock render tools env ProviderName.openai "model-1" "0.7" schemas
              (opening ℕ clock render tools env ProviderName.openai "model-1" "0.7" turn.request)
              tool_start)
            end_)
run_tool_loop-guest_example =
    run_tool_loop-guest ℕ clock render tools env ProviderName.openai "model-1" "0.7" settings 3
      turn.request (some visitor) true none tool_start refl

tool_chat-Gapless_example :
    Gapless
      (complete_chat ℕ clock render tools env settings 3 ProviderName.openai "model-1" turn.request
        visitor true none tool_start).1.chat.tables
tool_chat-Gapless_example =
    tool_chat-Gapless ℕ clock render tools env settings 3 ProviderName.openai "model-1" turn.request
      visitor true none tool_start start-Gapless
