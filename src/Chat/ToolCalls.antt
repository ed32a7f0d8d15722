-- ===== src/Chat/ToolCalls.antt =====
-- The data of a chat turn with tools, and the small functions of `ToolChatService` in
-- backend-python/app/services/tool_chat_service.py: messages, payloads, the schemas that are offered. The tool
-- messages are those of backend-python/app/providers/base.py, the capabilities those of
-- backend-python/app/providers/capabilities.py.
use mathlib.Core.List
use chatbot_react_python_nod.Prelude.{
  ℕ, String, ◌==◌, Bool, true, false, Option, none, some, List, [], ◌∷◌, map, if◌then◌else◌, select,
  mem,
}
use chatbot_react_python_nod.Json.{Json, null, bool, str, obj, Fields, end, field, dumps}
use chatbot_react_python_nod.Agent.Models.{Role}
use chatbot_react_python_nod.Tools.Schema.{user, guest, get_field}
use chatbot_react_python_nod.Tools.Executor.{Outcome, answered, propagated, interrupted}
use chatbot_react_python_nod.Documents.Ask.{ProviderName, ChatMessageSchema}
use chatbot_react_python_nod.Documents.Prompt.{text_or}
use chatbot_react_python_nod.Chat.Usage.{Caller, ProviderUsage}
use chatbot_react_python_nod.Chat.Errors.{ChatServiceError, Exception}
use chatbot_react_python_nod.Chat.Turn.{ChatRequest, ChatState, ChatEnv}

pub record ProviderToolCall : Type 0 where
  pub id : String
  pub name : String
  pub arguments : Fields
  pub thought_signature : Option String

pub record ProviderToolCompletion : Type 0 where
  pub content : Option String
  pub tool_calls : List ProviderToolCall
  pub finish_reason : Option String
  pub usage : Option ProviderUsage

pub data ToolCompletion : Type 0 where
  given : ProviderToolCompletion → ToolCompletion
  refused : Exception → ToolCompletion

-- a call as it is announced: its arguments are the text of a JSON object
pub record AnnouncedCall : Type 0 where
  pub id : String
  pub name : String
  pub arguments : String
  pub thought_signature : Option String

-- a message of the request, the calls of the model, or the answer to the call of an id
pub data LoopMessage : Type 0 where
  plain : ChatMessageSchema → LoopMessage
  announced : Option String → List AnnouncedCall → LoopMessage
  tool_result : String → String → LoopMessage

pub record ToolLoopResult : Type 0 where
  pub content : String
  pub finish_reason : Option String
  pub usage : Option ProviderUsage
  pub tools_used : List String

-- how the loop ends: with a result, with an error of ours, or cancelled
pub data LoopEnd : Type 0 where
  settled : ToolLoopResult → LoopEnd
  stopped : ChatServiceError → LoopEnd
  cancelled : LoopEnd

pub record ToolEnv : Type 0 where
  pub chat : ChatEnv
  pub complete_chat_with_tools :
      ℕ → ProviderName → List LoopMessage → String → List Json → String → ToolCompletion
  pub tool_prompt : String
  pub request_id : Option String

-- the state of the chat, the world of the tools, the activities that were told, and what models were asked
pub record ToolState (W : Type 0) : Type 0 where
  pub chat : ChatState
  pub world : W
  pub activity : List String
  pub asked : List (List LoopMessage)

-- the conversation so far, the tools that it named, and whether one was denied in this round
pub record Progress : Type 0 where
  pub messages : List LoopMessage
  pub tools_used : List String
  pub guest_denied : Bool

abbrev pub guest_tool_denied_message : String
guest_tool_denied_message =
    "Tool use requires a signed-in account. Please sign in to search the web or ask a question I can answer directly."

abbrev pub tool_iteration_limit_message : String
tool_iteration_limit_message =
    "I reached the tool-use limit for this request. Please try a simpler question or ask again."

-- every known provider calls tools
abbrev pub supports_tool_calling : ProviderName → Bool
supports_tool_calling name = true

-- `schema.get("function", {}).get("name") in allowed_tool_names`
abbrev pub function_name : Option Json → Option Json
function_name (some (obj fs)) = get_field "name" fs
function_name _ = none

abbrev pub named_in : Option Json → List String → Bool
named_in (some (str n)) names = mem n names
named_in _ names = false

abbrev pub schema_allowed : List String → Json → Bool
schema_allowed names (obj fs) = named_in (function_name (get_field "function" fs)) names
schema_allowed names _ = false

unfoldable pub allowed_schemas : Option (List String) → List Json → List Json
allowed_schemas none schemas = schemas
allowed_schemas (some names) schemas = select (schema_allowed names) schemas

abbrev pub announced_call : ProviderToolCall → AnnouncedCall
announced_call c = record {
  id = c.id;
  name = c.name;
  arguments = dumps (obj c.arguments);
  thought_signature = c.thought_signature;
}

abbrev pub assistant_message : ProviderToolCompletion → LoopMessage
assistant_message c = announced c.content (map announced_call c.tool_calls)

abbrev pub build_loop_messages : String → ChatRequest → List LoopMessage
build_loop_messages prompt request =
    plain (Role.system, prompt) ∷ map plain (request.first ∷ request.rest)

abbrev text_json : Option String → Json
text_json none = null
text_json (some s) = str s

-- `if name not in tools_used: tools_used.append(name)`
unfoldable pub used_once : String → List String → List String
used_once name used = if mem name used then used else List.◌++◌ used (name ∷ [])

abbrev pub denied_payload : String
denied_payload = dumps (
    obj (
      field "success" (bool false)
        (field "error" (str guest_tool_denied_message) (field "error_code" (str "forbidden") end))))

-- how the execution of a call ends: with the text for the model and whether it was denied, with an
-- exception, or cancelled
pub data CallEnd : Type 0 where
  told : String → Bool → CallEnd
  type_error : CallEnd
  stopped_outside : CallEnd

-- how a round of calls ends
pub data RoundEnd : Type 0 where
  went_on : Progress → RoundEnd
  round_type_error : RoundEnd
  round_stopped : RoundEnd

abbrev pub forbidden : Option String → Bool
forbidden none = false
forbidden (some code) = code == "forbidden"

abbrev pub payload_of : Outcome → CallEnd
payload_of (answered e) =
    told
      (dumps (
        obj (
          field "success" (bool e.result.success) (
            field "data" e.result.result (
              field "error" (text_json e.result.error)
                (field "error_code" (text_json e.result.error_code) end))))))
      (forbidden e.result.error_code)
payload_of propagated = type_error
payload_of interrupted = stopped_outside

-- `caller is None or caller.kind == "guest"`
abbrev pub may_not_call : Option Caller → Bool
may_not_call none = true
may_not_call (some c) = elim c.kind [ guest ↦ true | user ↦ false ]

-- what the loop answers when it may not go on: the last text of the model, or the message
abbrev pub fallback_of : Option ProviderToolCompletion → String
fallback_of none = tool_iteration_limit_message
fallback_of (some c) = text_or c.content tool_iteration_limit_message

abbrev pub usage_of : Option ProviderToolCompletion → Option ProviderUsage
usage_of none = none
usage_of (some c) = c.usage
