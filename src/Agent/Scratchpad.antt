-- ===== src/Agent/Scratchpad.antt =====
-- The working memory of one execution, and the registry of these by execution id:
-- backend-python/app/ai/agent/scratchpad/scratchpad.py and store.py. The free-form `metadata` of an
-- entry is not kept: the runtime never sets it and never reads it.
pub mod Store
pub mod Messages
mod Examples
use Prim.Native.String.{◌++◌}
use chatbot_react_python_nod.Prelude.{
  ℕ, String, Bool, true, false, Option, none, some, List, [], ◌∷◌, ◌==◌, if◌then◌else◌, length,
}
use mathlib.Core.List
use chatbot_react_python_nod.Agent.Models.{Role, AgentMessage}
use chatbot_react_python_nod.Agent.Exn.{Result, ok, err, validation_error, value_error}

pub data EntryKind : Type 0 where
  system user assistant tool thought observation : EntryKind

-- one entry of "tool_calls" in a provider message; `arguments` is JSON text
pub record CallEntry : Type 0 where
  pub id : String
  pub name : String
  pub arguments : String

-- a raw assistant message with tool calls
pub record ProviderMessage : Type 0 where
  pub content : Option String
  pub tool_calls : List CallEntry

-- `ScratchpadMessage`, and the plain `{"role": …, "content": …}` of the provider calls
pub data ChatMessage : Type 0 where
  agent : AgentMessage → ChatMessage
  tool : String → String → ChatMessage
  raw : ProviderMessage → ChatMessage
  plain : Role → String → ChatMessage

pub record Entry : Type 0 where
  pub kind : EntryKind
  pub content : String
  pub tool_call_id : Option String
  pub provider_message : Option ProviderMessage

-- `ScratchpadEntry(…)`: the content is not empty
unfoldable pub new_entry :
    EntryKind → String → Option String → Option ProviderMessage → Result Entry
new_entry kind content id message =
    if content == ""
    then err validation_error
    else ok
        (record { kind = kind; content = content; tool_call_id = id; provider_message = message })

-- `AgentMessage(…)`: the content is not empty
unfoldable pub new_message : Role → String → Result AgentMessage
new_message role content =
    if content == "" then err validation_error else ok (record { role = role; content = content })

as_agent : Result AgentMessage → Result ChatMessage
as_agent (ok m) = ok (agent m)
as_agent (err e) = err e

-- the branches of `to_message` for an entry with no provider message
plain_message : EntryKind → String → Option String → Result ChatMessage
unfolding new_message as_agent
plain_message EntryKind.tool content none =
    err (value_error "tool scratchpad entries require tool_call_id")
plain_message EntryKind.tool content (some id) = ok (tool id content)
plain_message EntryKind.thought content id =
    as_agent (new_message Role.assistant ("Thought: " ++ content))
plain_message EntryKind.observation content id =
    as_agent (new_message Role.assistant ("Observation: " ++ content))
plain_message EntryKind.system content id = as_agent (new_message Role.system content)
plain_message EntryKind.user content id = as_agent (new_message Role.user content)
plain_message EntryKind.assistant content id = as_agent (new_message Role.assistant content)

unfoldable pub to_message : Entry → Result ChatMessage
unfolding plain_message
to_message e = elim e.provider_message [
  | some m ↦ ok (raw m)
  | none ↦ plain_message e.kind e.content e.tool_call_id
]

-- an accepted entry goes to the end
unfoldable pub append : List Entry → Result Entry → Result (List Entry)
append entries (ok e) = ok (List.◌++◌ entries (e ∷ []))
append entries (err x) = err x

unfoldable pub append_thought : List Entry → String → Result (List Entry)
unfolding append new_entry
append_thought entries content = append entries (new_entry EntryKind.thought content none none)

unfoldable pub append_observation : List Entry → String → Result (List Entry)
unfolding append new_entry
append_observation entries content =
    append entries (new_entry EntryKind.observation content none none)

abbrev pub role_kind : Role → EntryKind
role_kind Role.system = EntryKind.system
role_kind Role.user = EntryKind.user
role_kind Role.assistant = EntryKind.assistant

unfoldable pub append_message : List Entry → AgentMessage → Result (List Entry)
unfolding append new_entry
append_message entries m = append entries (new_entry (role_kind m.role) m.content none none)

unfoldable pub append_tool_result : List Entry → String → String → Result (List Entry)
unfolding append new_entry
append_tool_result entries id content =
    append entries (new_entry EntryKind.tool content (some id) none)

-- `str(message.get("content") or "(tool call)")`
abbrev pub summary : Option String → String
summary none = "(tool call)"
summary (some s) = if s == "" then "(tool call)" else s

unfoldable pub append_provider_message : List Entry → ProviderMessage → Result (List Entry)
unfolding append new_entry
append_provider_message entries m =
    append entries (new_entry EntryKind.assistant (summary m.content) none (some m))

unfoldable pub extend_messages : List Entry → List AgentMessage → Result (List Entry)
unfolding append_message
extend_messages entries [] = ok entries
extend_messages entries (m ∷ ms) = elim (append_message entries m) [
  | ok next ↦ extend_messages next ms
  | err x ↦ err x
]

cons_result : Result ChatMessage → Result (List ChatMessage) → Result (List ChatMessage)
cons_result (err x) rest = err x
cons_result (ok m) (err x) = err x
cons_result (ok m) (ok ms) = ok (m ∷ ms)

unfoldable pub to_message_context : List Entry → Result (List ChatMessage)
unfolding to_message cons_result
to_message_context [] = ok []
to_message_context (e ∷ es) = cons_result (to_message e) (to_message_context es)
