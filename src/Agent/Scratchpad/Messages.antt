-- ===== src/Agent/Scratchpad/Messages.antt =====
-- The conversation through the scratchpad: messages become entries, and entries messages again.
use mathlib.Core.List
use chatbot_react_python_nod.Prelude.{
  String, ◌==◌, ◌≡◌, refl, sym, ap, ◌∙◌, false, none, List, [], ◌∷◌, map, All, append_assoc,
  append-nil,
}
use chatbot_react_python_nod.Agent.Models.{Role, AgentMessage}
use chatbot_react_python_nod.Agent.Exn.{Result, ok, err}
use chatbot_react_python_nod.Agent.Scratchpad.{
  Entry, ChatMessage, agent, role_kind, new_entry, new_message, as_agent, plain_message, to_message,
  append, append_message, extend_messages, cons_result, to_message_context,
}

-- the entry of a message
abbrev entry_of : AgentMessage → Entry
entry_of m = record {
  kind = role_kind m.role;
  content = m.content;
  tool_call_id = none;
  provider_message = none;
}

cons-parts :
    (a : Result ChatMessage) (b : Result (List ChatMessage)) (cs : List ChatMessage)
    → cons_result a b ≡ ok cs
    → (m : ChatMessage) × (ms : List ChatMessage) × (a ≡ ok m) × (b ≡ ok ms) × (cs ≡ m ∷ ms)
unfolding cons_result
cons-parts (err x) b cs h = absurd cc
cons-parts (ok m) (err x) cs h = absurd cc
cons-parts (ok m) (ok ms) cs h = (m, ms, refl, refl, cc)

context-append :
    (es : List Entry) (e : Entry) (cs : List ChatMessage) (c : ChatMessage)
    → to_message_context es ≡ ok cs
    → to_message e ≡ ok c
    → to_message_context (List.◌++◌ es (e ∷ [])) ≡ ok (List.◌++◌ cs (c ∷ []))
unfolding to_message_context
context-append [] e cs c h k = let s : cs ≡ [] = cc in rw (k, s) refl
context-append (x ∷ es) e cs c h k =
    let (m, ms, p, q, s) = cons-parts (to_message x) (to_message_context es) cs h in
    rw (p, context-append es e ms c q k, s) refl

plain-role :
    (r : Role) (content : String)
    → (content == "") ≡ false
    → plain_message (role_kind r) content none ≡ ok (agent (record { role = r; content = content }))
unfolding plain_message new_message as_agent
plain-role Role.system content filled = rw filled refl
plain-role Role.user content filled = rw filled refl
plain-role Role.assistant content filled = rw filled refl

message-entry :
    (m : AgentMessage) → (m.content == "") ≡ false → to_message (entry_of m) ≡ ok (agent m)
unfolding to_message
message-entry m filled = plain-role m.role m.content filled

append_message-entry :
    (es : List Entry) (m : AgentMessage)
    → (m.content == "") ≡ false
    → append_message es m ≡ ok (List.◌++◌ es (entry_of m ∷ []))
unfolding append_message append new_entry
append_message-entry es m filled = rw filled refl

-- Messages that are not empty are all taken into a scratchpad, and the provider then gets what it got
-- before and these messages after it, unchanged and in order.
pub extend_messages-context :
    (es : List Entry) (ms : List AgentMessage) (cs : List ChatMessage)
    → All (λ m. (m.content == "") ≡ false) ms
    → to_message_context es ≡ ok cs
    → (fs : List Entry) × (extend_messages es ms ≡ ok fs)
      × (to_message_context fs ≡ ok (List.◌++◌ cs (map agent ms)))
unfolding extend_messages
extend_messages-context es [] cs all h = (es, refl, h ∙ ap ok (sym (append-nil cs)))
extend_messages-context es (m ∷ ms) cs (filled, all) h =
    let more = context-append es (entry_of m) cs (agent m) h (message-entry m filled) in
    let (fs, e, k) =
      extend_messages-context (List.◌++◌ es (entry_of m ∷ [])) ms (List.◌++◌ cs (agent m ∷ [])) all
        more in
    (
      fs,
      rw (append_message-entry es m filled, extend_messages) e,
      k ∙ ap ok (append_assoc cs (agent m ∷ []) (map agent ms)),
    )
