-- ===== src/Chat/Sessions.antt =====
-- Reading, creating and deleting sessions: `get_session_transcript`, `create_session` and
-- `delete_session` of backend-python/app/services/chat_service.py, and `list_messages` and
-- `delete_session` of backend-python/app/db/chat.py. The foreign keys of backend-python/app/db/models.py
-- delete the messages and summaries of a deleted session; its usage events are not among the tables.
pub mod Owned
use chatbot_react_python_nod.Prelude.{
  ℕ, String, Bool, true, false, not, Option, none, some, List, [], ◌∷◌, nat_eq, select,
}
use chatbot_react_python_nod.Tools.Schema.{user, guest}
use chatbot_react_python_nod.Chat.Store.{
  ChatSession, ChatMessage, SessionSummary, Tables, find_session, get_owned_session, create_session,
  ordered_by_seq,
}
use chatbot_react_python_nod.Chat.Usage.{Caller}
use chatbot_react_python_nod.Chat.Errors.{ChatServiceError, session_not_found, new_chat_forbidden}

-- a result, or an error of ours
pub data Answer (A : Type 0) : Type 0 where
  given : A → Answer A
  denied : ChatServiceError → Answer A

unfoldable pub list_messages : ℕ → Tables → List ChatMessage
list_messages id t =
    ordered_by_seq (select (λ (m : ChatMessage). nat_eq m.session_id id) t.messages)

abbrev pub Transcript : Type 0
Transcript = ChatSession × List ChatMessage

unfoldable pub get_session_transcript : ℕ → Caller → Tables → Answer Transcript
get_session_transcript id caller t = elim (get_owned_session id caller.user_id caller.guest_id t) [
  | none ↦ denied session_not_found
  | some s ↦ given (s, list_messages id t)
]

-- the rows of other sessions
unfoldable pub remove_session : ℕ → Tables → Tables
remove_session id t = record {
  sessions = select (λ (s : ChatSession). not (nat_eq s.id id)) t.sessions;
  messages = select (λ (m : ChatMessage). not (nat_eq m.session_id id)) t.messages;
  summaries = select (λ (s : SessionSummary). not (nat_eq s.session_id id)) t.summaries;
  linked = t.linked;
  fresh = t.fresh;
  now = t.now;
}

unfoldable pub delete_session : ℕ → Option Caller → Tables → Answer Unit × Tables
delete_session id none t = (denied session_not_found, t)
delete_session id (some caller) t = elim caller.kind [
  | guest ↦ (denied new_chat_forbidden, t)
  | user ↦ elim (get_owned_session id caller.user_id none t) [
    | none ↦ (denied session_not_found, t)
    | some s ↦ (given tt, remove_session id t)
  ]
]

unfoldable pub open_session : Option Caller → Tables → Answer ChatSession × Tables
open_session none t = (denied session_not_found, t)
open_session (some caller) t = elim caller.kind [
  | guest ↦ (denied new_chat_forbidden, t)
  | user ↦ (let (s, u) = create_session caller.user_id none none t in (given s, u))
]
