-- ===== src/Chat/Turn.antt =====
-- The parts of a chat turn that is kept: the helpers of `ChatService` in
-- backend-python/app/services/chat_service.py, with the guests' quota of
-- backend-python/app/services/quota_service.py. The provider and the prompt templates are parameters;
-- each call of the provider has a number. Transactions and the log are not kept.

use mathlib.Core.List
use chatbot_react_python_nod.Prelude.{
  ℕ, suc, ◌+◌, String, Bool, true, not, Option, none, some, List, [], ◌∷◌, if◌then◌else◌, leb,
  nat_eq, Dict, lookup, insert,
}
use chatbot_react_python_nod.Agent.Models.{Role}
use chatbot_react_python_nod.Tools.Schema.{user, guest}
use chatbot_react_python_nod.Documents.Ask.{ProviderName, ChatMessageSchema, name_of}
use chatbot_react_python_nod.Chat.Store.{
  ChatSession, ChatMessage, MessageStatus, Tables, add_message, allocate_seq, create_session,
  get_owned_session, get_default_guest_session, find_by_client_message_id, get_message_by_seq,
  update_title,
}
use chatbot_react_python_nod.Chat.Usage.{
  Caller, TokenSettings, ProviderUsage, UsageRecord, derive_session_title, or_zero,
}
use chatbot_react_python_nod.Chat.Errors.{ChatServiceError, Exception}

pub record ChatRequest : Type 0 where
  pub first : ChatMessageSchema
  pub rest : List ChatMessageSchema
  pub temperature : String
  pub session_id : Option ℕ
  pub client_message_id : Option String

pub record ChatSettings : Type 0 where
  pub llm_provider : ProviderName
  pub default_model : ProviderName → String
  pub tokens : TokenSettings
  pub guest_daily_message_quota : ℕ
  pub summary_trigger_message_count : ℕ

pub record UsageEvent : Type 0 where
  pub of_session : ℕ
  pub of_seq : Option ℕ
  pub user_id : Option String
  pub guest_id : Option String
  pub usage : UsageRecord

-- the tables, the usage events, the guests' messages of the day, and the number of calls of the provider
pub record ChatState : Type 0 where
  pub tables : Tables
  pub events : List UsageEvent
  pub counts : Dict ℕ
  pub calls : ℕ

pub record ProviderCompletion : Type 0 where
  pub content : String
  pub finish_reason : Option String
  pub usage : Option ProviderUsage

pub data Completion : Type 0 where
  completed : ProviderCompletion → Completion
  raised : Exception → Completion

pub record ChatEnv : Type 0 where
  pub complete_chat :
      ℕ → ProviderName → List ChatMessageSchema → String → String → Option ℕ → Completion
  pub summarize_system : String
  pub summarize_user : String → String

pub record ChatResponse : Type 0 where
  pub content : String
  pub model : String
  pub provider : String
  pub session_id : ℕ

-- a response, an error of ours, or another exception
pub data Reply : Type 0 where
  responded : ChatResponse → Reply
  refused : ChatServiceError → Reply
  crashed : Reply

abbrev pub with_tables : Tables → ChatState → ChatState
with_tables t st = record { tables = t; events = st.events; counts = st.counts; calls = st.calls }

-- the guest that the quota counts
unfoldable pub guest_of : Caller → Option String
guest_of caller = elim caller.kind [ guest ↦ caller.guest_id | user ↦ none ]

abbrev pub count_of : String → Dict ℕ → ℕ
count_of g counts = or_zero (lookup g counts)

-- the row that a new message is, but for its number
abbrev pub Draft : Type 0
Draft = ℕ → ChatMessage

-- `allocate_seq` and then `add_message`
unfoldable pub append_message : ℕ → Draft → Tables → Option (ℕ × Tables)
append_message id draft t = elim (allocate_seq id t) [
  | none ↦ none
  | some (seq, t') ↦ elim (add_message (draft seq) t') [ none ↦ none | some t'' ↦ some (seq, t'') ]
]

abbrev pub user_draft : ℕ → String → Option String → Draft
user_draft id content key seq = record {
  session_id = id;
  seq = seq;
  role = Role.user;
  content = content;
  provider = none;
  model = none;
  status = MessageStatus.complete;
  finish_reason = none;
  client_message_id = key;
}

abbrev pub assistant_draft :
    ℕ → String → ProviderName → String → MessageStatus → Option String → Draft
assistant_draft id content name model status reason seq = record {
  session_id = id;
  seq = seq;
  role = Role.assistant;
  content = content;
  provider = some (name_of name);
  model = some model;
  status = status;
  finish_reason = reason;
  client_message_id = none;
}

-- the stored reply to a message that the client has sent before
unfoldable pub replay_of : ℕ → Option String → Tables → Option ChatMessage
replay_of id none t = none
replay_of id (some key) t = elim (find_by_client_message_id id key t) [
  | none ↦ none
  | some prior ↦ get_message_by_seq id (prior.seq + 1) t
]

unfoldable pub maybe_set_session_title : ChatSession → String → Tables → Tables
maybe_set_session_title s content t = elim s.title [
  | some title ↦ t
  | none ↦ elim (derive_session_title content 50) [
    | none ↦ t
    | some title ↦ update_title s.id title t
  ]
]

unfoldable pub maybe_check_quota : ChatSettings → Caller → ChatState → Bool
maybe_check_quota settings caller st = elim (guest_of caller) [
  | none ↦ true
  | some g ↦ not (leb settings.guest_daily_message_quota (count_of g st.counts))
]

unfoldable pub maybe_record_quota : Caller → ChatState → ChatState
maybe_record_quota caller st = elim (guest_of caller) [
  | none ↦ st
  | some g ↦ record {
    tables = st.tables;
    events = st.events;
    counts = insert g (count_of g st.counts + 1) st.counts;
    calls = st.calls;
  }
]

abbrev pub record_event : UsageEvent → ChatState → ChatState
record_event e st = record {
  tables = st.tables;
  events = List.◌++◌ st.events (e ∷ []);
  counts = st.counts;
  calls = st.calls;
}

abbrev pub called : ChatState → ChatState
called st = record {
  tables = st.tables;
  events = st.events;
  counts = st.counts;
  calls = suc st.calls;
}

unfoldable pub last_message : ChatMessageSchema → List ChatMessageSchema → ChatMessageSchema
last_message m [] = m
last_message m (n ∷ ns) = last_message n ns

-- none is the validation error for a last message that is not the user's
unfoldable pub last_user_content : ChatRequest → Option String
last_user_content request =
    let (role, content) = last_message request.first request.rest in
    elim role [ Role.user ↦ some content | _ ↦ none ]

unfoldable pub resolve_session : ChatRequest → Caller → Tables → Option (ChatSession × Tables)
resolve_session request caller t = elim request.session_id [
  | some id ↦ elim (get_owned_session id caller.user_id caller.guest_id t) [
    | none ↦ none
    | some existing ↦ elim (guest_of caller) [
      | none ↦ some (existing, t)
      | some g ↦ elim (get_default_guest_session g t) [
        | none ↦ some (existing, t)
        | some default ↦ if nat_eq default.id existing.id then some (existing, t) else none
      ]
    ]
  ]
  | none ↦ elim (guest_of caller) [
    | none ↦ some (create_session caller.user_id caller.guest_id none t)
    | some g ↦ elim (get_default_guest_session g t) [
      | some default ↦ some (default, t)
      | none ↦ some (create_session caller.user_id caller.guest_id none t)
    ]
  ]
]
