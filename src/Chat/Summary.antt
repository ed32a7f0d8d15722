-- ===== src/Chat/Summary.antt =====
-- The running summary of a chat: `ChatService._maybe_summarize` and `_build_summary_input` of
-- backend-python/app/services/chat_service.py, and the turn it belongs to.
pub mod Same
use Prim.Native.String.{◌++◌}
use mathlib.Core.List
use chatbot_react_python_nod.Prelude.{
  ℕ, suc, ◌+◌, String, ◌==◌, Bool, true, false, not, ◌&&◌, Option, none, some, List, [], ◌∷◌,
  if◌then◌else◌, ltb, length, strip, join, map,
}
use chatbot_react_python_nod.Agent.Models.{Role}
use chatbot_react_python_nod.Tools.Schema.{user, guest}
use chatbot_react_python_nod.Documents.Prompt.{text_or}
use chatbot_react_python_nod.Documents.Ask.{ProviderName, ChatMessageSchema, name_of}
use chatbot_react_python_nod.Chat.Store.{
  allocate_seq, ChatSession, ChatMessage, SessionSummary, MessageStatus, Tables,
  mark_last_message_at, list_messages_after_seq, get_latest_summary, add_summary,
}
use chatbot_react_python_nod.Chat.Usage.{
  Caller, UsageRecord, build_usage_record, resolve_max_tokens,
}
use chatbot_react_python_nod.Chat.Errors.{
  ChatServiceError, provider_not_allowed, session_not_found, quota_exceeded, db_unavailable,
  validation_error, empty_provider_response, Exception, normalize_chat_error,
}
use chatbot_react_python_nod.Chat.Turn.{
  ChatRequest, ChatSettings, UsageEvent, ChatState, ProviderCompletion, Completion, completed,
  raised, ChatEnv, ChatResponse, Reply, responded, refused, crashed, with_tables, Draft,
  append_message, user_draft, assistant_draft, replay_of, maybe_set_session_title,
  maybe_check_quota, maybe_record_quota, record_event, called, last_user_content, resolve_session,
}

abbrev role_name : Role → String
role_name Role.system = "system"
role_name Role.user = "user"
role_name Role.assistant = "assistant"

abbrev summary_line : ChatMessage → String
summary_line m = role_name m.role ++ ": " ++ m.content

abbrev so_far : Option SessionSummary → List String
so_far none = []
so_far (some s) = ("Summary so far: " ++ s.content) ∷ []

unfoldable pub last_of {ℓ} : {A : Type ℓ} → A → List A → A
last_of m [] = m
last_of m (n ∷ ns) = last_of n ns

abbrev pub covered_by : Option SessionSummary → ℕ
covered_by none = 0
covered_by (some s) = s.covers_through_seq

abbrev next_version : Option SessionSummary → ℕ
next_version none = 1
next_version (some s) = s.version + 1

-- who is served, with what, and where
pub record Turn : Type 0 where
  pub provider : ProviderName
  pub model : String
  pub caller : Caller
  pub session : ChatSession
  pub request : ChatRequest
  pub prompt_text : String

-- the counts of one generation
abbrev pub event_of : Turn → Option ℕ → UsageRecord → UsageEvent
event_of t seq usage = record {
  of_session = t.session.id;
  of_seq = seq;
  user_id = t.caller.user_id;
  guest_id = t.caller.guest_id;
  usage = usage;
}

abbrev pub summary_row : Turn → Option SessionSummary → ℕ → ProviderCompletion → SessionSummary
summary_row t latest covers c = record {
  session_id = t.session.id;
  version = next_version latest;
  covers_through_seq = covers;
  content = c.content;
  provider = name_of t.provider;
  model = t.model;
}

module _ (env : ChatEnv) (settings : ChatSettings) where
  unfoldable pub summary_text : Option SessionSummary → List ChatMessage → String
  summary_text latest pending =
      env.summarize_user (join "\n" (List.◌++◌ (so_far latest) (map summary_line pending)))

  -- the summary is kept, and its tokens are counted; none is the IntegrityError
  unfoldable pub keep_summary :
      Turn → Option SessionSummary → ℕ → String → ProviderCompletion → ChatState → Option ChatState
  keep_summary t latest covers prompt c st =
      elim (add_summary (summary_row t latest covers c) st.tables) [
        | none ↦ none
        | some tables ↦ some (
            record_event
              (event_of t none
                (build_usage_record t.provider t.model c.usage prompt c.content "summary"))
              (with_tables tables st))
      ]

  -- `pending[-1]` is an IndexError if nothing is pending
  unfoldable pub summarized :
      Turn
      → Option SessionSummary
      → List ChatMessage
      → String
      → ProviderCompletion
      → ChatState
      → Option ChatState
  summarized t latest [] prompt c st = none
  summarized t latest (m ∷ ms) prompt c st = keep_summary t latest (last_of m ms).seq prompt c st

  abbrev pub token_limit : Turn → Option ℕ
  token_limit t = resolve_max_tokens (some t.caller) settings.tokens none (some t.provider)

  abbrev pub ask_summary : Turn → Option SessionSummary → List ChatMessage → ChatState → Completion
  ask_summary t latest pending st =
      env.complete_chat st.calls t.provider
        ((Role.system, env.summarize_system) ∷ (Role.user, summary_text latest pending) ∷ [])
        t.model "0.3" (token_limit t)

  -- a summary that fails is left for the next turn
  unfoldable pub summarize :
      Turn → Option SessionSummary → List ChatMessage → ChatState → Option ChatState
  summarize t latest pending st = elim (ask_summary t latest pending st) [
    | raised e ↦ some (called st)
    | completed c ↦ summarized t latest pending (summary_text latest pending) c (called st)
  ]

  unfoldable pub maybe_summarize : Turn → ChatState → Option ChatState
  maybe_summarize t st =
      let latest = get_latest_summary t.session.id st.tables in
      let pending = list_messages_after_seq t.session.id (covered_by latest) st.tables in
      if ltb (length pending) settings.summary_trigger_message_count
      then some st
      else summarize t latest pending st
