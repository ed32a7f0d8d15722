-- ===== src/Chat/Complete.antt =====
-- A turn of a chat that is kept, from the request to the reply: `ChatService.complete_chat` of
-- backend-python/app/services/chat_service.py, once the provider and
-- the model are resolved.
pub mod Appended
pub mod Rows
pub mod Replay
pub mod Resent
pub mod Gapless
pub mod InTurn
use Prim.Native.String.{◌++◌}
use mathlib.Core.List
use chatbot_react_python_nod.Prelude.{
  ℕ, suc, ◌+◌, String, ◌==◌, Bool, true, false, not, ◌&&◌, Option, none, some, List, [], ◌∷◌,
  if◌then◌else◌, ltb, length, strip, join, map,
}
use chatbot_react_python_nod.Agent.Models.{Role}
use chatbot_react_python_nod.Tools.Schema.{user, guest}
use chatbot_react_python_nod.Documents.Prompt.{text_or}
use chatbot_react_python_nod.Documents.Ask.{ProviderName, ChatMessageSchema, name_of}
use chatbot_react_python_nod.Chat.Store.{
  allocate_seq, ChatSession, ChatMessage, SessionSummary, MessageStatus, Tables,
  mark_last_message_at, list_messages_after_seq, get_latest_summary, add_summary,
}
use chatbot_react_python_nod.Chat.Usage.{
  Caller, UsageRecord, build_usage_record, resolve_max_tokens,
}
use chatbot_react_python_nod.Chat.Errors.{
  ChatServiceError, provider_not_allowed, session_not_found, quota_exceeded, db_unavailable,
  validation_error, empty_provider_response, Exception, normalize_chat_error,
}
use chatbot_react_python_nod.Chat.Turn.{
  ChatRequest, ChatSettings, UsageEvent, ChatState, ProviderCompletion, Completion, completed,
  raised, ChatEnv, ChatResponse, Reply, responded, refused, crashed, with_tables, Draft,
  append_message, user_draft, assistant_draft, replay_of, maybe_set_session_title,
  maybe_check_quota, maybe_record_quota, record_event, called, last_user_content, resolve_session,
}
use chatbot_react_python_nod.Chat.Admission.{turned_away, admitted, admit}
use chatbot_react_python_nod.Chat.Summary.{Turn, event_of, token_limit, maybe_summarize}

module _ (env : ChatEnv) (settings : ChatSettings) where
  abbrev pub reply_draft : Turn → ProviderCompletion → Draft
  reply_draft t c =
      assistant_draft t.session.id c.content t.provider t.model MessageStatus.complete
        c.finish_reason

  -- usage, quota and the time of the session, once the reply is written
  unfoldable pub count_reply : Turn → ProviderCompletion → ℕ → Tables → ChatState → ChatState
  count_reply t c seq tables st =
      let usage = build_usage_record t.provider t.model c.usage t.prompt_text c.content "chat" in
      let counted =
        maybe_record_quota t.caller
          (record_event (event_of t (some seq) usage) (with_tables tables st)) in
      with_tables (mark_last_message_at t.session.id counted.tables) counted

  abbrev pub response_of : Turn → ProviderCompletion → ChatResponse
  response_of t c = record {
    content = c.content;
    model = t.model;
    provider = name_of t.provider;
    session_id = t.session.id;
  }

  unfoldable pub finish : Turn → ProviderCompletion → ChatState → Reply × ChatState
  finish t c st = elim (append_message t.session.id (reply_draft t c) st.tables) [
    | none ↦ (crashed, st)
    | some (seq, tables) ↦
        let marked = count_reply t c seq tables st in
        elim (maybe_summarize env settings t marked) [
          | none ↦ (crashed, marked)
          | some done ↦ (responded (response_of t c), done)
        ]
  ]

  abbrev pub error_draft : Turn → Draft
  error_draft t = assistant_draft t.session.id "" t.provider t.model MessageStatus.error none

  -- the error is kept as an empty reply of status `error`, and raised
  unfoldable pub fail : Turn → ChatServiceError → ChatState → Reply × ChatState
  fail t e st = elim (append_message t.session.id (error_draft t) st.tables) [
    | none ↦ (crashed, st)
    | some (seq, tables) ↦ (refused e, with_tables (mark_last_message_at t.session.id tables) st)
  ]

  unfoldable pub settle_completion : Turn → Completion → ChatState → Reply × ChatState
  settle_completion t (raised e) st = fail t (normalize_chat_error e) st
  settle_completion t (completed c) st =
      if strip c.content == "" then fail t empty_provider_response st else finish t c st

  unfoldable pub generate : Turn → ChatState → Reply × ChatState
  generate t st =
      settle_completion t
        (env.complete_chat st.calls t.provider (t.request.first ∷ t.request.rest) t.model
          t.request.temperature (token_limit env settings t))
        (called st)

  abbrev pub replayed : Turn → ChatMessage → ChatResponse
  replayed t m = record {
    content = m.content;
    model = text_or m.model t.model;
    provider = text_or m.provider (name_of t.provider);
    session_id = t.session.id;
  }

  -- a message that cannot be written: the IntegrityError is the database's, the ValueError is not
  unfoldable pub unwritten : ℕ → Tables → Reply
  unwritten id t = elim (allocate_seq id t) [ none ↦ crashed | some x ↦ refused db_unavailable ]

  -- the turn in its session
  unfoldable pub run_turn : Turn → ChatState → Reply × ChatState
  run_turn t st = elim (replay_of t.session.id t.request.client_message_id st.tables) [
    | some m ↦ (responded (replayed t m), st)
    | none ↦
        elim (append_message t.session.id
          (user_draft t.session.id t.prompt_text t.request.client_message_id) st.tables) [
            | none ↦ (unwritten t.session.id st.tables, st)
            | some (seq, tables) ↦
                generate t (with_tables (maybe_set_session_title t.session t.prompt_text tables) st)
          ]
  ]

  unfoldable pub complete_chat :
      ProviderName → String → ChatRequest → Caller → ChatState → Reply × ChatState
  complete_chat provider model request caller st =
      let (admission, st') = admit settings provider model request caller st in
      elim admission [ turned_away e ↦ (refused e, st') | admitted t ↦ run_turn t st' ]
