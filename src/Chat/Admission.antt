-- ===== src/Chat/Admission.antt =====
-- Who is let in to a chat that is kept, and to which session: the guards at the start of
-- `ChatService.complete_chat`, `ChatService.prepare_stream` and `ToolChatService.complete_chat`, in
-- backend-python/app/services/chat_service.py and tool_chat_service.py.
use chatbot_react_python_nod.Prelude.{
  String, ◌==◌, Bool, true, not, ◌&&◌, none, some, if◌then◌else◌,
}
use chatbot_react_python_nod.Tools.Schema.{user, guest}
use chatbot_react_python_nod.Documents.Ask.{ProviderName, name_of}
use chatbot_react_python_nod.Chat.Usage.{Caller}
use chatbot_react_python_nod.Chat.Errors.{
  ChatServiceError, provider_not_allowed, session_not_found, quota_exceeded, validation_error,
}
use chatbot_react_python_nod.Chat.Turn.{
  ChatRequest, ChatSettings, ChatState, with_tables, maybe_check_quota, last_user_content,
  resolve_session,
}
use chatbot_react_python_nod.Chat.Summary.{Turn}

-- an error of ours, or the turn that is to be made
pub data Admission : Type 0 where
  turned_away : ChatServiceError → Admission
  admitted : Turn → Admission

module _ (settings : ChatSettings) where
  -- a guest may use the default provider and model only
  unfoldable pub gated : Caller → ProviderName → String → Bool
  gated caller provider model = elim caller.kind [
    | user ↦ true
    | guest ↦
        name_of provider == name_of settings.llm_provider
        && model == settings.default_model settings.llm_provider
  ]

  unfoldable pub admit :
      ProviderName → String → ChatRequest → Caller → ChatState → Admission × ChatState
  admit provider model request caller st =
      if not (gated caller provider model)
      then (turned_away provider_not_allowed, st)
      else elim (last_user_content request) [
        | none ↦ (
          turned_away (
              validation_error
                "The last message must be from role 'user' when submitting a chat turn."),
          st,
        )
        | some prompt ↦
            if not (maybe_check_quota settings caller st)
            then (turned_away quota_exceeded, st)
            else elim (resolve_session request caller st.tables) [
              | none ↦ (turned_away session_not_found, st)
              | some (session, tables) ↦ (
                admitted (record {
                  provider = provider;
                  model = model;
                  caller = caller;
                  session = session;
                  request = request;
                  prompt_text = prompt;
                }),
                with_tables tables st,
              )
            ]
      ]
