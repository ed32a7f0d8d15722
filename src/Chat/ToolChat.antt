-- ===== src/Chat/ToolChat.antt =====
-- A turn of a chat that is kept, with tools: `ToolChatService.complete_chat` of
-- backend-python/app/services/tool_chat_service.py, once the provider and the model are resolved.
pub mod InTurn
use chatbot_react_python_nod.Prelude.{ℕ, String, Bool, Option, none, some, List, []}
use chatbot_react_python_nod.Json.{Json}
use chatbot_react_python_nod.Tools.Registry.{Registry}
use chatbot_react_python_nod.Tools.Executor.{Handler}
use chatbot_react_python_nod.Documents.Ask.{ProviderName}
use chatbot_react_python_nod.Chat.Usage.{Caller}
use chatbot_react_python_nod.Chat.Turn.{
  ChatRequest, ChatSettings, ChatState, ProviderCompletion, Reply, responded, refused, crashed,
  with_tables, append_message, user_draft, replay_of, maybe_set_session_title,
}
use chatbot_react_python_nod.Chat.Summary.{Turn}
use chatbot_react_python_nod.Chat.Admission.{turned_away, admitted, admit}
use chatbot_react_python_nod.Chat.Complete.{finish, fail, replayed, unwritten}
use chatbot_react_python_nod.Chat.ToolCalls.{
  ToolLoopResult, LoopEnd, settled, stopped, cancelled, ToolEnv, ToolState,
}
use chatbot_react_python_nod.Chat.ToolLoop.{run_tool_loop}

-- a reply with the names of the tools that the model called
abbrev pub ToolReply : Type 0
ToolReply = Reply × List String

abbrev pub completion_of : ToolLoopResult → ProviderCompletion
completion_of r = record { content = r.content; finish_reason = r.finish_reason; usage = r.usage }

abbrev pub in_chat : {W : Type 0} → ToolState W → ChatState → ToolState W
in_chat st chat = record { chat = chat; world = st.world; activity = st.activity; asked = st.asked }

module _ (W : Type 0) (clock : W → ℕ) (render : Json → String) (tools : Registry (Handler W)) where
  module _ (env : ToolEnv) (settings : ChatSettings) (max_tool_iterations : ℕ) where
    abbrev pub left_with : List String → ToolState W → Reply × ChatState → ToolReply × ToolState W
    left_with used st (reply, chat) = ((reply, used), in_chat st chat)

    -- the reply is kept, or an empty one after an error; a cancelled turn keeps nothing more
    unfoldable pub settle_loop : Turn → LoopEnd × ToolState W → ToolReply × ToolState W
    settle_loop t (settled r, st) =
        left_with r.tools_used st (finish env.chat settings t (completion_of r) st.chat)
    settle_loop t (stopped e, st) = left_with [] st (fail env.chat settings t e st.chat)
    settle_loop t (cancelled, st) = ((crashed, []), st)

    -- the turn in its session
    unfoldable pub tool_turn :
        Turn → Bool → Option (List String) → ToolState W → ToolReply × ToolState W
    tool_turn t on_activity allowed st =
        elim (replay_of t.session.id t.request.client_message_id st.chat.tables) [
          | some m ↦ ((responded (replayed env.chat settings t m), []), st)
          | none ↦
              elim (append_message t.session.id
                (user_draft t.session.id t.prompt_text t.request.client_message_id)
                st.chat.tables) [
                  | none ↦ ((unwritten env.chat settings t.session.id st.chat.tables, []), st)
                  | some (seq, tables) ↦ settle_loop t (
                      run_tool_loop W clock render tools env t.provider t.model
                        t.request.temperature settings max_tool_iterations t.request (some t.caller)
                        on_activity allowed
                        (in_chat st (
                          with_tables (maybe_set_session_title t.session t.prompt_text tables)
                            st.chat)))
                ]
        ]

    unfoldable pub complete_chat :
        ProviderName
        → String
        → ChatRequest
        → Caller
        → Bool
        → Option (List String)
        → ToolState W
        → ToolReply × ToolState W
    complete_chat provider model request caller on_activity allowed st =
        let (admission, chat) = admit settings provider model request caller st.chat in
        elim admission [
          | turned_away e ↦ ((refused e, []), in_chat st chat)
          | admitted t ↦ tool_turn t on_activity allowed (in_chat st chat)
        ]
