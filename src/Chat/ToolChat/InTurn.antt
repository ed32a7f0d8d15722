-- ===== src/Chat/ToolChat/InTurn.antt =====
-- A turn with tools keeps the numbers of all sessions' messages without a gap.
use mathlib.Core.Path.{subst}
use chatbot_react_python_nod.Prelude.{
  ℕ, refl, sym, String, Bool, Option, some, List, Option-cases, inl, inr,
}
use chatbot_react_python_nod.Json.{Json}
use chatbot_react_python_nod.Tools.Registry.{Registry}
use chatbot_react_python_nod.Tools.Executor.{Handler}
use chatbot_react_python_nod.Documents.Ask.{ProviderName}
use chatbot_react_python_nod.Chat.Usage.{Caller}
use chatbot_react_python_nod.Chat.Turn.{
  ChatRequest, ChatSettings, with_tables, append_message, user_draft, replay_of,
  maybe_set_session_title,
}
use chatbot_react_python_nod.Chat.Summary.{Turn}
use chatbot_react_python_nod.Chat.Admission.{admit}
use chatbot_react_python_nod.Chat.Complete.Gapless.{Gapless, titled-Gapless}
use chatbot_react_python_nod.Chat.Complete.InTurn.{
  append-Gapless, finish-Gapless, fail-Gapless, admit-Gapless, Admission-cases,
}
use chatbot_react_python_nod.Chat.ToolCalls.{
  LoopEnd, settled, stopped, cancelled, ToolEnv, ToolState,
}
use chatbot_react_python_nod.Chat.ToolLoop.{run_tool_loop}
use chatbot_react_python_nod.Chat.ToolLoop.Asked.{run_tool_loop-Asked}
use chatbot_react_python_nod.Chat.ToolChat.{
  ToolReply, completion_of, in_chat, settle_loop, tool_turn, complete_chat,
}

module _ (W : Type 0) (clock : W → ℕ) (render : Json → String) (tools : Registry (Handler W)) where
  module _ (env : ToolEnv) (settings : ChatSettings) (limit : ℕ) where
    -- the state after a reply
    abbrev Kept : ToolReply × ToolState W → Type 0
    Kept (r, st) = Gapless st.chat.tables

    settle_loop-Gapless :
        (t : Turn) (end_ : LoopEnd) (st : ToolState W)
        → Gapless st.chat.tables
        → Kept (settle_loop W clock render tools env settings limit t (end_, st))
    unfolding settle_loop
    settle_loop-Gapless t (settled r) st g =
        finish-Gapless env.chat settings t (completion_of r) st.chat g
    settle_loop-Gapless t (stopped e) st g = fail-Gapless env.chat settings t e st.chat g
    settle_loop-Gapless t cancelled st g = g

    loop-Gapless :
        (t : Turn) (on_activity : Bool) (allowed : Option (List String)) (st : ToolState W)
        → Gapless st.chat.tables
        → Gapless
            (run_tool_loop W clock render tools env t.provider t.model t.request.temperature
              settings limit t.request
              (some t.caller)
              on_activity
              allowed
              st).1.chat.tables
    loop-Gapless t on_activity allowed st g =
        elim (run_tool_loop-Asked W clock render tools env t.provider t.model t.request.temperature
          settings limit t.request (some t.caller) on_activity allowed st) [
            | inl (new, asked, rounds, bound, same) ↦ subst Gapless (sym same) g
            | inr (none_offered, asked, same) ↦ subst Gapless (sym same) g
          ]

    tool_turn-Gapless :
        (t : Turn) (on_activity : Bool) (allowed : Option (List String)) (st : ToolState W)
        → Gapless st.chat.tables
        → Kept (tool_turn W clock render tools env settings limit t on_activity allowed st)
    unfolding tool_turn
    tool_turn-Gapless t on_activity allowed st g =
        elim (Option-cases (replay_of t.session.id t.request.client_message_id st.chat.tables)) [
          | inr (m, e) ↦ rw (tool_turn, e) g
          | inl e ↦
              let draft = user_draft t.session.id t.prompt_text t.request.client_message_id in
              elim (Option-cases (append_message t.session.id draft st.chat.tables)) [
                | inl f ↦ rw (tool_turn, e, f) g
                | inr ((k, u), f) ↦
                    let titled = maybe_set_session_title t.session t.prompt_text u in
                    let begun = in_chat st (with_tables titled st.chat) in
                    rw (tool_turn, e, f)
                      (settle_loop-Gapless t _ _ (
                        loop-Gapless t on_activity allowed begun (
                          titled-Gapless t.session t.prompt_text u (
                            append-Gapless t.session.id draft k st.chat.tables u (λ k. (refl, refl))
                              f g))))
              ]
        ]

    -- Whatever becomes of a chat request with tools, afterwards the messages of every session are numbered 1,
    -- 2, 3 and so on without a gap, and the session's next number follows the last one, if this was so before.
    pub tool_chat-Gapless :
        (provider : ProviderName) (model : String) (request : ChatRequest) (caller : Caller)
        (on_activity : Bool) (allowed : Option (List String)) (st : ToolState W)
        → Gapless st.chat.tables
        → Gapless
            (complete_chat W clock render tools env settings limit provider model request caller
              on_activity allowed st).1.chat.tables
    unfolding complete_chat
    tool_chat-Gapless provider model request caller on_activity allowed st g =
        let (admission, chat) = admit settings provider model request caller st.chat in
        let in_turn = admit-Gapless env.chat settings provider model request caller st.chat g in
        elim (Admission-cases env.chat settings admission) [
          | inl (e, a) ↦ rw (complete_chat, a) in_turn
          | inr (t, a) ↦
              rw (complete_chat, a)
                (tool_turn-Gapless t on_activity allowed (in_chat st chat) in_turn)
        ]
