-- ===== src/Chat/Stream/InTurn.antt =====
-- A streamed turn keeps the numbers of all sessions' messages without a gap.
use mathlib.Core.Path.{subst}
use chatbot_react_python_nod.Prelude.{
  refl, String, Bool, true, false, Option, none, some, List, [], ◌∷◌, is_empty, concat, Bool-cases,
  Option-cases, inl, inr,
}
use chatbot_react_python_nod.Documents.Ask.{ProviderName}
use chatbot_react_python_nod.Chat.Store.{MessageStatus}
use chatbot_react_python_nod.Chat.Store.Sequence.{next_of-sessions}
use chatbot_react_python_nod.Chat.Usage.{Caller}
use chatbot_react_python_nod.Chat.Errors.{Exception, empty_provider_response}
use chatbot_react_python_nod.Chat.Turn.{
  ChatRequest, ChatSettings, ChatState, ProviderCompletion, append_message, user_draft, called,
}
use chatbot_react_python_nod.Chat.Summary.{Turn, maybe_summarize}
use chatbot_react_python_nod.Chat.Summary.Same.{Same, maybe_summarize-Same}
use chatbot_react_python_nod.Chat.Admission.{admit}
use chatbot_react_python_nod.Chat.Complete.{count_reply}
use chatbot_react_python_nod.Chat.Complete.Gapless.{
  Gapless, Gapless-same, titled-Gapless, marked-Gapless,
}
use chatbot_react_python_nod.Chat.Complete.InTurn.{
  append-Gapless, count_reply-Gapless, admit-Gapless, Admission-cases,
}
use chatbot_react_python_nod.Chat.Stream.{
  Frame, end_frame, StreamEnv, Collected, Ending, gone, drained, broken, Persisted, saved, unsaved,
  StreamPrep, prior_of, row_draft, error_of, persist_complete, persist_partial, recover, conclude,
  settle_stream, pulled, generate_stream, stream_chat, prepare_turn, prepare_stream,
}

-- the state after a step
abbrev Kept : {A : Type 0} → A × ChatState → Type 0
Kept (a, st) = Gapless st.tables

module _ (env : StreamEnv) (settings : ChatSettings) where
  persist_partial-Gapless :
      (t : Turn) (text : String) (reason : Option String) (status : MessageStatus) (st : ChatState)
      → Gapless st.tables
      → Kept (persist_partial env settings t text reason status st)
  unfolding persist_partial
  persist_partial-Gapless t text reason status st g =
      let draft = row_draft t text reason status in
      elim (Option-cases (append_message t.session.id draft st.tables)) [
        | inl e ↦ rw (persist_partial, e) g
        | inr ((k, u), e) ↦
            rw (persist_partial, e)
              (marked-Gapless t.session.id u
                (append-Gapless t.session.id draft k st.tables u (λ k. (refl, refl)) e g))
      ]

  persist_complete-Gapless :
      (t : Turn) (text : String) (reason : Option String) (st : ChatState)
      → Gapless st.tables
      → Kept (persist_complete env settings t text reason st)
  unfolding persist_complete
  persist_complete-Gapless t text reason st g =
      let draft = row_draft t text reason MessageStatus.complete in
      elim (Option-cases (append_message t.session.id draft st.tables)) [
        | inl e ↦ rw (persist_complete, e) g
        | inr ((k, u), e) ↦
            let c : ProviderCompletion = record {
              content = text;
              finish_reason = reason;
              usage = none;
            } in
            let marked = count_reply env.chat settings t c k u st in
            let counted : Gapless marked.tables =
              count_reply-Gapless env.chat settings t c k u st
                (append-Gapless t.session.id draft k st.tables u (λ k. (refl, refl)) e g) in
            elim (Option-cases (maybe_summarize env.chat settings t marked)) [
              | inl f ↦ rw (persist_complete, e, f) counted
              | inr (done, f) ↦
                  let (messages, sessions) : Same env.chat settings marked (some done) =
                    subst (λ o. Same env.chat settings marked o) f
                      (maybe_summarize-Same env.chat settings t marked) in
                  rw (persist_complete, e, f)
                    (Gapless-same marked.tables done.tables
                      (λ j. next_of-sessions j marked.tables done.tables sessions) messages counted)
            ]
      ]

  recover-Gapless :
      (t : Turn) (text : String) (e : Exception) (usable : Bool) (st : ChatState)
      → Gapless st.tables
      → Kept (recover env settings t text e usable st)
  unfolding recover
  recover-Gapless t text e true st g = persist_partial-Gapless t text none MessageStatus.error st g
  recover-Gapless t text e false st g = g

  conclude-Gapless :
      (t : Turn) (text : String) (frames : List Frame) (result : Persisted) (st : ChatState)
      → Gapless st.tables
      → Kept (conclude env settings t text frames (result, st))
  unfolding conclude
  conclude-Gapless t text frames saved st g = g
  conclude-Gapless t text frames (unsaved e usable) st g = recover-Gapless t text e usable st g

  settle_stream-Gapless :
      (t : Turn) (ending : Ending) (c : Collected) (st : ChatState)
      → Gapless st.tables
      → Kept (settle_stream env settings t ending c st)
  unfolding settle_stream
  settle_stream-Gapless t gone c st g =
      conclude-Gapless t _ [] _ _
        (persist_partial-Gapless t _ (some "interrupted") MessageStatus.interrupted st g)
  settle_stream-Gapless t (broken e) c st g = recover-Gapless t _ e true st g
  settle_stream-Gapless t drained c st g = elim (Bool-cases (is_empty c.pieces)) [
    | inl e ↦
        rw (settle_stream, e)
          (conclude-Gapless t _ (error_of empty_provider_response ∷ []) _ _
            (persist_partial-Gapless t "" none MessageStatus.error st g))
    | inr e ↦
        rw (settle_stream, e)
          (conclude-Gapless t _ (end_frame c.finish_reason ∷ []) _ _
            (persist_complete-Gapless t (concat c.pieces) (some c.finish_reason) st g))
  ]

  stream-Gapless :
      (prep : StreamPrep) (st : ChatState)
      → Gapless st.tables
      → Kept (stream_chat env settings prep st)
  unfolding stream_chat generate_stream
  stream-Gapless prep st g = elim (Option-cases prep.idempotent_reply) [
    | inr (r, e) ↦ rw (stream_chat, e) g
    | inl e ↦
        let (ending, c) = pulled env settings prep.turn st in
        rw (stream_chat, e) (settle_stream-Gapless prep.turn ending c (called st) g)
  ]

  prepare_turn-Gapless :
      (t : Turn) (st : ChatState) → Gapless st.tables → Kept (prepare_turn env settings t st)
  unfolding prepare_turn
  prepare_turn-Gapless t st g =
      elim (Option-cases (prior_of t.session.id t.request.client_message_id st.tables)) [
        | inr (m, e) ↦ rw (prepare_turn, e) g
        | inl e ↦
            let draft = user_draft t.session.id t.prompt_text t.request.client_message_id in
            elim (Option-cases (append_message t.session.id draft st.tables)) [
              | inl f ↦ rw (prepare_turn, e, f) g
              | inr ((k, u), f) ↦
                  rw (prepare_turn, e, f)
                    (titled-Gapless t.session t.prompt_text u
                      (append-Gapless t.session.id draft k st.tables u (λ k. (refl, refl)) f g))
            ]
      ]

  -- If the messages of every session are numbered 1, 2, 3 and so on without a gap, and the session's next number
  -- follows the last one, then this is so after a stream is prepared, whether it is opened or not, and after any
  -- prepared stream is run from there, whatever its end.
  pub streaming-Gapless :
      (provider : ProviderName) (model : String) (request : ChatRequest) (caller : Caller)
      (st : ChatState) (prep : StreamPrep)
      → Gapless st.tables
      → let st' = (prepare_stream env settings provider model request caller st).1 in
        Gapless st'.tables × Gapless (stream_chat env settings prep st').1.tables
  unfolding prepare_stream
  streaming-Gapless provider model request caller st prep g =
      let (admission, st') = admit settings provider model request caller st in
      let in_turn = admit-Gapless env.chat settings provider model request caller st g in
      let opened : Gapless (prepare_stream env settings provider model request caller st).1.tables =
        elim (Admission-cases env.chat settings admission) [
          | inl (e, a) ↦ rw (prepare_stream, a) in_turn
          | inr (t, a) ↦ rw (prepare_stream, a) (prepare_turn-Gapless t st' in_turn)
        ] in
      (opened, stream-Gapless prep _ opened)
