-- ===== src/Chat/Stream/Rows.antt =====
-- What a streamed turn leaves in the messages.
use mathlib.Core.Path.{subst}
use chatbot_react_python_nod.Prelude.{
  ℕ, ◌≡◌, ◌⊎◌, refl, ◌∙◌, String, Bool, true, false, Option, none, some, List, [], ◌∷◌, ◌++◌,
  is_empty, Bool-cases, Option-cases, inl, inr,
}
use chatbot_react_python_nod.Chat.Store.{
  ChatMessage, MessageStatus, Tables, allocate_seq, mark_last_message_at, list_messages_after_seq,
  get_latest_summary,
}
use chatbot_react_python_nod.Chat.Errors.{Exception, normalize_chat_error}
use chatbot_react_python_nod.Chat.Turn.{ChatSettings, ChatState, ProviderCompletion, append_message}
use chatbot_react_python_nod.Chat.Summary.{Turn, covered_by, maybe_summarize}
use chatbot_react_python_nod.Chat.Summary.Same.{Same, maybe_summarize-Same}
use chatbot_react_python_nod.Chat.Complete.{count_reply}
use chatbot_react_python_nod.Chat.Complete.Appended.{append_message-Appended}
use chatbot_react_python_nod.Chat.Complete.Replay.{count_reply-messages}
use chatbot_react_python_nod.Chat.Stream.{
  StreamEnv, Persisted, saved, unsaved, row_draft, append_error, summary_error, value_error,
  index_error, integrity_error, error_of, persist_complete, persist_partial, recover,
}

abbrev pub Messages : Type 0
Messages = List ChatMessage

-- one message more, the reply with this text
abbrev pub Replied : Turn → String → Option String → MessageStatus → Messages → Messages → Type 0
Replied t text reason status ms ms' = (k : ℕ) × (ms' ≡ ms ++ row_draft t text reason status k ∷ [])

abbrev pub AfterPartial :
    Turn → String → Option String → MessageStatus → Messages → Persisted → Messages → Type 0
AfterPartial t text reason status ms saved ms' = Replied t text reason status ms ms'
AfterPartial t text reason status ms (unsaved e usable) ms' = ms' ≡ ms

abbrev pub AfterComplete : Turn → String → Option String → Messages → Persisted → Messages → Type 0
AfterComplete t text reason ms saved ms' = Replied t text reason MessageStatus.complete ms ms'
AfterComplete t text reason ms (unsaved e usable) ms' =
    (ms' ≡ ms) ⊎ Replied t text reason MessageStatus.complete ms ms'

module _ (env : StreamEnv) (settings : ChatSettings) where
  Persisted-cases :
      (x : Persisted) → (x ≡ saved) ⊎ ((e : Exception) × (u : Bool) × (x ≡ unsaved e u))
  Persisted-cases saved = inl refl
  Persisted-cases (unsaved e u) = inr (e, u, refl)

  -- the exception of a message that cannot be written
  append_error-unsaved :
      (id : ℕ) (t : Tables)
      → (e : Exception) × (u : Bool) × (append_error env settings id t ≡ unsaved e u)
  append_error-unsaved id t = elim (Option-cases (allocate_seq id t)) [
    | inl e ↦ (value_error, true, (rw (append_error, e) refl))
    | inr (x, e) ↦ (integrity_error, false, (rw (append_error, e) refl))
  ]

  pub persist_partial-rows :
      (t : Turn) (text : String) (reason : Option String) (status : MessageStatus) (st : ChatState)
      → let (result, st') = persist_partial env settings t text reason status st in
        AfterPartial t text reason status st.tables.messages result st'.tables.messages
  unfolding persist_partial mark_last_message_at
  persist_partial-rows t text reason status st =
      let draft = row_draft t text reason status in
      elim (Option-cases (append_message t.session.id draft st.tables)) [
        | inl e ↦
            let (x, u, f) = append_error-unsaved t.session.id st.tables in
            rw (persist_partial, e, f) refl
        | inr ((k, u), e) ↦
            rw (persist_partial, e)
              (k, (append_message-Appended t.session.id draft st.tables u k e).last)
      ]

  summary_error-unsaved :
      (t : Turn) (tables : Tables)
      → (e : Exception) × (u : Bool) × (summary_error env settings t tables ≡ unsaved e u)
  summary_error-unsaved t tables =
      let pending =
        list_messages_after_seq t.session.id (covered_by (get_latest_summary t.session.id tables))
          tables in
      elim (Bool-cases (is_empty pending)) [
        | inl e ↦ (index_error, true, (rw (summary_error, e) refl))
        | inr e ↦ (integrity_error, false, (rw (summary_error, e) refl))
      ]

  pub persist_complete-rows :
      (t : Turn) (text : String) (reason : Option String) (st : ChatState)
      → let (result, st') = persist_complete env settings t text reason st in
        AfterComplete t text reason st.tables.messages result st'.tables.messages
  unfolding persist_complete
  persist_complete-rows t text reason st =
      let draft = row_draft t text reason MessageStatus.complete in
      elim (Option-cases (append_message t.session.id draft st.tables)) [
        | inl e ↦
            let (x, u, f) = append_error-unsaved t.session.id st.tables in
            rw (persist_complete, e, f) (inl refl)
        | inr ((k, v), e) ↦
            let c : ProviderCompletion = record {
              content = text;
              finish_reason = reason;
              usage = none;
            } in
            let marked = count_reply env.chat settings t c k v st in
            let row = (append_message-Appended t.session.id draft st.tables v k e).last in
            let counted : marked.tables.messages ≡ st.tables.messages ++ draft k ∷ [] =
              count_reply-messages env.chat settings t c k v st ∙ row in
            elim (Option-cases (maybe_summarize env.chat settings t marked)) [
              | inl f ↦
                  let (x, u, g) = summary_error-unsaved t marked.tables in
                  rw (persist_complete, e, f, g) (inr (k, counted))
              | inr (done, f) ↦
                  let (same, sessions) : Same env.chat settings marked (some done) =
                    subst (λ o. Same env.chat settings marked o) f
                      (maybe_summarize-Same env.chat settings t marked) in
                  rw (persist_complete, e, f) (k, same ∙ counted)
            ]
      ]

  pub recover-rows :
      (t : Turn) (text : String) (e : Exception) (usable : Bool) (st : ChatState)
      → let (frames, st') = recover env settings t text e usable st in
        (frames ≡ error_of (normalize_chat_error e) ∷ [])
        × ((st'.tables.messages ≡ st.tables.messages)
            ⊎ Replied t text none MessageStatus.error st.tables.messages st'.tables.messages)
  unfolding recover
  recover-rows t text e false st = (refl, inl refl)
  recover-rows t text e true st =
      let r = persist_partial env settings t text none MessageStatus.error st in
      let rows = persist_partial-rows t text none MessageStatus.error st in
      elim (Persisted-cases r.0) [
        | inl f ↦ (
          refl,
          inr (
              subst
                (λ o.
                  AfterPartial t text none MessageStatus.error st.tables.messages o
                    r.1.tables.messages)
                f rows),
        )
        | inr (x, u, f) ↦ (
          refl,
          inl (
              subst
                (λ o.
                  AfterPartial t text none MessageStatus.error st.tables.messages o
                    r.1.tables.messages)
                f rows),
        )
      ]
