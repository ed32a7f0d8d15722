-- ===== src/Chat/Stream/Tells.antt =====
-- What the frames of a stream tell of the messages.
use mathlib.Core.Path.{subst}
use chatbot_react_python_nod.Prelude.{
  ◌≡◌, ◌⊎◌, refl, sym, ap, ◌∙◌, String, Bool, true, Option, none, some, List, [], ◌∷◌, ◌++◌, map,
  All, is_empty, concat, Bool-cases, inl, inr,
}
use chatbot_react_python_nod.Chat.Store.{MessageStatus}
use chatbot_react_python_nod.Chat.Errors.{Exception, empty_provider_response}
use chatbot_react_python_nod.Chat.Turn.{ChatSettings, ChatState, called}
use chatbot_react_python_nod.Chat.Summary.{Turn, token_limit}
use chatbot_react_python_nod.Chat.Stream.{
  Frame, start, delta, end_frame, error_frame, StreamEnv, Collected, Ending, gone, drained, broken,
  Persisted, saved, unsaved, StreamPrep, row_draft, error_of, persist_complete, persist_partial,
  recover, conclude, settle_stream, pulled, nothing_yet, generate_stream, stream_chat,
}
use chatbot_react_python_nod.Chat.Stream.Rows.{
  Messages, Replied, AfterPartial, AfterComplete, persist_partial-rows, persist_complete-rows,
  recover-rows,
}
use chatbot_react_python_nod.Chat.Stream.Frames.{IsText, pump-IsSent}

-- After an error: nothing is written; or the text as an error; or the text as a complete reply, whose summary
-- failed, with nothing or with the text as an error after it.
abbrev pub AfterError : Turn → String → Messages → Messages → Type 0
AfterError t text ms ms' =
    (ms' ≡ ms)
    ⊎ Replied t text none MessageStatus.error ms ms'
    ⊎ ((reason : String) × Replied t text (some reason) MessageStatus.complete ms ms')
    ⊎ ((reason : String) × (mid : Messages) × Replied t text (some reason) MessageStatus.complete ms
          mid
        × Replied t text none MessageStatus.error mid ms')

-- what the last frame tells of the messages: none comes to a client that is gone
abbrev pub TellsOf : Turn → String → List Frame → Messages → Messages → Type 0
TellsOf t text [] ms ms' = Replied t text (some "interrupted") MessageStatus.interrupted ms ms'
TellsOf t text (end_frame reason ∷ []) ms ms' =
    Replied t text (some reason) MessageStatus.complete ms ms'
TellsOf t text (error_frame code message ∷ []) ms ms' = AfterError t text ms ms'
TellsOf t text _ ms ms' = ⊥

empty_text : (ps : List String) → is_empty ps ≡ true → concat ps ≡ ""
unfolding concat
empty_text [] h = refl
empty_text (p ∷ ps) h = absurd cc

module _ (env : StreamEnv) (settings : ChatSettings) where
  -- what is written before the `except` clause runs
  abbrev Before : Turn → String → Messages → Messages → Type 0
  Before t text ms ms' =
      (ms' ≡ ms) ⊎ ((reason : String) × Replied t text (some reason) MessageStatus.complete ms ms')

  recovered :
      (t : Turn) (text : String) (e : Exception) (usable : Bool) (ms : Messages) (st : ChatState)
      → Before t text ms st.tables.messages
      → let (frames, st') = recover env settings t text e usable st in
        TellsOf t text frames ms st'.tables.messages
  recovered t text e usable ms st before =
      let (frames, st') = recover env settings t text e usable st in
      let (one, rows) = recover-rows env settings t text e usable st in
      let after : AfterError t text ms st'.tables.messages = elim before [
        | inl same ↦ elim rows [
          | inl none_more ↦ inl (none_more ∙ same)
          | inr (k, more) ↦
              inr (
                inl
                  (k, more ∙ ap (λ r. r ++ row_draft t text none MessageStatus.error k ∷ []) same))
        ]
        | inr (reason, complete) ↦ elim rows [
          | inl none_more ↦ inr (inr (inl (reason, (complete.0, none_more ∙ complete.1))))
          | inr more ↦ inr (inr (inr (reason, st.tables.messages, complete, more)))
        ]
      ] in
      rw one after

  conclude-Tells :
      (t : Turn) (text : String) (frames : List Frame) (ms : Messages) (result : Persisted)
      (st : ChatState)
      → (result ≡ saved → TellsOf t text frames ms st.tables.messages)
      → ((e : Exception) (u : Bool) → result ≡ unsaved e u → Before t text ms st.tables.messages)
      → let (last, st') = conclude env settings t text frames (result, st) in
        TellsOf t text last ms st'.tables.messages
  unfolding conclude
  conclude-Tells t text frames ms saved st good bad = good refl
  conclude-Tells t text frames ms (unsaved e u) st good bad =
      recovered t text e u ms st (bad e u refl)

  partial-Tells :
      (t : Turn) (text shown : String) (reason : Option String) (status : MessageStatus)
      (frames : List Frame) (st : ChatState)
      → ((ms' : Messages)
          → Replied t text reason status st.tables.messages ms'
          → TellsOf t shown frames st.tables.messages ms')
      → let (last, st') =
          conclude env settings t shown frames
            (persist_partial env settings t text reason status st) in
        TellsOf t shown last st.tables.messages st'.tables.messages
  partial-Tells t text shown reason status frames st good =
      let ms = st.tables.messages in
      let r = persist_partial env settings t text reason status st in
      let rows = persist_partial-rows env settings t text reason status st in
      conclude-Tells t shown frames ms r.0 r.1
        (λ e.
          good r.1.tables.messages
            (subst (λ o. AfterPartial t text reason status ms o r.1.tables.messages) e rows))
        (λ x u e.
          inl (subst (λ o. AfterPartial t text reason status ms o r.1.tables.messages) e rows))

  settle_stream-Tells :
      (t : Turn) (ending : Ending) (c : Collected) (st : ChatState)
      → let (last, st') = settle_stream env settings t ending c st in
        TellsOf t (concat c.pieces) last st.tables.messages st'.tables.messages
  unfolding settle_stream
  settle_stream-Tells t gone c st =
      partial-Tells t (concat c.pieces) (concat c.pieces) (some "interrupted")
        MessageStatus.interrupted [] st (λ ms' r. r)
  settle_stream-Tells t (broken e) c st =
      recovered t (concat c.pieces) e true st.tables.messages st (inl refl)
  settle_stream-Tells t drained c st = elim (Bool-cases (is_empty c.pieces)) [
    | inl e ↦
        let nothing : concat c.pieces ≡ "" = empty_text c.pieces e in
        rw (settle_stream, e)
          (partial-Tells t "" (concat c.pieces) none MessageStatus.error
            (error_of empty_provider_response ∷ []) st
            (λ ms' r. inr (
              inl (
                subst (λ s. Replied t s none MessageStatus.error st.tables.messages ms')
                  (sym nothing) r))))
    | inr e ↦
        let text = concat c.pieces in
        let ms = st.tables.messages in
        let r = persist_complete env settings t text (some c.finish_reason) st in
        let rows = persist_complete-rows env settings t text (some c.finish_reason) st in
        let after : (o : Persisted)
            → r.0 ≡ o
            → AfterComplete t text (some c.finish_reason) ms o r.1.tables.messages =
          λ o f.
            subst (λ o. AfterComplete t text (some c.finish_reason) ms o r.1.tables.messages) f
              rows in
        rw (settle_stream, e)
          (conclude-Tells t text (end_frame c.finish_reason ∷ []) ms r.0 r.1 (λ f. after saved f)
            (λ x u f. elim (after (unsaved x u) f) [
              | inl same ↦ inl same
              | inr complete ↦ inr (c.finish_reason, complete)
            ]))
  ]

  -- A streamed reply that is not a repeated one: its frames are the start, the pieces of text, none of them
  -- empty, and at most one last frame. If the last frame is the end, one message more is stored, the complete
  -- reply with exactly the text of the pieces and the reason of the frame. If there is none, since the client is
  -- gone, that message has the same text and is marked as interrupted. If it is an error, then nothing is
  -- stored, or the text as an error, or the text as a complete reply whose summary failed, to which the text may
  -- have been added a second time as an error.
  pub stream_chat-Tells :
      (prep : StreamPrep) (st : ChatState)
      → prep.idempotent_reply ≡ none
      → (pieces : List String) × (last : List Frame) × ((stream_chat env settings prep st).0
          ≡ start prep.turn.session.id ∷ (map delta pieces ++ last))
        × All IsText pieces
        × TellsOf prep.turn
            (concat pieces)
            last
            st.tables.messages
            (stream_chat env settings prep st).1.tables.messages
  unfolding stream_chat generate_stream
  stream_chat-Tells prep st new =
      let (ending, c) = pulled env settings prep.turn st in
      let (frames, texts) =
        pump-IsSent env settings 0
          (env.stream_chat st.calls prep.turn.provider
            (prep.turn.request.first ∷ prep.turn.request.rest) prep.turn.model
            prep.turn.request.temperature (token_limit env.chat settings prep.turn))
          (nothing_yet env settings) (refl, tt) in
      let (last, st') = settle_stream env settings prep.turn ending c (called st) in
      (
        c.pieces,
        last,
        (rw (stream_chat, new) (ap (λ r. start prep.turn.session.id ∷ (r ++ last)) frames)),
        texts,
        (rw (stream_chat, new) (settle_stream-Tells prep.turn ending c (called st))),
      )
