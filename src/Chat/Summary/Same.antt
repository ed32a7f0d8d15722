-- ===== src/Chat/Summary/Same.antt =====
-- What a summary leaves as it was: `ChatService._maybe_summarize` of
-- backend-python/app/services/chat_service.py.
use chatbot_react_python_nod.Prelude.{
  ℕ, ◌≡◌, refl, sym, ap, ◌⊎◌, inl, inr, String, ◌&&◌, Option, none, some, List, [], ◌∷◌, nat_eq,
  any, ltb, length, Bool-cases, Option-cases,
}
use chatbot_react_python_nod.Chat.Store.{
  ChatMessage, SessionSummary, Tables, add_summary, get_latest_summary, list_messages_after_seq,
}
use chatbot_react_python_nod.Chat.Errors.{Exception}
use chatbot_react_python_nod.Chat.Turn.{
  ChatSettings, ChatState, ProviderCompletion, Completion, completed, raised, ChatEnv, called,
}
use chatbot_react_python_nod.Chat.Summary.{
  Turn, ask_summary, covered_by, keep_summary, last_of, maybe_summarize, summarize, summarized,
  summary_row, summary_text,
}

pub Completion-cases :
    (x : Completion)
    → ((e : Exception) × (x ≡ raised e)) ⊎ ((c : ProviderCompletion) × (x ≡ completed c))
Completion-cases (raised e) = inl (e, refl)
Completion-cases (completed c) = inr (c, refl)

add_summary-messages :
    (s : SessionSummary) (t u : Tables)
    → add_summary s t ≡ some u
    → (u.messages ≡ t.messages) × (u.sessions ≡ t.sessions)
unfolding add_summary
add_summary-messages s t u h =
    elim (Bool-cases (
      any (λ (o : SessionSummary). nat_eq o.session_id s.session_id && nat_eq o.version s.version)
        t.summaries)) [
          | inl e ↦ absurd (let k = h in let l = (rw (add_summary, e) at k) in cc)
          | inr e ↦
              let k = h in
              let l = (rw (add_summary, e) at k) in
              (
                ap (λ (v : Tables). v.messages) (sym (injective l)),
                ap (λ (v : Tables). v.sessions) (sym (injective l)),
              )
        ]
  where
    injective : {A : Type 0} {a b : A} → some a ≡ some b → a ≡ b
    injective e = cc

module _ (env : ChatEnv) (settings : ChatSettings) where
  -- the messages after a step that may fail
  abbrev pub Same : ChatState → Option ChatState → Type 0
  Same st none = Unit
  Same st (some st') =
      (st'.tables.messages ≡ st.tables.messages) × (st'.tables.sessions ≡ st.tables.sessions)

  keep_summary-Same :
      (t : Turn) (l : Option SessionSummary) (n : ℕ) (p : String) (c : ProviderCompletion)
      (st : ChatState)
      → Same st (keep_summary env settings t l n p c st)
  unfolding keep_summary
  keep_summary-Same t l n p c st =
      elim (Option-cases (add_summary (summary_row t l n c) st.tables)) [
        | inl e ↦ rw (keep_summary, e) tt
        | inr (u, e) ↦
            rw (keep_summary, e) (add_summary-messages (summary_row t l n c) st.tables u e)
      ]

  summarized-Same :
      (t : Turn) (l : Option SessionSummary) (ms : List ChatMessage) (p : String)
      (c : ProviderCompletion) (st : ChatState)
      → Same st (summarized env settings t l ms p c st)
  unfolding summarized
  summarized-Same t l [] p c st = tt
  summarized-Same t l (m ∷ ms) p c st = keep_summary-Same t l (last_of m ms).seq p c st

  summarize-Same :
      (t : Turn) (l : Option SessionSummary) (ms : List ChatMessage) (st : ChatState)
      → Same st (summarize env settings t l ms st)
  unfolding summarize
  summarize-Same t l ms st = elim (Completion-cases (ask_summary env settings t l ms st)) [
    | inl (x, e) ↦ rw (summarize, e) (refl, refl)
    | inr (c, e) ↦
        rw (summarize, e) (summarized-Same t l ms (summary_text env settings l ms) c (called st))
  ]

  pub maybe_summarize-Same :
      (t : Turn) (st : ChatState) → Same st (maybe_summarize env settings t st)
  unfolding maybe_summarize
  maybe_summarize-Same t st =
      let latest = get_latest_summary t.session.id st.tables in
      let pending = list_messages_after_seq t.session.id (covered_by latest) st.tables in
      elim (Bool-cases (ltb (length pending) settings.summary_trigger_message_count)) [
        | inl few ↦ rw (maybe_summarize, few) (refl, refl)
        | inr many ↦ rw (maybe_summarize, many) (summarize-Same t latest pending st)
      ]
