-- ===== src/Chat/Complete/InTurn.antt =====
-- A turn keeps the numbers of all sessions' messages without a gap.
use mathlib.Core.Path.{subst}
use chatbot_react_python_nod.Prelude.{
  ℕ, ◌≡◌, ◌⊎◌, refl, sym, String, ◌==◌, Option, none, some, nat_eq, strip, Bool-cases, Option-cases,
  inl, inr,
}
use chatbot_react_python_nod.Documents.Ask.{ProviderName}
use chatbot_react_python_nod.Chat.Store.{
  ChatSession, Tables, get_owned_session, get_default_guest_session,
}
use chatbot_react_python_nod.Chat.Store.Sequence.{next_of-sessions}
use chatbot_react_python_nod.Chat.Usage.{Caller}
use chatbot_react_python_nod.Chat.Errors.{
  ChatServiceError, normalize_chat_error, empty_provider_response,
}
use chatbot_react_python_nod.Chat.Turn.{
  ChatRequest, ChatSettings, ChatState, ProviderCompletion, Completion, completed, raised, ChatEnv,
  Reply, Draft, append_message, user_draft, replay_of, maybe_set_session_title, maybe_check_quota,
  guest_of, called, with_tables, last_user_content, resolve_session,
}
use chatbot_react_python_nod.Chat.Admission.{Admission, turned_away, admitted, gated, admit}
use chatbot_react_python_nod.Chat.Complete.{
  finish, fail, settle_completion, generate, run_turn, complete_chat, reply_draft, error_draft,
  count_reply,
}
use chatbot_react_python_nod.Chat.Complete.Appended.{append_message-Appended}
use chatbot_react_python_nod.Chat.Complete.Gapless.{
  Gapless, Gapless-same, Appended-Gapless, titled-Gapless, marked-Gapless, created-Gapless,
}
use chatbot_react_python_nod.Chat.Complete.Replay.{quota-tables}
use chatbot_react_python_nod.Chat.Summary.{Turn, maybe_summarize}
use chatbot_react_python_nod.Chat.Summary.Same.{Same, maybe_summarize-Same}

-- a draft of the session with its own number
abbrev pub Own : ℕ → Draft → Type 0
Own id draft = (k : ℕ) → ((draft k).session_id ≡ id) × ((draft k).seq ≡ k)

pub append-Gapless :
    (id : ℕ) (draft : Draft) (k : ℕ) (t u : Tables)
    → Own id draft
    → append_message id draft t ≡ some (k, u)
    → Gapless t
    → Gapless u
append-Gapless id draft k t u own e =
    Appended-Gapless id draft k t u (own k).0 (own k).1 (append_message-Appended id draft t u k e)

-- the tables of a result, if there is one
abbrev GaplessAfter : Option (ChatSession × Tables) → Type 0
GaplessAfter none = Unit
GaplessAfter (some (s, u)) = Gapless u

resolve_session-Gapless :
    (request : ChatRequest) (caller : Caller) (t : Tables)
    → Gapless t
    → GaplessAfter (resolve_session request caller t)
unfolding resolve_session
resolve_session-Gapless request caller t g =
    let new = created-Gapless caller.user_id caller.guest_id none t g in
    elim (Option-cases request.session_id) [
      | inl a ↦ elim (Option-cases (guest_of caller)) [
        | inl b ↦ rw (resolve_session, a, b) new
        | inr (x, b) ↦ elim (Option-cases (get_default_guest_session x t)) [
          | inl c ↦ rw (resolve_session, a, b, c) new
          | inr (s, c) ↦ rw (resolve_session, a, b, c) g
        ]
      ]
      | inr (id, a) ↦ elim (Option-cases (get_owned_session id caller.user_id caller.guest_id t)) [
        | inl b ↦ rw (resolve_session, a, b) tt
        | inr (s, b) ↦ elim (Option-cases (guest_of caller)) [
          | inl c ↦ rw (resolve_session, a, b, c) g
          | inr (x, c) ↦ elim (Option-cases (get_default_guest_session x t)) [
            | inl d ↦ rw (resolve_session, a, b, c, d) g
            | inr (s', d) ↦ elim (Bool-cases (nat_eq s'.id s.id)) [
              | inl e ↦ rw (resolve_session, a, b, c, d, e) g
              | inr e ↦ rw (resolve_session, a, b, c, d, e) tt
            ]
          ]
        ]
      ]
    ]

-- the state after a reply
abbrev pub Kept : Reply × ChatState → Type 0
Kept (r, st) = Gapless st.tables

module _ (env : ChatEnv) (settings : ChatSettings) where
  pub count_reply-Gapless :
      (t : Turn) (c : ProviderCompletion) (k : ℕ) (u : Tables) (st : ChatState)
      → Gapless u
      → Gapless (count_reply env settings t c k u st).tables
  unfolding count_reply
  count_reply-Gapless t c k u st g =
      marked-Gapless t.session.id _ (subst Gapless (sym (quota-tables t.caller _)) g)

  pub finish-Gapless :
      (t : Turn) (c : ProviderCompletion) (st : ChatState)
      → Gapless st.tables
      → Kept (finish env settings t c st)
  unfolding finish
  finish-Gapless t c st g =
      elim (Option-cases (append_message t.session.id (reply_draft env settings t c) st.tables)) [
        | inl e ↦ rw (finish, e) g
        | inr ((k, u), e) ↦
            let marked = count_reply env settings t c k u st in
            let counted : Gapless marked.tables = count_reply-Gapless t c k u st (
              append-Gapless t.session.id (reply_draft env settings t c) k st.tables u
                (λ k. (refl, refl)) e g) in
            elim (Option-cases (maybe_summarize env settings t marked)) [
              | inl f ↦ rw (finish, e, f) counted
              | inr (done, f) ↦
                  let (messages, sessions) : Same env settings marked (some done) =
                    subst (λ o. Same env settings marked o) f
                      (maybe_summarize-Same env settings t marked) in
                  rw (finish, e, f)
                    (Gapless-same marked.tables done.tables
                      (λ j. next_of-sessions j marked.tables done.tables sessions) messages counted)
            ]
      ]

  pub fail-Gapless :
      (t : Turn) (x : ChatServiceError) (st : ChatState)
      → Gapless st.tables
      → Kept (fail env settings t x st)
  unfolding fail
  fail-Gapless t x st g =
      elim (Option-cases (append_message t.session.id (error_draft env settings t) st.tables)) [
        | inl e ↦ rw (fail, e) g
        | inr ((k, u), e) ↦
            rw (fail, e)
              (marked-Gapless t.session.id u (
                append-Gapless t.session.id (error_draft env settings t) k st.tables u
                  (λ k. (refl, refl)) e g))
      ]

  settle-Gapless :
      (t : Turn) (x : Completion) (st : ChatState)
      → Gapless st.tables
      → Kept (settle_completion env settings t x st)
  unfolding settle_completion
  settle-Gapless t (raised e) st g = fail-Gapless t (normalize_chat_error e) st g
  settle-Gapless t (completed c) st g = elim (Bool-cases (strip c.content == "")) [
    | inl blank ↦ rw (settle_completion, blank) (fail-Gapless t empty_provider_response st g)
    | inr text ↦ rw (settle_completion, text) (finish-Gapless t c st g)
  ]

  run_turn-Gapless :
      (t : Turn) (st : ChatState) → Gapless st.tables → Kept (run_turn env settings t st)
  unfolding run_turn generate
  run_turn-Gapless t st g =
      elim (Option-cases (replay_of t.session.id t.request.client_message_id st.tables)) [
        | inr (m, e) ↦ rw (run_turn, e) g
        | inl e ↦
            let draft = user_draft t.session.id t.prompt_text t.request.client_message_id in
            elim (Option-cases (append_message t.session.id draft st.tables)) [
              | inl f ↦ rw (run_turn, e, f) g
              | inr ((k, u), f) ↦
                  rw (run_turn, e, f)
                    (settle-Gapless t _
                      (called (with_tables (maybe_set_session_title t.session t.prompt_text u) st))
                      (titled-Gapless t.session t.prompt_text u
                        (append-Gapless t.session.id draft k st.tables u (λ k. (refl, refl)) f g)))
            ]
      ]

  pub admit-Gapless :
      (provider : ProviderName) (model : String) (request : ChatRequest) (caller : Caller)
      (st : ChatState)
      → Gapless st.tables
      → Gapless (admit settings provider model request caller st).1.tables
  unfolding admit
  admit-Gapless provider model request caller st g =
      elim (Bool-cases (gated settings caller provider model)) [
        | inr a ↦ rw (admit, a) g
        | inl a ↦ elim (Option-cases (last_user_content request)) [
          | inl b ↦ rw (admit, a, b) g
          | inr (prompt, b) ↦ elim (Bool-cases (maybe_check_quota settings caller st)) [
            | inr c ↦ rw (admit, a, b, c) g
            | inl c ↦ elim (Option-cases (resolve_session request caller st.tables)) [
              | inl d ↦ rw (admit, a, b, c, d) g
              | inr ((s, u), d) ↦
                  rw (admit, a, b, c, d)
                    (subst GaplessAfter d (resolve_session-Gapless request caller st.tables g))
            ]
          ]
        ]
      ]

  pub Admission-cases :
      (x : Admission)
      → ((e : ChatServiceError) × (x ≡ turned_away e)) ⊎ ((t : Turn) × (x ≡ admitted t))
  Admission-cases (turned_away e) = inl (e, refl)
  Admission-cases (admitted t) = inr (t, refl)

  -- Whatever becomes of a chat request (a reply, a replay, an error of ours or another exception, with a new
  -- session or an old one), afterwards the messages of every session are numbered 1, 2, 3 and so on without
  -- a gap, in the order in which they were written, and the session's next number follows the last one, if
  -- this was so before.
  pub complete_chat-Gapless :
      (provider : ProviderName) (model : String) (request : ChatRequest) (caller : Caller)
      (st : ChatState)
      → Gapless st.tables
      → Gapless (complete_chat env settings provider model request caller st).1.tables
  unfolding complete_chat
  complete_chat-Gapless provider model request caller st g =
      let (admission, st') = admit settings provider model request caller st in
      let in_turn = admit-Gapless provider model request caller st g in
      elim (Admission-cases admission) [
        | inl (e, a) ↦ rw (complete_chat, a) in_turn
        | inr (t, a) ↦ rw (complete_chat, a) (run_turn-Gapless t st' in_turn)
      ]
