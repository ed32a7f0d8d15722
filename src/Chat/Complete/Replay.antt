-- ===== src/Chat/Complete/Replay.antt =====
-- A turn that the client sends again is answered from what is stored.
use chatbot_react_python_nod.Prelude.{
  ℕ, ◌≡◌, refl, sym, ap, ◌∙◌, ◌⊎◌, inl, inr, String, ◌==◌, some, strip, Bool-cases, Option-cases,
}
use chatbot_react_python_nod.Chat.Store.{allocate_seq, Tables, mark_last_message_at}
use chatbot_react_python_nod.Chat.Usage.{Caller}
use chatbot_react_python_nod.Chat.Errors.{
  ChatServiceError, db_unavailable, empty_provider_response, normalize_chat_error,
}
use chatbot_react_python_nod.Chat.Turn.{
  ChatSettings, ChatState, ProviderCompletion, Completion, completed, raised, ChatEnv, ChatResponse,
  Reply, responded, refused, crashed, with_tables, Draft, append_message, user_draft, replay_of,
  maybe_set_session_title, maybe_record_quota, guest_of, called,
}
use chatbot_react_python_nod.Chat.Summary.{Turn, maybe_summarize}
use chatbot_react_python_nod.Chat.Complete.{
  unwritten, reply_draft, error_draft, count_reply, finish, fail, settle_completion, generate,
  replayed, run_turn,
}
use chatbot_react_python_nod.Chat.Complete.Appended.{Appended, append_message-Appended}
use chatbot_react_python_nod.Chat.Complete.Rows.{Stored, Stored-messages, Assistant, written-Stored}
use mathlib.Core.Path.{subst}
use chatbot_react_python_nod.Chat.Summary.Same.{Same, maybe_summarize-Same}

-- what a turn leaves behind for the client's message: the reply, or an empty one after an error
abbrev Kept : Turn → String → ChatState → Reply × ChatState → Type 0
Kept t key st (responded r, st') =
    Stored t.session.id key r.content st'.tables × (r.session_id ≡ t.session.id)
Kept t key st (refused e, st') =
    ((st' ≡ st) × (e ≡ db_unavailable)) ⊎ Stored t.session.id key "" st'.tables
Kept t key st (crashed, st') = Unit

pub quota-tables : (c : Caller) (st : ChatState) → (maybe_record_quota c st).tables ≡ st.tables
unfolding maybe_record_quota
quota-tables c st = elim (Option-cases (guest_of c)) [
  | inl e ↦ rw (maybe_record_quota, e) refl
  | inr (g, e) ↦ rw (maybe_record_quota, e) refl
]

module _ (env : ChatEnv) (settings : ChatSettings) where
  pub count_reply-messages :
      (t : Turn) (c : ProviderCompletion) (seq : ℕ) (tables : Tables) (st : ChatState)
      → (count_reply env settings t c seq tables st).tables.messages ≡ tables.messages
  unfolding count_reply mark_last_message_at
  count_reply-messages t c seq tables st = ap (λ (u : Tables). u.messages) (quota-tables t.caller _)

  -- the reply to the client's message `key`, wherever it is written
  abbrev Replies : Turn → String → Draft → ChatState → Type 0
  Replies t key draft st =
      (k : ℕ) (v : Tables)
      → append_message t.session.id draft st.tables ≡ some (k, v)
      → replay_of t.session.id (some key) v ≡ some (draft k)

  finish-Kept :
      (t : Turn) (key : String) (c : ProviderCompletion) (st0 st : ChatState)
      → Replies t key (reply_draft env settings t c) st
      → Kept t key st0 (finish env settings t c st)
  unfolding finish
  finish-Kept t key c st0 st replies =
      let draft = reply_draft env settings t c in
      elim (Option-cases (append_message t.session.id draft st.tables)) [
        | inl e ↦ rw (finish, e) tt
        | inr ((k, v), e) ↦
            let marked = count_reply env settings t c k v st in
            elim (Option-cases (maybe_summarize env settings t marked)) [
              | inl f ↦ rw (finish, e, f) tt
              | inr (done, f) ↦
                  let (same, sessions) : Same env settings marked (some done) =
                    subst (λ o. Same env settings marked o) f
                      (maybe_summarize-Same env settings t marked) in
                  rw (finish, e, f)
                    (
                      Stored-messages t.session.id key c.content v done.tables
                          (same ∙ count_reply-messages t c k v st) (draft k, replies k v e, refl),
                      refl,
                    )
            ]
      ]

  fail-Kept :
      (t : Turn) (key : String) (x : ChatServiceError) (st0 st : ChatState)
      → Replies t key (error_draft env settings t) st
      → Kept t key st0 (fail env settings t x st)
  unfolding fail mark_last_message_at
  fail-Kept t key x st0 st replies =
      let draft = error_draft env settings t in
      elim (Option-cases (append_message t.session.id draft st.tables)) [
        | inl e ↦ rw (fail, e) tt
        | inr ((k, v), e) ↦
            rw (fail, e)
              (inr (
                Stored-messages t.session.id key "" v (mark_last_message_at t.session.id v) refl
                  (draft k, replies k v e, refl)))
      ]

  settle-Kept :
      (t : Turn) (key : String) (x : Completion) (st0 st : ChatState)
      → ((c : ProviderCompletion) → Replies t key (reply_draft env settings t c) st)
      → Replies t key (error_draft env settings t) st
      → Kept t key st0 (settle_completion env settings t x st)
  unfolding settle_completion
  settle-Kept t key (raised e) st0 st good bad = fail-Kept t key (normalize_chat_error e) st0 st bad
  settle-Kept t key (completed c) st0 st good bad = elim (Bool-cases (strip c.content == "")) [
    | inl blank ↦ rw (settle_completion, blank) (fail-Kept t key empty_provider_response st0 st bad)
    | inr text ↦ rw (settle_completion, text) (finish-Kept t key c st0 st (good c))
  ]

  run_turn-Kept :
      (t : Turn) (key : String) (st : ChatState)
      → t.request.client_message_id ≡ some key
      → Kept t key st (run_turn env settings t st)
  unfolding run_turn generate unwritten
  run_turn-Kept t key st given =
      elim (Option-cases (replay_of t.session.id t.request.client_message_id st.tables)) [
        | inr (m, e) ↦
            rw (run_turn, e)
              ((m, ap (λ k. replay_of t.session.id k st.tables) (sym given) ∙ e, refl), refl)
        | inl e ↦
            let draft = user_draft t.session.id t.prompt_text t.request.client_message_id in
            elim (Option-cases (append_message t.session.id draft st.tables)) [
              | inl f ↦ elim (Option-cases (allocate_seq t.session.id st.tables)) [
                | inl a ↦ rw (run_turn, e, f, unwritten, a) tt
                | inr (x, a) ↦ rw (run_turn, e, f, unwritten, a) (inl (refl, refl))
              ]
              | inr ((n, u), f) ↦
                  let titled_tables = maybe_set_session_title t.session t.prompt_text u in
                  let asked = called (with_tables titled_tables st) in
                  let first : Appended t.session.id
                      (user_draft t.session.id t.prompt_text (some key)) n st.tables u =
                    append_message-Appended t.session.id
                      (user_draft t.session.id t.prompt_text (some key)) st.tables u n
                      (ap
                          (λ k.
                            append_message t.session.id (user_draft t.session.id t.prompt_text k)
                              st.tables)
                          (sym given)
                        ∙ f) in
                  let replies : (d : Draft) → Assistant t.session.id d → Replies t key d asked =
                    λ d form k v h.
                      written-Stored t.session.id key t.prompt_text d t.session st.tables u v n k
                        refl form first
                        (append_message-Appended t.session.id d titled_tables v k h) in
                  rw (run_turn, e, f)
                    (settle-Kept t key _ st asked
                      (λ c. replies (reply_draft env settings t c) (λ k. (refl, refl)))
                      (replies (error_draft env settings t) (λ k. (refl, refl))))
            ]
      ]

  -- A client's message that was answered in its session is answered with the same content when it is sent
  -- again to that session, with whatever else in the request: the provider is not asked, and nothing is
  -- written.
  pub run_turn-replayed :
      (t again : Turn) (key : String) (st st' : ChatState) (r : ChatResponse)
      → t.request.client_message_id ≡ some key
      → again.request.client_message_id ≡ some key
      → again.session.id ≡ t.session.id
      → run_turn env settings t st ≡ (responded r, st')
      → (r' : ChatResponse) × (run_turn env settings again st' ≡ (responded r', st'))
        × (r'.content ≡ r.content)
  unfolding run_turn
  run_turn-replayed t again key st st' r given given' same h =
      let ((m, found, content), home) : Kept t key st (responded r, st') =
        subst (λ o. Kept t key st o) h (run_turn-Kept t key st given) in
      let stored : replay_of again.session.id again.request.client_message_id st'.tables ≡ some m =
        rw (same, given') found in
      (replayed env settings again m, (rw (run_turn, stored) refl), content)

  pub run_turn-session :
      (t : Turn) (key : String) (st st' : ChatState) (r : ChatResponse)
      → t.request.client_message_id ≡ some key
      → run_turn env settings t st ≡ (responded r, st')
      → r.session_id ≡ t.session.id
  run_turn-session t key st st' r given h =
      (subst (λ o. Kept t key st o) h (run_turn-Kept t key st given)).1

  -- A client's message whose turn ended with an error of ours wrote nothing (and the database refused it), or
  -- is answered with an empty content when it is sent again to that session.
  pub run_turn-refused :
      (t again : Turn) (key : String) (st st' : ChatState) (e : ChatServiceError)
      → t.request.client_message_id ≡ some key
      → again.request.client_message_id ≡ some key
      → again.session.id ≡ t.session.id
      → run_turn env settings t st ≡ (refused e, st')
      → ((st' ≡ st) × (e ≡ db_unavailable))
        ⊎ ((r' : ChatResponse) × (run_turn env settings again st' ≡ (responded r', st'))
            × (r'.content ≡ ""))
  unfolding run_turn
  run_turn-refused t again key st st' e given given' same h =
      elim (subst (λ o. Kept t key st o) h (run_turn-Kept t key st given)) [
        | inl k ↦ inl k
        | inr (m, found, content) ↦
            let stored : replay_of again.session.id again.request.client_message_id st'.tables
                ≡ some m =
              rw (same, given') found in
            inr (replayed env settings again m, (rw (run_turn, stored) refl), content)
      ]
