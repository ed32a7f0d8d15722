-- ===== src/Chat/Complete/Resent.antt =====
-- A request that the client sends again, from the guards to the reply.
use mathlib.Core.Path.{subst}
use chatbot_react_python_nod.Prelude.{
  ◌⊎◌, ℕ, ◌≡◌, refl, ap, ◌∙◌, String, false, Option, none, some, [], ◌∷◌, Elem, nat_eq, Bool-cases,
  Option-cases, inl, inr,
}
use chatbot_react_python_nod.Tools.Schema.{guest}
use chatbot_react_python_nod.Documents.Ask.{ProviderName}
use chatbot_react_python_nod.Chat.Store.{
  ChatSession, Tables, get_owned_session, get_default_guest_session,
}
use chatbot_react_python_nod.Chat.Usage.{Caller}
use chatbot_react_python_nod.Chat.Errors.{
  ChatServiceError, provider_not_allowed, session_not_found, quota_exceeded, validation_error,
}
use chatbot_react_python_nod.Chat.Sessions.Owned.{get_owned_session-OwnedBy, kind-cases}
use chatbot_react_python_nod.Chat.Turn.{
  ChatRequest, ChatSettings, ChatState, ChatEnv, ChatResponse, Reply, responded, refused, crashed,
  with_tables, maybe_check_quota, last_user_content, resolve_session, guest_of,
}
use chatbot_react_python_nod.Chat.Summary.{Turn}
use chatbot_react_python_nod.Chat.Admission.{Admission, turned_away, admitted, gated, admit}
use chatbot_react_python_nod.Chat.Complete.{run_turn, complete_chat}
use chatbot_react_python_nod.Chat.Complete.Replay.{run_turn-replayed, run_turn-session}

guest_of-guest : (c : Caller) (g : String) → guest_of c ≡ some g → c.kind ≡ guest
unfolding guest_of
guest_of-guest c g h = elim (kind-cases c.kind) [
  | inl k ↦ absurd (let m = h in let l = (rw k at m) in cc)
  | inr k ↦ k
]

-- what looking up the session `id` of a request gives
abbrev Resolved : Caller → ℕ → Tables → Option (ChatSession × Tables) → Type 0
Resolved c id t none = (c.kind ≡ guest) ⊎ (get_owned_session id c.user_id c.guest_id t ≡ none)
Resolved c id t (some (s, u)) = (u ≡ t) × (s.id ≡ id)

resolve_session-Resolved :
    (request : ChatRequest) (c : Caller) (id : ℕ) (t : Tables)
    → request.session_id ≡ some id
    → Resolved c id t (resolve_session request c t)
unfolding resolve_session
resolve_session-Resolved request c id t named =
    elim (Option-cases (get_owned_session id c.user_id c.guest_id t)) [
      | inl o ↦ rw (resolve_session, named, o) (inr o)
      | inr (s, o) ↦
          let own = (get_owned_session-OwnedBy id c.user_id c.guest_id t s o).0 in
          elim (Option-cases (guest_of c)) [
            | inl n ↦ rw (resolve_session, named, o, n) (refl, own)
            | inr (g, n) ↦ elim (Option-cases (get_default_guest_session g t)) [
              | inl d ↦ rw (resolve_session, named, o, n, d) (refl, own)
              | inr (default, d) ↦ elim (Bool-cases (nat_eq default.id s.id)) [
                | inl e ↦ rw (resolve_session, named, o, n, d, e) (refl, own)
                | inr e ↦ rw (resolve_session, named, o, n, d, e) (inl (guest_of-guest c g n))
              ]
            ]
          ]
    ]

-- Why a request to the session `id` is turned away: the caller is a guest, the last message is not the
-- user's, or the caller does not own the session.
abbrev pub Reason : ChatRequest → Caller → ℕ → ChatState → ChatServiceError → Type 0
Reason request c id st e =
    ((c.kind ≡ guest) × Elem e (provider_not_allowed ∷ quota_exceeded ∷ session_not_found ∷ []))
    ⊎ ((last_user_content request ≡ none)
        × (e
            ≡ validation_error
                "The last message must be from role 'user' when submitting a chat turn."))
    ⊎ ((get_owned_session id c.user_id c.guest_id st.tables ≡ none) × (e ≡ session_not_found))

abbrev LetIn : ChatRequest → Caller → ℕ → ChatState → Admission × ChatState → Type 0
LetIn request c id st (turned_away e, u) = (u ≡ st) × Reason request c id st e
LetIn request c id st (admitted t, u) = (u ≡ st) × (t.request ≡ request) × (t.session.id ≡ id)

abbrev For : ChatRequest → Admission × ChatState → Type 0
For request (turned_away e, u) = Unit
For request (admitted t, u) = t.request ≡ request

-- the reply to a request that is sent again in the state `st`, once it was answered with `r`
abbrev pub Again : ChatRequest → Caller → ChatResponse → ChatState → Reply × ChatState → Type 0
Again request c r st (responded r', u) =
    (u ≡ st) × (r'.content ≡ r.content) × (r'.session_id ≡ r.session_id)
Again request c r st (refused e, u) = (u ≡ st) × Reason request c r.session_id st e
Again request c r st (crashed, u) = ⊥

module _ (settings : ChatSettings) (provider : ProviderName) (model : String) where
  gated-guest : (c : Caller) → gated settings c provider model ≡ false → c.kind ≡ guest
  unfolding gated
  gated-guest c h = elim (kind-cases c.kind) [
    | inl k ↦ absurd (let m = h in let l = (rw (gated, k) at m) in cc)
    | inr k ↦ k
  ]

  quota-guest :
      (c : Caller) (st : ChatState) → maybe_check_quota settings c st ≡ false → c.kind ≡ guest
  unfolding maybe_check_quota
  quota-guest c st h = elim (Option-cases (guest_of c)) [
    | inl n ↦ absurd (let m = h in let l = (rw (maybe_check_quota, n) at m) in cc)
    | inr (g, n) ↦ guest_of-guest c g n
  ]

  admit-LetIn :
      (request : ChatRequest) (c : Caller) (id : ℕ) (st : ChatState)
      → request.session_id ≡ some id
      → LetIn request c id st (admit settings provider model request c st)
  unfolding admit
  admit-LetIn request c id st named =
      let resolved = resolve_session-Resolved request c id st.tables named in
      elim (Bool-cases (gated settings c provider model)) [
        | inr g ↦ rw (admit, g) (refl, inl (gated-guest c g, inl refl))
        | inl g ↦ elim (Option-cases (last_user_content request)) [
          | inl p ↦ rw (admit, g, p) (refl, inr (inl (p, refl)))
          | inr (prompt, p) ↦ elim (Bool-cases (maybe_check_quota settings c st)) [
            | inr q ↦ rw (admit, g, p, q) (refl, inl (quota-guest c st q, inr (inl refl)))
            | inl q ↦ elim (Option-cases (resolve_session request c st.tables)) [
              | inl s ↦
                  rw (admit, g, p, q, s)
                    (
                      refl,
                      elim (subst (λ o. Resolved c id st.tables o) s resolved) [
                        | inl k ↦ inl (k, inr (inr (inl refl)))
                        | inr o ↦ inr (inr (o, refl))
                      ],
                    )
              | inr ((s, u), e) ↦
                  let (same, own) : Resolved c id st.tables (some (s, u)) =
                    subst (λ o. Resolved c id st.tables o) e resolved in
                  rw (admit, g, p, q, e) (ap (λ t. with_tables t st) same, refl, own)
            ]
          ]
        ]
      ]

  admit-For :
      (request : ChatRequest) (c : Caller) (st : ChatState)
      → For request (admit settings provider model request c st)
  unfolding admit
  admit-For request c st = elim (Bool-cases (gated settings c provider model)) [
    | inr g ↦ rw (admit, g) tt
    | inl g ↦ elim (Option-cases (last_user_content request)) [
      | inl p ↦ rw (admit, g, p) tt
      | inr (prompt, p) ↦ elim (Bool-cases (maybe_check_quota settings c st)) [
        | inr q ↦ rw (admit, g, p, q) tt
        | inl q ↦ elim (Option-cases (resolve_session request c st.tables)) [
          | inl s ↦ rw (admit, g, p, q, s) tt
          | inr ((s, u), e) ↦ rw (admit, g, p, q, e) refl
        ]
      ]
    ]
  ]

module _ (env : ChatEnv) (settings : ChatSettings) where
  -- the turn that a reply was given in
  abbrev AnsweredIn : ChatRequest → ChatResponse → ChatState → Type 0
  AnsweredIn request r st' =
      (t : Turn) × (st : ChatState) × (t.request ≡ request)
      × (run_turn env settings t st ≡ (responded r, st'))

  answered_turn :
      (request : ChatRequest) (r : ChatResponse) (st' : ChatState) (a : Admission × ChatState)
      → For request a
      → (elim a.0 as (λ _. Reply × ChatState) [
        | turned_away e ↦ (refused e, a.1)
        | admitted t ↦ run_turn env settings t a.1
      ])
        ≡ (responded r, st')
      → AnsweredIn request r st'
  answered_turn request r st' (turned_away e, u) f h = absurd cc
  answered_turn request r st' (admitted t, u) f h = (t, u, f, h)

  resent_turn :
      (request again : ChatRequest) (c : Caller) (key : String) (r : ChatResponse) (st' : ChatState)
      (a : Admission × ChatState)
      → request.client_message_id ≡ some key
      → again.client_message_id ≡ some key
      → AnsweredIn request r st'
      → LetIn again c r.session_id st' a
      → Again again c r st' (elim a.0 as (λ _. Reply × ChatState) [
        | turned_away e ↦ (refused e, a.1)
        | admitted t ↦ run_turn env settings t a.1
      ])
  resent_turn request again c key r st' (turned_away e, u) given given' done h = h
  resent_turn request again c key r st' (admitted t', u) given given' (t, st, f, h)
        (same, f', own) =
      let home : r.session_id ≡ t.session.id =
        run_turn-session env settings t key st st' r
          (ap (λ (q : ChatRequest). q.client_message_id) f ∙ given) h in
      let (r', run, content) =
        run_turn-replayed env settings t t' key st st' r
          (ap (λ (q : ChatRequest). q.client_message_id) f ∙ given)
          (ap (λ (q : ChatRequest). q.client_message_id) f' ∙ given') (own ∙ home) h in
      let there =
        run_turn-session env settings t' key st' st' r'
          (ap (λ (q : ChatRequest). q.client_message_id) f' ∙ given') run in
      rw (same, run) (refl, content, there ∙ own)

  -- A request that was answered is never answered anew when its client message id is sent again with the
  -- session id of the answer, by whatever caller and with whatever else in the request: the provider is
  -- not asked and nothing is written. The reply has the same content and session, unless the guards turn
  -- the request away: for a guest (as to provider, quota or session), or since the last message is not the
  -- user's, or since the caller does not own the session.
  pub complete_chat-replayed :
      (provider provider' : ProviderName) (model model' : String) (request again : ChatRequest)
      (c c' : Caller) (key : String) (st st' : ChatState) (r : ChatResponse)
      → request.client_message_id ≡ some key
      → again.client_message_id ≡ some key
      → again.session_id ≡ some r.session_id
      → complete_chat env settings provider model request c st ≡ (responded r, st')
      → Again again c' r st' (complete_chat env settings provider' model' again c' st')
  unfolding complete_chat
  complete_chat-replayed provider provider' model model' request again c c' key st st' r given
        given' named h =
      resent_turn request again c' key r st' (admit settings provider' model' again c' st') given
        given'
        (answered_turn request r st' (admit settings provider model request c st)
          (admit-For settings provider model request c st) h)
        (admit-LetIn settings provider' model' again c' r.session_id st' named)
