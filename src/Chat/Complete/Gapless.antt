-- ===== src/Chat/Complete/Gapless.antt =====
-- The messages of each session are numbered in turn.
use mathlib.Core.Path.{subst}
use mathlib.Core.List.{map-append}
use chatbot_react_python_nod.Prelude.{
  ℕ, zero, suc, ◌≡◌, refl, ap, ◌∙◌, String, Bool, Option, none, some, List, [], ◌∷◌, ◌++◌,
  append-nil, map, select-append, if◌then◌else◌, nat_eq, select, Bool-cases, Option-cases, inl, inr,
  arith,
}
use chatbot_react_python_nod.Chat.Store.{
  ChatSession, ChatMessage, Tables, first_where, find_session, create_session, mark_last_message_at,
}
use chatbot_react_python_nod.Chat.Store.Sequence.{
  next_in, next_of, next-update, first_where-past, first_where-found,
}
use chatbot_react_python_nod.Chat.Turn.{Draft, maybe_set_session_title}
use chatbot_react_python_nod.Chat.Complete.Appended.{Appended, titled, titled-next}

-- the numbers of a session's messages, in the order in which they were written
abbrev pub numbers : ℕ → List ChatMessage → List ℕ
numbers id ms =
    map (λ (m : ChatMessage). m.seq) (select (λ (m : ChatMessage). nat_eq m.session_id id) ms)

-- 1, 2, …, n
abbrev pub count : ℕ → List ℕ
count zero = []
count (suc n) = count n ++ suc n ∷ []

-- no session has no messages; a session with the next number n + 1 has the messages 1 to n
abbrev pub InTurn : Option ℕ → List ℕ → Type 0
InTurn none ns = ns ≡ []
InTurn (some zero) ns = ⊥
InTurn (some (suc n)) ns = ns ≡ count n

-- The messages of every session are numbered from 1 without a gap, and the next number follows them.
abbrev pub Gapless : Tables → Type 0
Gapless t = (id : ℕ) → InTurn (next_of id t) (numbers id t.messages)

numbers_of_one :
    (id : ℕ) (m : ChatMessage)
    → numbers id (m ∷ []) ≡ (if nat_eq m.session_id id then m.seq ∷ [] else [])
unfolding select
numbers_of_one id m = elim (Bool-cases (nat_eq m.session_id id)) [
  | inl e ↦ rw (select, e) refl
  | inr e ↦ rw (select, e) refl
]

numbers-append :
    (id : ℕ) (ms : List ChatMessage) (m : ChatMessage)
    → numbers id (ms ++ m ∷ [])
      ≡ numbers id ms ++ (if nat_eq m.session_id id then m.seq ∷ [] else [])
numbers-append id ms m =
    let mine : ChatMessage → Bool = λ m. nat_eq m.session_id id in
    ap (map (λ (m : ChatMessage). m.seq)) (select-append mine ms (m ∷ []))
    ∙ map-append (λ (m : ChatMessage). m.seq) (select mine ms) (select mine (m ∷ []))
    ∙ ap (λ r. numbers id ms ++ r) (numbers_of_one id m)

-- the same next number and the same messages
pub Gapless-same :
    (t u : Tables)
    → ((j : ℕ) → next_of j u ≡ next_of j t)
    → u.messages ≡ t.messages
    → Gapless t
    → Gapless u
Gapless-same t u next messages g id = rw (next id, messages) (g id)

one_more : (n : ℕ) (ns : List ℕ) → InTurn (some n) ns → InTurn (some (suc n)) (ns ++ n ∷ [])
one_more zero ns h = elim h [ ]
one_more (suc n) ns h = ap (λ r. r ++ suc n ∷ []) h

pub Appended-Gapless :
    (id : ℕ) (draft : Draft) (k : ℕ) (t u : Tables)
    → (draft k).session_id ≡ id
    → (draft k).seq ≡ k
    → Appended id draft k t u
    → Gapless t
    → Gapless u
unfolding find_session
Appended-Gapless id draft k t u own seq written g j =
    rw (written.last, numbers-append j t.messages (draft k), own, seq)
      (elim (Bool-cases (nat_eq id j)) [
        | inl e ↦
            let same : id ≡ j = ground (arith, e) in
            rw (e, ← same, written.advanced)
              (one_more k (numbers id t.messages)
                (subst (λ o. InTurn o (numbers id t.messages)) written.number (g id)))
        | inr e ↦ rw (e, written.elsewhere j e, append-nil (numbers j t.messages)) (g j)
      ])

pub titled-Gapless :
    (s : ChatSession) (content : String) (t : Tables)
    → Gapless t
    → Gapless (maybe_set_session_title s content t)
titled-Gapless s content t =
    Gapless-same t (maybe_set_session_title s content t) (λ j. titled-next s content j t)
      (titled s content t).0

pub marked-Gapless : (id : ℕ) (t : Tables) → Gapless t → Gapless (mark_last_message_at id t)
unfolding mark_last_message_at find_session
marked-Gapless id t =
    Gapless-same t (mark_last_message_at id t)
      (λ j. next-update id j _ t.sessions (λ s. refl) (λ s a b. refl)) refl

pub created-Gapless :
    (user guest title : Option String) (t : Tables)
    → Gapless t
    → Gapless (create_session user guest title t).1
unfolding create_session find_session first_where
created-Gapless user guest title t g j =
    let s = (create_session user guest title t).0 in
    let p : ChatSession → Bool = λ s. nat_eq s.id j in
    elim (Option-cases (find_session j t)) [
      | inr (old, e) ↦
          rw (first_where-found p t.sessions (s ∷ []) old e)
            (subst (λ o. InTurn (next_in o) (numbers j t.messages)) e (g j))
      | inl e ↦
          let empty : numbers j t.messages ≡ [] =
            subst (λ o. InTurn (next_in o) (numbers j t.messages)) e (g j) in
          rw (first_where-past p t.sessions (s ∷ []) e)
            (elim (Bool-cases (nat_eq t.fresh j)) [ inl f ↦ rw f empty | inr f ↦ rw f empty ])
    ]
