-- ===== src/Chat/Store/Sequence.antt =====
-- What writing a message does to the tables: its number is the session's next one, and nobody has it.
use chatbot_react_python_nod.Prelude.{
  ℕ, suc, ◌≡◌, refl, sym, ap, ◌∙◌, String, Bool, true, false, Option, none, some, List, [], ◌∷◌,
  ◌++◌, nat_eq, any, Bool-cases, Option-cases, inl, inr, arith,
}
use chatbot_react_python_nod.Chat.Store.{
  ChatSession, ChatMessage, Tables, first_where, find_session, update_where, update_session,
  advance, allocate_seq, add_message, clashes, update_title,
}

module _ {A : Type 0} (p : A → Bool) where
  pub first_where-past :
      (xs ys : List A) → first_where p xs ≡ none → first_where p (xs ++ ys) ≡ first_where p ys
  unfolding first_where
  first_where-past [] ys h = refl
  first_where-past (x ∷ xs) ys h = elim (Bool-cases (p x)) [
    | inl e ↦ absurd (let k = h in let l = (rw e at k) in cc)
    | inr e ↦ let k = h in let l = (rw e at k) in rw e (first_where-past xs ys l)
  ]

  pub first_where-found :
      (xs ys : List A) (a : A) → first_where p xs ≡ some a → first_where p (xs ++ ys) ≡ some a
  unfolding first_where
  first_where-found [] ys a h = absurd cc
  first_where-found (x ∷ xs) ys a h = elim (Bool-cases (p x)) [
    | inl e ↦ let k = h in let l = (rw e at k) in rw e l
    | inr e ↦ let k = h in let l = (rw e at k) in rw e (first_where-found xs ys a l)
  ]

  pub first_where-any :
      (q : A → Bool) (xs : List A)
      → ((x : A) → p x ≡ true → q x ≡ true)
      → any q xs ≡ false
      → first_where p xs ≡ none
  unfolding first_where any
  first_where-any q [] f h = refl
  first_where-any q (x ∷ xs) f h = elim (Bool-cases (p x)) [
    | inl e ↦ absurd (let k = f x e in ground (arith, h, k))
    | inr e ↦ rw e (first_where-any q xs f (ground (arith, h)))
  ]

-- the number that the next message of a session gets
abbrev pub next_in : Option ChatSession → Option ℕ
next_in none = none
next_in (some s) = some s.next_seq

abbrev pub next_of : ℕ → Tables → Option ℕ
next_of id t = next_in (find_session id t)

abbrev updated : (ChatSession → ChatSession) → Option ChatSession → Option ChatSession
updated f none = none
updated f (some s) = some (f s)

find-update :
    (id : ℕ) (f : ChatSession → ChatSession) (ss : List ChatSession)
    → ((s : ChatSession) → (f s).id ≡ s.id)
    → first_where (λ (s : ChatSession). nat_eq s.id id) (update_where id f ss)
      ≡ updated f (first_where (λ (s : ChatSession). nat_eq s.id id) ss)
unfolding first_where update_where
find-update id f [] same = refl
find-update id f (s ∷ ss) same = elim (Bool-cases (nat_eq s.id id)) [
  | inl e ↦ let k : nat_eq (f s).id id ≡ true = ap (λ i. nat_eq i id) (same s) ∙ e in rw (e, k) refl
  | inr e ↦ rw (e, e) (find-update id f ss same)
]

-- a change of a session that leaves its number alone
next_of-keeps :
    (id : ℕ) (f : ChatSession → ChatSession) (t : Tables)
    → ((s : ChatSession) → (f s).id ≡ s.id)
    → ((s : ChatSession) → (f s).next_seq ≡ s.next_seq)
    → next_of id (update_session id f t) ≡ next_of id t
unfolding find_session
next_of-keeps id f t same keeps =
    ap next_in (find-update id f t.sessions same) ∙ unchanged (find_session id t)
  where
    unchanged : (o : Option ChatSession) → next_in (updated f o) ≡ next_in o
    unchanged none = refl
    unchanged (some s) = ap some (keeps s)

pub next_of-title :
    (id : ℕ) (title : String) (t : Tables) → next_of id (update_title id title t) ≡ next_of id t
unfolding update_title
next_of-title id title t = next_of-keeps id _ t (λ s. refl) (λ s. refl)

abbrev Numbered : Type 0
Numbered = ℕ × Tables

-- `allocate_seq` gives the next number and moves it on
pub allocate_seq-next :
    (id : ℕ) (t t' : Tables) (seq : ℕ)
    → allocate_seq id t ≡ some (seq, t')
    → (t'.messages ≡ t.messages) × (next_of id t ≡ some seq) × (next_of id t' ≡ some (suc seq))
unfolding allocate_seq find_session
allocate_seq-next id t t' seq h = elim (Option-cases (find_session id t)) [
  | inl e ↦ absurd (let k = h in let l = (rw (allocate_seq, e) at k) in cc)
  | inr (s, e) ↦
      let k = h in
      let from : Numbered = (s.next_seq, update_session id advance t) in
      let to : Numbered = (seq, t') in
      let l : some from ≡ some to = (rw (allocate_seq, e) at k) in
      let pair : from ≡ to = cc in
      let number : s.next_seq ≡ seq = ap (λ (p : Numbered). p.0) pair in
      let tables : update_session id advance t ≡ t' = ap (λ (p : Numbered). p.1) pair in
      (
        ap (λ (u : Tables). u.messages) (sym tables),
        ap next_in e ∙ ap some number,
        ap (λ (u : Tables). next_of id u) (sym tables)
            ∙ ap next_in (find-update id advance t.sessions (λ s. refl) ∙ ap (updated advance) e)
            ∙ ap (λ n. some (suc n)) number,
      )
]

pub add_message-last :
    (m : ChatMessage) (t t' : Tables)
    → add_message m t ≡ some t'
    → (t'.messages ≡ t.messages ++ m ∷ [])
      × (t'.sessions ≡ t.sessions)
      × (any (clashes m) t.messages ≡ false)
unfolding add_message
add_message-last m t t' h = elim (Bool-cases (any (clashes m) t.messages)) [
  | inl e ↦ absurd (let k = h in let l = (rw (add_message, e) at k) in cc)
  | inr e ↦
      let k = h in
      let l = (rw (add_message, e) at k) in
      (
        ap (λ (u : Tables). u.messages) (sym (injective l)),
        ap (λ (u : Tables). u.sessions) (sym (injective l)),
        e,
      )
]
  where
    injective : {A : Type 0} {a b : A} → some a ≡ some b → a ≡ b
    injective e = cc

pub next_of-sessions :
    (id : ℕ) (t t' : Tables) → t'.sessions ≡ t.sessions → next_of id t' ≡ next_of id t
unfolding find_session
next_of-sessions id t t' e =
    ap (λ ss. next_in (first_where (λ (s : ChatSession). nat_eq s.id id) ss)) e

-- a change of the rows with one id that leaves the id alone, and the number where it could be seen
pub next-update :
    (id j : ℕ) (f : ChatSession → ChatSession) (ss : List ChatSession)
    → ((s : ChatSession) → (f s).id ≡ s.id)
    → ((s : ChatSession)
        → nat_eq s.id j ≡ true
        → nat_eq s.id id ≡ true
        → (f s).next_seq ≡ s.next_seq)
    → next_in (first_where (λ (s : ChatSession). nat_eq s.id j) (update_where id f ss))
      ≡ next_in (first_where (λ (s : ChatSession). nat_eq s.id j) ss)
unfolding first_where update_where
next-update id j f [] same keeps = refl
next-update id j f (s ∷ ss) same keeps = elim (Bool-cases (nat_eq s.id id)) [
  | inl e ↦
      let k : nat_eq (f s).id j ≡ nat_eq s.id j = ap (λ i. nat_eq i j) (same s) in
      elim (Bool-cases (nat_eq s.id j)) [
        | inl g ↦ rw (e, k, g) (ap some (keeps s g e))
        | inr g ↦ rw (e, k, g) (next-update id j f ss same keeps)
      ]
  | inr e ↦ elim (Bool-cases (nat_eq s.id j)) [
    | inl g ↦ rw (e, g) refl
    | inr g ↦ rw (e, g) (next-update id j f ss same keeps)
  ]
]

pub allocate_seq-elsewhere :
    (id j : ℕ) (t t' : Tables) (seq : ℕ)
    → allocate_seq id t ≡ some (seq, t')
    → nat_eq id j ≡ false
    → next_of j t' ≡ next_of j t
unfolding allocate_seq find_session
allocate_seq-elsewhere id j t t' seq h other = elim (Option-cases (find_session id t)) [
  | inl e ↦ absurd (let k = h in let l = (rw (allocate_seq, e) at k) in cc)
  | inr (s, e) ↦
      let k = h in
      let from : Numbered = (s.next_seq, update_session id advance t) in
      let to : Numbered = (seq, t') in
      let l : some from ≡ some to = (rw (allocate_seq, e) at k) in
      let pair : from ≡ to = cc in
      let tables : update_session id advance t ≡ t' = ap (λ (p : Numbered). p.1) pair in
      ap (λ (u : Tables). next_of j u) (sym tables)
      ∙ next-update id j advance t.sessions (λ x. refl)
          (λ x a b. absurd (ground (arith, a, b, other)))
]
