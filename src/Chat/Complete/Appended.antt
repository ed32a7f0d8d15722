-- ===== src/Chat/Complete/Appended.antt =====
-- A message that is written in a turn: its place and its number.
use chatbot_react_python_nod.Prelude.{
  ℕ, suc, ◌≡◌, refl, sym, ap, ◌∙◌, String, false, some, [], ◌∷◌, ◌++◌, any, nat_eq, Option-cases,
  inl, inr,
}
use chatbot_react_python_nod.Chat.Store.{
  ChatSession, Tables, find_session, allocate_seq, add_message, clashes, update_title,
}
use chatbot_react_python_nod.Chat.Store.Sequence.{
  next_of, next_of-title, next_of-sessions, allocate_seq-next, allocate_seq-elsewhere, next-update,
  add_message-last,
}
use chatbot_react_python_nod.Chat.Usage.{derive_session_title}
use chatbot_react_python_nod.Chat.Turn.{Draft, append_message, maybe_set_session_title}

-- the message stands last, with the session's next number, which moves on, and clashes with no other
pub record Appended (id : ℕ) (draft : Draft) (seq : ℕ) (t t' : Tables) : Type 0 where
  pub last : t'.messages ≡ t.messages ++ draft seq ∷ []
  pub free : any (clashes (draft seq)) t.messages ≡ false
  pub number : next_of id t ≡ some seq
  pub advanced : next_of id t' ≡ some (suc seq)
  pub elsewhere : (j : ℕ) → nat_eq id j ≡ false → next_of j t' ≡ next_of j t

abbrev Written : Type 0
Written = ℕ × Tables

pub append_message-Appended :
    (id : ℕ) (draft : Draft) (t t' : Tables) (seq : ℕ)
    → append_message id draft t ≡ some (seq, t')
    → Appended id draft seq t t'
unfolding append_message find_session
append_message-Appended id draft t t' seq h = elim (Option-cases (allocate_seq id t)) [
  | inl e ↦ absurd (let k = h in let l = (rw (append_message, e) at k) in cc)
  | inr ((n, u), e) ↦ elim (Option-cases (add_message (draft n) u)) [
    | inl f ↦ absurd (let k = h in let l = (rw (append_message, e, f) at k) in cc)
    | inr (v, f) ↦
        let k = h in
        let from : Written = (n, v) in
        let to : Written = (seq, t') in
        let l : some from ≡ some to = (rw (append_message, e, f) at k) in
        let pair : from ≡ to = cc in
        let same : n ≡ seq = ap (λ (p : Written). p.0) pair in
        let tables : v ≡ t' = ap (λ (p : Written). p.1) pair in
        let (kept, next, after) = allocate_seq-next id t u n e in
        let (last, sessions, free) = add_message-last (draft n) u v f in
        rw (← tables, ← same)
          (record {
            last = last ∙ ap (λ ms. ms ++ draft n ∷ []) kept;
            free = ap (λ ms. any (clashes (draft n)) ms) (sym kept) ∙ free;
            number = next;
            advanced = next_of-sessions id u v sessions ∙ after;
            elsewhere = λ j other.
                next_of-sessions j u v sessions ∙ allocate_seq-elsewhere id j t u n e other;
          })
  ]
]

-- the title changes no message and no session's number
pub titled-next :
    (s : ChatSession) (content : String) (j : ℕ) (t : Tables)
    → next_of j (maybe_set_session_title s content t) ≡ next_of j t
unfolding maybe_set_session_title update_title find_session
titled-next s content j t = elim (Option-cases s.title) [
  | inr (old, e) ↦ rw (maybe_set_session_title, e) refl
  | inl e ↦ elim (Option-cases (derive_session_title content 50)) [
    | inl f ↦ rw (maybe_set_session_title, e, f) refl
    | inr (new, f) ↦
        rw (maybe_set_session_title, e, f)
          (next-update s.id j _ t.sessions (λ x. refl) (λ x a b. refl))
  ]
]

-- the title changes no message and no number
pub titled :
    (s : ChatSession) (content : String) (t : Tables)
    → let u = maybe_set_session_title s content t in
      (u.messages ≡ t.messages) × (next_of s.id u ≡ next_of s.id t)
unfolding maybe_set_session_title update_title
titled s content t = elim (Option-cases s.title) [
  | inr (old, e) ↦ rw (maybe_set_session_title, e) (refl, refl)
  | inl e ↦ elim (Option-cases (derive_session_title content 50)) [
    | inl f ↦ rw (maybe_set_session_title, e, f) (refl, refl)
    | inr (new, f) ↦ rw (maybe_set_session_title, e, f) (refl, next_of-title s.id new t)
  ]
]
