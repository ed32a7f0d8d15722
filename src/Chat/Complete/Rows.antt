-- ===== src/Chat/Complete/Rows.antt =====
-- What is found in the messages for a client's message and the reply right after it.
use chatbot_react_python_nod.Prelude.{
  ℕ, suc, ◌+◌, ◌≡◌, refl, sym, ap, ◌∙◌, String, Bool, true, false, ◌&&◌, ◌||◌, Option, none, some,
  List, [], ◌∷◌, ◌++◌, nat_eq, any, arith, eq_refl,
}
use chatbot_react_python_nod.Chat.Store.{
  ChatSession, ChatMessage, Tables, first_where, same_text, same_key, clashes,
  find_by_client_message_id, get_message_by_seq,
}
use chatbot_react_python_nod.Chat.Store.Sequence.{
  next_of, first_where-past, first_where-found, first_where-any,
}
use chatbot_react_python_nod.Chat.Turn.{Draft, user_draft, replay_of, maybe_set_session_title}
use chatbot_react_python_nod.Chat.Complete.Appended.{Appended, titled}

-- the reply to the client's message, in a list of messages
abbrev reply_in : ℕ → String → List ChatMessage → Option ChatMessage
reply_in id key ms =
    elim (first_where
      (λ (m : ChatMessage). nat_eq m.session_id id && same_text m.client_message_id key) ms) [
        | none ↦ none
        | some prior ↦
            first_where
              (λ (m : ChatMessage). nat_eq m.session_id id && nat_eq m.seq (prior.seq + 1)) ms
      ]

replay-reply_in :
    (id : ℕ) (key : String) (t : Tables) → replay_of id (some key) t ≡ reply_in id key t.messages
unfolding replay_of find_by_client_message_id get_message_by_seq
replay-reply_in id key t = refl

-- A reply with this content is stored for the client's message.
abbrev pub Stored : ℕ → String → String → Tables → Type 0
Stored id key content t =
    (m : ChatMessage) × (replay_of id (some key) t ≡ some m) × (m.content ≡ content)

pub Stored-messages :
    (id : ℕ) (key content : String) (t u : Tables)
    → u.messages ≡ t.messages
    → Stored id key content t
    → Stored id key content u
Stored-messages id key content t u e (m, h, c) =
    (m, replay-reply_in id key u ∙ ap (reply_in id key) e ∙ sym (replay-reply_in id key t) ∙ h, c)

-- tests that imply a clash
weaker : (x y z : Bool) → (x && y) ≡ true → (x && (z || y)) ≡ true
weaker true true true h = refl
weaker true true false h = refl
weaker true false z h = absurd cc
weaker false y z h = absurd cc

weaker_left : (x y z : Bool) → (x && y) ≡ true → (x && (y || z)) ≡ true
weaker_left true true z h = refl
weaker_left true false z h = absurd cc
weaker_left false y z h = absurd cc

clash :
    (a m : ChatMessage) (id k : ℕ)
    → a.session_id ≡ id
    → a.seq ≡ k
    → (nat_eq m.session_id id && nat_eq m.seq k) ≡ true
    → clashes a m ≡ true
clash a m id k e f h =
    let g : (nat_eq m.session_id a.session_id && nat_eq m.seq a.seq) ≡ true = rw (e, f) h in
    weaker_left (nat_eq m.session_id a.session_id) (nat_eq m.seq a.seq)
      (same_key a.client_message_id m.client_message_id) g

same_number : (n : ℕ) → nat_eq n n ≡ true
same_number n = ground arith

module _ (id n : ℕ) (key prompt : String) where
  abbrev User : ChatMessage
  User = user_draft id prompt (some key) n

  -- the user's message, and a reply without a key right after it
  two_rows :
      (a : ChatMessage) (ms : List ChatMessage)
      → (a.session_id ≡ id) × (a.seq ≡ n + 1)
      → any (clashes User) ms ≡ false
      → any (clashes a) (ms ++ User ∷ []) ≡ false
      → reply_in id key ((ms ++ User ∷ []) ++ a ∷ []) ≡ some a
  unfolding first_where
  two_rows a ms (as_, an) free_u free_a =
      let pk : ChatMessage → Bool =
        λ m. nat_eq m.session_id id && same_text m.client_message_id key in
      let ps : ChatMessage → Bool = λ m. nat_eq m.session_id id && nat_eq m.seq (n + 1) in
      let no_key : first_where pk ms ≡ none =
        first_where-any pk (clashes User) ms
          (λ m h.
            weaker (nat_eq m.session_id id) (same_text m.client_message_id key) (nat_eq m.seq n) h)
          free_u in
      let user_key : pk User ≡ true = rw (same_number id, eq_refl key) refl in
      let at_user : first_where pk (ms ++ User ∷ []) ≡ some User =
        first_where-past pk ms (User ∷ []) no_key ∙ (rw user_key refl) in
      let found : first_where pk ((ms ++ User ∷ []) ++ a ∷ []) ≡ some User =
        first_where-found pk (ms ++ User ∷ []) (a ∷ []) User at_user in
      let no_next : first_where ps (ms ++ User ∷ []) ≡ none =
        first_where-any ps (clashes a) (ms ++ User ∷ []) (λ m h. clash a m id (n + 1) as_ an h)
          free_a in
      let at_next : ps a ≡ true = rw (as_, an, same_number id, same_number (n + 1)) refl in
      rw (reply_in, found)
        (first_where-past ps (ms ++ User ∷ []) (a ∷ []) no_next ∙ (rw at_next refl))

abbrev pub Assistant : ℕ → Draft → Type 0
Assistant id draft = (k : ℕ) → ((draft k).session_id ≡ id) × ((draft k).seq ≡ k)

-- after the client's message and then a reply were written, the reply is what is stored for it
pub written-Stored :
    (id : ℕ) (key prompt : String) (draft : Draft) (s : ChatSession) (t u v : Tables) (n k : ℕ)
    → s.id ≡ id
    → Assistant id draft
    → Appended id (user_draft id prompt (some key)) n t u
    → Appended id draft k (maybe_set_session_title s prompt u) v
    → replay_of id (some key) v ≡ some (draft k)
written-Stored id key prompt draft s t u v n k own form first second =
    let (kept, number) = titled s prompt u in
    let next : some (suc n) ≡ some k =
      sym first.advanced
      ∙ sym (ap (λ i. next_of i u) own)
      ∙ sym number
      ∙ ap (λ i. next_of i (maybe_set_session_title s prompt u)) own
      ∙ second.number in
    let succ : suc n ≡ k = cc in
    let plus : k ≡ n + 1 = omega (arith, succ) in
    let (session, seq) = form k in
    let before : (maybe_set_session_title s prompt u).messages
        ≡ t.messages ++ user_draft id prompt (some key) n ∷ [] =
      kept ∙ first.last in
    replay-reply_in id key v
    ∙ ap (reply_in id key) (second.last ∙ ap (λ ms. ms ++ draft k ∷ []) before)
    ∙ two_rows id n key prompt (draft k) t.messages (session, seq ∙ plus) first.free
        (ap (λ ms. any (clashes (draft k)) ms) (sym before) ∙ second.free)
