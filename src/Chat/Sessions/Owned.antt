-- ===== src/Chat/Sessions/Owned.antt =====
-- Only the owner reads or deletes a session, and nothing of another session is lost.
use chatbot_react_python_nod.Prelude.{
  ◌⊎◌, ℕ, ◌≡◌, refl, String, Bool, true, false, not, ◌&&◌, Option, none, some, List, [], ◌∷◌,
  if◌then◌else◌, nat_eq, select, Bool-cases, inl, inr, arith,
}
use chatbot_react_python_nod.Tools.Schema.{CallerKind, user, guest}
use chatbot_react_python_nod.Chat.Store.{
  ChatSession, ChatMessage, SessionSummary, Tables, first_where, find_session, get_owned_session,
  owns,
}
use chatbot_react_python_nod.Chat.Usage.{Caller}
use chatbot_react_python_nod.Chat.Sessions.{Answer, given, denied}

first_where-test :
    {A : Type 0} → (p : A → Bool) (xs : List A) (a : A) → first_where p xs ≡ some a → p a ≡ true
unfolding first_where
first_where-test p [] a h = absurd cc
first_where-test p (x ∷ xs) a h = elim (Bool-cases (p x)) [
  | inl e ↦ let k = h in let l = (rw e at k) in let same : x ≡ a = cc in rw (← same) e
  | inr e ↦ let k = h in first_where-test p xs a (rw e at k)
]

-- a session that is found has the id, and the caller owns it
abbrev pub OwnedBy : Option String → Option String → ℕ → Tables → ChatSession → Type 0
OwnedBy user_id guest_id id t s = (s.id ≡ id) × (owns user_id guest_id t.linked s ≡ true)

pub get_owned_session-OwnedBy :
    (id : ℕ) (user_id guest_id : Option String) (t : Tables) (s : ChatSession)
    → get_owned_session id user_id guest_id t ≡ some s
    → OwnedBy user_id guest_id id t s
unfolding get_owned_session
get_owned_session-OwnedBy id user_id guest_id t s h =
    let found : (nat_eq s.id id && owns user_id guest_id t.linked s) ≡ true =
      first_where-test (λ (x : ChatSession). nat_eq x.id id && owns user_id guest_id t.linked x)
        t.sessions s h in
    both (nat_eq s.id id) (owns user_id guest_id t.linked s) refl found
  where
    both : (a b : Bool) → nat_eq s.id id ≡ a → (a && b) ≡ true → (s.id ≡ id) × (b ≡ true)
    both true true e k = (ground (arith, e), refl)
    both true false e k = absurd cc
    both false b e k = absurd cc

module _ {A : Type 0} (key : A → ℕ) (id : ℕ) where
  abbrev other : A → Bool
  other a = not (nat_eq (key a) id)

  -- the rows of one key
  abbrev of : ℕ → List A → List A
  of j xs = select (λ a. nat_eq (key a) j) xs

-- the messages of a session as they stand
abbrev pub messages_of : ℕ → Tables → List ChatMessage
messages_of id t = select (λ (m : ChatMessage). nat_eq m.session_id id) t.messages

abbrev pub summaries_of : ℕ → Tables → List SessionSummary
summaries_of id t = select (λ (c : SessionSummary). nat_eq c.session_id id) t.summaries

-- The session is gone with its messages and summaries, every other one is as before, and so are the links
-- of guests and whatever else the tables hold.
abbrev pub Deleted : ℕ → Tables → Tables → Type 0
Deleted id t u =
    (record u { sessions = t.sessions; messages = t.messages; summaries = t.summaries } ≡ t)
    × ((j : ℕ)
        → (find_session j u ≡ (if nat_eq id j then none else find_session j t))
          × (messages_of j u ≡ (if nat_eq id j then [] else messages_of j t))
          × (summaries_of j u ≡ (if nat_eq id j then [] else summaries_of j t)))

-- what becomes of a request to delete a session
abbrev pub DeletedBy : ℕ → Option Caller → Tables → Answer Unit × Tables → Type 0
DeletedBy id who t (denied e, u) = u ≡ t
DeletedBy id none t (given x, u) = ⊥
DeletedBy id (some caller) t (given x, u) =
    (caller.kind ≡ user) × ((s : ChatSession) × OwnedBy caller.user_id none id t s) × Deleted id t u

pub kind-cases : (k : CallerKind) → (k ≡ user) ⊎ (k ≡ guest)
kind-cases user = inl refl
kind-cases guest = inr refl
