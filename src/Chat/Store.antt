-- ===== src/Chat/Store.antt =====
-- `SqlChatStore` of backend-python/app/db/chat.py on the tables of backend-python/app/db/models.py, as the
-- request's database session sees them. A table is the list of its rows, oldest first; ids are numbers,
-- and the next fresh one is `fresh`. The database answers, and refuses a row against a unique index.
pub mod Sequence
use chatbot_react_python_nod.Prelude.{
  ℕ, suc, ◌+◌, String, ◌==◌, Bool, true, false, ◌&&◌, ◌||◌, Option, none, some, List, [], ◌∷◌, ◌++◌,
  map, if◌then◌else◌, nat_eq, ltb, leb, select, any, mem, Dict,
}
use chatbot_react_python_nod.Agent.Models.{Role}

pub record ChatSession : Type 0 where
  pub id : ℕ
  pub user_id : Option String
  pub guest_id : Option String
  pub title : Option String
  pub next_seq : ℕ
  pub last_message_at : Option ℕ

pub data MessageStatus : Type 0 where
  complete stopped error interrupted : MessageStatus

pub record ChatMessage : Type 0 where
  pub session_id : ℕ
  pub seq : ℕ
  pub role : Role
  pub content : String
  pub provider : Option String
  pub model : Option String
  pub status : MessageStatus
  pub finish_reason : Option String
  pub client_message_id : Option String

pub record SessionSummary : Type 0 where
  pub session_id : ℕ
  pub version : ℕ
  pub covers_through_seq : ℕ
  pub content : String
  pub provider : String
  pub model : String

-- the guests that are linked to a user, as pairs of both
pub record Tables : Type 0 where
  pub sessions : List ChatSession
  pub messages : List ChatMessage
  pub summaries : List SessionSummary
  pub linked : List (String × String)
  pub fresh : ℕ
  pub now : ℕ

unfoldable pub first_where {ℓ} : {A : Type ℓ} → (A → Bool) → List A → Option A
first_where p [] = none
first_where p (x ∷ xs) = if p x then some x else first_where p xs

unfoldable pub find_session : ℕ → Tables → Option ChatSession
find_session id d = first_where (λ (s : ChatSession). nat_eq s.id id) d.sessions

-- rows with the id are changed
unfoldable pub update_where : ℕ → (ChatSession → ChatSession) → List ChatSession → List ChatSession
update_where id f [] = []
update_where id f (s ∷ ss) = (if nat_eq s.id id then f s else s) ∷ update_where id f ss

abbrev pub update_session : ℕ → (ChatSession → ChatSession) → Tables → Tables
update_session id f d = record {
  sessions = update_where id f d.sessions;
  messages = d.messages;
  summaries = d.summaries;
  linked = d.linked;
  fresh = d.fresh;
  now = d.now;
}

abbrev pub same_text : Option String → String → Bool
same_text none t = false
same_text (some s) t = s == t

-- the guest of a session is linked to the user
unfoldable pub linked_to : Option String → String → List (String × String) → Bool
linked_to none user links = false
linked_to (some guest) user links = any (λ (l : String × String). l.0 == guest && l.1 == user) links

unfoldable pub create_session :
    Option String → Option String → Option String → Tables → ChatSession × Tables
create_session user_id guest_id title d =
    let s : ChatSession = record {
      id = d.fresh;
      user_id = user_id;
      guest_id = guest_id;
      title = title;
      next_seq = 1;
      last_message_at = none;
    } in
    (
      s,
      record {
        sessions = d.sessions ++ s ∷ [];
        messages = d.messages;
        summaries = d.summaries;
        linked = d.linked;
        fresh = suc d.fresh;
        now = d.now;
      },
    )

unfoldable pub owns : Option String → Option String → List (String × String) → ChatSession → Bool
owns (some user) guest_id links s = same_text s.user_id user || linked_to s.guest_id user links
owns none (some guest) links s = same_text s.guest_id guest
owns none none links s = false

unfoldable pub get_owned_session : ℕ → Option String → Option String → Tables → Option ChatSession
get_owned_session id user_id guest_id d =
    first_where (λ (s : ChatSession). nat_eq s.id id && owns user_id guest_id d.linked s) d.sessions

unfoldable pub get_default_guest_session : String → Tables → Option ChatSession
get_default_guest_session guest d =
    first_where (λ (s : ChatSession). same_text s.guest_id guest) d.sessions

abbrev pub advance : ChatSession → ChatSession
advance s = record {
  id = s.id;
  user_id = s.user_id;
  guest_id = s.guest_id;
  title = s.title;
  next_seq = suc s.next_seq;
  last_message_at = s.last_message_at;
}

-- none is the ValueError for an unknown session
unfoldable pub allocate_seq : ℕ → Tables → Option (ℕ × Tables)
allocate_seq id d = elim (find_session id d) [
  | none ↦ none
  | some s ↦ some (s.next_seq, update_session id advance d)
]

abbrev pub same_key : Option String → Option String → Bool
same_key none k = false
same_key (some s) k = same_text k s

-- a row of the session has the number, or the client's id
abbrev pub clashes : ChatMessage → ChatMessage → Bool
clashes new old =
    nat_eq old.session_id new.session_id
    && (nat_eq old.seq new.seq || same_key new.client_message_id old.client_message_id)

-- none is the IntegrityError of the two unique indexes
unfoldable pub add_message : ChatMessage → Tables → Option Tables
add_message m d =
    if any (clashes m) d.messages
    then none
    else some (record {
      sessions = d.sessions;
      messages = d.messages ++ m ∷ [];
      summaries = d.summaries;
      linked = d.linked;
      fresh = d.fresh;
      now = d.now;
    })

unfoldable pub find_by_client_message_id : ℕ → String → Tables → Option ChatMessage
find_by_client_message_id id key d =
    first_where (λ (m : ChatMessage). nat_eq m.session_id id && same_text m.client_message_id key)
      d.messages

unfoldable pub get_message_by_seq : ℕ → ℕ → Tables → Option ChatMessage
get_message_by_seq id seq d =
    first_where (λ (m : ChatMessage). nat_eq m.session_id id && nat_eq m.seq seq) d.messages

unfoldable pub mark_last_message_at : ℕ → Tables → Tables
mark_last_message_at id d =
    update_session id
      (λ s. record {
        id = s.id;
        user_id = s.user_id;
        guest_id = s.guest_id;
        title = s.title;
        next_seq = s.next_seq;
        last_message_at = some d.now;
      })
      d

unfoldable pub update_title : ℕ → String → Tables → Tables
update_title id title d =
    update_session id
      (λ s. record {
        id = s.id;
        user_id = s.user_id;
        guest_id = s.guest_id;
        title = some title;
        next_seq = s.next_seq;
        last_message_at = s.last_message_at;
      })
      d

-- `order_by(ChatMessage.seq)`
unfoldable pub insert_by_seq : ChatMessage → List ChatMessage → List ChatMessage
insert_by_seq m [] = m ∷ []
insert_by_seq m (n ∷ ns) =
    let rest = insert_by_seq m ns in if leb m.seq n.seq then m ∷ n ∷ ns else n ∷ rest

unfoldable pub ordered_by_seq : List ChatMessage → List ChatMessage
ordered_by_seq [] = []
ordered_by_seq (m ∷ ms) = insert_by_seq m (ordered_by_seq ms)

unfoldable pub list_messages_after_seq : ℕ → ℕ → Tables → List ChatMessage
list_messages_after_seq id after d =
    ordered_by_seq
      (select (λ (m : ChatMessage). nat_eq m.session_id id && ltb after m.seq) d.messages)

-- the summary of the highest version
unfoldable pub latest_of : Option SessionSummary → List SessionSummary → Option SessionSummary
latest_of best [] = best
latest_of none (s ∷ ss) = latest_of (some s) ss
latest_of (some b) (s ∷ ss) = latest_of (some (if ltb b.version s.version then s else b)) ss

unfoldable pub get_latest_summary : ℕ → Tables → Option SessionSummary
get_latest_summary id d =
    latest_of none (select (λ (s : SessionSummary). nat_eq s.session_id id) d.summaries)

-- none is the IntegrityError for a version that the session has
unfoldable pub add_summary : SessionSummary → Tables → Option Tables
add_summary s d =
    if any (λ (o : SessionSummary). nat_eq o.session_id s.session_id && nat_eq o.version s.version)
      d.summaries
    then none
    else some (record {
      sessions = d.sessions;
      messages = d.messages;
      summaries = d.summaries ++ s ∷ [];
      linked = d.linked;
      fresh = d.fresh;
      now = d.now;
    })
