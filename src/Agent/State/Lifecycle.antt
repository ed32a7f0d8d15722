-- ===== src/Agent/State/Lifecycle.antt =====
-- The lifecycle of an execution as a graph, which changes of status `transition` accepts, and what `to_dict`
-- leaves out.
use chatbot_react_python_nod.Prelude.{
  String, ◌≡◌, ◌⊎◌, inl, inr, refl, Bool, true, false, Option, arith, Bool-cases, not, ◌&&◌, Elem,
  Elem-select, ◌↔◌, List, [], ◌∷◌, any, occurs, codes, lower, Within, occurs-Within, Within-occurs,
}
use chatbot_react_python_nod.Json.{Json}
use chatbot_react_python_nod.Agent.Models.{Status}
use chatbot_react_python_nod.Agent.Exn.{ok, err, invalid_transition}
use chatbot_react_python_nod.Agent.State.{
  State, transition, valid_transitions, terminal_statuses, has_status, failure_message, to_dict,
  redact_secrets, is_secret_key, secret_key_fragments,
}

-- The intended lifecycle: work starts by planning, alternates between planning, execution and
-- reflection, may be completed from any of these, and may fail from any state that has not ended.
pub data Edge : Status → Status → Type 0 where
  begin : Edge Status.created Status.planning
  execute : Edge Status.planning Status.executing
  again : Edge Status.executing Status.planning
  reflect : Edge Status.executing Status.reflecting
  replan : Edge Status.reflecting Status.planning
  resume : Edge Status.reflecting Status.executing
  finish_planning : Edge Status.planning Status.completed
  finish_executing : Edge Status.executing Status.completed
  finish_reflecting : Edge Status.reflecting Status.completed
  fail_created : Edge Status.created Status.failed
  fail_planning : Edge Status.planning Status.failed
  fail_executing : Edge Status.executing Status.failed
  fail_reflecting : Edge Status.reflecting Status.failed

-- the two tests of `transition`
abbrev accepts : Status → Status → Bool
unfolding valid_transitions
accepts a b = not (has_status a terminal_statuses) && has_status b (valid_transitions a)

Edge-accepts : {a b : Status} → Edge a b → accepts a b ≡ true
unfolding accepts
Edge-accepts begin = refl
Edge-accepts execute = refl
Edge-accepts again = refl
Edge-accepts reflect = refl
Edge-accepts replan = refl
Edge-accepts resume = refl
Edge-accepts finish_planning = refl
Edge-accepts finish_executing = refl
Edge-accepts finish_reflecting = refl
Edge-accepts fail_created = refl
Edge-accepts fail_planning = refl
Edge-accepts fail_executing = refl
Edge-accepts fail_reflecting = refl

accepts-Edge : (a b : Status) → accepts a b ≡ true → Edge a b
unfolding accepts
accepts-Edge Status.created Status.planning h = begin
accepts-Edge Status.created Status.failed h = fail_created
accepts-Edge Status.planning Status.executing h = execute
accepts-Edge Status.planning Status.completed h = finish_planning
accepts-Edge Status.planning Status.failed h = fail_planning
accepts-Edge Status.executing Status.planning h = again
accepts-Edge Status.executing Status.reflecting h = reflect
accepts-Edge Status.executing Status.completed h = finish_executing
accepts-Edge Status.executing Status.failed h = fail_executing
accepts-Edge Status.reflecting Status.planning h = replan
accepts-Edge Status.reflecting Status.executing h = resume
accepts-Edge Status.reflecting Status.completed h = finish_reflecting
accepts-Edge Status.reflecting Status.failed h = fail_reflecting
accepts-Edge _ _ h = cc

-- the state after an accepted change
abbrev pub moved : State → Status → Option String → State
moved s t m = record s { status = t; error_message = failure_message t m s.error_message }

pub transition-accepted :
    (s : State) (t : Status) (m : Option String)
    → Edge s.status t
    → transition s t m ≡ ok (moved s t m)
unfolding transition accepts
transition-accepted s t m e = ground (arith, Edge-accepts e)

transition-refused :
    (s : State) (t : Status) (m : Option String)
    → accepts s.status t ≡ false
    → transition s t m ≡ err (invalid_transition s.status t)
unfolding transition accepts
transition-refused s t m h = ground arith

-- `transition` accepts exactly the edges of the lifecycle. It then changes the status, and keeps a
-- message given with FAILED, and changes nothing else; any other change of status is refused with the
-- two statuses.
pub transition_exact :
    (s : State) (t : Status) (m : Option String)
    → (Edge s.status t × (transition s t m ≡ ok (moved s t m)))
      ⊎ ((¬ Edge s.status t) × (transition s t m ≡ err (invalid_transition s.status t)))
transition_exact s t m = elim (Bool-cases (accepts s.status t)) [
  | inl yes_edge ↦ let e = accepts-Edge s.status t yes_edge in inl (e, transition-accepted s t m e)
  | inr no_edge ↦ inr ((λ e. cc (no_edge, Edge-accepts e)), transition-refused s t m no_edge)
]

-- The words that mark a key as secret, and a key that has one of them in it, in whatever case of the ASCII letters.
abbrev pub secret_words : List String
secret_words = "secret" ∷ "password" ∷ "token" ∷ "api_key" ∷ "authorization" ∷ []

abbrev pub IsSecret : String → Type 0
IsSecret key = (word : String) × Elem word secret_words × Within (codes word) (lower key)

any-Elem :
    {A : Type 0} (p : A → Bool) (xs : List A) → any p xs ≡ true → (x : A) × Elem x xs × (p x ≡ true)
unfolding any
any-Elem p [] h = absurd cc
any-Elem p (x ∷ xs) h = elim (Bool-cases (p x)) [
  | inl e ↦ (x, inl refl, e)
  | inr e ↦ let k = h in let (y, m, f) = any-Elem p xs (rw e at k) in (y, inr m, f)
]

Elem-any :
    {A : Type 0} (p : A → Bool) (xs : List A) (x : A) → Elem x xs → p x ≡ true → any p xs ≡ true
unfolding any
Elem-any p [] x m h = elim m [ ]
Elem-any p (y ∷ ys) x (inl e) h = rw (← e, h) refl
Elem-any p (y ∷ ys) x (inr m) h = ground (arith, Elem-any p ys x m h)

is_secret_key-IsSecret : (key : String) → is_secret_key key ≡ true → IsSecret key
unfolding is_secret_key
is_secret_key-IsSecret key h =
    let (word, m, e) =
      any-Elem (λ fragment. occurs (codes fragment) (lower key)) secret_key_fragments h in
    (word, m, occurs-Within (codes word) (lower key) e)

IsSecret-is_secret_key : (key : String) → IsSecret key → is_secret_key key ≡ true
unfolding is_secret_key
IsSecret-is_secret_key key (word, m, (before, after, e)) =
    Elem-any (λ fragment. occurs (codes fragment) (lower key)) secret_key_fragments word m
      (rw e (Within-occurs (codes word) before after))

-- Redaction drops every metadata entry whose key has `secret`, `password`, `token`, `api_key` or
-- `authorization` in it, in whatever case of the ASCII letters, keeps all other entries, and leaves the rest
-- of the state alone.
pub to_dict_redacts :
    (s : State) (k : String) (v : Json)
    → (Elem (k, v) (to_dict s).metadata ↔ (Elem (k, v) s.metadata × ¬ IsSecret k))
      × (record (to_dict s) { metadata = s.metadata } ≡ s)
unfolding to_dict redact_secrets
to_dict_redacts s k v =
    let kept = Elem-select (λ e. not (is_secret_key e.0)) (k, v) s.metadata in
    (
      (
        (λ m. (
          (kept.0 m).0,
          λ secret.
              let no = (kept.0 m).1 in
              let yes = IsSecret-is_secret_key k secret in ground (arith, no, yes),
        )),
        λ (m, open_key). kept.1 (
          m,
          elim (Bool-cases (is_secret_key k)) [
            | inl e ↦ absurd (open_key (is_secret_key-IsSecret k e))
            | inr e ↦ rw e refl
          ],
        ),
      ),
      refl,
    )
