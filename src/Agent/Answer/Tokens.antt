-- ===== src/Agent/Answer/Tokens.antt =====
-- The streamed answer is what was published of it.
use Prim.Native.String.{◌++◌}
use mathlib.Core.List
use chatbot_react_python_nod.Prelude.{
  ℕ, String, ◌≡◌, refl, sym, ap, ◌∙◌, false, Option, none, some, List, [], ◌∷◌, map, ◌==◌, All,
  concat, Bool-cases, inl, inr, append-nil, append_assoc, empty_append, eq_iff,
}
use chatbot_react_python_nod.Agent.Models.{AgentRequest, Event, token}
use chatbot_react_python_nod.Agent.Exn.{Result, ok, err}
use chatbot_react_python_nod.Agent.Publisher.{queue, is_well_formed}
use chatbot_react_python_nod.Agent.World.{World, Action, emit, ◌>>=◌, pure, next_call}
use chatbot_react_python_nod.Agent.World.Triples.{
  Triple, Post, Triple-pure, Triple-raise, Triple-bind, Triple-if, Triple-weaken, Triple-keeps,
}
use chatbot_react_python_nod.Agent.World.Streamed.{emit-run}
use chatbot_react_python_nod.Agent.World.Ensures.{Anyhow}
use chatbot_react_python_nod.Agent.Env.{Env, Pull, Pulled, chunk, stalled, failed}
use chatbot_react_python_nod.Agent.World.Keeps.{Keeps, Keeps-bind, Keeps-gets, Keeps-lift}
use chatbot_react_python_nod.Agent.Answer.{
  emit_token, on_pulled, consume, chunk_text, is_late, stream_final_answer, scratchpad_messages,
}

-- the queue stands open with these items
abbrev Queued : List (Option Event) → World → Type 0
Queued items w = w.publisher ≡ queue items false

-- the items that publish these tokens
abbrev pub tokens : String → List String → List (Option Event)
tokens x ts = map (λ t. some (token x t)) ts

-- Since `items`, tokens that are not empty have been published, and in turn they make up `s`.
abbrev pub Spoken : String → List (Option Event) → String → World → Type 0
Spoken x items s w =
    (ts : List String) × All (λ t. (t == "") ≡ false) ts
    × (concat ts ≡ s)
    × (w.publisher ≡ queue (List.◌++◌ items (tokens x ts)) false)

emit-Queued :
    (e : Event) (items : List (Option Event))
    → Triple (Queued items) (emit e) (λ _. Queued (List.◌++◌ items (some e ∷ []))) Anyhow
emit-Queued e items = record {
  at = λ w q. elim (Bool-cases (is_well_formed e)) [
    | inl good ↦ rw (emit-run e w items q, good) refl
    | inr bad ↦ rw (emit-run e w items q, bad) tt
  ];
}

module _ (x : String) where
  nothing-Spoken : (items : List (Option Event)) (w : World) → Queued items w → Spoken x items "" w
  unfolding concat
  nothing-Spoken items w q = ([], tt, refl, q ∙ ap (λ l. queue l false) (sym (append-nil items)))

  more-Spoken :
      (items : List (Option Event)) (t s : String) (w : World)
      → (t == "") ≡ false
      → Spoken x (List.◌++◌ items (some (token x t) ∷ [])) s w
      → Spoken x items (t ++ s) w
  unfolding concat
  more-Spoken items t s w filled (ts, all, e, q) = (
    t ∷ ts,
    (filled, all),
    ap (λ u. t ++ u) e,
    q ∙ ap (λ l. queue l false) (append_assoc items (some (token x t) ∷ []) (tokens x ts)),
  )

  Spoken-then :
      (items : List (Option Event)) (t : String) (rest : Action String)
      → ((is : List (Option Event)) → Triple (Queued is) rest (Spoken x is) Anyhow)
      → Triple
          (Queued items)
          (emit_token x t >>= λ _. rest >>= λ s. pure (t ++ s))
          (Spoken x items)
          Anyhow
  unfolding emit_token
  Spoken-then items t rest h = elim (Bool-cases (t == "")) [
    | inl void ↦ rw void (
        Triple-bind (Triple-pure tt (λ w q. q)) λ _.
          Triple-bind (h items)
            λ s. Triple-pure (t ++ s) (λ w k. rw ((eq_iff t "").0 void, empty_append s) k))
    | inr filled ↦ rw filled (
        Triple-bind (emit-Queued (token x t) items) λ _.
          Triple-bind (h _) λ s. Triple-pure (t ++ s) (λ w k. more-Spoken items t s w filled k))
  ]

  on_pulled-Spoken :
      (timeout : Option ℕ) (rest : Action String) (p : Pulled) (items : List (Option Event))
      → ((is : List (Option Event)) → Triple (Queued is) rest (Spoken x is) Anyhow)
      → Triple (Queued items) (on_pulled x timeout rest p) (Spoken x items) Anyhow
  unfolding on_pulled
  on_pulled-Spoken timeout rest (chunk c) items h = Spoken-then items (chunk_text c) rest h
  on_pulled-Spoken none rest stalled items h = h items
  on_pulled-Spoken (some t) rest stalled items h = Triple-raise _ (λ _ _. tt)
  on_pulled-Spoken timeout rest (failed e) items h = Triple-raise _ (λ _ _. tt)

  consume-Spoken :
      (timeout : Option ℕ) (pulls : List Pull) (ended : ℕ) (items : List (Option Event))
      → Triple (Queued items) (consume x timeout pulls ended) (Spoken x items) Anyhow
  unfolding consume
  consume-Spoken timeout [] ended items =
      Triple-if (is_late timeout ended) (Triple-raise _ (λ _ _. tt))
        (Triple-pure "" (nothing-Spoken items))
  consume-Spoken timeout (p ∷ ps) ended items =
      Triple-if (is_late timeout p.elapsed) (Triple-raise _ (λ _ _. tt))
        (on_pulled-Spoken timeout _ p.pulled items (consume-Spoken timeout ps ended))

  -- what `scratchpad_messages` and `next_call` leave of the queue
  unqueued :
      (items : List (Option Event)) {A : Type 0} {m : Action A}
      → Keeps (Queued items) m
      → Triple (Queued items) m (λ _. Queued items) Anyhow
  unqueued items k = Triple-weaken (Triple-keeps k) (λ _ _ q. q) (λ _ _ _. tt)

  messages-Queued : (items : List (Option Event)) → Keeps (Queued items) (scratchpad_messages x)
  unfolding scratchpad_messages
  messages-Queued items =
      Keeps-bind (Keeps-gets _) λ s. Keeps-bind (Keeps-lift _) λ es. Keeps-lift _

  call-Queued : (items : List (Option Event)) → Keeps (Queued items) next_call
  unfolding next_call
  call-Queued items = record { at = λ w q. q }

  stream-Spoken :
      (env : Env) (request : AgentRequest) (items : List (Option Event))
      → Triple (Queued items) (stream_final_answer env request x) (Spoken x items) Anyhow
  unfolding stream_final_answer
  stream-Spoken env request items =
      Triple-bind (unqueued items (messages-Queued items))
        λ ms. Triple-bind (unqueued items (call-Queued items)) λ n. consume-Spoken _ _ _ items

Spoken-of :
    (x : String) (items : List (Option Event)) (r : Result String) (v : World) (s : String)
    → Post (Spoken x items) Anyhow (r, v)
    → r ≡ ok s
    → Spoken x items s v
Spoken-of x items (ok t) v s h e = let same : t ≡ s = cc in rw (sym same) h
Spoken-of x items (err y) v s h e = absurd cc

-- When the streamed answer is complete, the events that it added to the queue are tokens of this
-- execution, none is empty, and their contents in turn make up the answer.
pub stream_final_answer-tokens :
    (env : Env) (request : AgentRequest) (x : String) (items : List (Option Event)) (w : World)
    (s : String)
    → w.publisher ≡ queue items false
    → (stream_final_answer env request x w).0 ≡ ok s
    → Spoken x items s (stream_final_answer env request x w).1
stream_final_answer-tokens env request x items w s q e =
    Spoken-of x items (stream_final_answer env request x w).0
      (stream_final_answer env request x w).1 s ((stream-Spoken x env request items).at w q) e
