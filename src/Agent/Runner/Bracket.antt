-- ===== src/Agent/Runner/Bracket.antt =====
-- The events of one tool run: a start, and then one end with the same name and id.
use chatbot_react_python_nod.Prelude.{
  String, ◌≡◌, refl, ap, ◌∙◌, Bool, true, false, Option, none, some, List, [], ◌∷◌, ◌++◌, ◌⊎◌, inl,
  inr, Bool-cases, append_assoc, arith,
}
use chatbot_react_python_nod.Agent.Models.{ToolCall, ToolResult, Event, tool_start, tool_end}
use chatbot_react_python_nod.Agent.Exn.{Exn, ok, err, is_exception, validation_error}
use chatbot_react_python_nod.Agent.Publisher.{queue, is_well_formed}
use chatbot_react_python_nod.Agent.World.{World, emit, lift, ◌>>=◌, catching, next_call}
use chatbot_react_python_nod.Agent.World.Triples.{
  Triple, Post, Triple-pure, Triple-raise, Triple-bind, Triple-lift, Triple-weaken, Triple-catching,
  Triple-keeps,
}
use chatbot_react_python_nod.Agent.World.Streamed.{emit-run}
use chatbot_react_python_nod.Agent.Env.{Env}
use chatbot_react_python_nod.Agent.Retry.{RetryPolicy}
use chatbot_react_python_nod.Agent.Results.{ToolRunRecord, new_record}
use chatbot_react_python_nod.Agent.Runner.{
  id_from, resolve_call_id, execute_with_retry, report_failure, run_single_tool,
}
use chatbot_react_python_nod.Agent.Runner.Kept.{execute_with_retry-Keeps}

-- the queue stands open with these items
abbrev Queued : List (Option Event) → World → Type 0
Queued items w = w.publisher ≡ queue items false

-- the id of a run: the call's own, if it has one
abbrev pub IsIdOf : Option String → String → Type 0
IsIdOf none id = Unit
IsIdOf (some own) id = id ≡ own

emit-tried :
    (e : Event) (items : List (Option Event))
    → Triple
        (Queued items)
        (emit e)
        (λ _ w. (is_well_formed e ≡ true) × Queued (items ++ some e ∷ []) w)
        (λ y w. (y ≡ validation_error) × Queued items w)
emit-tried e items = record {
  at = λ w q. elim (Bool-cases (is_well_formed e)) [
    | inl good ↦ rw (emit-run e w items q, good) (refl, refl)
    | inr bad ↦ rw (emit-run e w items q, bad) (refl, q)
  ];
}

numbered :
    (items : List (Option Event)) {F : Exn → World → Type 0}
    → Triple (Queued items) next_call (λ _. Queued items) F
unfolding next_call
numbered items = record { at = λ w q. q }

emit-done :
    (e : Event) (items : List (Option Event)) {F : Exn → World → Type 0}
    → is_well_formed e ≡ true
    → Triple (Queued items) (emit e) (λ _. Queued (items ++ some e ∷ [])) F
emit-done e items good = record { at = λ w q. rw (emit-run e w items q, good) refl }

module _ (x : String) (call : ToolCall) (items : List (Option Event)) where
  -- the queue with the start of the run, and with its end
  abbrev pub Begun : String → World → Type 0
  Begun id w = w.publisher ≡ queue (items ++ some (tool_start x call.name id) ∷ []) false

  abbrev pub Ended : String → Bool → World → Type 0
  Ended id b w =
      w.publisher
      ≡ queue (items ++ some (tool_start x call.name id) ∷ some (tool_end x call.name id b) ∷ [])
          false

  -- a run cut short after its start
  abbrev pub Cut : String → Exn → World → Type 0
  Cut id e w =
      ((is_exception e ≡ false) × Begun id w)
      ⊎ ((is_exception e ≡ true) × Ended id false w)
      ⊎ ((e ≡ validation_error) × (b : Bool) × Ended id b w)

  -- how a run that raises leaves the queue
  abbrev pub Broken : Exn → World → Type 0
  Broken e w =
      ((e ≡ validation_error) × (w.publisher ≡ queue items false))
      ⊎ (id : String) × IsIdOf call.call_id id × Cut id e w

  -- how a run that returns leaves it
  abbrev pub Recorded : ToolRunRecord → World → Type 0
  Recorded r w =
      (id : String) × IsIdOf call.call_id id
      × (r.call.call_id ≡ some id)
      × Ended id r.result.success w

  Ended-item :
      (id : String) (b : Bool) (w : World)
      → Queued
          ((items ++ some (tool_start x call.name id) ∷ [])
            ++ some (tool_end x call.name id b) ∷ [])
          w
      → Ended id b w
  Ended-item id b w q =
      q
      ∙ ap (λ l. queue l false)
          (append_assoc items (some (tool_start x call.name id) ∷ [])
            (some (tool_end x call.name id b) ∷ []))

  module _ (env : Env) (policy : RetryPolicy) where
    id-Queued :
        (step_id : String) (F : Exn → World → Type 0)
        → Triple
            (Queued items)
            (resolve_call_id env policy x call step_id)
            (λ id w. IsIdOf call.call_id id × Queued items w)
            F
    unfolding resolve_call_id id_from
    id-Queued step_id F = from call.call_id
      where
        from :
            (o : Option String)
            → Triple
                (Queued items)
                (id_from env policy x step_id o)
                (λ id w. IsIdOf o id × Queued items w)
                F
        from (some id) = Triple-pure id (λ w q. (refl, q))
        from none = Triple-bind (numbered items) λ n. Triple-pure _ (λ w q. (tt, q))

    retried-Begun :
        (id : String)
        → Triple
            (Begun id)
            (execute_with_retry env policy x (record call { call_id = some id }))
            (λ r. Begun id)
            (λ e. Begun id)
    retried-Begun id = Triple-keeps (
        execute_with_retry-Keeps env policy x (λ w q. q) (λ w ds q. q)
          (record call { call_id = some id }))

    failure-Cut :
        (id : String) (e : Exn)
        → is_well_formed (tool_end x call.name id false) ≡ true
        → Triple (Begun id) (report_failure env policy x call.name id e) (λ r. Begun id) (Cut id)
    unfolding report_failure
    failure-Cut id e good = elim (Bool-cases (is_exception e)) [
      | inl plain ↦ rw plain (
          Triple-bind (emit-done (tool_end x call.name id false) _ good)
            λ _. Triple-raise e (λ w q. inr (inl (plain, Ended-item id false w q))))
      | inr abrupt ↦ rw abrupt (Triple-raise e (λ w q. inl (abrupt, q)))
    ]

    recorded :
        (step_id id : String) (result : ToolResult) (r : ToolRunRecord)
        → new_record step_id (record call { call_id = some id }) result ≡ ok r
        → (r.call.call_id ≡ some id) × (r.result.success ≡ result.success)
    unfolding new_record
    recorded step_id id result r h = ground arith

    unrecorded :
        (step_id id : String) (result : ToolResult) (y : Exn)
        → new_record step_id (record call { call_id = some id }) result ≡ err y
        → y ≡ validation_error
    unfolding new_record
    unrecorded step_id id result y h = ground arith

    Begun-run :
        (step_id id : String)
        → IsIdOf call.call_id id
        → is_well_formed (tool_start x call.name id) ≡ true
        → Triple
            (Begun id)
            (catching
                (execute_with_retry env policy x (record call { call_id = some id }))
                (report_failure env policy x call.name id)
              >>= λ result. emit (tool_end x call.name id result.success) >>= λ _.
                  lift (new_record step_id (record call { call_id = some id }) result))
            Recorded
            Broken
    unfolding is_well_formed
    Begun-run step_id id own good =
        Triple-bind
          (Triple-weaken (Triple-catching (retried-Begun id) λ e. failure-Cut id e good)
            (λ _ _ q. q) (λ e w c. inr (id, own, c)))
          λ result. Triple-bind (emit-done (tool_end x call.name id result.success) _ good) λ _.
            Triple-lift _
              (λ r e w q.
                let (a, b) = recorded step_id id result r e in
                (id, own, a, rw b (Ended-item id result.success w q)))
              (λ y e w q. inr (
                id,
                own,
                inr (
                    inr (
                      unrecorded step_id id result y e,
                      result.success,
                      Ended-item id result.success w q,
                    )),
              ))

    run-Bracketed :
        (step_id : String)
        → Triple (Queued items) (run_single_tool env policy x step_id call) Recorded Broken
    unfolding run_single_tool
    run-Bracketed step_id = Triple-bind (id-Queued step_id _) λ id. record {
      at = λ w (own, q).
          (Triple-bind
              (Triple-weaken (emit-tried (tool_start x call.name id) items) (λ _ _ h. h)
                (λ y v (e, k). inl (e, k)))
              λ _. record { at = λ v (good, k). (Begun-run step_id id own good).at v k }).at
            w q;
    }

-- One run of a tool adds its start and then one end to the queue, both with the call's name and with
-- one id, which is the call's own if it has one. If the run returns, the record has that id, and the end
-- tells whether the result is a success. If it raises, validation refused the start and nothing was added,
-- or the exception is no `Exception` (a cancellation) and the end is missing, or it is one and the end tells
-- of a failure, or validation refused the record, after the end.
pub run_single_tool-brackets :
    (env : Env) (policy : RetryPolicy) (x step_id : String) (call : ToolCall)
    (items : List (Option Event)) (w : World)
    → w.publisher ≡ queue items false
    → Post
        (Recorded x call items)
        (Broken x call items)
        (run_single_tool env policy x step_id call w)
run_single_tool-brackets env policy x step_id call items w q =
    (run-Bracketed x call items env policy step_id).at w q
