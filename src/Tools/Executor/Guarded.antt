-- ===== src/Tools/Executor/Guarded.antt =====
-- A handler runs only for a call that is registered, valid and authorised.
use Prim.Native.String.{◌++◌}
use chatbot_react_python_nod.Prelude.{
  ℕ, String, ◌≡◌, refl, sym, ◌∙◌, false, Option, none, some, List, [], ◌∷◌, lookup, Elem,
  Option-cases, Bool-cases, inl, inr, ◌⊎◌,
}
use chatbot_react_python_nod.Json.{Json}
use chatbot_react_python_nod.Agent.Models.{ToolCall}
use chatbot_react_python_nod.Tools.Schema.{
  ToolDefinition, ToolExecutionContext, CallerKind, user, guest,
}
use chatbot_react_python_nod.Tools.Validator.{Validation, valid, invalid, type_error, validate}
use chatbot_react_python_nod.Tools.Validator.Conforms.{Conforms}
use chatbot_react_python_nod.Tools.Validator.Exact.{validate-Conforms}
use chatbot_react_python_nod.Tools.Registry.{Registered, Registry, get_definition}
use chatbot_react_python_nod.Tools.Registry.Exact.{get_definition_as, no_definition, get_handler_as}
use chatbot_react_python_nod.Tools.Executor.{
  Run, returned, timed_out, raised, cancelled, Outcome, answered, propagated, interrupted, failure,
  authorize, Handler, finalize, conclude, run_handler, authorized, validated, execute,
}

abbrev pub refusal_codes : List (Option String)
refusal_codes = some "not_found" ∷ some "validation_error" ∷ some "forbidden" ∷ []

-- an answer without a run of the handler
abbrev pub Refusal : Outcome → Type 0
Refusal (answered e) = (e.result.success ≡ false) × Elem e.result.error_code refusal_codes
Refusal propagated = Unit
Refusal interrupted = ⊥

-- the answer to a run of the handler
abbrev pub EndsAs : Run → Outcome → Type 0
EndsAs (returned e) (answered a) = a.result ≡ e.result
EndsAs timed_out (answered a) = a.result ≡ (failure "Tool execution timed out" "timeout").result
EndsAs raised (answered a) = a.result ≡ (failure "Tool execution failed" "handler_error").result
EndsAs cancelled interrupted = Unit
EndsAs _ _ = ⊥

module _ (W : Type 0) (clock : W → ℕ) (render : Json → String) where
  -- the call names a registered tool, its arguments conform to the tool's schema, and a user makes it
  abbrev pub Admissible :
      Registry (Handler W) → ToolCall → ToolExecutionContext → Registered (Handler W) → Type 0
  Admissible tools call context t =
      (lookup call.name tools ≡ some t)
      × Conforms t.definition call.arguments
      × (context.caller ≡ user)

  abbrev pub Ran : Registry (Handler W) → ToolCall → ToolExecutionContext → W → Outcome × W → Type 0
  Ran tools call context w (o, w') =
      (t : Registered (Handler W)) × Admissible tools call context t
      × (let (run, after) = t.handler w call.arguments context in EndsAs run o × (w' ≡ after))

  abbrev pub Refused :
      Registry (Handler W) → ToolCall → ToolExecutionContext → W → Outcome × W → Type 0
  Refused tools call context w (o, w') =
      ((t : Registered (Handler W)) → ¬ Admissible tools call context t) × Refusal o × (w' ≡ w)

  conclude-EndsAs :
      (call : ToolCall) (start : ℕ) (r : Run × W)
      → EndsAs r.0 (conclude W clock render call start r).0
        × ((conclude W clock render call start r).1 ≡ r.1)
  unfolding conclude finalize
  conclude-EndsAs call start (returned e, w) = elim (Bool-cases e.result.success) [
    | inl h ↦ rw h (refl, refl)
    | inr h ↦ rw h (refl, refl)
  ]
  conclude-EndsAs call start (timed_out, w) = (refl, refl)
  conclude-EndsAs call start (raised, w) = (refl, refl)
  conclude-EndsAs call start (cancelled, w) = (tt, refl)

  -- two tools of one name are the same
  same_tool :
      (tools : Registry (Handler W)) (name : String) (t t' : Registered (Handler W))
      → lookup name tools ≡ some t
      → lookup name tools ≡ some t'
      → t' ≡ t
  same_tool tools name t t' e e' = let p : some t' ≡ some t = sym e' ∙ e in cc

  user_or_guest : (k : CallerKind) → (k ≡ user) ⊎ (k ≡ guest)
  user_or_guest user = inl refl
  user_or_guest guest = inr refl

  authorize-user :
      (tool : ToolDefinition) (context : ToolExecutionContext)
      → context.caller ≡ user
      → authorize tool context ≡ none
  unfolding authorize
  authorize-user tool context k = rw (authorize, k) refl

  authorize-guest :
      (tool : ToolDefinition) (context : ToolExecutionContext)
      → context.caller ≡ guest
      → authorize tool context ≡ some "Tool invocation requires an authenticated user"
  unfolding authorize
  authorize-guest tool context k = rw (authorize, k) refl

  authorized_runs :
      (tools : Registry (Handler W)) (call : ToolCall) (context : ToolExecutionContext) (w : W)
      → (t : Registered (Handler W)) → lookup call.name tools ≡ some t
      → authorize t.definition context ≡ none
      → authorized W clock render tools t.definition call context (clock w) w
        ≡ conclude W clock render call (clock w) (t.handler w call.arguments context)
  unfolding authorized run_handler
  authorized_runs tools call context w t e a =
      rw (authorized, a, get_handler_as call.name tools t e) refl

  authorized_refuses :
      (tools : Registry (Handler W)) (tool : ToolDefinition) (call : ToolCall)
      → (context : ToolExecutionContext) (w : W) (reason : String)
      → authorize tool context ≡ some reason
      → authorized W clock render tools tool call context (clock w) w
        ≡ finalize W clock render call (failure reason "forbidden") (clock w) w
  unfolding authorized
  authorized_refuses tools tool call context w reason a = rw (authorized, a) refl

  authorized_lem :
      (tools : Registry (Handler W)) (call : ToolCall) (context : ToolExecutionContext) (w : W)
      → (t : Registered (Handler W)) → lookup call.name tools ≡ some t
      → Conforms t.definition call.arguments
      → let r = authorized W clock render tools t.definition call context (clock w) w in
        Ran tools call context w r ⊎ Refused tools call context w r
  unfolding finalize
  authorized_lem tools call context w t e conforms = elim (user_or_guest context.caller) [
    | inl k ↦
        rw (authorized_runs tools call context w t e (authorize-user t.definition context k)) (
          inl (
            t,
            (e, conforms, k),
            conclude-EndsAs call (clock w) (t.handler w call.arguments context),
          ))
    | inr k ↦
        rw
          (authorized_refuses tools t.definition call context w _
            (authorize-guest t.definition context k))
          (inr ((λ t' h. absurd (let u = h.2 in cc)), (refl, inr (inr (inl refl))), refl))
  ]

  validated_lem :
      (tools : Registry (Handler W)) (call : ToolCall) (context : ToolExecutionContext) (w : W)
      → (t : Registered (Handler W)) (v : Validation) → lookup call.name tools ≡ some t
      → validate render t.definition call.arguments ≡ v
      → let r = validated W clock render v tools t.definition call context (clock w) w in
        Ran tools call context w r ⊎ Refused tools call context w r
  unfolding validated finalize
  validated_lem tools call context w t valid e c =
      authorized_lem tools call context w t e
        ((validate-Conforms render t.definition call.arguments).0 c)
  validated_lem tools call context w t (invalid m) e c = inr (
    (λ t' h.
        let p = same_tool tools call.name t t' e h.0 in
        let q = (validate-Conforms render t.definition call.arguments).1 (rw (← p) h.1) in
        absurd cc),
    (refl, inr (inl refl)),
    refl,
  )
  validated_lem tools call context w t type_error e c = inr (
    (λ t' h.
        let p = same_tool tools call.name t t' e h.0 in
        let q = (validate-Conforms render t.definition call.arguments).1 (rw (← p) h.1) in
        absurd cc),
    tt,
    refl,
  )

  execute_unknown :
      (tools : Registry (Handler W)) (call : ToolCall) (context : ToolExecutionContext) (w : W)
      → get_definition call.name tools ≡ none
      → execute W clock render tools call context w
        ≡ finalize W clock render call
            (failure ("Tool '" ++ call.name ++ "' is not registered") "not_found")
            (clock w)
            w
  unfolding execute
  execute_unknown tools call context w e = rw (execute, e) refl

  execute_known :
      (tools : Registry (Handler W)) (call : ToolCall) (context : ToolExecutionContext) (w : W)
      → (tool : ToolDefinition) → get_definition call.name tools ≡ some tool
      → execute W clock render tools call context w
        ≡ validated W clock render
            (validate render tool call.arguments)
            tools
            tool
            call
            context
            (clock w)
            w
  unfolding execute
  execute_known tools call context w tool e = rw (execute, e) refl

  -- The handler of a tool runs exactly for a call that names it, whose arguments conform to its schema, and
  -- that a user makes. Then it runs once, and its result is the answer, or `timeout` or `handler_error` for
  -- its exceptions. For every other call the answer is a failure with one of the codes `not_found`,
  -- `validation_error` and `forbidden`, or the TypeError of the validator, and nothing outside has changed.
  pub execute_guarded :
      (tools : Registry (Handler W)) (call : ToolCall) (context : ToolExecutionContext) (w : W)
      → Ran tools call context w (execute W clock render tools call context w)
        ⊎ Refused tools call context w (execute W clock render tools call context w)
  unfolding finalize
  execute_guarded tools call context w = elim (Option-cases (lookup call.name tools)) [
    | inl e ↦
        rw (execute_unknown tools call context w (no_definition call.name tools e))
          (inr ((λ t h. absurd (let k = h.0 in cc)), (refl, inl refl), refl))
    | inr (t, e) ↦
        rw (execute_known tools call context w t.definition (get_definition_as call.name tools t e))
          (validated_lem tools call context w t (validate render t.definition call.arguments) e
            refl)
  ]
