-- ===== src/Tools/Executor/Answers.antt =====
-- What every answer of the executor carries, and which answers are tried again by the agent's retry
-- policy.
use Prim.Native.String.{◌++◌}
use mathlib.Core.Path.{subst}
use chatbot_react_python_nod.Prelude.{
  ℕ, ◌-◌, String, ◌≡◌, refl, ◌∙◌, true, false, Option, none, some, Dict, lookup, insert,
  lookup-insert, mem, Elem, Option-cases, Bool-cases, inl, inr,
}
use chatbot_react_python_nod.Json.{Json, int, str}
use chatbot_react_python_nod.Agent.Models.{ToolCall, ToolResult}
use chatbot_react_python_nod.Agent.Retry.{is_retryable_tool_result}
use chatbot_react_python_nod.Tools.Schema.{ToolDefinition, ToolExecutionContext, Envelope}
use chatbot_react_python_nod.Tools.Validator.{Validation, valid, invalid, type_error, validate}
use chatbot_react_python_nod.Tools.Registry.{Registered, Registry, get_definition, get_handler}
use chatbot_react_python_nod.Tools.Executor.{
  Run, returned, timed_out, raised, cancelled, Outcome, answered, propagated, interrupted, failure,
  authorize, setdefault, tag, Handler, finalize, conclude, run_handler, authorized, validated,
  execute,
}
use chatbot_react_python_nod.Tools.Executor.Guarded.{
  refusal_codes, Refusal, EndsAs, Admissible, execute_guarded,
}

abbrev pub HasId : Option String → Dict Json → Type 0
HasId none d = Unit
HasId (some id) d = lookup "call_id" d ≡ some (str id)

abbrev pub Tagged : ToolCall → ℕ → Dict Json → Type 0
Tagged call latency d =
    (lookup "tool_name" d ≡ some (str call.name))
    × (lookup "latency_ms" d ≡ some (int latency))
    × HasId call.call_id d

tag-Tagged :
    (call : ToolCall) (latency : ℕ) (d : Dict Json) → Tagged call latency (tag call latency d)
unfolding tag
tag-Tagged call latency d =
    let named = insert "tool_name" (str call.name) d in
    let timed = insert "latency_ms" (int latency) named in
    let name : lookup "tool_name" timed ≡ some (str call.name) =
      lookup-insert "latency_ms" "tool_name" (int latency) named
      ∙ lookup-insert "tool_name" "tool_name" (str call.name) d in
    let time : lookup "latency_ms" timed ≡ some (int latency) =
      lookup-insert "latency_ms" "latency_ms" (int latency) named in
    elim (Option-cases call.call_id) [
      | inl e ↦ rw e (name, time, tt)
      | inr (id, e) ↦ rw e (
        lookup-insert "call_id" "tool_name" (str id) timed ∙ name,
        lookup-insert "call_id" "latency_ms" (str id) timed ∙ time,
        lookup-insert "call_id" "call_id" (str id) timed,
      )
    ]

-- the metadata of an answer, for an execution that began at `start` and ended at `now`
abbrev pub TaggedAnswer : ToolCall → ℕ → ℕ → Outcome → Type 0
TaggedAnswer call start now (answered a) = Tagged call (now - start) a.metadata
TaggedAnswer call start now propagated = Unit
TaggedAnswer call start now interrupted = Unit

-- a refused result is not tried again
refused_is_final :
    (r : ToolResult) → Elem r.error_code refusal_codes → is_retryable_tool_result r ≡ false
unfolding is_retryable_tool_result mem
refused_is_final r h = elim (Bool-cases r.success) [
  | inl e ↦ rw e refl
  | inr e ↦ rw e (elim h [
    | inl c ↦ rw c refl
    | inr (inl c) ↦ rw c refl
    | inr (inr (inl c)) ↦ rw c refl
    | inr (inr (inr z)) ↦ elim z [ ]
  ])
]

module _ (W : Type 0) (clock : W → ℕ) (render : Json → String) where
  finalize-Tagged :
      (call : ToolCall) (e : Envelope) (start : ℕ) (w : W)
      → let (o, w') = finalize W clock render call e start w in TaggedAnswer call start (clock w') o
  unfolding finalize
  finalize-Tagged call e start w = tag-Tagged call (clock w - start) e.metadata

  conclude-Tagged :
      (call : ToolCall) (start : ℕ) (r : Run × W)
      → let (o, w') = conclude W clock render call start r in TaggedAnswer call start (clock w') o
  unfolding conclude
  conclude-Tagged call start (returned e, w) = elim (Bool-cases e.result.success) [
    | inl h ↦
        rw (conclude, h)
          (finalize-Tagged call
            (record {
              result = e.result;
              metadata = setdefault "tool_name" (str call.name) e.metadata;
            })
            start w)
    | inr h ↦ rw (conclude, h) (finalize-Tagged call e start w)
  ]
  conclude-Tagged call start (timed_out, w) =
      finalize-Tagged call (failure "Tool execution timed out" "timeout") start w
  conclude-Tagged call start (raised, w) =
      finalize-Tagged call (failure "Tool execution failed" "handler_error") start w
  conclude-Tagged call start (cancelled, w) = tt

  run_handler-Tagged :
      (h : Option (Handler W)) (call : ToolCall) (context : ToolExecutionContext) (start : ℕ)
      (w : W)
      → let (o, w') = run_handler W clock render h call context start w in
        TaggedAnswer call start (clock w') o
  unfolding run_handler
  run_handler-Tagged none call context start w =
      finalize-Tagged call
        (failure ("Handler for tool '" ++ call.name ++ "' is not registered") "not_found") start w
  run_handler-Tagged (some h) call context start w =
      conclude-Tagged call start (h w call.arguments context)

  authorized-Tagged :
      (tools : Registry (Handler W)) (tool : ToolDefinition) (call : ToolCall)
      → (context : ToolExecutionContext) (start : ℕ) (w : W)
      → let (o, w') = authorized W clock render tools tool call context start w in
        TaggedAnswer call start (clock w') o
  unfolding authorized
  authorized-Tagged tools tool call context start w = elim (Option-cases (authorize tool context)) [
    | inl e ↦
        rw (authorized, e) (run_handler-Tagged (get_handler call.name tools) call context start w)
    | inr (reason, e) ↦
        rw (authorized, e) (finalize-Tagged call (failure reason "forbidden") start w)
  ]

  validated-Tagged :
      (v : Validation) (tools : Registry (Handler W)) (tool : ToolDefinition) (call : ToolCall)
      → (context : ToolExecutionContext) (start : ℕ) (w : W)
      → let (o, w') = validated W clock render v tools tool call context start w in
        TaggedAnswer call start (clock w') o
  unfolding validated
  validated-Tagged valid tools tool call context start w =
      authorized-Tagged tools tool call context start w
  validated-Tagged (invalid m) tools tool call context start w =
      finalize-Tagged call (failure m "validation_error") start w
  validated-Tagged type_error tools tool call context start w = tt

  -- Every answer, of whatever outcome, carries in its metadata the name of the tool that was called, the
  -- time that the execution took, and the id of the call if it has one.
  pub execute_tagged :
      (tools : Registry (Handler W)) (call : ToolCall) (context : ToolExecutionContext) (w : W)
      → let (o, w') = execute W clock render tools call context w in
        TaggedAnswer call (clock w) (clock w') o
  unfolding execute
  execute_tagged tools call context w = elim (Option-cases (get_definition call.name tools)) [
    | inl e ↦
        rw (execute, e)
          (finalize-Tagged call
            (failure ("Tool '" ++ call.name ++ "' is not registered") "not_found") (clock w) w)
    | inr (tool, e) ↦
        rw (execute, e)
          (validated-Tagged (validate render tool call.arguments) tools tool call context (clock w)
            w)
  ]

  -- A result that the agent's retry policy tries again comes from a run of the tool's handler: the call is
  -- admissible, the result is the handler's own, or the failure that stands for its timeout or exception,
  -- and the world is the one that the handler left. So a call that the platform refuses is never tried again.
  pub retryable_ran :
      (tools : Registry (Handler W)) (call : ToolCall) (context : ToolExecutionContext) (w : W)
      → (a : Envelope) → (execute W clock render tools call context w).0 ≡ answered a
      → is_retryable_tool_result a.result ≡ true
      → (t : Registered (Handler W)) × Admissible W clock render tools call context t
        × (let (run, after) = t.handler w call.arguments context in
            EndsAs run (answered a) × ((execute W clock render tools call context w).1 ≡ after))
  retryable_ran tools call context w a e retry =
      elim (execute_guarded W clock render tools call context w) [
        | inl (t, h, (ends, left)) ↦
            let run = (t.handler w call.arguments context).0 in
            (t, h, (subst (λ o. EndsAs run o) e ends, left))
        | inr (never, refusal, same) ↦
            let (f, c) : Refusal (answered a) = subst (λ o. Refusal o) e refusal in
            absurd (let final = refused_is_final a.result c in cc)
      ]
