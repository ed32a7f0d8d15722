-- ===== src/Chat/ToolLoop/Guests.antt =====
-- A guest calls no tool.
use chatbot_react_python_nod.Prelude.{
  ℕ, zero, suc, ◌+◌, ◌≤◌, ◌≡◌, ◌⊎◌, refl, String, Bool, true, false, Option, none, some, List, [],
  ◌∷◌, ◌++◌, map, is_empty, length, length-append, Bool-cases, inl, inr, arith,
}
use chatbot_react_python_nod.Json.{Json}
use chatbot_react_python_nod.Tools.Schema.{guest}
use chatbot_react_python_nod.Tools.Registry.{Registry, get_schemas_for_llm}
use chatbot_react_python_nod.Tools.Executor.{Handler}
use chatbot_react_python_nod.Documents.Ask.{ProviderName}
use chatbot_react_python_nod.Chat.Usage.{Caller}
use chatbot_react_python_nod.Chat.Errors.{normalize_chat_error}
use chatbot_react_python_nod.Documents.Prompt.{text_or}
use chatbot_react_python_nod.Chat.Turn.{ChatRequest, ChatSettings}
use chatbot_react_python_nod.Chat.ToolCalls.{
  ProviderToolCall, ProviderToolCompletion, ToolCompletion, given, plain, LoopEnd, settled, stopped,
  refused, ToolEnv, ToolState, Progress, told, went_on, may_not_call, denied_payload,
  guest_tool_denied_message, allowed_schemas,
}
use chatbot_react_python_nod.Chat.ToolLoop.{
  execute_tool_call, answered_with, run_calls, announce, asking, ask, iterate, complete_untooled,
  opening, run_tool_loop,
}
use chatbot_react_python_nod.Chat.ToolLoop.Asked.{ToolCompletion-cases}

-- nobody, or a guest
abbrev pub IsGuest : Option Caller → Type 0
IsGuest none = Unit
IsGuest (some c) = c.kind ≡ guest

may_not_call-guest : (caller : Option Caller) → IsGuest caller → may_not_call caller ≡ true
may_not_call-guest none h = refl
may_not_call-guest (some c) h = rw (may_not_call, h) refl

-- the tools and the activities are as before, and the model was asked once at most
abbrev pub Untouched : {W : Type 0} → ToolState W → ToolState W → Type 0
Untouched st st' =
    (st'.world ≡ st.world) × (st'.activity ≡ st.activity) × (length st'.asked ≤ length st.asked + 1)

-- the answer is that tools are for signed-in users
abbrev pub Denied : LoopEnd → Type 0
Denied (settled r) = (r.content ≡ guest_tool_denied_message) × (r.finish_reason ≡ some "stop")
Denied _ = ⊥

abbrev pub Says : String → LoopEnd → Type 0
Says text (settled r) = (r.content ≡ text) × (r.tools_used ≡ [])
Says text _ = ⊥

-- how the loop ends after its first request
abbrev pub Answers : ToolCompletion → LoopEnd → Type 0
Answers (refused e) end_ = end_ ≡ stopped (normalize_chat_error e)
Answers (given c) end_ =
    ((is_empty c.tool_calls ≡ true) × Says (text_or c.content "") end_)
    ⊎ ((is_empty c.tool_calls ≡ false) × Denied end_)

module _ (W : Type 0) (clock : W → ℕ) (render : Json → String) (tools : Registry (Handler W)) where
  denied_call :
      (id : Option String) (caller : Option Caller) (on_activity : Bool) (call : ProviderToolCall)
      (st : ToolState W)
      → may_not_call caller ≡ true
      → let r = execute_tool_call W clock render tools id caller on_activity call st in
        (r.0 ≡ told denied_payload true) × (r.1 ≡ st)
  unfolding execute_tool_call
  denied_call id caller on_activity call st h =
      ((rw (execute_tool_call, h) refl), (rw (execute_tool_call, h) refl))

  run_calls_denied :
      (id : Option String) (caller : Option Caller) (on_activity : Bool)
      (calls : List ProviderToolCall) (p : Progress) (st : ToolState W)
      → may_not_call caller ≡ true
      → (is_empty calls ≡ false) ⊎ (p.guest_denied ≡ true)
      → (p' : Progress) × ((run_calls W clock render tools id caller on_activity calls p st).0
          ≡ went_on p')
        × ((run_calls W clock render tools id caller on_activity calls p st).1 ≡ st)
        × (p'.guest_denied ≡ true)
  unfolding run_calls
  run_calls_denied id caller on_activity [] p st h (inl e) = absurd cc
  run_calls_denied id caller on_activity [] p st h (inr e) = (p, refl, refl, e)
  run_calls_denied id caller on_activity (call ∷ calls) p st h e =
      let (p', run, same, denied) =
        run_calls_denied id caller on_activity calls
          (answered_with W clock render tools call denied_payload true p) st h (inr refl) in
      let (end_, left) = denied_call id caller on_activity call st h in
      (p', (rw (run_calls, end_, left) run), (rw (run_calls, end_, left) same), denied)

  module _ (env : ToolEnv) (provider : ProviderName) (model : String) (temperature : String) where
    iterate_denied :
        (limit : ℕ) (schemas : List Json) (caller : Option Caller) (on_activity : Bool)
        (p : Progress) (last : Option ProviderToolCompletion) (st : ToolState W)
        → may_not_call caller ≡ true
        → p.tools_used ≡ []
        → let (end_, st') =
            iterate W clock render tools env provider model temperature limit schemas caller
              on_activity p last st in
          Untouched st st'
          × ((limit ≡ 0)
              ⊎ Answers (ask W clock render tools env provider model temperature schemas p st) end_)
    unfolding iterate
    iterate_denied zero schemas caller on_activity p last st h none_used =
        ((refl, refl, omega arith), inl refl)
    iterate_denied (suc limit) schemas caller on_activity p last st h none_used =
        let once : length (st.asked ++ p.messages ∷ []) ≤ length st.asked + 1 =
          omega (arith, length-append {0} st.asked (p.messages ∷ [])) in
        elim (ToolCompletion-cases W clock render tools
          (ask W clock render tools env provider model temperature schemas p st)) [
            | inl (x, e) ↦ rw (iterate, e) ((refl, refl, once), inr refl)
            | inr (c, e) ↦ elim (Bool-cases (is_empty c.tool_calls)) [
              | inl f ↦ rw (iterate, e, f) ((refl, refl, once), inr (inl (refl, (refl, none_used))))
              | inr f ↦
                  let (p', run, same, denied) =
                    run_calls_denied env.request_id caller on_activity c.tool_calls
                      (announce W clock render tools c p)
                      (asking W clock render tools p.messages st) h (inl f) in
                  rw (iterate, e, f, run, denied, h, same)
                    ((refl, refl, once), inr (inr (refl, (refl, refl))))
            ]
          ]

    -- A guest, or a request without a caller, runs no tool and tells no activity, whatever the model asks for,
    -- and the model is asked once at most. Unless no tool is offered or no pass is allowed, the first reply of
    -- the model decides: an exception is raised as an error of ours, a text is the answer, and if it calls a
    -- tool the answer is that tools need a signed-in user.
    pub run_tool_loop-guest :
        (settings : ChatSettings) (limit : ℕ) (request : ChatRequest) (caller : Option Caller)
        (on_activity : Bool) (allowed : Option (List String)) (st : ToolState W)
        → IsGuest caller
        → let schemas = allowed_schemas allowed (get_schemas_for_llm tools) in
          let (end_, st') =
            run_tool_loop W clock render tools env provider model temperature settings limit request
              caller on_activity allowed st in
          Untouched st st'
          × ((is_empty schemas ≡ true)
              ⊎ (limit ≡ 0)
              ⊎ Answers
                  (ask W clock render tools env provider model temperature schemas
                    (opening W clock render tools env provider model temperature request)
                    st)
                  end_)
    unfolding run_tool_loop complete_untooled
    run_tool_loop-guest settings limit request caller on_activity allowed st h =
        let schemas = allowed_schemas allowed (get_schemas_for_llm tools) in
        let plain_messages = map plain (request.first ∷ request.rest) in
        elim (Bool-cases (is_empty schemas)) [
          | inl e ↦
              rw (run_tool_loop, e)
                (
                  (refl, refl, omega (arith, length-append {0} st.asked (plain_messages ∷ []))),
                  inl refl,
                )
          | inr e ↦
              let start = opening W clock render tools env provider model temperature request in
              let (same, answers) =
                iterate_denied limit schemas caller on_activity start none st
                  (may_not_call-guest caller h) refl in
              rw (run_tool_loop, e) (same, inr answers)
        ]
