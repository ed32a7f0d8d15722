-- ===== src/Chat/ToolLoop/Asked.antt =====
-- What the tool loop asks the model, and how often.
use mathlib.Core.List.{append_assoc}
use chatbot_react_python_nod.Prelude.{
  ℕ, zero, suc, ◌≤◌, ◌≡◌, ◌⊎◌, refl, sym, ap, ◌∙◌, String, Bool, true, false, ◌&&◌, Option, none,
  some, List, [], ◌∷◌, ◌++◌, map, is_empty, length, length-append, append-nil, Bool-cases, inl, inr,
  arith,
}
use mathlib.Core.Path.{subst}
use chatbot_react_python_nod.Json.{Json}
use chatbot_react_python_nod.Tools.Registry.{Registry, get_schemas_for_llm}
use chatbot_react_python_nod.Tools.Executor.{Handler}
use chatbot_react_python_nod.Documents.Ask.{ProviderName}
use chatbot_react_python_nod.Chat.Usage.{Caller}
use chatbot_react_python_nod.Chat.Errors.{Exception}
use chatbot_react_python_nod.Chat.Turn.{ChatRequest, ChatSettings, ChatState}
use chatbot_react_python_nod.Chat.ToolLoop.Dialogue.{
  exchange_messages, dialogue, dialogue-append, AfterRounds, answer_message, Answered, exchange_of,
  Kept, run_calls-Answered,
}
use chatbot_react_python_nod.Chat.ToolCalls.{
  allowed_schemas, build_loop_messages, ProviderToolCompletion, ToolCompletion, given, refused,
  LoopMessage, plain, announced, ToolEnv, ToolState, Progress, announced_call, RoundEnd, went_on,
  round_type_error, round_stopped, may_not_call,
}
use chatbot_react_python_nod.Chat.ToolLoop.{
  complete_untooled, opening, run_tool_loop, announce, asking, ask, run_round, iterate,
}

-- each conversation has one round more than the one before
abbrev pub RoundByRound : List LoopMessage → ℕ → List (List LoopMessage) → Type 0
RoundByRound opening n [] = Unit
RoundByRound opening n (ms ∷ rest) = AfterRounds opening n ms × RoundByRound opening (suc n) rest

-- what was asked between two states
abbrev pub Asked : {W : Type 0} → List LoopMessage → ℕ → ℕ → ToolState W → ToolState W → Type 0
Asked opening n limit st st' =
    (new : List (List LoopMessage)) × (st'.asked ≡ st.asked ++ new)
    × RoundByRound opening n new
    × (length new ≤ limit)
    × (st'.chat.tables ≡ st.chat.tables)

module _ (W : Type 0) (clock : W → ℕ) (render : Json → String) (tools : Registry (Handler W)) where
  -- what was asked, if the loop stops after this request
  last_ask :
      (opening : List LoopMessage) (n limit : ℕ) (p : Progress) (st st' : ToolState W)
      → AfterRounds opening n p.messages
      → Kept (asking W clock render tools p.messages st) st'
      → Asked opening n (suc limit) st st'
  last_ask opening n limit p st st' after (e, chat) =
      (p.messages ∷ [], e, (after, tt), omega arith, ap (λ (c : ChatState). c.tables) chat)

  -- what was asked, if the loop goes on
  ask_more :
      (opening : List LoopMessage) (n limit : ℕ) (p : Progress) (st st' st'' : ToolState W)
      → AfterRounds opening n p.messages
      → Kept (asking W clock render tools p.messages st) st'
      → Asked opening (suc n) limit st' st''
      → Asked opening n (suc limit) st st''
  ask_more opening n limit p st st' st'' after (e, chat) (new, f, rounds, bound, tables) = (
    p.messages ∷ new,
    f ∙ ap (λ r. r ++ new) e ∙ append_assoc st.asked (p.messages ∷ []) new,
    (after, rounds),
    omega arith,
    tables ∙ ap (λ (c : ChatState). c.tables) chat,
  )

  -- one more round
  next_round :
      (opening : List LoopMessage) (n : ℕ) (c : ProviderToolCompletion) (p p' : Progress)
      → is_empty c.tool_calls ≡ false
      → AfterRounds opening n p.messages
      → Answered c.tool_calls (announce W clock render tools c p) (went_on p')
      → AfterRounds opening (suc n) p'.messages
  next_round opening n c p p' h (xs, before, count) (as_, same, after) =
      let (x, said) = exchange_of c.content c.tool_calls as_ same h in
      let m = announced c.content (map announced_call c.tool_calls) in
      (
        xs ++ x ∷ [],
        (after
            ∙ append_assoc p.messages (m ∷ []) (map answer_message as_)
            ∙ ap (λ r. p.messages ++ r) (sym said)
            ∙ ap (λ r. r ++ exchange_messages x) before
            ∙ append_assoc opening (dialogue xs) (exchange_messages x)
            ∙ ap (λ r. opening ++ (dialogue xs ++ r)) (sym (append-nil (exchange_messages x)))
            ∙ ap (λ r. opening ++ r) (sym (dialogue-append xs (x ∷ [])))),
        omega (arith, length-append {0} xs (x ∷ []), count),
      )

  pub ToolCompletion-cases :
      (x : ToolCompletion)
      → ((e : Exception) × (x ≡ refused e)) ⊎ ((c : ProviderToolCompletion) × (x ≡ given c))
  ToolCompletion-cases (refused e) = inl (e, refl)
  ToolCompletion-cases (given c) = inr (c, refl)

  RoundEnd-cases :
      (x : RoundEnd)
      → ((p : Progress) × (x ≡ went_on p)) ⊎ (x ≡ round_type_error) ⊎ (x ≡ round_stopped)
  RoundEnd-cases (went_on p) = inl (p, refl)
  RoundEnd-cases round_type_error = inr (inl refl)
  RoundEnd-cases round_stopped = inr (inr refl)

  module _ (env : ToolEnv) (provider : ProviderName) (model : String) (temperature : String) where
    iterate-Asked :
        (start : List LoopMessage) (limit n : ℕ) (schemas : List Json) (caller : Option Caller)
        (on_activity : Bool) (p : Progress) (last : Option ProviderToolCompletion)
        (st : ToolState W)
        → AfterRounds start n p.messages
        → Asked start n limit st
            (iterate W clock render tools env provider model temperature limit schemas caller
              on_activity p last st).1
    unfolding iterate
    iterate-Asked start zero n schemas caller on_activity p last st after =
        ([], sym (append-nil st.asked), tt, omega arith, refl)
    iterate-Asked start (suc limit) n schemas caller on_activity p last st after =
        elim (ToolCompletion-cases
          (ask W clock render tools env provider model temperature schemas p st)) [
            | inl (x, e) ↦
                rw (iterate, e)
                  (last_ask start n limit p st (asking W clock render tools p.messages st) after
                    (refl, refl))
            | inr (c, e) ↦ elim (Bool-cases (is_empty c.tool_calls)) [
              | inl f ↦
                  rw (iterate, e, f)
                    (last_ask start n limit p st (asking W clock render tools p.messages st) after
                      (refl, refl))
              | inr f ↦
                  let r =
                    run_round W clock render tools env provider model temperature caller on_activity
                      c p st in
                  let (answered, kept) =
                    run_calls-Answered W clock render tools env.request_id caller on_activity
                      c.tool_calls (announce W clock render tools c p)
                      (asking W clock render tools p.messages st) in
                  elim (RoundEnd-cases r.0) [
                    | inr (inl g) ↦
                        rw (iterate, e, f, g) (last_ask start n limit p st r.1 after kept)
                    | inr (inr g) ↦
                        rw (iterate, e, f, g) (last_ask start n limit p st r.1 after kept)
                    | inl (p', g) ↦
                        let next = next_round start n c p p' f after (
                          subst (λ o. Answered c.tool_calls (announce W clock render tools c p) o) g
                            answered) in
                        elim (Bool-cases (p'.guest_denied && may_not_call caller)) [
                          | inl d ↦
                              rw (iterate, e, f, g, d) (last_ask start n limit p st r.1 after kept)
                          | inr d ↦
                              rw (iterate, e, f, g, d)
                                (ask_more start n limit p st r.1
                                  (iterate W clock render tools env provider model temperature limit
                                    schemas caller on_activity p' (some c) r.1).1
                                  after kept
                                  (iterate-Asked start limit (suc n) schemas caller on_activity p'
                                    (some c) r.1 next))
                        ]
                  ]
            ]
          ]

    pub run_tool_loop-Asked :
        (settings : ChatSettings) (limit : ℕ) (request : ChatRequest) (caller : Option Caller)
        (on_activity : Bool) (allowed : Option (List String)) (st : ToolState W)
        → let st' =
            (run_tool_loop W clock render tools env provider model temperature settings limit
              request caller on_activity allowed st).1 in
          Asked (build_loop_messages env.tool_prompt request) 0 limit st st'
          ⊎ ((is_empty (allowed_schemas allowed (get_schemas_for_llm tools)) ≡ true)
              × (st'.asked ≡ st.asked ++ map plain (request.first ∷ request.rest) ∷ [])
              × (st'.chat.tables ≡ st.chat.tables))
    unfolding run_tool_loop complete_untooled
    run_tool_loop-Asked settings limit request caller on_activity allowed st =
        let schemas = allowed_schemas allowed (get_schemas_for_llm tools) in
        let start = build_loop_messages env.tool_prompt request in
        elim (Bool-cases (is_empty schemas)) [
          | inl e ↦ rw (run_tool_loop, e) (inr (refl, refl, refl))
          | inr e ↦
              rw (run_tool_loop, e)
                (inl (
                  iterate-Asked start limit 0 schemas caller on_activity
                    (opening W clock render tools env provider model temperature request) none st
                    ([], sym (append-nil start), refl)))
        ]
