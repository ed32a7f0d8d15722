-- ===== src/Chat/ToolLoop/Dialogue.antt =====
-- The rounds of a conversation with tools.
use mathlib.Core.List.{append_assoc}
use chatbot_react_python_nod.Prelude.{
  ℕ, ◌≡◌, ◌⊎◌, refl, sym, ap, ◌∙◌, String, ◌==◌, Bool, true, false, ◌&&◌, Option, List, [], ◌∷◌,
  ◌++◌, map, is_empty, length, append-nil, Bool-cases, inl, inr,
}
use chatbot_react_python_nod.Json.{Json}
use chatbot_react_python_nod.Tools.Registry.{Registry}
use chatbot_react_python_nod.Tools.Executor.{Handler}
use chatbot_react_python_nod.Chat.Usage.{Caller}
use chatbot_react_python_nod.Chat.ToolCalls.{
  ProviderToolCall, AnnouncedCall, LoopMessage, announced, tool_result, ToolState, Progress,
  announced_call, CallEnd, told, type_error, stopped_outside, RoundEnd, went_on, round_type_error,
  round_stopped, may_not_call,
}
use chatbot_react_python_nod.Chat.ToolLoop.{
  execute_tool_call, answered_with, run_calls, call_tool, told_activity,
}

-- a call of the model with the text that answered it
abbrev pub Answer : Type 0
Answer = ProviderToolCall × String

abbrev pub answer_message : Answer → LoopMessage
answer_message (call, text) = tool_result call.id text

abbrev pub called_of : Answer → AnnouncedCall
called_of (call, text) = announced_call call

-- a round: what the model said with its calls, the first of them, and the others
pub record Exchange : Type 0 where
  pub content : Option String
  pub first : Answer
  pub rest : List Answer

-- the calls are announced in one message, and answered one by one, in their order
abbrev pub exchange_messages : Exchange → List LoopMessage
exchange_messages x =
    announced x.content (map called_of (x.first ∷ x.rest)) ∷ map answer_message (x.first ∷ x.rest)

abbrev pub dialogue : List Exchange → List LoopMessage
dialogue [] = []
dialogue (x ∷ xs) = exchange_messages x ++ dialogue xs

-- the conversation is its opening and `n` rounds
abbrev pub AfterRounds : List LoopMessage → ℕ → List LoopMessage → Type 0
AfterRounds opening n ms = (xs : List Exchange) × (ms ≡ opening ++ dialogue xs) × (length xs ≡ n)

pub dialogue-append : (xs ys : List Exchange) → dialogue (xs ++ ys) ≡ dialogue xs ++ dialogue ys
dialogue-append [] ys = refl
dialogue-append (x ∷ xs) ys =
    ap (λ r. exchange_messages x ++ r) (dialogue-append xs ys)
    ∙ sym (append_assoc (exchange_messages x) (dialogue xs) (dialogue ys))

-- the messages of a round that went on
abbrev pub Answered : List ProviderToolCall → Progress → RoundEnd → Type 0
Answered calls p (went_on p') =
    (as_ : List Answer) × (map (λ (a : Answer). a.0) as_ ≡ calls)
    × (p'.messages ≡ p.messages ++ map answer_message as_)
Answered calls p round_type_error = Unit
Answered calls p round_stopped = Unit

pub exchange_of :
    (content : Option String) (calls : List ProviderToolCall) (as_ : List Answer)
    → map (λ (a : Answer). a.0) as_ ≡ calls
    → is_empty calls ≡ false
    → (x : Exchange) × (exchange_messages x
        ≡ announced content (map announced_call calls) ∷ map answer_message as_)
exchange_of content calls [] e h = absurd (let k : true ≡ false = ap is_empty e ∙ h in cc)
exchange_of content calls (a ∷ as_) e h =
    let x : Exchange = record { content = content; first = a; rest = as_ } in
    let same : map called_of (a ∷ as_) ≡ map announced_call calls =
      sym (map_calls (a ∷ as_)) ∙ ap (map announced_call) e in
    (x, ap (λ r. announced content r ∷ map answer_message (a ∷ as_)) same)
  where
    map_calls :
        (bs : List Answer) → map announced_call (map (λ (a : Answer). a.0) bs) ≡ map called_of bs
    map_calls [] = refl
    map_calls (b ∷ bs) = ap (λ r. called_of b ∷ r) (map_calls bs)

-- no model was asked, and the chat is as before
abbrev pub Kept : {W : Type 0} → ToolState W → ToolState W → Type 0
Kept st st' = (st'.asked ≡ st.asked) × (st'.chat ≡ st.chat)

module _ (W : Type 0) (clock : W → ℕ) (render : Json → String) (tools : Registry (Handler W)) where
  told-Kept :
      (on_activity : Bool) (what : String) (call : ProviderToolCall) (st : ToolState W)
      → Kept st (told_activity W clock render tools on_activity what call st)
  told-Kept on_activity what call st =
      elim (Bool-cases (on_activity && call.name == "web_search")) [
        | inl e ↦ rw e (refl, refl)
        | inr e ↦ rw e (refl, refl)
      ]

  execute-Kept :
      (id : Option String) (caller : Option Caller) (on_activity : Bool) (call : ProviderToolCall)
      (st : ToolState W)
      → Kept st (execute_tool_call W clock render tools id caller on_activity call st).1
  unfolding execute_tool_call call_tool
  execute-Kept id caller on_activity call st = elim (Bool-cases (may_not_call caller)) [
    | inl e ↦ rw (execute_tool_call, e) (refl, refl)
    | inr e ↦
        let (asked, chat) = told-Kept on_activity "web_search" call st in
        let (asked', chat') = told-Kept on_activity "thinking" call _ in
        rw (execute_tool_call, e) (asked' ∙ asked, chat' ∙ chat)
  ]

  CallEnd-cases :
      (x : CallEnd)
      → ((s : String) × (d : Bool) × (x ≡ told s d)) ⊎ (x ≡ type_error) ⊎ (x ≡ stopped_outside)
  CallEnd-cases (told s d) = inl (s, d, refl)
  CallEnd-cases type_error = inr (inl refl)
  CallEnd-cases stopped_outside = inr (inr refl)

  cons-Answered :
      (call : ProviderToolCall) (calls : List ProviderToolCall) (s : String) (d : Bool)
      (p : Progress) (end_ : RoundEnd)
      → Answered calls (answered_with W clock render tools call s d p) end_
      → Answered (call ∷ calls) p end_
  cons-Answered call calls s d p (went_on p') (as_, same, ms) = (
    (call, s) ∷ as_,
    ap (λ r. call ∷ r) same,
    ms ∙ append_assoc p.messages (tool_result call.id s ∷ []) (map answer_message as_),
  )
  cons-Answered call calls s d p round_type_error h = tt
  cons-Answered call calls s d p round_stopped h = tt

  pub run_calls-Answered :
      (id : Option String) (caller : Option Caller) (on_activity : Bool)
      (calls : List ProviderToolCall) (p : Progress) (st : ToolState W)
      → let (end_, st') = run_calls W clock render tools id caller on_activity calls p st in
        Answered calls p end_ × Kept st st'
  unfolding run_calls
  run_calls-Answered id caller on_activity [] p st =
      (([], refl, sym (append-nil p.messages)), (refl, refl))
  run_calls-Answered id caller on_activity (call ∷ calls) p st =
      let r = execute_tool_call W clock render tools id caller on_activity call st in
      let kept = execute-Kept id caller on_activity call st in
      elim (CallEnd-cases r.0) [
        | inl (s, d, e) ↦
            let (rest, (asked, chat)) =
              run_calls-Answered id caller on_activity calls
                (answered_with W clock render tools call s d p) r.1 in
            rw (run_calls, e)
              (cons-Answered call calls s d p _ rest, (asked ∙ kept.0, chat ∙ kept.1))
        | inr (inl e) ↦ rw (run_calls, e) (tt, kept)
        | inr (inr e) ↦ rw (run_calls, e) (tt, kept)
      ]
