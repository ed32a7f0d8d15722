-- ===== src/Agent/Answer/Kept.antt =====
-- What answering keeps.
use chatbot_react_python_nod.Prelude.{ℕ, String, Option, none, some, List, [], ◌∷◌}
use chatbot_react_python_nod.Agent.Models.{AgentRequest, ExecutionPlan, PlannedStep}
use chatbot_react_python_nod.Agent.World.{World, Action}
use chatbot_react_python_nod.Agent.World.Keeps.{
  Keeps, IsStable, emit-Keeps, next_call-Keeps, Keeps-bind, Keeps-if, Keeps-lift, Keeps-pure,
  Keeps-raise, Keeps-gets,
}
use chatbot_react_python_nod.Agent.Env.{Env, Pull, Pulled, chunk, stalled, failed}
use chatbot_react_python_nod.Agent.Retry.Kept.{retry_operation-Keeps}
use chatbot_react_python_nod.Agent.Answer.{
  scratchpad_messages, emit_token, on_pulled, consume, emit_answer_stream_start, emit_words,
  emit_final_content_as_tokens, stream_final_answer, complete_once, complete_llm_step,
  stream_answer, tell, answer, finalize_execution,
}

module _ {x : String} {I : World → Type 0} (stable : IsStable x I) where
  scratchpad_messages-Keeps : Keeps I (scratchpad_messages x)
  unfolding scratchpad_messages
  scratchpad_messages-Keeps =
      Keeps-bind (Keeps-gets _) λ s. Keeps-bind (Keeps-lift _) λ es. Keeps-lift _

  emit_token-Keeps : (t : String) → Keeps I (emit_token x t)
  unfolding emit_token
  emit_token-Keeps t = Keeps-if _ (Keeps-pure _) (emit-Keeps stable _ tt)

  on_pulled-Keeps :
      (timeout : Option ℕ) (rest : Action String) (p : Pulled)
      → Keeps I rest
      → Keeps I (on_pulled x timeout rest p)
  unfolding on_pulled
  on_pulled-Keeps timeout rest (chunk c) k =
      Keeps-bind (emit_token-Keeps _) λ _. Keeps-bind k λ s. Keeps-pure _
  on_pulled-Keeps none rest stalled k = k
  on_pulled-Keeps (some t) rest stalled k = Keeps-raise _
  on_pulled-Keeps timeout rest (failed e) k = Keeps-raise _

  consume-Keeps :
      (timeout : Option ℕ) (ps : List Pull) (ended : ℕ) → Keeps I (consume x timeout ps ended)
  unfolding consume
  consume-Keeps timeout [] ended = Keeps-if _ (Keeps-raise _) (Keeps-pure _)
  consume-Keeps timeout (p ∷ ps) ended =
      Keeps-if _ (Keeps-raise _)
        (on_pulled-Keeps timeout _ p.pulled (consume-Keeps timeout ps ended))

  emit_words-Keeps : (ws : List String) → Keeps I (emit_words x ws)
  unfolding emit_words
  emit_words-Keeps [] = Keeps-pure _
  emit_words-Keeps (w ∷ []) = emit-Keeps stable _ tt
  emit_words-Keeps (w ∷ v ∷ ws) = Keeps-bind (emit-Keeps stable _ tt) λ _. emit_words-Keeps (v ∷ ws)

  pub emit_final_content_as_tokens-Keeps :
      (content : String) → Keeps I (emit_final_content_as_tokens x content)
  unfolding emit_final_content_as_tokens
  emit_final_content_as_tokens-Keeps content = Keeps-if _ (Keeps-pure _) (emit_words-Keeps _)

  module _ (env : Env) (request : AgentRequest) where
    pub stream_final_answer-Keeps : Keeps I (stream_final_answer env request x)
    unfolding stream_final_answer
    stream_final_answer-Keeps =
        Keeps-bind scratchpad_messages-Keeps
          λ ms. Keeps-bind (next_call-Keeps stable) λ n. consume-Keeps _ _ _

    pub complete_llm_step-Keeps : Keeps I (complete_llm_step env request x)
    unfolding complete_llm_step complete_once
    complete_llm_step-Keeps = Keeps-bind scratchpad_messages-Keeps λ ms.
        retry_operation-Keeps env stable.paused _ _ _
          (Keeps-bind (next_call-Keeps stable) λ n. Keeps-lift _)

    stream_answer-Keeps : Keeps I (stream_answer env request x)
    unfolding stream_answer
    stream_answer-Keeps = Keeps-bind stream_final_answer-Keeps λ c. Keeps-pure _

    tell-Keeps : (content reason : String) → Keeps I (tell env request x content reason)
    unfolding tell
    tell-Keeps content reason =
        Keeps-bind (emit_final_content_as_tokens-Keeps content) λ _. Keeps-pure _

    answer-Keeps :
        (step : PlannedStep) (last : Option String) → Keeps I (answer env request x step last)
    unfolding answer
    answer-Keeps step last =
        Keeps-if _ (tell-Keeps _ _)
          (Keeps-if _ stream_answer-Keeps (Keeps-if _ stream_answer-Keeps (tell-Keeps _ _)))

    pub finalize_execution-Keeps :
        (plan : ExecutionPlan) (last : Option String)
        → Keeps I (finalize_execution env request x plan last)
    unfolding finalize_execution emit_answer_stream_start
    finalize_execution-Keeps plan last = Keeps-bind (emit-Keeps stable _ tt) λ _. answer-Keeps _ _
