-- ===== src/Agent/Reflection/Kept.antt =====
-- What reflecting keeps.
use chatbot_react_python_nod.Prelude.{String, Option, none, some, List}
use chatbot_react_python_nod.Agent.Models.{AgentRequest, ReflectionDecision}
use chatbot_react_python_nod.Agent.Scratchpad.{Entry}
use chatbot_react_python_nod.Agent.World.{World}
use chatbot_react_python_nod.Agent.World.Keeps.{
  Keeps, IsStable, next_call-Keeps, Keeps-bind, Keeps-if, Keeps-lift, Keeps-pure, Keeps-gets,
}
use chatbot_react_python_nod.Agent.Env.{Env}
use chatbot_react_python_nod.Agent.Retry.Kept.{retry_operation-Keeps}
use chatbot_react_python_nod.Agent.Results.{ToolRunRecord}
use chatbot_react_python_nod.Agent.Reflection.{
  reflection_messages, reflect_once, reflect_with_llm, by_rules, reflect,
}

module _ (env : Env) (request : AgentRequest) {x : String} {I : World → Type 0}
    (stable : IsStable x I) where
  reflection_messages-Keeps : (es : List Entry) → Keeps I (reflection_messages env request x es)
  unfolding reflection_messages
  reflection_messages-Keeps es =
      Keeps-if _ (Keeps-pure _) (Keeps-bind (Keeps-lift _) λ ms. Keeps-pure _)

  reflect_with_llm-Keeps :
      (rs : Option (List ToolRunRecord)) (c : Option String)
      → Keeps I (reflect_with_llm env request x rs c)
  unfolding reflect_with_llm reflect_once
  reflect_with_llm-Keeps rs c = Keeps-bind (Keeps-lift _) λ p. Keeps-bind (Keeps-gets _) λ s.
      Keeps-bind (Keeps-lift _) λ es. Keeps-bind (reflection_messages-Keeps es) λ ms.
        Keeps-bind
          (retry_operation-Keeps env stable.paused _ _ _
            (Keeps-bind (next_call-Keeps stable) λ n. Keeps-lift _))
          λ a. Keeps-pure _

  by_rules-Keeps :
      (d : Option ReflectionDecision) (rs : Option (List ToolRunRecord)) (c : Option String)
      → Keeps I (by_rules env request x d rs c)
  unfolding by_rules
  by_rules-Keeps (some d) rs c = Keeps-pure _
  by_rules-Keeps none rs c = reflect_with_llm-Keeps rs c

  pub reflect-Keeps :
      (rs : Option (List ToolRunRecord)) (c : Option String) → Keeps I (reflect env request x rs c)
  unfolding reflect
  reflect-Keeps rs c = Keeps-if _ (Keeps-pure _) (by_rules-Keeps _ rs c)
