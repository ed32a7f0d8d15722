-- ===== src/Agent/Reflection/Rules.antt =====
-- What the engine decides on a step that ran tools: the rules, told by how many of the calls succeeded.
use chatbot_react_python_nod.Prelude.{
  ℕ, suc, ◌≤◌, ◌≡◌, refl, Bool, true, false, not, Option, some, List, [], ◌∷◌, String, arith,
  if◌then◌else◌, nat_eq, length, all, any, Bool-cases, inl, inr,
}
use chatbot_react_python_nod.Agent.Models.{
  AgentRequest, ReflectionDecision, replan, retry_step, continue_, finish, resolved,
}
use chatbot_react_python_nod.Agent.Exn.{ok}
use chatbot_react_python_nod.Agent.World.{World, pure}
use chatbot_react_python_nod.Agent.Env.{Env}
use chatbot_react_python_nod.Agent.Results.{ToolRunRecord, any_succeeded, all_succeeded}
use chatbot_react_python_nod.Agent.Reflection.{
  is_blank, rule_on, evaluate_rule_based, rule_reason, rules, reflect, by_rules,
}

-- the number of calls that succeeded
abbrev pub succeeded : List ToolRunRecord → ℕ
succeeded [] = 0
succeeded (r ∷ rs) = if r.result.success then suc (succeeded rs) else succeeded rs

-- the verdict on `n` calls, of which `k` succeeded, by a planner that wrote text or left it blank
abbrev pub verdict : Bool → ℕ → ℕ → ReflectionDecision
verdict blank k n =
    if blank
    then retry_step
    else if nat_eq k 0
    then replan
    else if nat_eq k n
    then finish
    else continue_

succeeded-le : (rs : List ToolRunRecord) → succeeded rs ≤ length rs
succeeded-le [] = omega arith
succeeded-le (r ∷ rs) = let h = succeeded-le rs in ground arith

any-succeeded : (rs : List ToolRunRecord) → any_succeeded rs ≡ not (nat_eq (succeeded rs) 0)
unfolding any_succeeded any
any-succeeded [] = refl
any-succeeded (r ∷ rs) = let h = any-succeeded rs in ground arith

all-succeeded : (rs : List ToolRunRecord) → all_succeeded rs ≡ nat_eq (succeeded rs) (length rs)
unfolding all_succeeded all
all-succeeded [] = refl
all-succeeded (r ∷ rs) = let h = all-succeeded rs in let l = succeeded-le rs in ground arith

rule-verdict : (rs : List ToolRunRecord) → rule_on rs ≡ verdict false (succeeded rs) (length rs)
unfolding rule_on
rule-verdict rs = rw (any-succeeded rs, all-succeeded rs) (ground arith)

rules-verdict :
    (r : ToolRunRecord) (rs : List ToolRunRecord) (content : Option String)
    → evaluate_rule_based (some (r ∷ rs)) content
      ≡ some (verdict (is_blank content) (succeeded (r ∷ rs)) (length (r ∷ rs)))
unfolding evaluate_rule_based
rules-verdict r rs content = elim (Bool-cases (is_blank content)) [
  | inl blank ↦ rw blank
  | inr text ↦ rw (text, rule-verdict (r ∷ rs))
]

-- With reflection on, and after a step that ran a tool, the engine never asks the provider and changes
-- nothing. It decides to retry the step if the planner's text is there and blank; otherwise to plan again if
-- no call succeeded, to finish if all did, and to continue if some did; and it gives the rule's reason.
pub reflect_by_count :
    (env : Env) (request : AgentRequest) (id : String) (r : ToolRunRecord) (rs : List ToolRunRecord)
    (content : Option String) (w : World)
    → (resolved request.config).reflection_enabled ≡ true
    → let d = verdict (is_blank content) (succeeded (r ∷ rs)) (length (r ∷ rs)) in
      reflect env request id (some (r ∷ rs)) content w
      ≡ (ok (record { decision = d; reason = some (rule_reason d); source = rules }), w)
unfolding reflect by_rules pure
reflect_by_count env request id r rs content w on = rw (on, rules-verdict r rs content)
