-- ===== src/Agent/Executor/Counters.antt =====
-- The cycle counter and its limit through one pass of the loop.
use chatbot_react_python_nod.Prelude.{
  ℕ, ◌+◌, ◌≤◌, String, ◌≡◌, refl, ◌∙◌, Bool, true, false, Option, none, some, List, [], ◌∷◌, arith,
}
use chatbot_react_python_nod.Agent.Models.{
  AgentRequest, AgentContext, ExecutionPlan, Status, ReflectionDecision, replan, retry_step,
  continue_, finish,
}
use chatbot_react_python_nod.Agent.Exn.{ok}
use chatbot_react_python_nod.Agent.State.{
  State, transition, begin_iteration, record_tool_used, record_reflection,
}
use chatbot_react_python_nod.Agent.World.{Action}
use chatbot_react_python_nod.Agent.World.Triples.{Triple-if}
use chatbot_react_python_nod.Agent.World.Ensures.{
  Ensures, anything, ensures_pure, ensures_lift, ensures_bind,
}
use chatbot_react_python_nod.Agent.Env.{Env}
use chatbot_react_python_nod.Agent.Retry.{RetryPolicy}
use chatbot_react_python_nod.Agent.Results.{ToolRunRecord}
use chatbot_react_python_nod.Agent.Executor.Kept.{Engine}
use chatbot_react_python_nod.Agent.Executor.{
  Next, done, again, record_tools_used, execute_tool_plan, follow, maybe_reflect,
  finalize_and_complete, rerun, settle, act, cycle,
}

-- the counter and the limit are those of `s`
pub record SameCount (s t : State) : Type 0 where
  pub current : t.current_iteration ≡ s.current_iteration
  pub limit : t.max_iterations ≡ s.max_iterations

pub transition-SameCount :
    (s t : State) (target : Status) (m : Option String)
    → transition s target m ≡ ok t
    → SameCount s t
unfolding transition
transition-SameCount s t target m h = ground arith

SameCount-trans : (s t u : State) → SameCount s t → SameCount t u → SameCount s u
SameCount-trans s t u h k = record { current = k.current ∙ h.current; limit = k.limit ∙ h.limit }

used-SameCount : (s : State) (n : String) → SameCount s (record_tool_used s n)
unfolding record_tool_used
used-SameCount s n = ground arith

record_tools_used-SameCount : (s : State) (ns : List String) → SameCount s (record_tools_used s ns)
unfolding record_tools_used
record_tools_used-SameCount s [] = record { current = refl; limit = refl }
record_tools_used-SameCount s (n ∷ ns) =
    SameCount-trans s (record_tool_used s n) (record_tools_used (record_tool_used s n) ns)
      (used-SameCount s n) (record_tools_used-SameCount (record_tool_used s n) ns)

pub begin-counts :
    (s t : State)
    → begin_iteration s ≡ ok t
    → (t.current_iteration ≡ s.current_iteration + 1)
      × (t.max_iterations ≡ s.max_iterations)
      × (s.current_iteration + 1 ≤ s.max_iterations)
unfolding begin_iteration
begin-counts s t h = ground arith

-- what a pass from `s` leads to: an answer in the next cycle, or the next cycle's end
abbrev pub Counted : State → Next → Type 0
Counted s (done r) =
    (r.iterations ≡ s.current_iteration + 1) × (s.current_iteration + 1 ≤ s.max_iterations)
Counted s (again t last) =
    (t.current_iteration ≡ s.current_iteration + 1)
    × (t.max_iterations ≡ s.max_iterations)
    × (s.current_iteration + 1 ≤ s.max_iterations)

-- the counters of `t` in the cycle that `s` began
abbrev Within : State → State → Type 0
Within s t =
    (t.current_iteration ≡ s.current_iteration + 1)
    × (t.max_iterations ≡ s.max_iterations)
    × (s.current_iteration + 1 ≤ s.max_iterations)

Within-same : (s t u : State) → Within s t → SameCount t u → Within s u
Within-same s t u (a, b, c) h = (h.current ∙ a, h.limit ∙ b, c)

same_refl : (s : State) → SameCount s s
same_refl s = record { current = refl; limit = refl }

module _ (env : Env) (policy : RetryPolicy) (plan_next : ℕ → Action ExecutionPlan)
    (reflect : Engine) (request : AgentRequest) (context : AgentContext) where
  execute_tool_plan-Same :
      (plan : ExecutionPlan) (s : State)
      → Ensures
          (execute_tool_plan env policy plan_next reflect request context plan s)
          (λ r. SameCount s r.0)
  unfolding execute_tool_plan
  execute_tool_plan-Same plan s = Triple-if _ (ensures_pure _ _ (same_refl s)) (
      ensures_bind (λ _. Unit {0}) _ (anything _)
        λ _ _.
          ensures_bind (λ _. Unit {0}) _ (anything _)
            λ rs _.
              ensures_bind (λ _. Unit {0}) _ (anything _)
                λ _ _. ensures_pure _ _ (record_tools_used-SameCount s _))

  follow-Same :
      (d : ReflectionDecision) (s : State) (plan : ExecutionPlan)
      (r : State × Bool × Option ExecutionPlan)
      → follow env policy plan_next reflect request context d s plan ≡ ok r
      → SameCount s r.0
  unfolding follow transition
  follow-Same retry_step s plan r h = ground arith
  follow-Same finish s plan r h = ground arith
  follow-Same replan s plan r h = ground arith
  follow-Same continue_ s plan r h = ground arith

  reflected-Same :
      (t : State) (r : State × Bool × Option ExecutionPlan) (d : ReflectionDecision)
      (plan : ExecutionPlan)
      → follow env policy plan_next reflect request context d (record_reflection t) plan ≡ ok r
      → SameCount t r.0
  unfolding record_reflection
  reflected-Same t r d plan e =
      let same = follow-Same d (record_reflection t) plan r e in
      record { current = same.current; limit = same.limit }

  maybe_reflect-Same :
      (s : State) (rs : Option (List ToolRunRecord)) (c : Option String) (plan : ExecutionPlan)
      → Ensures
          (maybe_reflect env policy plan_next reflect request context s rs c plan)
          (λ r. SameCount s r.0)
  unfolding maybe_reflect
  maybe_reflect-Same s rs c plan = Triple-if _ (ensures_pure _ _ (same_refl s)) (
      ensures_bind (SameCount s) _ (ensures_lift _ _ (λ t e. transition-SameCount s t _ _ e))
        λ t same.
          ensures_bind (λ _. Unit {0}) _ (anything _)
            λ result _.
              ensures_bind (λ _. Unit {0}) _ (anything _)
                λ _ _.
                  ensures_lift _ _ (λ r e.
                    SameCount-trans s t r.0 same (reflected-Same t r result.decision plan e)))

  rerun-Same :
      (p : Option ExecutionPlan) (s : State)
      → Ensures (rerun env policy plan_next reflect request context p s) (SameCount s)
  unfolding rerun
  rerun-Same none s = ensures_pure _ s (same_refl s)
  rerun-Same (some plan) s =
      ensures_bind (λ r. SameCount s r.0) _ (execute_tool_plan-Same plan s)
        λ r h. ensures_pure _ r.0 h

  pub finalize-Counted :
      (plan : ExecutionPlan) (s : State) (last : Option String)
      → Ensures
          (finalize_and_complete env policy plan_next reflect request context plan s last)
          (λ r. r.iterations ≡ s.current_iteration)
  unfolding finalize_and_complete
  finalize-Counted plan s last =
      ensures_bind (λ _. Unit {0}) _ (anything _)
        λ r _.
          ensures_bind (SameCount s) _ (ensures_lift _ _ (λ t e. transition-SameCount s t _ _ e))
            λ t same.
              ensures_bind (λ _. Unit {0}) _ (anything _) λ _ _. ensures_pure _ _ same.current

  settle-Counted :
      (s t : State) (b : Bool) (last : Option String)
      → Within s t
      → Ensures (settle env policy plan_next reflect request context b t last) (Counted s)
  unfolding settle
  settle-Counted s t true last h =
      ensures_bind (λ r. r.iterations ≡ t.current_iteration) _ (finalize-Counted _ t last)
        λ r e. ensures_pure _ _ (e ∙ h.0, h.2)
  settle-Counted s t false last h = Triple-if _ (ensures_pure _ _ h) (
      ensures_bind (SameCount t) _ (ensures_lift _ _ (λ u e. transition-SameCount t u _ _ e))
        λ u same. ensures_pure _ _ (Within-same s t u h same))

  act-Counted :
      (s t : State) (plan : ExecutionPlan) (last : Option String)
      → Within s t
      → Ensures (act env policy plan_next reflect request context plan t last) (Counted s)
  unfolding act
  act-Counted s t plan last h =
      ensures_bind (λ r. SameCount t r.0) _ (execute_tool_plan-Same plan t)
        λ r a.
          ensures_bind (λ d. SameCount r.0 d.0) _ (maybe_reflect-Same r.0 r.1 last plan)
            λ d b. ensures_bind (SameCount d.0) _ (rerun-Same d.2 d.0) λ u c.
              settle-Counted s u d.1 last
                (Within-same s d.0 u (Within-same s r.0 d.0 (Within-same s t r.0 h a) b) c)

  pub cycle-Counted :
      (s : State) → Ensures (cycle env policy plan_next reflect request context s) (Counted s)
  unfolding cycle
  cycle-Counted s = ensures_bind (Within s) _ (ensures_lift _ _ (λ t e. begin-counts s t e)) λ t h.
      ensures_bind (λ _. Unit {0}) _ (anything _)
        λ _ _.
          ensures_bind (λ _. Unit {0}) _ (anything _)
            λ plan _.
              ensures_bind (Within s) _
                (ensures_lift _ _ (λ u e. Within-same s t u h (transition-SameCount t u _ _ e)))
                λ u k.
                  Triple-if _
                    (ensures_bind (λ r. r.iterations ≡ u.current_iteration) _
                      (finalize-Counted plan u _) λ r e. ensures_pure _ _ (e ∙ k.0, k.2))
                    (act-Counted s u plan _ k)
