-- ===== src/Agent/Executor/Rounds.antt =====
-- How often the loop goes round.
use chatbot_react_python_nod.Prelude.{
  ℕ, zero, suc, ◌+◌, ◌≤◌, String, ◌≡◌, refl, sym, ap, ◌∙◌, false, Option, none, arith,
}
use chatbot_react_python_nod.Agent.Models.{
  AgentRequest, AgentContext, AgentResponse, ExecutionPlan, Status, resolved, Event, error,
}
use chatbot_react_python_nod.Agent.Exn.{Exn, is_agent_error, is_exception, message}
use chatbot_react_python_nod.Agent.State.{
  State, transition, has_remaining_iterations, mark_iteration_limit_reached, initial_state,
}
use chatbot_react_python_nod.Agent.World.{World, Action, ◌>>=◌, emit, raise, catching}
use chatbot_react_python_nod.Agent.World.Triples.{
  Triple-raise, Triple-if, Triple-weaken, Triple-catching,
}
use chatbot_react_python_nod.Agent.World.Ensures.{
  Ensures, anything, ensures_pure, ensures_lift, ensures_bind, bind-same, ensures_if, pick-same,
}
use chatbot_react_python_nod.Agent.Env.{Env}
use chatbot_react_python_nod.Agent.Retry.{RetryPolicy}
use chatbot_react_python_nod.Agent.Executor.Kept.{Engine}
use chatbot_react_python_nod.Agent.Executor.{
  Next, done, again, proceed, stop_at_limit, loop, prepare, body, report,
}
use chatbot_react_python_nod.Agent.Executor.Counters.{
  SameCount, transition-SameCount, Counted, finalize-Counted, cycle-Counted,
}

module _ (env : Env) (policy : RetryPolicy) (plan_next : ℕ → Action ExecutionPlan)
    (reflect : Engine) (request : AgentRequest) (context : AgentContext) where
  -- answers of a loop that may begin with `s`
  abbrev InLimit : State → AgentResponse → Type 0
  InLimit s r = (1 ≤ r.iterations) × (r.iterations ≤ s.max_iterations)

  abbrev Started : State → Type 0
  Started s = (1 ≤ s.max_iterations) × (s.current_iteration ≤ s.max_iterations)

  stopped :
      {n : ℕ} (s : State)
      → n ≡ s.current_iteration
      → Started s
      → has_remaining_iterations s ≡ false
      → (1 ≤ n) × (n ≤ s.max_iterations)
  unfolding has_remaining_iterations
  stopped s e h full = ground arith

  stop-InLimit :
      (s : State) (last : Option String)
      → Started s
      → has_remaining_iterations s ≡ false
      → Ensures (stop_at_limit env policy plan_next reflect request context s last) (InLimit s)
  unfolding stop_at_limit has_remaining_iterations mark_iteration_limit_reached
  stop-InLimit s last h full =
      ensures_bind (SameCount s) _
        (ensures_lift _ _ (λ t e.
          let same = transition-SameCount (mark_iteration_limit_reached s) t _ _ e in
          record { current = same.current; limit = same.limit }))
        λ t same.
          Triple-weaken (finalize-Counted env policy plan_next reflect request context _ t last)
            (λ r _ e. stopped s (e ∙ same.current) h full) (λ _ _ _. tt)

  InLimit-transport :
      (s t : State) (r : AgentResponse)
      → t.max_iterations ≡ s.max_iterations
      → InLimit t r
      → InLimit s r
  InLimit-transport s t r e (a, b) = (a, omega (arith, e, b))

  proceed-InLimit :
      (s : State) (n : Next) (k : State → Option String → Action AgentResponse)
      → ((t : State) (last : Option String) → Started t → Ensures (k t last) (InLimit t))
      → Started s
      → Counted s n
      → Ensures (proceed n k) (InLimit s)
  unfolding proceed
  proceed-InLimit s (done r) k go h (e, m) = ensures_pure _ r (omega arith, omega arith)
  proceed-InLimit s (again t last) k go h (e, m, l) =
      Triple-weaken (go t last (omega (arith, m, h.0), omega (arith, e, m, l)))
        (λ r _ i. InLimit-transport s t r m i) (λ _ _ _. tt)

  pub loop-InLimit :
      (fuel : ℕ) (s : State) (last : Option String)
      → Started s
      → Ensures (loop env policy plan_next reflect request context fuel s last) (InLimit s)
  unfolding loop
  loop-InLimit zero s last h =
      ensures_if _ (has_remaining_iterations s) (λ _. Triple-raise _ (λ _ _. tt))
        (stop-InLimit s last h)
  loop-InLimit (suc fuel) s last h =
      ensures_if _ (has_remaining_iterations s)
        (λ _.
          ensures_bind (Counted s) _ (cycle-Counted env policy plan_next reflect request context s)
            λ n c. proceed-InLimit s n _ (loop-InLimit fuel) h c)
        (stop-InLimit s last h)

  proceed-same :
      (s : State) (n : Next) (w : World) (k l : State → Option String → Action AgentResponse)
      → ((t : State) (last : Option String) (v : World)
          → t.current_iteration ≡ s.current_iteration + 1
          → t.max_iterations ≡ s.max_iterations
          → k t last v ≡ l t last v)
      → Counted s n
      → proceed n k w ≡ proceed n l w
  unfolding proceed
  proceed-same s (done r) w k l h c = refl
  proceed-same s (again t last) w k l h (e, m, _) = h t last w e m

  spent-loop :
      (fuel : ℕ) (s : State) (last : Option String) (w : World)
      → has_remaining_iterations s ≡ false
      → loop env policy plan_next reflect request context fuel s last w
        ≡ stop_at_limit env policy plan_next reflect request context s last w
  unfolding loop
  spent-loop zero s last w h = rw h
  spent-loop (suc fuel) s last w h = rw h

  spent_state :
      (s : State) → s.max_iterations ≤ s.current_iteration + 0 → has_remaining_iterations s ≡ false
  unfolding has_remaining_iterations
  spent_state s h = ground arith

  -- The loop's bound on its passes does not matter: from a state with at most so many cycles left, any
  -- two bounds give the same outcome in every world.
  pub loop_bound :
      (m n : ℕ) (s : State) (last : Option String) (w : World)
      → s.max_iterations ≤ s.current_iteration + m
      → s.max_iterations ≤ s.current_iteration + n
      → loop env policy plan_next reflect request context m s last w
        ≡ loop env policy plan_next reflect request context n s last w
  unfolding loop
  loop_bound zero n s last w h k =
      spent-loop zero s last w (spent_state s h) ∙ sym (spent-loop n s last w (spent_state s h))
  loop_bound m zero s last w h k =
      spent-loop m s last w (spent_state s k) ∙ sym (spent-loop zero s last w (spent_state s k))
  loop_bound (suc m) (suc n) s last w h k = pick-same _ _ _ (has_remaining_iterations s) w (λ _.
      bind-same _ _ _ (Counted s) w (cycle-Counted env policy plan_next reflect request context s)
        (λ x v c.
          proceed-same s x v _ _
            (λ t l u e lim.
              loop_bound m n t l u (omega (arith, e, lim, h)) (omega (arith, e, lim, k)))
            c))

  prepared :
      Ensures
        (prepare env policy plan_next reflect request context)
        (λ s. s ≡ initial_state context request.config)
  unfolding prepare
  prepared =
      ensures_bind (λ _. Unit {0}) _ (anything _)
        λ _ _. ensures_bind (λ _. Unit {0}) _ (anything _) λ _ _. ensures_pure _ _ refl

  started :
      (t : State)
      → 1 ≤ (resolved request.config).max_iterations
      → SameCount (initial_state context request.config) t
      → Started t
  unfolding initial_state
  started t h same = (omega (arith, same.limit, h), omega (arith, same.limit, same.current))

  initial-InLimit :
      (t : State) (r : AgentResponse)
      → SameCount (initial_state context request.config) t
      → InLimit t r
      → (1 ≤ r.iterations) × (r.iterations ≤ (resolved request.config).max_iterations)
  unfolding initial_state
  initial-InLimit t r same (a, b) = (a, omega (arith, same.limit, b))

  body-InLimit :
      1 ≤ (resolved request.config).max_iterations
      → Ensures
          (body env policy plan_next reflect request context)
          (λ r. (1 ≤ r.iterations) × (r.iterations ≤ (resolved request.config).max_iterations))
  unfolding body
  body-InLimit h =
      ensures_bind (λ s. s ≡ initial_state context request.config) _ prepared
        λ s e.
          ensures_bind (λ _. Unit {0}) _ (anything _)
            λ _ _.
              ensures_bind (SameCount (initial_state context request.config)) _
                (ensures_lift _ _ (λ t k.
                  transition-SameCount _ t _ _
                    (ap (λ u. transition u Status.planning none) (sym e) ∙ k)))
                λ t same.
                  Triple-weaken (loop-InLimit t.max_iterations t none (started t h same))
                    (λ r _ i. initial-InLimit t r same i) (λ _ _ _. tt)

  told_raises :
      {Q : AgentResponse → Type 0} (event : Event) (e : Exn)
      → Ensures (emit event >>= λ _. raise {A = AgentResponse} e) Q
  told_raises event e =
      ensures_bind (λ _. Unit {0}) _ (anything _) λ _ _. Triple-raise e (λ _ _. tt)

  report_raises :
      {Q : AgentResponse → Type 0} (e : Exn)
      → Ensures (report env policy plan_next reflect request context e) Q
  unfolding report
  report_raises e =
      Triple-if (is_agent_error e)
        (told_raises (error context.execution_id "agent_error" (message e)) e)
        (Triple-if (is_exception e)
          (told_raises (error context.execution_id "agent_error" "Agent execution failed.") e)
          (Triple-raise e (λ _ _. tt)))

  pub guarded-InLimit :
      1 ≤ (resolved request.config).max_iterations
      → Ensures
          (catching
            (body env policy plan_next reflect request context)
            (report env policy plan_next reflect request context))
          (λ r. (1 ≤ r.iterations) × (r.iterations ≤ (resolved request.config).max_iterations))
  guarded-InLimit h = Triple-catching (body-InLimit h) λ e. report_raises e
