-- ===== src/Agent/State/Budget.antt =====
-- The iteration budget: how often `begin_iteration` can succeed, and what keeps the counters in step.
use chatbot_react_python_nod.Prelude.{
  ℕ, zero, suc, ◌+◌, ◌≤◌, ◌<◌, String, ◌≡◌, refl, true, false, Option, arith, leb, Bool-cases, inl,
  inr, if◌then◌else◌, tests, leb→lt, ◌∙◌,
}
use chatbot_react_python_nod.Agent.Models.{AgentConfig, AgentContext, Status, resolved}
use chatbot_react_python_nod.Agent.Exn.{Result, ok, err, iteration_limit}
use chatbot_react_python_nod.Agent.State.{
  State, initial_state, begin_iteration, has_remaining_iterations, is_at_iteration_limit,
  next_cycle, transition,
}

-- The counter is within the budget, and the flag says whether the budget is used up.
pub record InBudget (s : State) : Type 0 where
  pub within : s.current_iteration ≤ s.max_iterations
  pub flagged : s.iteration_limit_reached ≡ leb s.max_iterations s.current_iteration

pub initial-InBudget :
    (c : AgentContext) (o : Option AgentConfig)
    → 1 ≤ (resolved o).max_iterations
    → InBudget (initial_state c o)
unfolding initial_state
initial-InBudget c o h = ground arith

pub begin-ok :
    (s : State)
    → InBudget s
    → has_remaining_iterations s ≡ true
    → begin_iteration s ≡ ok (next_cycle s)
unfolding begin_iteration has_remaining_iterations
begin-ok s b h = ground arith

pub begin-blocked :
    (s : State)
    → is_at_iteration_limit s ≡ true
    → begin_iteration s ≡ err (iteration_limit s.max_iterations)
unfolding begin_iteration
begin-blocked s h = ground arith

pub begin-InBudget : (s : State) → has_remaining_iterations s ≡ true → InBudget (next_cycle s)
unfolding has_remaining_iterations
begin-InBudget s h = ground arith

pub transition-InBudget :
    (s u : State) (t : Status) (m : Option String)
    → InBudget s
    → transition s t m ≡ ok u
    → InBudget u
      × (u.current_iteration ≡ s.current_iteration)
      × (u.max_iterations ≡ s.max_iterations)
unfolding transition
transition-InBudget s u t m b h = ground arith

-- `n` calls of `begin_iteration` in turn
unfoldable pub cycles : ℕ → State → Result State
cycles zero s = ok s
cycles (suc n) s = elim (begin_iteration s) [ ok t ↦ cycles n t | err e ↦ err e ]

cycles-step : (n : ℕ) (s t : State) → begin_iteration s ≡ ok t → cycles (suc n) s ≡ cycles n t
unfolding cycles
cycles-step n s t e = rw (e, cycles)

room :
    (s : State) (n : ℕ)
    → s.current_iteration + suc n ≤ s.max_iterations
    → has_remaining_iterations s ≡ true
unfolding has_remaining_iterations
room s n h = ground arith

cycles_within :
    (n : ℕ) (s : State)
    → InBudget s
    → s.current_iteration + n ≤ s.max_iterations
    → (u : State) × (cycles n s ≡ ok u)
      × InBudget u
      × (u.current_iteration ≡ s.current_iteration + n)
      × (u.max_iterations ≡ s.max_iterations)
unfolding cycles
cycles_within zero s b h = (s, refl, b, omega arith, refl)
cycles_within (suc n) s b h =
    let more : has_remaining_iterations s ≡ true = room s n h in
    let (u, e, v, c, m) = cycles_within n (next_cycle s) (begin-InBudget s more) (omega arith) in
    (u, cycles-step n s (next_cycle s) (begin-ok s b more) ∙ e, v, omega (arith, c), m)

spent :
    (s : State) → InBudget s → has_remaining_iterations s ≡ false → is_at_iteration_limit s ≡ true
unfolding has_remaining_iterations is_at_iteration_limit
spent s b h = ground arith

cycles_beyond :
    (n : ℕ) (s : State)
    → InBudget s
    → s.max_iterations < s.current_iteration + n
    → cycles n s ≡ err (iteration_limit s.max_iterations)
unfolding cycles
cycles_beyond zero s b h = absurd (omega (arith, b.within))
cycles_beyond (suc n) s b h = elim (Bool-cases (has_remaining_iterations s)) [
  | inl more ↦
      cycles-step n s (next_cycle s) (begin-ok s b more)
      ∙ cycles_beyond n (next_cycle s) (begin-InBudget s more) (omega arith)
  | inr full ↦ rw (begin-blocked s (spent s b full), cycles)
]

-- the number of the cycle that has begun
abbrev pub reached : Result State → Result ℕ
reached (ok s) = ok s.current_iteration
reached (err e) = err e

-- From the initial state exactly `max_iterations` cycles can begin: so many calls in turn, or fewer,
-- succeed and are counted, and with one more the iteration limit is raised.
pub cycles_exact :
    (c : AgentContext) (o : Option AgentConfig) (n : ℕ)
    → 1 ≤ (resolved o).max_iterations
    → reached (cycles n (initial_state c o)) ≡ (
        if leb n (resolved o).max_iterations
        then ok n
        else err (iteration_limit (resolved o).max_iterations))
unfolding initial_state
cycles_exact c o n h = elim (Bool-cases (leb n (resolved o).max_iterations)) [
  | inl few ↦
      let (u, e, _, k, _) =
        cycles_within n (initial_state c o) (initial-InBudget c o h) (omega (tests, few)) in
      rw (few, e) (ground arith)
  | inr many ↦ rw (
    many,
    cycles_beyond n (initial_state c o) (initial-InBudget c o h) (omega (tests, leb→lt _ _ many)),
  )
]
