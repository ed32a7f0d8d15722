-- ===== src/Agent/Retry/Kept.antt =====
-- Retrying keeps what one attempt and a sleep keep.
use chatbot_react_python_nod.Prelude.{
  ℕ, zero, suc, ◌+◌, Bool, true, false, not, ◌||◌, nat_eq, if◌then◌else◌, List,
}
use chatbot_react_python_nod.Agent.Exn.{Exn, Result, ok, err}
use chatbot_react_python_nod.Agent.World.{World, Action}
use chatbot_react_python_nod.Agent.World.Keeps.{Keeps}
use chatbot_react_python_nod.Agent.Env.{Env}
use chatbot_react_python_nod.Agent.Retry.{RetryPolicy, sleep, retry_from, retry_operation}

module _ (env : Env) {I : World → Type 0}
    (paused : (w : World) (ds : List ℕ) → I w → I (record w { slept = ds })) {A : Type 0} where
  chosen : (b : Bool) (p q : Result A × World) → I p.1 → I q.1 → I (if b then p else q).1
  chosen true p q h k = h
  chosen false p q h k = k

  attempted :
      (r : Result A) (w : World) (stop : Exn → Bool) (again : Result A × World)
      → I w
      → I again.1
      → I
          (elim r as (λ _. Result A × World) [
            | ok a ↦ (ok a, w)
            | err e ↦ if stop e then (err e, w) else again
          ]).1
  attempted (ok a) w stop again h k = h
  attempted (err e) w stop again h k = chosen (stop e) (err e, w) again h k

  module _ (operation : Action A) (base : ℕ) (retryable : Exn → Bool)
      (kept : Keeps I operation) where
    retry_from-keeps :
        (left attempt : ℕ) (w : World)
        → I w
        → I (retry_from env operation base retryable left attempt w).1
    unfolding retry_from
    retry_from-keeps zero attempt w i = i
    retry_from-keeps (suc left) attempt w i =
        let (r, w') = operation w in
        attempted r w' (λ e. nat_eq left 0 || not (retryable e))
          (retry_from env operation base retryable left (attempt + 1) (sleep env attempt base w'))
          (kept.at w i)
          (retry_from-keeps left (attempt + 1) (sleep env attempt base w')
            (paused w' _ (kept.at w i)))

  pub retry_operation-Keeps :
      (operation : Action A) (policy : RetryPolicy) (retryable : Exn → Bool)
      → Keeps I operation
      → Keeps I (retry_operation env operation policy retryable)
  unfolding retry_operation
  retry_operation-Keeps operation policy retryable kept = record {
    at = λ w i. retry_from-keeps operation policy.base_delay retryable kept _ 0 w i;
  }
