-- ===== src/Agent/Retry.antt =====
-- Retries: backend-python/app/core/retry.py, and the classification, the policies and the executor
-- of backend-python/app/ai/agent/retry. Delays are in milliseconds.
pub mod Attempts
pub mod Kept
use Prim.Native.Nat.{◌^◌}
use chatbot_react_python_nod.Prelude.{
  ℕ, zero, suc, ◌+◌, ◌-◌, ◌*◌, ◌/◌, max, String, ◌==◌, Bool, true, false, not, ◌||◌, Option, none,
  some, List, [], ◌∷◌, ◌++◌, nat_eq, if◌then◌else◌, mem,
}
use chatbot_react_python_nod.Agent.Models.{AgentConfig, ToolResult, resolved}
use chatbot_react_python_nod.Agent.Exn.{
  Exn, Result, ok, err, agent_error, iteration_limit, agent_timeout, validation_error,
  permission_error, lookup_error, file_not_found, http_status, connection_error, timeout_error,
  tool_retryable, other_error, is_agent_error,
}
use chatbot_react_python_nod.Agent.World.{World, Action}
use chatbot_react_python_nod.Agent.Env.{Env}

-- core/retry.py
unfoldable pub is_retryable_http_status : ℕ → Bool
is_retryable_http_status code = nat_eq code 429 || nat_eq code 503

unfoldable pub is_retryable_exception : Exn → Bool
unfolding is_retryable_http_status
is_retryable_exception (http_status code) = is_retryable_http_status code
is_retryable_exception connection_error = true
is_retryable_exception timeout_error = true
is_retryable_exception _ = false

-- agent/retry/classifier.py; `KeyError` and the like are `LookupError`s
unfoldable pub is_non_retryable_agent_error : Exn → Bool
unfolding is_agent_error
is_non_retryable_agent_error e = if is_agent_error e then true else elim e [
  | validation_error ↦ true
  | permission_error ↦ true
  | lookup_error ↦ true
  | file_not_found ↦ true
  | _ ↦ false
]

unfoldable pub is_retryable_agent_error : Exn → Bool
unfolding is_non_retryable_agent_error is_retryable_exception
is_retryable_agent_error e =
    if is_non_retryable_agent_error e then false else is_retryable_exception e

abbrev retryable_tool_error_codes : List String
retryable_tool_error_codes = "timeout" ∷ "rate_limit" ∷ "service_unavailable" ∷ []

-- `result.error_code in …`; None is in no set of texts
abbrev has_code : Option String → List String → Bool
has_code none codes = false
has_code (some c) codes = mem c codes

unfoldable pub is_retryable_tool_result : ToolResult → Bool
unfolding mem
is_retryable_tool_result r =
    if r.success then false else has_code r.error_code retryable_tool_error_codes

-- agent/retry/policies.py: the two policies have the same fields and the same test
pub record RetryPolicy : Type 0 where
  pub max_retries : ℕ
  pub base_delay : ℕ

unfoldable pub llm_retry_policy_from_config : Option AgentConfig → RetryPolicy
llm_retry_policy_from_config config = record {
  max_retries = (resolved config).max_retries;
  base_delay = (resolved config).retry_base_delay;
}

unfoldable pub tool_retry_policy_from_config : Option AgentConfig → RetryPolicy
tool_retry_policy_from_config config = record {
  max_retries = (resolved config).max_retries;
  base_delay = (resolved config).retry_base_delay;
}

-- `ToolRetryPolicy()`
abbrev pub default_tool_policy : RetryPolicy
default_tool_policy = record { max_retries = 3; base_delay = 1000 }

module _ (env : Env) where
  unfoldable pub backoff_delay : ℕ → ℕ → ℕ → ℕ
  backoff_delay draw attempt base =
      let delay = base * 2 ^ attempt in delay + env.uniform draw (delay / 4)

  -- `asyncio.sleep(_backoff_delay(attempt, base_delay_seconds))`
  unfoldable pub sleep : ℕ → ℕ → World → World
  unfolding backoff_delay
  sleep attempt base w = record w { slept = w.slept ++ backoff_delay w.calls attempt base ∷ [] }

  module _ {A : Type 0} (operation : Action A) (base : ℕ) (retryable : Exn → Bool) where
    -- the loop at `attempt`, with `left` attempts to come
    unfoldable pub retry_from : ℕ → ℕ → Action A
    unfolding sleep
    retry_from zero attempt w = (err (other_error "AssertionError"), w)
    retry_from (suc left) attempt w =
        let (r, w') = operation w in
        let again = retry_from left (attempt + 1) (sleep attempt base w') in
        elim r [
          | ok a ↦ (ok a, w')
          | err e ↦ if nat_eq left 0 || not (retryable e) then (err e, w') else again
        ]

  module _ {A : Type 0} where
    unfoldable pub retry_async : Action A → ℕ → ℕ → (Exn → Bool) → Action A
    unfolding retry_from
    retry_async operation max_attempts base retryable =
        retry_from operation base retryable max_attempts 0

    -- agent/retry/executor.py
    unfoldable pub retry_operation : Action A → RetryPolicy → (Exn → Bool) → Action A
    unfolding retry_async
    retry_operation operation policy retryable =
        retry_async operation (max 1 policy.max_retries) policy.base_delay retryable
