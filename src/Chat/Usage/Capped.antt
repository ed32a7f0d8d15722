-- ===== src/Chat/Usage/Capped.antt =====
-- How much a guest may be answered.
use chatbot_react_python_nod.Prelude.{
  ℕ, ◌≤◌, ◌≡◌, min, Option, none, some, if◌then◌else◌, Bool-cases, inl, inr, arith,
}
use chatbot_react_python_nod.Tools.Schema.{guest}
use chatbot_react_python_nod.Documents.Ask.{ProviderName}
use chatbot_react_python_nod.Chat.Usage.{
  Caller, TokenSettings, effective_guest_max_output_tokens, provider_default_max_tokens, number_or,
  capped, resolve_max_tokens,
}

-- a limit that is at most the other, where none is no limit
abbrev pub AtMost : Option ℕ → Option ℕ → Type 0
AtMost (some a) (some b) = a ≤ b
AtMost (some a) none = Unit
AtMost none none = Unit
AtMost none (some b) = ⊥

abbrev pub Limited : ℕ → Option ℕ → Type 0
Limited cap (some n) = n ≤ cap
Limited cap none = ⊥

both :
    (cap : ℕ) (base : Option ℕ)
    → AtMost (some (capped cap base)) base × Limited cap (some (capped cap base))
unfolding capped
both cap none = (tt, omega arith)
both cap (some b) = (omega arith, omega arith)

-- A guest is always given a limit, which is at most the cap for guests (512 in the strict demo mode,
-- and at most what is configured) and at most the limit that a user would have with the same request.
pub resolve_max_tokens-guest :
    (t : TokenSettings) (c : Caller) (request_max_tokens : Option ℕ) (name : Option ProviderName)
    → c.kind ≡ guest
    → let limit = resolve_max_tokens (some c) t request_max_tokens name in
      Limited (effective_guest_max_output_tokens t) limit
      × AtMost limit (resolve_max_tokens none t request_max_tokens name)
      × (effective_guest_max_output_tokens t ≤ t.guest_max_output_tokens)
      × (if t.demo_mode_strict then effective_guest_max_output_tokens t ≤ 512 else Unit)
unfolding resolve_max_tokens effective_guest_max_output_tokens provider_default_max_tokens
resolve_max_tokens-guest t c r name k =
    let base = number_or r (number_or t.default_max_tokens (provider_default_max_tokens t name)) in
    elim (Bool-cases t.demo_mode_strict) [
      | inl s ↦
          let (less, low) = both (min t.guest_max_output_tokens 512) base in
          rw (k, s) (low, less, omega arith, omega arith)
      | inr s ↦
          let (less, low) = both t.guest_max_output_tokens base in
          rw (k, s) (low, less, omega arith, tt)
    ]
