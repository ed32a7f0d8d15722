-- ===== src/Chat/Usage.antt =====
-- Token limits, token counts and titles: backend-python/app/services/max_tokens.py and usage_service.py,
-- and `derive_session_title` of backend-python/app/core/text_utils.py.
pub mod Capped
use Prim.Native.Char.{code}
use Prim.Native.String.{◌++◌}
use chatbot_react_python_nod.Prelude.{
  ℕ, zero, suc, ◌+◌, ◌/◌, min, max, String, ◌==◌, Bool, true, false, ◌||◌, Option, none, some,
  if◌then◌else◌, nat_eq, length, codes, is_space, strip, leb,
}
use chatbot_react_python_nod.Tools.Schema.{CallerKind, user, guest}
use chatbot_react_python_nod.Documents.Ask.{ProviderName, openai, gemini, groq, anthropic}

pub record Caller : Type 0 where
  pub kind : CallerKind
  pub user_id : Option String
  pub guest_id : Option String

-- the settings that bound the answer; `anthropic_max_tokens` is the provider's constant
pub record TokenSettings : Type 0 where
  pub default_max_tokens : Option ℕ
  pub guest_max_output_tokens : ℕ
  pub demo_mode_strict : Bool
  pub anthropic_max_tokens : ℕ

unfoldable pub effective_guest_max_output_tokens : TokenSettings → ℕ
effective_guest_max_output_tokens t =
    if t.demo_mode_strict then min t.guest_max_output_tokens 512 else t.guest_max_output_tokens

unfoldable pub provider_default_max_tokens : TokenSettings → Option ProviderName → Option ℕ
provider_default_max_tokens t (some anthropic) = some t.anthropic_max_tokens
provider_default_max_tokens t _ = none

-- `a or b` on numbers that may be None: zero counts as none
unfoldable pub number_or : Option ℕ → Option ℕ → Option ℕ
number_or none b = b
number_or (some n) b = if nat_eq n 0 then b else some n

unfoldable pub capped : ℕ → Option ℕ → ℕ
capped cap none = cap
capped cap (some base) = min base cap

abbrev pub is_guest : Option Caller → Bool
is_guest none = false
is_guest (some c) = elim c.kind [ guest ↦ true | user ↦ false ]

unfoldable pub resolve_max_tokens :
    Option Caller → TokenSettings → Option ℕ → Option ProviderName → Option ℕ
resolve_max_tokens caller t request_max_tokens provider_name =
    let base =
      number_or request_max_tokens
        (number_or t.default_max_tokens (provider_default_max_tokens t provider_name)) in
    if is_guest caller then some (capped (effective_guest_max_output_tokens t) base) else base

pub record ProviderUsage : Type 0 where
  pub prompt_tokens : Option ℕ
  pub completion_tokens : Option ℕ
  pub total_tokens : Option ℕ

pub data TokenSource : Type 0 where
  provider_reported estimated : TokenSource

pub record UsageRecord : Type 0 where
  pub provider : ProviderName
  pub model : String
  pub prompt_tokens : Option ℕ
  pub completion_tokens : Option ℕ
  pub total_tokens : Option ℕ
  pub token_source : TokenSource
  pub kind : String

unfoldable pub estimate_tokens : String → ℕ
estimate_tokens text = if text == "" then 0 else max 1 (length (codes text) / 4)

abbrev pub is_some {ℓ} : {A : Type ℓ} → Option A → Bool
is_some none = false
is_some (some a) = true

abbrev pub or_zero : Option ℕ → ℕ
or_zero none = 0
or_zero (some n) = n

-- the total that the provider gives, or else the sum of the parts that it gives
unfoldable pub total_of : ProviderUsage → Option ℕ
total_of u = elim u.total_tokens [
  | some n ↦ some n
  | none ↦
      if is_some u.prompt_tokens || is_some u.completion_tokens
      then some (or_zero u.prompt_tokens + or_zero u.completion_tokens)
      else none
]

abbrev estimate : ProviderName → String → String → String → String → UsageRecord
estimate provider model prompt_text completion_text kind = record {
  provider = provider;
  model = model;
  prompt_tokens = some (estimate_tokens prompt_text);
  completion_tokens = some (estimate_tokens completion_text);
  total_tokens = some (estimate_tokens prompt_text + estimate_tokens completion_text);
  token_source = estimated;
  kind = kind;
}

abbrev reports : ProviderUsage → Bool
reports u = is_some u.prompt_tokens || (is_some u.completion_tokens || is_some u.total_tokens)

unfoldable pub build_usage_record :
    ProviderName → String → Option ProviderUsage → String → String → String → UsageRecord
build_usage_record provider model none prompt_text completion_text kind =
    estimate provider model prompt_text completion_text kind
build_usage_record provider model (some u) prompt_text completion_text kind =
    if reports u
    then record {
      provider = provider;
      model = model;
      prompt_tokens = u.prompt_tokens;
      completion_tokens = u.completion_tokens;
      total_tokens = total_of u;
      token_source = provider_reported;
      kind = kind;
    }
    else estimate provider model prompt_text completion_text kind

-- the text before the first line break
unfoldable pub first_line : String → String
first_line String.[] = ""
first_line (String.◌∷◌ c s) =
    let rest = first_line s in
    if nat_eq (code c) 10 || nat_eq (code c) 13 then "" else String.◌∷◌ c rest

-- each run of white space is one space; the flag says whether one goes on
unfoldable pub squeeze : Bool → String → String
squeeze going String.[] = ""
squeeze going (String.◌∷◌ c s) =
    let blank = is_space (code c) in
    let rest = squeeze blank s in
    if blank then (if going then rest else " " ++ rest) else String.◌∷◌ c rest

unfoldable pub first_characters : ℕ → String → String
first_characters zero s = ""
first_characters (suc n) String.[] = ""
first_characters (suc n) (String.◌∷◌ c s) = String.◌∷◌ c (first_characters n s)

unfoldable pub derive_session_title : String → ℕ → Option String
derive_session_title content max_length =
    let normalized = strip (squeeze false (first_line content)) in
    if normalized == ""
    then none
    else some (
        if leb (length (codes normalized)) max_length
        then normalized
        else first_characters max_length normalized)
