-- ===== src/Chat/Errors.antt =====
-- The errors of a chat request and `normalize_chat_error`: backend-python/app/services/chat_service.py,
-- and `QuotaExceededError` of backend-python/app/services/quota_service.py.
use chatbot_react_python_nod.Prelude.{
  ℕ, String, Bool, ◌||◌, List, [], ◌∷◌, if◌then◌else◌, occurs, codes, any,
}

pub record ChatServiceError : Type 0 where
  pub error_code : String
  pub error_message : String
  pub status_code : ℕ

abbrev failing : String → String → ℕ → ChatServiceError
failing c m n = record { error_code = c; error_message = m; status_code = n }

abbrev pub provider_timeout : ChatServiceError
provider_timeout = failing "provider_timeout" "Upstream provider timed out." 504

abbrev pub provider_rate_limited : ChatServiceError
provider_rate_limited =
    failing "provider_rate_limited" "Upstream rate limit hit, please retry shortly." 429

abbrev pub provider_error : ChatServiceError
provider_error = failing "provider_error" "Upstream provider failed." 502

abbrev pub empty_provider_response : ChatServiceError
empty_provider_response =
    failing "empty_provider_response" "The model returned an empty response. Please try again." 502

abbrev pub session_not_found : ChatServiceError
session_not_found = failing "session_not_found" "Chat session not found." 404

abbrev pub provider_not_allowed : ChatServiceError
provider_not_allowed =
    failing "provider_not_allowed" "Guests may only use the default provider and model." 403

abbrev pub new_chat_forbidden : ChatServiceError
new_chat_forbidden =
    failing "new_chat_forbidden" "Guests may not create additional chat sessions." 403

abbrev pub db_unavailable : ChatServiceError
db_unavailable = failing "database_error" "The database is temporarily unavailable." 503

abbrev pub quota_exceeded : ChatServiceError
quota_exceeded = failing "quota_exceeded" "Guest message quota exceeded for the current window." 429

abbrev pub validation_error : String → ChatServiceError
validation_error m = failing "validation_error" m 422

-- an exception of the provider's call: one of ours, or another with what the classification reads of it:
-- whether its class is a timeout or a rate limit, and the name of the class in lower case
pub data Exception : Type 0 where
  chat_error : ChatServiceError → Exception
  other : Bool → Bool → String → Exception

abbrev rate_limit_tokens : List String
rate_limit_tokens = "ratelimit" ∷ "too_many_requests" ∷ "toomanyrequests" ∷ "resourceexhausted" ∷ []

unfoldable pub normalize_chat_error : Exception → ChatServiceError
normalize_chat_error (chat_error e) = e
normalize_chat_error (other is_timeout is_rate_limit name) =
    if is_timeout || occurs (codes "timeout") (codes name)
    then provider_timeout
    else if any (λ token. occurs (codes token) (codes name)) rate_limit_tokens || is_rate_limit
    then provider_rate_limited
    else provider_error
