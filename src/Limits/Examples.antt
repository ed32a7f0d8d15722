-- ===== src/Limits/Examples.antt =====
-- The theorems on the rate limiter at a short run of requests.
use chatbot_react_python_nod.Prelude.{
  ℕ, ◌≡◌, refl, String, true, false, none, some, List, [], ◌∷◌, ◌↔◌, Option, ◌==◌, arith,
}
use chatbot_react_python_nod.Limits.Window.{Events, allowed, check}
use chatbot_react_python_nod.Limits.Window.Log.{Request}
use chatbot_react_python_nod.Limits.Window.Refines.{serve, admit_all, AnswerAll, serve_refines_log}
use chatbot_react_python_nod.Limits.Window.Waiting.{retry_after_suffices, after}
use chatbot_react_python_nod.Limits.Requests
use chatbot_react_python_nod.Limits.Requests.{
  Security, authenticated, resolve_rate_limit_identity, rate_limit_middleware,
}
use chatbot_react_python_nod.Limits.Requests.Separate.{bucket_key-user, user_of}

-- two requests within a limit of one, the second a second after the first, and one of another client
abbrev first : Request
first = record { key = "ip:1"; limit = 1; now = 500 }

abbrev requests : List Request
requests =
    first
    ∷ record { key = "ip:2"; limit = 1; now = 900 }
    ∷ record { key = "ip:1"; limit = 1; now = 1500 }
    ∷ []

serve_refines_log_example : AnswerAll (serve requests []) (admit_all requests [])
serve_refines_log_example =
    serve_refines_log requests
      (omega arith, omega arith, (omega arith, omega arith, (omega arith, omega arith, tt)))

retry_after_suffices_example :
    (check "ip:1" 1 60500 (
      after
        (record { key = "ip:2"; limit = 1; now = 2000 } ∷ [])
        (check "ip:1" 1 1500 (after (first ∷ []) [])).1)).0
    ≡ allowed
unfolding check after chatbot_react_python_nod.Limits.Window.prune
    chatbot_react_python_nod.Limits.Window.times_of chatbot_react_python_nod.Prelude.insert
retry_after_suffices_example =
    retry_after_suffices (λ key. 1) (first ∷ [])
      (record { key = "ip:2"; limit = 1; now = 2000 } ∷ []) "ip:1" 1500 59 60500
      (omega arith, refl, omega arith) (refl, tt) refl (omega arith)

-- a token is its user's name
abbrev security : Security
security = record { decode_access_token = λ token. some token; digest = λ s. s }

abbrev signed_in : Requests.Request
signed_in = record {
  path = "/api/chat";
  authorization = some "Bearer ann";
  guest_token = none;
  client_host = some "10.0.0.1";
}

abbrev guest : Requests.Request
guest = record {
  path = "/api/chat";
  authorization = none;
  guest_token = some "ann";
  client_host = some "10.0.0.1";
}

bucket_key-user_example :
    ((resolve_rate_limit_identity security signed_in).tier ≡ authenticated)
    × (((resolve_rate_limit_identity security guest).bucket_key
          ≡ (resolve_rate_limit_identity security signed_in).bucket_key)
        ↔ (user_of security guest ≡ some "ann"))
unfolding user_of Requests.extract_bearer_token Requests.bearer_of
    chatbot_react_python_nod.Prelude.lower chatbot_react_python_nod.Prelude.strip
bucket_key-user_example = bucket_key-user security signed_in guest "ann" refl
