-- ===== src/Limits/Requests.antt =====
-- Who a request is counted against, and what the middleware answers:
-- `resolve_rate_limit_identity` and `rate_limit_middleware` of
-- backend-python/app/middleware/rate_limit.py. Decoding an access token and the hash are parameters.
pub mod Separate
use Prim.Native.Char.{code}
use Prim.Native.String.{◌++◌}
use chatbot_react_python_nod.Prelude.{
  ℕ, String, ◌==◌, Bool, true, false, not, ◌&&◌, ◌||◌, Option, none, some, List, [], ◌∷◌,
  if◌then◌else◌, nat_eq, mem, codes, lower, strip,
}
use chatbot_react_python_nod.Limits.Window.{
  Events, Verdict, allowed, retry_after, index_error, check,
}

-- what the middleware reads of a request
pub record Request : Type 0 where
  pub path : String
  pub authorization : Option String
  pub guest_token : Option String
  pub client_host : Option String

pub record Settings : Type 0 where
  pub authenticated_per_minute : ℕ
  pub anonymous_per_minute : ℕ

-- `decode_access_token`, where none is `InvalidAccessTokenError`, and the SHA-256 digest in hexadecimal
pub record Security : Type 0 where
  pub decode_access_token : String → Option String
  pub digest : String → String

pub data Tier : Type 0 where
  authenticated anonymous : Tier

pub record Identity : Type 0 where
  pub tier : Tier
  pub bucket_key : String

abbrev exempt_paths : List String
exempt_paths = "/api/health" ∷ "/api/health/ready" ∷ []

-- `header.partition(" ")`, without the separator
unfoldable pub partition_space : String → String × String
partition_space String.[] = ("", "")
partition_space (String.◌∷◌ c s) =
    let (a, b) = partition_space s in if nat_eq (code c) 32 then ("", s) else (String.◌∷◌ c a, b)

unfoldable pub same_codes : List ℕ → List ℕ → Bool
same_codes [] [] = true
same_codes (a ∷ as_) (b ∷ bs) = nat_eq a b && same_codes as_ bs
same_codes _ _ = false

-- the token of a header that is not empty
unfoldable pub bearer_of : String → Option String
unfolding partition_space same_codes
bearer_of header =
    let (scheme, token) = partition_space header in
    if not (same_codes (lower scheme) (codes "bearer")) || strip token == ""
    then none
    else some (strip token)

unfoldable pub extract_bearer_token : Request → Option String
extract_bearer_token r = elim r.authorization [
  | none ↦ none
  | some header ↦ if header == "" then none else bearer_of header
]

-- `client.host if client and client.host else "unknown"`
abbrev host_of : Option String → String
host_of none = "unknown"
host_of (some h) = if h == "" then "unknown" else h

module _ (security : Security) where
  abbrev by_host : Request → Identity
  by_host r = record {
    tier = anonymous;
    bucket_key = "ip:" ++ security.digest (host_of r.client_host);
  }

  abbrev by_guest_token : String → Identity
  by_guest_token t = record { tier = anonymous; bucket_key = "guest:" ++ security.digest t }

  -- a caller without a valid access token
  unfoldable pub anonymous_identity : Request → Identity
  anonymous_identity r = elim r.guest_token [
    | none ↦ by_host r
    | some t ↦ if t == "" then by_host r else by_guest_token t
  ]

  abbrev pub by_user : String → Identity
  by_user user = record { tier = authenticated; bucket_key = "auth:" ++ user }

  unfoldable pub identity_of : Option String → Request → Identity
  identity_of none r = anonymous_identity r
  identity_of (some bearer) r = elim (security.decode_access_token bearer) [
    | some user ↦ by_user user
    | none ↦ anonymous_identity r
  ]

  unfoldable pub resolve_rate_limit_identity : Request → Identity
  resolve_rate_limit_identity r = identity_of (extract_bearer_token r) r

  abbrev limit_of : Settings → Tier → ℕ
  limit_of settings authenticated = settings.authenticated_per_minute
  limit_of settings anonymous = settings.anonymous_per_minute

  -- what becomes of the request: passed on, the 429 response with its seconds, or an exception
  pub data Reply : Type 0 where
    passed_on : Reply
    too_many : ℕ → Reply
    crashed : Reply

  abbrev reply_to : Verdict → Reply
  reply_to allowed = passed_on
  reply_to (retry_after s) = too_many s
  reply_to index_error = crashed

  unfoldable pub rate_limit_middleware : Settings → Request → ℕ → Events → Reply × Events
  rate_limit_middleware settings r now d =
      if mem r.path exempt_paths
      then (passed_on, d)
      else (let who = resolve_rate_limit_identity r in
          let (v, d') = check who.bucket_key (limit_of settings who.tier) now d in (reply_to v, d'))
