-- ===== src/Limits/Requests/Separate.antt =====
-- Buckets of different tiers are different.
use Prim.Native.Char.{code}
use Prim.Native.String.append
use Prim.Native.String.{◌++◌}
use chatbot_react_python_nod.Prelude.{
  ℕ, String, ◌==◌, ◌≡◌, refl, sym, ap, ◌∙◌, ◌≢◌, Option, none, some, Bool-cases, Option-cases, ◌↔◌,
  arith, inl, inr, ◌⊎◌,
}
use chatbot_react_python_nod.Limits.Requests.{
  Request, Security, Tier, authenticated, anonymous, by_user, anonymous_identity, identity_of,
  resolve_rate_limit_identity, extract_bearer_token,
}

-- the code of the first character
initial : String → ℕ
initial String.[] = 0
initial (String.◌∷◌ c s) = code c

auth-initial : (s : String) → initial ("auth:" ++ s) ≡ 97
unfolding initial
auth-initial s = ap initial (append.cons _ "uth:" s)

guest-initial : (s : String) → initial ("guest:" ++ s) ≡ 103
unfolding initial
guest-initial s = ap initial (append.cons _ "uest:" s)

ip-initial : (s : String) → initial ("ip:" ++ s) ≡ 105
unfolding initial
ip-initial s = ap initial (append.cons _ "p:" s)

-- the first character of the bucket of a tier
abbrev Marked : Tier → ℕ → Type 0
Marked authenticated n = n ≡ 97
Marked anonymous n = (n ≡ 103) ⊎ (n ≡ 105)

rest_of : String → String
rest_of String.[] = String.[]
rest_of (String.◌∷◌ c s) = s

append-cancel : (a s t : String) → a ++ s ≡ a ++ t → s ≡ t
unfolding rest_of
append-cancel String.[] s t e = sym (append.nil s) ∙ e ∙ append.nil t
append-cancel (String.◌∷◌ c a) s t e =
    append-cancel a s t (ap rest_of (sym (append.cons c a s) ∙ e ∙ append.cons c a t))

-- a bucket of an anonymous request is none of a user
anonymous-apart : (n : ℕ) → Marked anonymous n → n ≢ 97
anonymous-apart n (inl e) h = omega (arith, e, h)
anonymous-apart n (inr e) h = omega (arith, e, h)

module _ (security : Security) where
  -- the user of a request with a valid access token
  unfoldable pub user_of : Request → Option String
  user_of r = elim (extract_bearer_token r) [
    | none ↦ none
    | some bearer ↦ security.decode_access_token bearer
  ]

  Marked-anonymous :
      (r : Request) → Marked anonymous (initial (anonymous_identity security r).bucket_key)
  unfolding anonymous_identity
  Marked-anonymous r = elim (Option-cases r.guest_token) [
    | inl e ↦ rw e (inr (ip-initial _))
    | inr (t, e) ↦ elim (Bool-cases (t == "")) [
      | inl empty ↦ rw (e, empty) (inr (ip-initial _))
      | inr filled ↦ rw (e, filled) (inl (guest-initial _))
    ]
  ]

  -- what a request is counted against, by its user
  resolved :
      (r : Request)
      → resolve_rate_limit_identity security r
        ≡ elim (user_of r) [ none ↦ anonymous_identity security r | some u ↦ by_user security u ]
  unfolding resolve_rate_limit_identity identity_of user_of
  resolved r = elim (Option-cases (extract_bearer_token r)) [
    | inl e ↦ rw e refl
    | inr (b, e) ↦ elim (Option-cases (security.decode_access_token b)) [
      | inl f ↦ rw (e, identity_of, f) refl
      | inr (u, f) ↦ rw (e, identity_of, f) refl
    ]
  ]

  -- A request with a valid access token of a user is of the tier for users and shares its bucket exactly
  -- with the requests that carry a valid access token of the same user: neither another user nor an
  -- anonymous caller, by guest token or by host, is counted against it.
  pub bucket_key-user :
      (r q : Request) (user : String)
      → user_of r ≡ some user
      → ((resolve_rate_limit_identity security r).tier ≡ authenticated)
        × (((resolve_rate_limit_identity security q).bucket_key
              ≡ (resolve_rate_limit_identity security r).bucket_key)
            ↔ (user_of q ≡ some user))
  bucket_key-user r q user e =
      rw (resolved r, e)
        (
          refl,
          elim (Option-cases (user_of q)) [
            | inl none_q ↦ (
              λ same. absurd (
                  anonymous-apart _ (Marked-anonymous q)
                    (ap initial (sym (anonymous_q none_q) ∙ same) ∙ auth-initial user)),
              λ f. absurd cc,
            )
            | inr (other, some_q) ↦ (
              λ same.
                  some_q
                  ∙ ap some (append-cancel "auth:" other user (sym (user_q other some_q) ∙ same)),
              λ f. user_q user f,
            )
          ],
        )
    where
      user_q :
          (u : String)
          → user_of q ≡ some u
          → (resolve_rate_limit_identity security q).bucket_key ≡ "auth:" ++ u
      user_q u f = rw (resolved q, f) refl

      anonymous_q :
          user_of q ≡ none
          → (resolve_rate_limit_identity security q).bucket_key
            ≡ (anonymous_identity security q).bucket_key
      anonymous_q f = rw (resolved q, f) refl
