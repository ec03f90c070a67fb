-- ===== src/Security/Credentials.antt =====
-- What a request must present.
use agentic_execution.Prelude.{
  ◌≡◌, refl, ◌⊎◌, inl, inr, true, false, Option, none, some, arith, Bool-cases, Option-cases, any,
  null, Text, text_eq,
}
use agentic_execution.Settings.{Settings}
use agentic_execution.Security.{
  Request, configured_api_keys, provided_key, require_api_key, is_empty, is_bearer, token_of,
  or_else, bearer_token,
}

-- The request carries the key in one of the three places.
abbrev pub Presents : Request → Text → Type 0
Presents request key =
    (request.api_key_header ≡ some key)
    ⊎ ((request.api_key_param ≡ some key)
        ⊎ ((auth : Text) × (request.authorization ≡ some auth)
            × (is_bearer auth ≡ true)
            × (token_of auth ≡ key)))

or_else-cases :
    (a b : Option Text) (key : Text) → or_else a b ≡ some key → (a ≡ some key) ⊎ (b ≡ some key)
or_else-cases none b key h = inr h
or_else-cases (some s) b key h = elim (Bool-cases (is_empty s)) [
  | inl e ↦ inr (ground arith)
  | inr e ↦ inl (ground arith)
]

bearer_token-cases :
    (o : Option Text) (key : Text)
    → bearer_token o ≡ some key
    → (auth : Text) × (o ≡ some auth) × (is_bearer auth ≡ true) × (token_of auth ≡ key)
bearer_token-cases none key h = cc
bearer_token-cases (some auth) key h = elim (Bool-cases (is_bearer auth)) [
  | inl e ↦ (auth, refl, e, ground arith)
  | inr e ↦ ground arith
]

provided-Presents :
    (request : Request) (key : Text) → provided_key request ≡ some key → Presents request key
unfolding provided_key
provided-Presents request key h =
    elim (or_else-cases (or_else request.api_key_header request.api_key_param)
      (bearer_token request.authorization) key h) [
        | inl first ↦ elim (or_else-cases request.api_key_header request.api_key_param key first) [
          | inl header ↦ inl header
          | inr param ↦ inr (inl param)
        ]
        | inr bearer ↦ inr (inr (bearer_token-cases request.authorization key bearer))
      ]

-- With a key configured, a request goes through only if it presents, in a header, in the query or
-- as a bearer token, a key that is not empty and is configured.
pub require_api_key-Presents :
    (settings : Settings) (request : Request)
    → null (configured_api_keys settings) ≡ false
    → require_api_key settings request ≡ true
    → (key : Text) × (any (text_eq key) (configured_api_keys settings) ≡ true)
      × (is_empty key ≡ false)
      × Presents request key
unfolding require_api_key
require_api_key-Presents settings request some_key ok = elim (Option-cases (provided_key request)) [
  | inl e ↦ ground (arith, e)
  | inr (key, e) ↦ (key, ground (arith, e), ground (arith, e), provided-Presents request key e)
]
