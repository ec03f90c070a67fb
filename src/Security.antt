-- ===== src/Security.antt =====
-- backend/app/api/security.py, and `configured_api_keys` of backend/app/config.py.
pub mod Credentials
use agentic_execution.Prelude.{
  ℕ, Bool, true, false, not, ◌&&◌, Option, none, some, List, [], ◌∷◌, ◌++◌, map, ◌==◌,
  if◌then◌else◌, take, drop, any, filter, null, Text, codes, text_eq, strip, lower,
}
use agentic_execution.Settings.{Settings}

-- `s.split(sep)` for one character.
unfoldable pub split : ℕ → Text → List Text
split sep [] = [] ∷ []
split sep (c ∷ s) = elim (split sep s) [
  | [] ↦ []
  | word ∷ words ↦ if c == sep then [] ∷ word ∷ words else (c ∷ word) ∷ words
]

abbrev pub is_empty : Text → Bool
is_empty = null

single : Option Text → List Text
single none = []
single (some key) = if is_empty key then [] else strip key ∷ []

unfoldable pub configured_api_keys : Settings → List Text
unfolding single
configured_api_keys settings =
    filter (λ k. not (is_empty k))
      (single settings.api_key
        ++ map strip (filter (λ k. not (is_empty (strip k))) (split 44 settings.api_keys)))

pub record Request : Type 0 where
  pub api_key_header : Option Text
  pub api_key_param : Option Text
  pub authorization : Option Text

-- `a or b` on optional texts.
abbrev pub or_else : Option Text → Option Text → Option Text
or_else none b = b
or_else (some s) b = if is_empty s then b else some s

abbrev is_bearer : Text → Bool
is_bearer auth = text_eq (lower (take 7 auth)) (codes "bearer ")

abbrev token_of : Text → Text
token_of auth = strip (drop 7 auth)

-- A missing header reads as the empty text, which is no bearer token.
abbrev bearer_token : Option Text → Option Text
bearer_token none = none
bearer_token (some auth) = if is_bearer auth then some (token_of auth) else none

unfoldable pub provided_key : Request → Option Text
provided_key request =
    or_else (or_else request.api_key_header request.api_key_param)
      (bearer_token request.authorization)

abbrev is_known : List Text → Option Text → Bool
is_known keys none = false
is_known keys (some key) = not (is_empty key) && any (text_eq key) keys

-- Whether the request goes through; otherwise it is answered 401.
unfoldable pub require_api_key : Settings → Request → Bool
unfolding provided_key
require_api_key settings request =
    let keys = configured_api_keys settings in
    if null keys then true else is_known keys (provided_key request)
