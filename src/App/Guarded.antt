-- ===== src/App/Guarded.antt =====
-- The protected routers of backend/app/main.py behind the limits and the keys.
use agentic_execution.Prelude.{
  ℕ, ◌+◌, ◌≡◌, ◌⊎◌, Bool, true, false, ◌&&◌, Option, some, List, [], ◌∷◌, arith, if◌then◌else◌, any,
  Text, codes, text_eq,
}
use agentic_execution.Settings.{Settings}
use agentic_execution.Middleware.{Scope, has_passed, client_key, is_prefix, limit_size}
use agentic_execution.Security.{configured_api_keys, is_empty}
use agentic_execution.Security.Credentials.{Presents}
use agentic_execution.App.{Router, is_protected, Answer, reached, request_of, authorize}

-- The answer comes from a router that wants a key.
abbrev is_served : Answer → Bool
is_served (reached router) = is_protected router
is_served _ = false

-- How many requests of a client reached a router that wants a key.
abbrev pub served : Text → List (ℕ × Scope) → List Answer → ℕ
served key [] answers = 0
served key (r ∷ rs) [] = 0
served key ((now, scope) ∷ rs) (a ∷ answers) =
    (if text_eq (client_key scope) key && is_served a then 1 else 0) + served key rs answers

module _ (settings : Settings) (router_of : Scope → Option Router)
    (query_key : Scope → Option Text) where
  abbrev fits : ℕ × Scope → Bool
  fits (now, scope) = has_passed (limit_size settings.max_request_bytes scope)

  abbrev limit : ℕ
  limit = settings.rate_limit_per_minute

  -- A router that wants a key is mounted under `/api`, and answers HTTP only.
  abbrev pub IsMounted : Type 0
  IsMounted =
      (scope : Scope) (router : Router)
      → router_of scope ≡ some router
      → is_protected router ≡ true
      → (scope.is_http ≡ true) × (is_prefix (codes "/api") scope.path ≡ true)

  protected_of_authorize :
      (scope : Scope) (router : Router)
      → is_served (authorize settings router_of query_key scope router) ≡ true
      → is_protected router ≡ true
  unfolding authorize
  protected_of_authorize scope router h = ground arith

  -- The request presents a key that is configured.
  abbrev HasKey : Scope → Type 0
  HasKey scope =
      (key : Text) × (any (text_eq key) (configured_api_keys settings) ≡ true)
      × (is_empty key ≡ false)
      × Presents (request_of settings router_of query_key scope) key

  abbrev IsAllowed : Scope → Type 0
  IsAllowed scope = (has_passed (limit_size settings.max_request_bytes scope) ≡ true) × HasKey scope

  -- Each request whose answer comes from a router that wants a key is allowed.
  abbrev pub Allowed : List (ℕ × Scope) → List Answer → Type 0
  Allowed [] answers = Unit
  Allowed (r ∷ rs) [] = Unit
  Allowed ((now, scope) ∷ rs) (a ∷ answers) =
      ((is_served a ≡ false) ⊎ IsAllowed scope) × Allowed rs answers
