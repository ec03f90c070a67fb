-- ===== src/App.antt =====
-- backend/app/main.py: the application, a request through its limits and the check of its key to
-- the router that answers it. The framework picks the router and reads the query; both are
-- parameters. CORS, outside the routers and inside the limits, is the framework's too.
pub mod Guarded
use agentic_execution.Prelude.{
  ℕ, Bool, true, false, not, ◌&&◌, Option, none, some, List, [], ◌∷◌, if◌then◌else◌, Text, codes,
}
use agentic_execution.Settings.{Settings}
use agentic_execution.Middleware.{
  Scope, Verdict, passed, too_large, limited, has_passed, header, Entry, limit_size, limit_rate,
}
use agentic_execution.Security.{Request, require_api_key}

-- The routers that are included, and the root.
pub data Router : Type 0 where
  health : Router
  executions : Router
  system : Router
  metrics : Router
  metrics_json : Router
  root : Router

-- The routers with `Depends(require_api_key)`.
pub is_protected : Router → Bool
is_protected Router.executions = true
is_protected Router.system = true
is_protected Router.metrics_json = true
is_protected _ = false

pub data Answer : Type 0 where
  -- 413, 429 and 401
  body_too_large : Answer
  rate_limited : ℕ → Answer
  unauthorized : Answer
  not_found : Answer
  reached : Router → Answer

module _ (settings : Settings) (router_of : Scope → Option Router)
    (query_key : Scope → Option Text) where
  pub request_of : Scope → Request
  request_of scope = record {
    api_key_header = header scope.headers (codes "x-api-key");
    api_key_param = query_key scope;
    authorization = header scope.headers (codes "authorization");
  }

  authorize : Scope → Router → Answer
  authorize scope router =
      if is_protected router && not (require_api_key settings (request_of scope))
      then unauthorized
      else reached router

  abbrev authorize_found : Scope → Option Router → Answer
  authorize_found scope none = not_found
  authorize_found scope (some router) = authorize scope router

  within_limits : Scope → Verdict → Answer
  within_limits scope passed = authorize_found scope (router_of scope)
  within_limits scope too_large = body_too_large
  within_limits scope (limited seconds) = rate_limited seconds

  abbrev limit_then_answer : ℕ → Scope → List Entry → Answer × List Entry
  limit_then_answer now scope counts =
      let (v, counts') = limit_rate settings.rate_limit_per_minute now scope counts in
      (within_limits scope v, counts')

  -- The middleware that is added last is the outermost: the size is checked before the rate.
  pub handle : ℕ → Scope → List Entry → Answer × List Entry
  handle now scope counts =
      if has_passed (limit_size settings.max_request_bytes scope)
      then limit_then_answer now scope counts
      else (body_too_large, counts)

  pub handle_all : List (ℕ × Scope) → List Entry → List Answer
  handle_all [] counts = []
  handle_all ((now, scope) ∷ requests) counts =
      let (answer, counts') = handle now scope counts in answer ∷ handle_all requests counts'
