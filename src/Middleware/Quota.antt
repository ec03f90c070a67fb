-- ===== src/Middleware/Quota.antt =====
-- The quota of a client over the requests of one window.
use agentic_execution.Prelude.{ℕ, ◌+◌, Bool, not, ◌&&◌, List, [], ◌∷◌, if◌then◌else◌, Text, text_eq}
use agentic_execution.Middleware.{Scope, Verdict, has_passed, client_key, is_exempt}

-- The request is one that the limit counts for the client.
abbrev pub is_of : ℕ → Text → ℕ × Scope → Bool
is_of limit key (now, scope) = not (is_exempt limit scope) && text_eq (client_key scope) key

-- How many of the client's requests passed.
abbrev pub passes_of : ℕ → Text → List (ℕ × Scope) → List Verdict → ℕ
passes_of limit key [] vs = 0
passes_of limit key (r ∷ rs) [] = 0
passes_of limit key (r ∷ rs) (v ∷ vs) =
    (if is_of limit key r && has_passed v then 1 else 0) + passes_of limit key rs vs
