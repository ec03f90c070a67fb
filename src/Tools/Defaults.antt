-- ===== src/Tools/Defaults.antt =====
-- `_register_defaults` of backend/app/tools/registry.py: the registry that the program starts with.
use agentic_execution.Prelude.{ℕ, [], Text}
use agentic_execution.Llm.{Outcome}
use agentic_execution.Tools.{Registry, register}
use agentic_execution.Tools.Calculator.{Python, calculator}
use agentic_execution.Tools.WebSearch.{web_search}
use agentic_execution.Tools.Fetch.{Response, fetch_url}

unfoldable pub default_registry : Python → (Text → Outcome Response) → ℕ → Registry
default_registry python get fetch_max_bytes =
    register (fetch_url get fetch_max_bytes) (register web_search (register (calculator python) []))
