-- ===== src/Agents/Equipped.antt =====
-- The tools of the agents (backend/app/agents) in the registry that the program starts with
-- (backend/app/tools/registry.py).
use agentic_execution.Prelude.{ℕ, ◌≡◌, refl, List, [], ◌∷◌, Text, text_eq}
use agentic_execution.Enums.{AgentType}
use agentic_execution.Llm.{Outcome}
use agentic_execution.Tools.{Tool, get_tools, get_tool-register}
use agentic_execution.Tools.Calculator.{Python, calculator}
use agentic_execution.Tools.WebSearch.{web_search}
use agentic_execution.Tools.Fetch.{Response, fetch_url}
use agentic_execution.Tools.Defaults.{default_registry}
use agentic_execution.Agents.{tool_names}

-- The tools that an agent is meant to have.
abbrev meant : Python → (Text → Outcome Response) → ℕ → AgentType → List Tool
meant python get n AgentType.research = web_search ∷ fetch_url get n ∷ []
meant python get n AgentType.analysis = calculator python ∷ fetch_url get n ∷ []
meant python get n AgentType.summarization = []

-- In the registry that the program starts with, each agent finds exactly the tools that it is
-- meant to have, in their order, whatever they compute with.
get_tools-default_registry :
    (python : Python) (get : Text → Outcome Response) (n : ℕ) (kind : AgentType)
    → get_tools (tool_names kind) (default_registry python get n) ≡ meant python get n kind
unfolding get_tools text_eq calculator web_search fetch_url default_registry
get_tools-default_registry python get n AgentType.research = simp get_tool-register refl
get_tools-default_registry python get n AgentType.analysis = simp get_tool-register refl
get_tools-default_registry python get n AgentType.summarization = refl
