-- ===== src/Tools.antt =====
-- backend/app/tools: the tool interface of base.py, the registry of registry.py and execute_tool of
-- executor.py. What a tool returns, and whether it overruns its timeout, is a parameter.
pub mod Calculator
pub mod WebSearch
pub mod Fetch
pub mod Defaults
use agentic_execution.Prelude.{
  ◌≡◌, refl, Option, none, some, List, [], ◌∷◌, ◌++◌, map, arith, if◌then◌else◌, Text, codes,
  text_eq, text_eq_iff,
}
use agentic_execution.Json.{Json, Fields, obj, end}
use agentic_execution.Llm.{ToolSpec, Outcome, returned, raised}

-- A run of a tool that ends within the timeout, or one that does not or that raises TimeoutError.
pub data Run : Type 0 where
  finished : Outcome Text → Run
  timed_out : Run

pub record Tool : Type 0 where
  pub name : Text
  pub description : Text
  pub parameters : Json
  -- the keyword arguments
  pub run : Fields → Run

pub data ToolResult : Type 0 where
  -- `ok=True` with the output, `ok=False` with the error
  success : Text → ToolResult
  failure : Text → ToolResult

pub spec : Tool → ToolSpec
spec t = record { name = t.name; description = t.description; parameters = t.parameters }

-- `arguments if isinstance(arguments, dict) else {}`
abbrev keyword_arguments : Json → Fields
keyword_arguments (obj fields) = fields
keyword_arguments _ = end

-- `timeout` is the text of the timeout in seconds.
pub execute_tool : Text → Tool → Json → ToolResult
execute_tool timeout tool arguments = elim (tool.run (keyword_arguments arguments)) [
  | finished (returned output) ↦ success output
  | finished (raised error) ↦ failure error
  | timed_out ↦
      failure
        (codes "tool '" ++ (tool.name ++ (codes "' timed out after " ++ (timeout ++ codes "s"))))
]

-- The registry is a dict from names to tools, in the order of the first registration.
abbrev pub Registry : Type 0
Registry = List (Text × Tool)

pub register : Tool → Registry → Registry
register tool [] = (tool.name, tool) ∷ []
register tool ((name, old) ∷ reg) =
    if text_eq name tool.name then (name, tool) ∷ reg else (name, old) ∷ register tool reg

pub get_tool : Text → Registry → Option Tool
get_tool name [] = none
get_tool name ((key, tool) ∷ reg) = if text_eq key name then some tool else get_tool name reg

abbrev keep {ℓ} : {A : Type ℓ} → Option A → List A → List A
keep none xs = xs
keep (some x) xs = x ∷ xs

unfoldable pub get_tools : List Text → Registry → List Tool
get_tools [] reg = []
get_tools (n ∷ names) reg = keep (get_tool n reg) (get_tools names reg)

all_specs : Registry → List ToolSpec
all_specs reg = map (λ (entry : Text × Tool). spec entry.1) reg

-- A registered tool is found under its name, and other names are found as before.
pub get_tool-register :
    (tool : Tool) (name : Text) (reg : Registry)
    → get_tool name (register tool reg)
      ≡ (if text_eq tool.name name then some tool else get_tool name reg)
unfolding register get_tool
get_tool-register tool name [] = refl
get_tool-register tool name ((key, old) ∷ reg) = ground (
  arith,
  get_tool-register tool name reg,
  text_eq_iff key tool.name,
  text_eq_iff key name,
  text_eq_iff tool.name name,
)
