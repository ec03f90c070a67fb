-- ===== src/Enums.antt =====
-- backend/app/enums.py: the states of executions and tasks, and the agent types.
use agentic_execution.Prelude.{
  ◌≡◌, refl, Bool, true, false, Option, none, some, List, [], ◌∷◌, if◌then◌else◌, Text, codes,
  text_eq, is_space, strip, lower,
}

pub data ExecutionStatus : Type 0 where
  pending planning running completed failed : ExecutionStatus

pub data TaskStatus : Type 0 where
  pending running retrying completed failed : TaskStatus

pub data AgentType : Type 0 where
  research analysis summarization : AgentType

-- `status == other.value`
abbrev pub execution_status_eq : ExecutionStatus → ExecutionStatus → Bool
execution_status_eq ExecutionStatus.pending ExecutionStatus.pending = true
execution_status_eq ExecutionStatus.planning ExecutionStatus.planning = true
execution_status_eq ExecutionStatus.running ExecutionStatus.running = true
execution_status_eq ExecutionStatus.completed ExecutionStatus.completed = true
execution_status_eq ExecutionStatus.failed ExecutionStatus.failed = true
execution_status_eq _ _ = false

abbrev pub task_status_eq : TaskStatus → TaskStatus → Bool
task_status_eq TaskStatus.pending TaskStatus.pending = true
task_status_eq TaskStatus.running TaskStatus.running = true
task_status_eq TaskStatus.retrying TaskStatus.retrying = true
task_status_eq TaskStatus.completed TaskStatus.completed = true
task_status_eq TaskStatus.failed TaskStatus.failed = true
task_status_eq _ _ = false

-- `AgentType.X.value`
abbrev pub agent_type_value : AgentType → Text
agent_type_value AgentType.research = codes "research"
agent_type_value AgentType.analysis = codes "analysis"
agent_type_value AgentType.summarization = codes "summarization"

-- `AgentType(value)` for the members in their order, then the synonyms.
abbrev pub known_agent_types : List (Text × AgentType)
known_agent_types =
    (agent_type_value AgentType.research, AgentType.research)
    ∷ (agent_type_value AgentType.analysis, AgentType.analysis)
    ∷ (agent_type_value AgentType.summarization, AgentType.summarization)
    ∷ []

abbrev synonyms : List (Text × AgentType)
synonyms =
    (codes "researcher", AgentType.research)
    ∷ (codes "search", AgentType.research)
    ∷ (codes "analyze", AgentType.analysis)
    ∷ (codes "analyst", AgentType.analysis)
    ∷ (codes "analytics", AgentType.analysis)
    ∷ (codes "summary", AgentType.summarization)
    ∷ (codes "summarize", AgentType.summarization)
    ∷ (codes "summarizer", AgentType.summarization)
    ∷ []

unfoldable pub lookup_agent : Text → List (Text × AgentType) → Option AgentType
lookup_agent key [] = none
lookup_agent key ((name, member) ∷ rest) =
    if text_eq name key then some member else lookup_agent key rest

abbrev or_else : Option AgentType → AgentType → AgentType
or_else none d = d
or_else (some a) d = a

resolve : Text → AgentType
unfolding lookup_agent
resolve normalized =
    or_else (lookup_agent normalized known_agent_types)
      (or_else (lookup_agent normalized synonyms) AgentType.research)

-- The argument is `None`, or the text that `str(value)` gives.
pub from_value : Option Text → AgentType
unfolding resolve
from_value none = AgentType.research
from_value (some value) = resolve (lower (strip value))

-- from_value reads the value of each agent type back as that agent type.
pub from_value-value : (a : AgentType) → from_value (some (agent_type_value a)) ≡ a
unfolding from_value strip lower text_eq is_space
from_value-value AgentType.research = refl
from_value-value AgentType.analysis = refl
from_value-value AgentType.summarization = refl
