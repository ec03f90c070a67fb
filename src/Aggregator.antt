-- ===== src/Aggregator.antt =====
-- backend/app/services/aggregator.py, and TaskOutcome of services/executor.py.
use agentic_execution.Prelude.{
  Bool, not, ◌&&◌, none, some, List, [], ◌∷◌, ◌++◌, if◌then◌else◌, filter, find, null, Text, codes,
  text_eq, strip, join,
}
use agentic_execution.Enums.{TaskStatus, task_status_eq, AgentType, agent_type_value}

pub record TaskOutcome : Type 0 where
  pub agent_type : Text
  pub description : Text
  pub status : TaskStatus
  pub output : Text
  pub error : Text

-- `o.status == TaskStatus.COMPLETED and o.output`
abbrev pub produced : TaskOutcome → Bool
produced o = task_status_eq o.status TaskStatus.completed && not (null o.output)

abbrev is_summary : TaskOutcome → Bool
is_summary o = text_eq o.agent_type (agent_type_value AgentType.summarization)

-- The list without its first item that meets the test, which is `o is not summary`.
abbrev without_first {ℓ} : {A : Type ℓ} → (A → Bool) → List A → List A
without_first p [] = []
without_first p (x ∷ xs) = if p x then xs else x ∷ without_first p xs

supporting_lines : List TaskOutcome → List Text
supporting_lines [] = []
supporting_lines (o ∷ os) =
    [] ∷ (codes "### " ++ o.agent_type) ∷ strip o.output ∷ supporting_lines os

supporting_block : List TaskOutcome → List Text
unfolding supporting_lines
supporting_block [] = []
supporting_block (o ∷ os) = [] ∷ codes "---" ∷ codes "Supporting work:" ∷ supporting_lines (o ∷ os)

aggregate_lines : List TaskOutcome → List Text
unfolding supporting_block
aggregate_lines completed = elim (find is_summary completed) [
  | some summary ↦ strip summary.output ∷ supporting_block (without_first is_summary completed)
  | none ↦ supporting_block completed
]

newline : Text
newline = 10 ∷ []

pub aggregate : List TaskOutcome → Text
unfolding aggregate_lines newline
aggregate outcomes =
    let completed = filter produced outcomes in
    if null completed
    then codes "No results were produced."
    else strip (join newline (aggregate_lines completed))
