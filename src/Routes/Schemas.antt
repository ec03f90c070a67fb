-- ===== src/Routes/Schemas.antt =====
-- backend/app/schemas: the validation of a new request, and what a client reads of the rows. The id
-- and the time of a result row, which no code reads, are left out.
pub mod Readable
use agentic_execution.Prelude.{
  ℕ, ◌&&◌, Option, none, some, List, [], ◌∷◌, leb, if◌then◌else◌, length, Text, ℤ,
}
use agentic_execution.Enums.{
  ExecutionStatus, TaskStatus, AgentType, lookup_agent, known_agent_types,
}
use agentic_execution.Models.{Execution, Task, TaskResult, Db, get_execution, tasks_of, result_of}
use agentic_execution.Routes.{by_order}

-- `ExecutionCreate`: `none` is the answer 422.
validate_create : Text → Option Text
validate_create user_request =
    if leb 3 (length user_request) && leb (length user_request) 8000
    then some user_request
    else none

pub record ExecutionSummary : Type 0 where
  pub id : ℕ
  pub user_request : Text
  pub status : ExecutionStatus
  pub created_at : ℕ
  pub updated_at : ℕ

summary_of : Execution → ExecutionSummary
summary_of e = record {
  id = e.id;
  user_request = e.user_request;
  status = e.status;
  created_at = e.created_at;
  updated_at = e.updated_at;
}

pub record TaskRead : Type 0 where
  pub id : ℕ
  pub execution_id : ℕ
  pub agent_type : AgentType
  pub description : Text
  pub status : TaskStatus
  pub order_index : ℕ
  pub depends_on : List ℤ
  pub attempts : ℕ
  pub next_attempt_at : Option ℕ
  pub error : Option Text
  pub started_at : Option ℕ
  pub completed_at : Option ℕ
  pub duration_ms : Option ℕ
  pub total_tokens : Option ℕ
  pub cost_usd : Option ℕ
  pub tool_calls : ℕ
  pub created_at : ℕ
  pub updated_at : ℕ
  pub result : Option Text

-- `value or []`
abbrev or_nil : Option (List ℤ) → List ℤ
or_nil none = []
or_nil (some ds) = ds

abbrev output_of : Option TaskResult → Option Text
output_of none = none
output_of (some r) = some r.output

task_with : Task → Option TaskResult → AgentType → TaskRead
task_with t result agent_type = record {
  id = t.id;
  execution_id = t.execution_id;
  agent_type = agent_type;
  description = t.description;
  status = t.status;
  order_index = t.order_index;
  depends_on = or_nil t.depends_on;
  attempts = t.attempts;
  next_attempt_at = t.next_attempt_at;
  error = t.error;
  started_at = t.started_at;
  completed_at = t.completed_at;
  duration_ms = t.duration_ms;
  total_tokens = t.total_tokens;
  cost_usd = t.cost_usd;
  tool_calls = t.tool_calls;
  created_at = t.created_at;
  updated_at = t.updated_at;
  result = output_of result;
}

-- `TaskRead.model_validate`: `none` is the error of an agent type that is not one of the values.
task_read : Db → Task → Option TaskRead
unfolding task_with
task_read db t = elim (lookup_agent t.agent_type known_agent_types) [
  | none ↦ none
  | some agent_type ↦ some (task_with t (result_of t.id db) agent_type)
]

tasks_read : Db → List Task → Option (List TaskRead)
unfolding task_read
tasks_read db [] = some []
tasks_read db (t ∷ ts) = elim (task_read db t) [
  | none ↦ none
  | some read ↦ elim (tasks_read db ts) [ none ↦ none | some reads ↦ some (read ∷ reads) ]
]

pub record ExecutionRead : Type 0 where
  pub id : ℕ
  pub user_request : Text
  pub status : ExecutionStatus
  pub final_result : Option Text
  pub error : Option Text
  pub started_at : Option ℕ
  pub completed_at : Option ℕ
  pub duration_ms : Option ℕ
  pub total_tokens : Option ℕ
  pub cost_usd : Option ℕ
  pub created_at : ℕ
  pub updated_at : ℕ
  pub tasks : List TaskRead

execution_with : Execution → List TaskRead → ExecutionRead
execution_with e tasks = record {
  id = e.id;
  user_request = e.user_request;
  status = e.status;
  final_result = e.final_result;
  error = e.error;
  started_at = e.started_at;
  completed_at = e.completed_at;
  duration_ms = e.duration_ms;
  total_tokens = e.total_tokens;
  cost_usd = e.cost_usd;
  created_at = e.created_at;
  updated_at = e.updated_at;
  tasks = tasks;
}

-- `ExecutionRead.model_validate`, with the tasks in the order of the relationship.
execution_read : Db → Execution → Option ExecutionRead
unfolding execution_with tasks_read
execution_read db e = elim (tasks_read db (by_order (tasks_of e.id db))) [
  | none ↦ none
  | some tasks ↦ some (execution_with e tasks)
]

-- The answers of `GET /executions/{id}`.
pub data Shown : Type 0 where
  found : ExecutionRead → Shown
  missing : Shown
  invalid : Shown

abbrev shown : Option ExecutionRead → Shown
shown none = invalid
shown (some read) = found read

pub show_execution : ℕ → Db → Shown
unfolding execution_read
show_execution id db = elim (get_execution id db) [
  | none ↦ missing
  | some e ↦ shown (execution_read db e)
]
