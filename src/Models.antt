-- ===== src/Models.antt =====
-- backend/app/models: the rows of the three tables, and the statements that read and write them.
-- A table is the list of its rows, in the order in which a SELECT returns them. Ids are numbers in
-- place of UUIDs, times are microseconds, and costs are millionths of a dollar.
pub mod Updates
pub mod Keys
use agentic_execution.Prelude.{
  ℕ, ◌-◌, ◌/◌, Bool, true, false, Option, none, some, List, [], ◌∷◌, ◌++◌, ◌==◌, if◌then◌else◌,
  filter, find, count, Text, ℤ,
}
use agentic_execution.Enums.{ExecutionStatus, TaskStatus}

-- models/execution.py
pub record Execution : Type 0 where
  pub id : ℕ
  pub user_request : Text
  pub status : ExecutionStatus
  pub final_result : Option Text
  pub error : Option Text
  pub started_at : Option ℕ
  pub completed_at : Option ℕ
  pub duration_ms : Option ℕ
  pub total_tokens : Option ℕ
  pub cost_usd : Option ℕ
  pub created_at : ℕ
  pub updated_at : ℕ

-- models/task.py
pub record Task : Type 0 where
  pub id : ℕ
  pub execution_id : ℕ
  pub agent_type : Text
  pub description : Text
  pub status : TaskStatus
  pub order_index : ℕ
  pub error : Option Text
  pub depends_on : Option (List ℤ)
  pub enqueued : Bool
  pub attempts : ℕ
  pub next_attempt_at : Option ℕ
  pub started_at : Option ℕ
  pub completed_at : Option ℕ
  pub duration_ms : Option ℕ
  pub total_tokens : Option ℕ
  pub cost_usd : Option ℕ
  pub tool_calls : ℕ
  pub created_at : ℕ
  pub updated_at : ℕ

-- models/task_result.py
pub record TaskResult : Type 0 where
  pub task_id : ℕ
  pub output : Text

pub record Db : Type 0 where
  pub executions : List Execution
  pub tasks : List Task
  pub results : List TaskResult

-- `UPDATE ... SET f WHERE p`: every row that meets the test is replaced.
unfoldable pub update_where {ℓ} : {A : Type ℓ} → (A → Bool) → (A → A) → List A → List A
update_where p f [] = []
update_where p f (x ∷ xs) = (if p x then f x else x) ∷ update_where p f xs

-- `update(Task)` and `update(Execution)`, with the row count of the statement.
unfoldable pub update_tasks : (Task → Bool) → (Task → Task) → Db → Db × ℕ
update_tasks p f db = (record db { tasks = update_where p f db.tasks }, count p db.tasks)

unfoldable pub update_executions : (Execution → Bool) → (Execution → Execution) → Db → Db × ℕ
update_executions p f db =
    (record db { executions = update_where p f db.executions }, count p db.executions)

-- `db.get(Task, id)` and `db.get(Execution, id)`
unfoldable pub get_task : ℕ → Db → Option Task
get_task id db = find (λ t. t.id == id) db.tasks

unfoldable pub get_execution : ℕ → Db → Option Execution
get_execution id db = find (λ e. e.id == id) db.executions

-- `select(Task).where(Task.execution_id == id)`
unfoldable pub tasks_of : ℕ → Db → List Task
tasks_of id db = filter (λ t. t.execution_id == id) db.tasks

-- The row of `task_results` for a task, which is also `task.result`.
unfoldable pub result_of : ℕ → Db → Option TaskResult
result_of id db = find (λ r. r.task_id == id) db.results

abbrev is_some {ℓ} : {A : Type ℓ} → Option A → Bool
is_some none = false
is_some (some _) = true

-- `db.add(TaskResult(...)); db.flush()`, where the UNIQUE constraint on `task_id` refuses a second
-- row for the task and the statement is rolled back.
unfoldable pub insert_result : ℕ → Text → Db → Db
unfolding result_of
insert_result id output db =
    if is_some (result_of id db)
    then db
    else record db { results = db.results ++ record { task_id = id; output = output } ∷ [] }

-- `_ms_between`, the clock in microseconds: the difference is cut at 0, as `max(0, ...)` does.
pub ms_between : Option ℕ → ℕ → Option ℕ
ms_between none finish = none
ms_between (some start) finish = some ((finish - start) / 1000)

-- `x or 0`
abbrev pub or_zero : Option ℕ → ℕ
or_zero none = 0
or_zero (some n) = n
