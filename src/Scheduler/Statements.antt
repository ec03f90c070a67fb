-- ===== src/Scheduler/Statements.antt =====
-- The statements of services/scheduler.py, each one atomic UPDATE with its guard. The column
-- `updated_at` has `onupdate=utcnow`, so a statement that does not name it sets it too.
pub mod Claims
use agentic_execution.Prelude.{
  ℕ, Bool, true, false, not, ◌&&◌, Option, none, some, ◌==◌, Text, codes,
}
use agentic_execution.Enums.{
  ExecutionStatus, execution_status_eq, TaskStatus, pending, running, retrying, completed, failed,
  task_status_eq,
}
use agentic_execution.Models.{
  Execution, Task, Db, update_where, update_tasks, update_executions, get_task, insert_result,
  ms_between,
}

-- `_CLAIMABLE`
abbrev pub claimable : TaskStatus → Bool
claimable TaskStatus.pending = true
claimable TaskStatus.retrying = true
claimable _ = false

unfoldable pub claim_task : ℕ → ℕ → Db → Db × Bool
unfolding update_tasks
claim_task id now db =
    let (db', rows) =
      update_tasks (λ t. t.id == id && claimable t.status)
        (λ t. record t { status = TaskStatus.running; updated_at = now }) db in
    (db', rows == 1)

abbrev is_none {ℓ} : {A : Type ℓ} → Option A → Bool
is_none none = true
is_none (some _) = false

unfoldable pub mark_started : ℕ → ℕ → Db → Db
unfolding update_tasks
mark_started id now db =
    (update_tasks (λ t. t.id == id && is_none t.started_at)
      (λ t. record t { started_at = some now; updated_at = now }) db).0

-- The branch of `execute_task` for a task that has a result already.
unfoldable pub complete_existing : ℕ → ℕ → Db → Db
unfolding update_tasks
complete_existing id now db =
    (update_tasks (λ t. t.id == id && task_status_eq t.status TaskStatus.running)
      (λ t. record t { status = TaskStatus.completed; updated_at = now }) db).0

-- What a successful run records besides its text.
pub record Usage : Type 0 where
  pub total_tokens : ℕ
  pub cost_usd : ℕ
  pub tool_calls : ℕ

abbrev running_or_retrying : TaskStatus → Bool
running_or_retrying TaskStatus.running = true
running_or_retrying TaskStatus.retrying = true
running_or_retrying _ = false

abbrev started_of : Option Task → Option ℕ
started_of none = none
started_of (some t) = t.started_at

unfoldable pub mark_completed : ℕ → ℕ → Option ℕ → Usage → Db → Db
unfolding update_tasks
mark_completed id now duration usage db =
    (update_tasks (λ t. t.id == id && running_or_retrying t.status)
      (λ t. record t {
        status = TaskStatus.completed;
        error = none;
        updated_at = now;
        completed_at = some now;
        duration_ms = duration;
        total_tokens = some usage.total_tokens;
        cost_usd = some usage.cost_usd;
        tool_calls = usage.tool_calls;
      })
      db).0

-- `_persist_success`
unfoldable pub persist_success : ℕ → ℕ → Text → Usage → Db → Db
unfolding mark_completed get_task
persist_success id now output usage db =
    let duration = ms_between (started_of (get_task id db)) now in
    mark_completed id now duration usage (insert_result id output db)

-- The two updates of `_retry_or_fail`, with their row counts.
unfoldable pub mark_retrying : ℕ → ℕ → ℕ → ℕ → Text → Db → Db × ℕ
unfolding update_tasks
mark_retrying id now attempts next_at error db =
    update_tasks (λ t. t.id == id && task_status_eq t.status TaskStatus.running)
      (λ t. record t {
        status = TaskStatus.retrying;
        attempts = attempts;
        next_attempt_at = some next_at;
        error = some error;
        updated_at = now;
      })
      db

unfoldable pub mark_failed : ℕ → ℕ → ℕ → Text → Db → Db × ℕ
unfolding update_tasks
mark_failed id now attempts error db =
    update_tasks (λ t. t.id == id && task_status_eq t.status TaskStatus.running)
      (λ t. record t {
        status = TaskStatus.failed;
        attempts = attempts;
        error = some error;
        updated_at = now;
      })
      db

-- The update of `schedule_execution` for a task with a failed dependency.
unfoldable pub cascade_failure : ℕ → ℕ → Db → Db × ℕ
unfolding update_tasks
cascade_failure id now db =
    update_tasks (λ t. t.id == id && task_status_eq t.status TaskStatus.pending)
      (λ t. record t {
        status = TaskStatus.failed;
        enqueued = true;
        error = some (codes "Skipped: a dependency failed");
        updated_at = now;
      })
      db

unfoldable pub mark_enqueued : ℕ → ℕ → Db → Db × Bool
unfolding update_tasks
mark_enqueued id now db =
    let (db', rows) =
      update_tasks (λ t. t.id == id && not t.enqueued)
        (λ t. record t { enqueued = true; updated_at = now }) db in
    (db', rows == 1)

unfoldable pub guard_execution : ℕ → ℕ → ExecutionStatus → ExecutionStatus → Db → Db × Bool
unfolding update_executions
guard_execution id now expected new db =
    let (db', rows) =
      update_executions (λ e. e.id == id && execution_status_eq e.status expected)
        (λ e. record e { status = new; updated_at = now }) db in
    (db', rows == 1)

-- The update of `plan_execution` that stamps the start.
unfoldable pub stamp_started : ℕ → ℕ → Db → Db
unfolding update_executions
stamp_started id now db =
    (update_executions (λ e. e.id == id && is_none e.started_at)
      (λ e. record e { started_at = some now; updated_at = now }) db).0

-- `_fail_execution`
unfoldable pub fail_execution : ℕ → ℕ → Text → Db → Db
unfolding update_executions
fail_execution id now error db =
    (update_executions (λ e. e.id == id)
      (λ e. record e { status = ExecutionStatus.failed; error = some error; updated_at = now })
      db).0

-- What `_finalize` records of a finished execution, but for the status and the text.
pub record Totals : Type 0 where
  pub duration : Option ℕ
  pub total_tokens : ℕ
  pub cost_usd : ℕ

abbrev pub as_completed : ℕ → Text → Totals → Execution → Execution
as_completed now final_result totals e = record e {
  status = ExecutionStatus.completed;
  final_result = some final_result;
  updated_at = now;
  completed_at = some now;
  duration_ms = totals.duration;
  total_tokens = some totals.total_tokens;
  cost_usd = some totals.cost_usd;
}

abbrev pub as_failed : ℕ → Text → Totals → Execution → Execution
as_failed now error totals e = record e {
  status = ExecutionStatus.failed;
  error = some error;
  updated_at = now;
  completed_at = some now;
  duration_ms = totals.duration;
  total_tokens = some totals.total_tokens;
  cost_usd = some totals.cost_usd;
}

unfoldable pub finalize_completed : ℕ → ℕ → Text → Totals → Db → Db
unfolding update_executions
finalize_completed id now final_result totals db =
    (update_executions (λ e. e.id == id && execution_status_eq e.status ExecutionStatus.running)
      (as_completed now final_result totals) db).0

unfoldable pub finalize_failed : ℕ → ℕ → Text → Totals → Db → Db
unfolding update_executions
finalize_failed id now error totals db =
    (update_executions (λ e. e.id == id && execution_status_eq e.status ExecutionStatus.running)
      (as_failed now error totals) db).0
