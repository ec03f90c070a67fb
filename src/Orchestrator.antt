-- ===== src/Orchestrator.antt =====
-- backend/app/services/orchestrator.py: the inline lifecycle of an execution. The clock is read once
-- per commit, at the instants that `Clock` names, and the provider's construction may raise.
pub mod Lifecycle
use agentic_execution.Prelude.{
  ℕ, Bool, Option, none, some, List, ◌++◌, ◌==◌, if◌then◌else◌, find, sum_by, Text, codes,
}
use agentic_execution.Enums.{
  ExecutionStatus, TaskStatus, planning, running, completed, failed, task_status_eq,
}
use agentic_execution.Settings.{Settings}
use agentic_execution.Models.{
  Execution, Task, TaskResult, Db, update_executions, get_execution, tasks_of, ms_between, or_zero,
}
use agentic_execution.Llm.{Outcome, returned, raised, LlmProvider}
use agentic_execution.Tools.{Registry}
use agentic_execution.Agents.{run_agent}
use agentic_execution.Aggregator.{TaskOutcome, aggregate}
use agentic_execution.Planner.{PlannedSubtask, new_planner, plan}
use agentic_execution.Executor.{RunResult, execute}
use agentic_execution.World.{Env}
use agentic_execution.Scheduler.Handlers.{new_tasks}

pub record Clock : Type 0 where
  pub planning_at : ℕ
  pub running_at : ℕ
  pub ended_at : ℕ
  pub started : ℕ → ℕ
  pub finished : ℕ → ℕ

abbrev pub is_execution : ℕ → Execution → Bool
is_execution id e = e.id == id

-- A commit that writes to the row of the execution.
abbrev pub write : ℕ → (Execution → Execution) → Db → Db
write id f db = (update_executions (is_execution id) f db).0

abbrev with_status : ExecutionStatus → ℕ → Execution → Execution
with_status status now e = record e { status = status; updated_at = now }

set_execution_status : ℕ → ExecutionStatus → ℕ → Db → Db
set_execution_status id status now db = write id (with_status status now) db

abbrev failing : Text → ℕ → Execution → Execution
failing error now e = record e {
  status = ExecutionStatus.failed;
  error = some error;
  updated_at = now;
}

pub fail_execution : ℕ → ℕ → Text → Db → Db
fail_execution id now error db = write id (failing error now) db

-- The error of the first FAILED outcome.
abbrev failure_text : Option TaskOutcome → Text
failure_text none = codes "One or more tasks failed."
failure_text (some o) = o.error

abbrev with_totals : List Task → ℕ → Execution → Execution
with_totals fresh_tasks now e = record e {
  completed_at = some now;
  duration_ms = ms_between e.started_at now;
  total_tokens = some (sum_by (λ t. or_zero t.total_tokens) fresh_tasks);
  cost_usd = some (sum_by (λ t. or_zero t.cost_usd) fresh_tasks);
}

abbrev with_verdict : RunResult → ℕ → Execution → Execution
with_verdict result now e =
    if result.all_completed
    then record e {
      final_result = some (aggregate result.outcomes);
      status = ExecutionStatus.completed;
      updated_at = now;
    }
    else record e {
      error =
          some
            (failure_text (find (λ o. task_status_eq o.status TaskStatus.failed) result.outcomes));
      status = ExecutionStatus.failed;
      updated_at = now;
    }

conclude : ℕ → ℕ → RunResult → Db → Db
conclude id now result db =
    write id (λ e. with_verdict result now (with_totals (tasks_of id db) now e)) db

module _ (env : Env) (registry : Registry) (llm : LlmProvider) (ids : ℕ → ℕ) (clock : Clock) where
  open env use {settings, codec}

  -- From the plan on.
  run_planned : ℕ → List PlannedSubtask → Db → Db
  unfolding set_execution_status
  run_planned id subtasks db =
      let tasks = new_tasks ids id clock.planning_at 0 subtasks in
      let added = record db { tasks = db.tasks ++ tasks } in
      let begun =
        write id
          (λ e.
            with_status ExecutionStatus.running clock.running_at
              (record e { started_at = some clock.running_at }))
          added in
      let (result, done) =
        execute env.tie_up (run_agent settings registry env.tool_timeout llm) clock.started
          clock.finished tasks begun in
      conclude id clock.ended_at result done

  plan_and_run : Execution → Db → Db
  plan_and_run execution db =
      let db' = set_execution_status execution.id ExecutionStatus.planning clock.planning_at db in
      let planner = new_planner settings.planner_min_tasks settings.planner_max_tasks in
      elim (plan codec llm planner execution.user_request) [
        | returned subtasks ↦ run_planned execution.id subtasks db'
        | raised error ↦ fail_execution execution.id clock.ended_at error db'
      ]

pub run_execution : Env → Registry → Outcome LlmProvider → (ℕ → ℕ) → Clock → ℕ → Db → Db
run_execution env registry (raised error) ids clock id db =
    fail_execution id clock.ended_at error db
run_execution env registry (returned llm) ids clock id db = elim (get_execution id db) [
  | none ↦ db
  | some execution ↦ plan_and_run env registry llm ids clock execution db
]
