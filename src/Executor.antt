-- ===== src/Executor.antt =====
-- backend/app/services/executor.py: the sequential executor of inline mode. The commit of each
-- change is a step of the database; the agent, and the clock at the start and the end of each task,
-- are parameters.
pub mod Runs
pub mod Updates
pub mod Rows
use agentic_execution.Prelude.{
  ℕ, Bool, true, false, some, List, [], ◌∷◌, ◌++◌, ◌==◌, Text, codes, join,
}
use agentic_execution.Enums.{TaskStatus, pending, running, completed, failed}
use agentic_execution.Models.{Task, TaskResult, Db, update_tasks, ms_between}
use agentic_execution.Llm.{Outcome, returned, raised}
use agentic_execution.Pricing.{estimate_cost}
use agentic_execution.Agents.{AgentOutput}
use agentic_execution.Aggregator.{TaskOutcome}

pub record RunResult : Type 0 where
  pub all_completed : Bool
  pub outcomes : List TaskOutcome

completed_outcome : Task → AgentOutput → TaskOutcome
completed_outcome task output = record {
  agent_type = task.agent_type;
  description = task.description;
  status = TaskStatus.completed;
  output = output.text;
  error = [];
}

failed_outcome : Task → Text → TaskOutcome
failed_outcome task message = record {
  agent_type = task.agent_type;
  description = task.description;
  status = TaskStatus.failed;
  output = [];
  error = message;
}

abbrev context_line : Task → AgentOutput → Text
context_line task output = codes "[" ++ (task.agent_type ++ (codes "] " ++ output.text))

module _ (tie_up : ℕ → Bool) (agent : Text → Text → Text → Outcome AgentOutput)
    (started finished : ℕ → ℕ) where
  -- The row of the task as it runs.
  pub begin : Task → Db → Db
  unfolding update_tasks
  begin task db =
      (update_tasks (λ t. t.id == task.id)
        (λ t. record t {
          started_at = some (started task.id);
          status = TaskStatus.running;
          updated_at = started task.id;
        })
        db).0

  pub succeed : Task → AgentOutput → Db → Db
  unfolding update_tasks
  succeed task output db =
      let now = finished task.id in
      let with_result = record db {
        results = db.results ++ record { task_id = task.id; output = output.text } ∷ [];
      } in
      (update_tasks (λ t. t.id == task.id)
        (λ t. record t {
          completed_at = some now;
          duration_ms = ms_between (some (started task.id)) now;
          total_tokens = some output.total_tokens;
          cost_usd = some (
              estimate_cost tie_up output.model (some output.prompt_tokens)
                (some output.completion_tokens));
          tool_calls = output.tool_calls;
          status = TaskStatus.completed;
          updated_at = now;
        })
        with_result).0

  pub fail : Task → Text → Db → Db
  unfolding update_tasks
  fail task message db =
      let now = finished task.id in
      (update_tasks (λ t. t.id == task.id)
        (λ t. record t {
          completed_at = some now;
          status = TaskStatus.failed;
          updated_at = now;
          error = some message;
        })
        db).0

  abbrev prepend : TaskOutcome → RunResult × Db → RunResult × Db
  prepend o (result, db) = (record result { outcomes = o ∷ result.outcomes }, db)

  -- The loop, with the context that the tasks so far have produced.
  run_tasks : List Text → List Task → Db → RunResult × Db
  run_tasks context [] db = (record { all_completed = true; outcomes = [] }, db)
  run_tasks context (task ∷ tasks) db =
      elim (agent task.agent_type task.description (join (10 ∷ 10 ∷ []) context)) [
        | returned output ↦ prepend (completed_outcome task output) (
            run_tasks (context ++ context_line task output ∷ []) tasks
              (succeed task output (begin task db)))
        | raised message ↦ (
          record { all_completed = false; outcomes = failed_outcome task message ∷ [] },
          fail task message (begin task db),
        )
      ]

  pub execute : List Task → Db → RunResult × Db
  unfolding run_tasks
  execute tasks db = run_tasks [] tasks db
