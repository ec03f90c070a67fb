-- ===== src/Scheduler/Handlers.antt =====
-- The job handlers of services/scheduler.py: `plan_execution`, `execute_task` and
-- `recover_stale_tasks`. A handler is given the instants at which it reads the clock; reads with
-- nothing to wait for between them share one. The database and Redis answer every command.
pub mod Duplicates
pub mod Steps
pub mod Planned
pub mod Recovery
pub mod Resting
pub mod Safety
use agentic_execution.Prelude.{
  ℕ, ◌+◌, ◌-◌, Bool, true, false, ◌&&◌, none, some, List, [], ◌∷◌, ◌++◌, ltb, ◌==◌, if◌then◌else◌,
  length, any, filter, Text, codes,
}
use agentic_execution.Enums.{ExecutionStatus, TaskStatus, task_status_eq, agent_type_value}
use agentic_execution.Models.{Execution, Task, Db, get_task, get_execution, result_of}
use agentic_execution.Llm.{Outcome, returned, raised, LlmProvider}
use agentic_execution.Pricing.{estimate_cost}
use agentic_execution.Tools.{Registry}
use agentic_execution.Agents.{AgentOutput, run_agent}
use agentic_execution.Planner.{PlannedSubtask, new_planner, plan}
use agentic_execution.Redis.{Redis}
use agentic_execution.World.{World, Env}
use agentic_execution.Scheduler.Statements.{
  claim_task, mark_started, complete_existing, Usage, persist_success, guard_execution,
  stamp_started, fail_execution,
}
use agentic_execution.Scheduler.Finalize.{dependency_context}
use agentic_execution.Scheduler.Pass.{schedule_execution}
use agentic_execution.Scheduler.Retry.{retry_or_fail}

-- `Task(...)` with the defaults of its columns.
new_task : ℕ → ℕ → ℕ → ℕ → PlannedSubtask → Task
new_task id execution_id now index subtask = record {
  id = id;
  execution_id = execution_id;
  agent_type = agent_type_value subtask.agent_type;
  description = subtask.description;
  status = TaskStatus.pending;
  order_index = index;
  error = none;
  depends_on = some subtask.depends_on;
  enqueued = false;
  attempts = 0;
  next_attempt_at = none;
  started_at = none;
  completed_at = none;
  duration_ms = none;
  total_tokens = none;
  cost_usd = none;
  tool_calls = 0;
  created_at = now;
  updated_at = now;
}

-- The loop over `enumerate(subtasks)`; `ids` are the UUIDs that `uuid4` gives.
unfoldable pub new_tasks : (ℕ → ℕ) → ℕ → ℕ → ℕ → List PlannedSubtask → List Task
unfolding new_task
new_tasks ids execution_id now index [] = []
new_tasks ids execution_id now index (s ∷ subtasks) =
    new_task (ids index) execution_id now index s
    ∷ new_tasks ids execution_id now (index + 1) subtasks

module _ (r : Redis) (env : Env) (llm : LlmProvider) where
  open env use {settings, codec}

  -- From the plan on, where the execution is PLANNING.
  start_planned : (ℕ → ℕ) → ℕ → ℕ → List PlannedSubtask → World r.State → World r.State
  start_planned ids execution_id now subtasks w =
      let added = record (w.db) {
        tasks = w.db.tasks ++ new_tasks ids execution_id now 0 subtasks;
      } in
      let (running_db, _) =
        guard_execution execution_id now ExecutionStatus.planning ExecutionStatus.running added in
      schedule_execution r env execution_id now
        (record w { db = stamp_started execution_id now running_db })

  plan_claimed : (ℕ → ℕ) → ℕ → Execution → World r.State → World r.State
  plan_claimed ids now execution w =
      let planner = new_planner settings.planner_min_tasks settings.planner_max_tasks in
      elim (plan codec llm planner execution.user_request) [
        | returned subtasks ↦ start_planned ids execution.id now subtasks w
        | raised error ↦ record w {
          db = fail_execution execution.id now (codes "Planning failed: " ++ error) w.db;
        }
      ]

  -- `plan_execution`, once `get_llm_provider` has made the provider.
  plan_with_provider : (ℕ → ℕ) → ℕ → ℕ → World r.State → World r.State
  plan_with_provider ids execution_id now w = elim (get_execution execution_id w.db) [
    | none ↦ w
    | some execution ↦
        let (db', won) =
          guard_execution execution_id now ExecutionStatus.pending ExecutionStatus.planning w.db in
        if won
        then plan_claimed ids now execution (record w { db = db' })
        else record w { db = db' }
  ]

  -- `_run_agent_with_timeout`; `late` says whether this run exceeds the timeout.
  run_with_timeout : Registry → Bool → Text → Text → Text → Outcome AgentOutput
  run_with_timeout registry late agent_type description context =
      if late
      then raised
          (codes "TaskTimeoutError: task exceeded timeout of " ++ (env.task_timeout ++ codes "s"))
      else run_agent settings registry env.tool_timeout llm agent_type description context

  abbrev usage_of : AgentOutput → Usage
  usage_of output = record {
    total_tokens = output.total_tokens;
    cost_usd =
        estimate_cost env.tie_up output.model (some output.prompt_tokens)
          (some output.completion_tokens);
    tool_calls = output.tool_calls;
  }

  -- `fresh` is read again after the rollback.
  record_failure : ℕ → ℕ → Text → World r.State → World r.State
  record_failure task_id now error w = elim (get_task task_id w.db) [
    | none ↦ w
    | some fresh ↦ (retry_or_fail r env now fresh error w).0
  ]

  record_outcome : ℕ → ℕ → Outcome AgentOutput → World r.State → World r.State
  record_outcome task_id now (raised error) w = record_failure task_id now error w
  record_outcome task_id now (returned output) w = record w {
    db = persist_success task_id now output.text (usage_of output) w.db;
  }

  -- From the claim to the call of the agent: `none` where the worker has nothing to run.
  begin_task : ℕ → ℕ → Db → Db × Bool
  begin_task task_id now db =
      let (claimed, won) = claim_task task_id now db in
      if won then (mark_started task_id now claimed, true) else (claimed, false)

  run_claimed : Registry → Bool → Task → ℕ → World r.State → World r.State
  run_claimed registry late task ended w = elim (result_of task.id w.db) [
    | some _ ↦ record w { db = complete_existing task.id ended w.db }
    | none ↦
        let context = dependency_context task w.db in
        record_outcome task.id ended
          (run_with_timeout registry late task.agent_type task.description context) w
  ]

  -- `execute_task`, once `get_llm_provider` has made the provider.
  -- `begun` is the time of the claim and `ended` that of the agent's return.
  execute_with_provider : Registry → Bool → ℕ → ℕ → ℕ → World r.State → World r.State
  execute_with_provider registry late task_id begun ended w = elim (get_task task_id w.db) [
    | none ↦ w
    | some task ↦
        let (db', won) = begin_task task_id begun w.db in
        let claimed = record w { db = db' } in
        if won
        then schedule_execution r env task.execution_id ended
            (run_claimed registry late task ended claimed)
        else claimed
  ]

  abbrev lease_expired : ℕ → Task → Bool
  lease_expired cutoff t = task_status_eq t.status TaskStatus.running && ltb t.updated_at cutoff

  recover_each : ℕ → List Task → World r.State → World r.State
  recover_each now [] w = w
  recover_each now (t ∷ ts) w =
      recover_each now ts
        (retry_or_fail r env now t (codes "worker lease expired (possible crash)") w).0

  -- The set of the executions of the recovered tasks.
  insert_id : ℕ → List ℕ → List ℕ
  insert_id id ids = if any (λ i. i == id) ids then ids else id ∷ ids

  affected : List Task → List ℕ
  affected [] = []
  affected (t ∷ ts) = insert_id t.execution_id (affected ts)

  schedule_each : ℕ → List ℕ → World r.State → World r.State
  schedule_each now [] w = w
  schedule_each now (id ∷ ids) w = schedule_each now ids (schedule_execution r env id now w)

  -- The tasks that have been RUNNING since before the cutoff.
  pub stale_tasks : ℕ → Db → List Task
  stale_tasks now db = filter (lease_expired (now - settings.task_lease)) db.tasks

  pub recover_stale_tasks : ℕ → World r.State → World r.State × ℕ
  unfolding insert_id affected
  recover_stale_tasks now w =
      let stale = stale_tasks now w.db in
      (schedule_each now (affected stale) (recover_each now stale w), length stale)

-- The provider is made before anything is read. Where that raises, the error of the planning goes
-- to `_fail_execution`, and that of a task is logged only.
module _ (r : Redis) (env : Env) where
  pub plan_execution : Outcome LlmProvider → (ℕ → ℕ) → ℕ → ℕ → World r.State → World r.State
  plan_execution (raised error) ids execution_id now w = record w {
    db = fail_execution execution_id now (codes "Planning failed: " ++ error) w.db;
  }
  plan_execution (returned llm) ids execution_id now w =
      plan_with_provider r env llm ids execution_id now w

  pub execute_task :
      Outcome LlmProvider → Registry → Bool → ℕ → ℕ → ℕ → World r.State → World r.State
  execute_task (raised error) registry late task_id begun ended w = w
  execute_task (returned llm) registry late task_id begun ended w =
      execute_with_provider r env llm registry late task_id begun ended w
