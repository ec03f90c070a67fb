-- ===== src/Scheduler/Handlers/Safety.antt =====
-- The handlers among the other workers: what every interleaving keeps, they keep as they are written.
use agentic_execution.Prelude.{
  ℕ, ◌+◌, ◌≤◌, ◌≡◌, Bool, true, false, List, arith, if◌then◌else◌, filter, null, All, All-imp,
}
use mathlib.Core.List.{Memᴰ}
use agentic_execution.Models.{Task, Db}
use agentic_execution.Llm.{Outcome, LlmProvider}
use agentic_execution.Tools.{Registry}
use agentic_execution.Redis.{Redis}
use agentic_execution.World.{World, Env}
use agentic_execution.Scheduler.Finalize.{is_completed, is_failed}
use agentic_execution.Scheduler.Handlers.{execute_task, recover_stale_tasks}
use agentic_execution.Scheduler.Handlers.Steps.{execute_task-Reached, recover_stale_tasks-Reached}
use agentic_execution.Cluster.{Reach, has_result}
use agentic_execution.Cluster.Released.{needs, released}
use agentic_execution.Cluster.Order.{IsPlanned, planned, is_running, running_after_dependencies}
use agentic_execution.Cluster.Budget.{attempts_bounded}
use agentic_execution.Cluster.Results.{results_for, results_once}
use agentic_execution.Cluster.Runs.{at, Reach-trans}

-- The order of the tasks, the bound on their attempts, and the results.
pub record IsSafe (max_retries : ℕ) (db : Db) : Type 0 where
  pub order :
      All
        (λ t. All (λ d. is_completed d ≡ true) (filter (needs t) db.tasks))
        (filter is_running db.tasks)
  pub budget : All (λ t. t.attempts ≤ max_retries + (if is_failed t then 1 else 0)) db.tasks
  pub single : (id : ℕ) → results_for id db ≤ 1
  pub produced : All (λ t. has_result t.id db ≡ true) (filter is_completed db.tasks)

-- The rows that a plan commits, before any attempt and any result.
pub record IsNew (db : Db) : Type 0 where
  pub is_planned : IsPlanned db
  pub untried : All (λ t. t.attempts ≡ 0) db.tasks
  pub no_results : null db.results ≡ true

Reach-IsSafe :
    (max_retries : ℕ) {start : Db} (db : Db) (views : List (List Task)) (jobs : List ℕ)
    → IsNew start
    → Reach max_retries (planned start) (at db views jobs)
    → IsSafe max_retries db
Reach-IsSafe max_retries {start} db views jobs new r =
    let results =
      results_once max_retries {db = start} new.no_results
        (All-imp (λ t. released t ≡ false) (λ t. is_completed t ≡ false) (λ t shut. ground arith)
          start.tasks (new.is_planned.unreleased))
        r in
    record {
      order = running_after_dependencies max_retries {db = start} new.is_planned r;
      budget = attempts_bounded max_retries {db = start} new.is_planned new.untried r;
      single = results.0;
      produced = results.1;
    }

-- From a new plan on, under any interleaving and then execute_task as a whole for a job that was
-- enqueued, or recover_stale_tasks as a whole: the dependencies of a RUNNING task are COMPLETED,
-- the attempts are within their bound, and the COMPLETED tasks have one result each.
pub handlers-IsSafe :
    (r : Redis) (env : Env) (llm : LlmProvider) (provider : Outcome LlmProvider)
    (registry : Registry) (late : Bool) (task_id begun ended : ℕ) (w : World r.State)
    (views : List (List Task)) (jobs : List ℕ) {start : Db}
    → IsNew start
    → Reach env.settings.task_max_retries (planned start) (at w.db views jobs)
    → Memᴰ task_id jobs
    → IsSafe env.settings.task_max_retries
        (execute_task r env provider registry late task_id begun ended w).db
      × IsSafe env.settings.task_max_retries (recover_stale_tasks r env llm ended w).0.db
handlers-IsSafe r env llm provider registry late task_id begun ended w views jobs {start} new reach
      job =
    let run =
      execute_task-Reached r env provider registry late task_id begun ended w views jobs job in
    let repair = recover_stale_tasks-Reached r env llm ended w views jobs in
    let max_retries = env.settings.task_max_retries in
    (
      Reach-IsSafe max_retries {start = start} _ run.views run.jobs new
          (Reach-trans max_retries reach run.reach),
      Reach-IsSafe max_retries {start = start} _ repair.views repair.jobs new
          (Reach-trans max_retries reach repair.reach),
    )
