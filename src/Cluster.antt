-- ===== src/Cluster.antt =====
-- The workers as an interleaving of their statements (services/scheduler.py): from the moment when
-- a plan is committed, any number of workers, reapers and scheduling passes act on the rows, each
-- statement being atomic. A worker decides by rows that it read earlier, so the rows of every
-- SELECT so far are kept: a decision may rest on any of them, however old. A job that was enqueued
-- may be delivered at any time and any number of times.
pub mod Evolution
pub mod Released
pub mod Invariant
pub mod Order
pub mod Budget
pub mod Results
pub mod Runs
pub mod Lost
use agentic_execution.Prelude.{
  ℕ, ◌+◌, ◌≤◌, ◌<◌, ◌≡◌, Bool, true, false, Option, List, ◌∷◌, ◌==◌, any, all, filter, Text,
}
use mathlib.Core.List.{Memᴰ}
use agentic_execution.Enums.{TaskStatus, pending, running, retrying, completed, failed}
use agentic_execution.Models.{Execution, Task, Db, result_of, insert_result}
use agentic_execution.Scheduler.Statements.{
  claim_task, mark_started, complete_existing, Usage, mark_completed, mark_retrying, mark_failed,
  cascade_failure, mark_enqueued,
}
use agentic_execution.Scheduler.Finalize.{dependencies, depends_or_nil, is_completed, is_failed}
use agentic_execution.Scheduler.Pass.{is_waiting}

pub record Cluster : Type 0 where
  pub db : Db
  -- what every SELECT on the tasks has returned
  pub views : List (List Task)
  -- the tasks for which a job was enqueued
  pub jobs : List ℕ

-- The tasks of the same execution in what a worker has read, and the dependencies among them.
abbrev deps_in : List Task → Task → List Task
deps_in view t =
    dependencies (filter (λ u. u.execution_id == t.execution_id) view) (depends_or_nil t.depends_on)

abbrev add_job : Bool → ℕ → List ℕ → List ℕ
add_job true id jobs = id ∷ jobs
add_job false id jobs = jobs

abbrev pub has_result : ℕ → Db → Bool
has_result id db = any (λ r. r.task_id == id) db.results

module _ (max_retries : ℕ) where
  pub data Step (s : Cluster) : Cluster → Type 0 where
    -- any SELECT on the tasks
    look : Step s (record s { views = s.db.tasks ∷ s.views })
    -- `_mark_enqueued` and `enqueue_task`, for a task that was read as ready
    enqueue :
        (now : ℕ) (view : List Task) (t : Task)
        → Memᴰ view s.views
        → Memᴰ t view
        → is_waiting t ≡ true
        → all is_completed (deps_in view t) ≡ true
        → Step s (record s {
          db = (mark_enqueued t.id now s.db).0;
          jobs = add_job (mark_enqueued t.id now s.db).1 t.id s.jobs;
        })
    -- the update for a task that was read with a failed dependency
    cascade :
        (now : ℕ) (view : List Task) (t : Task)
        → Memᴰ view s.views
        → Memᴰ t view
        → is_waiting t ≡ true
        → any is_failed (deps_in view t) ≡ true
        → Step s (record s { db = (cascade_failure t.id now s.db).0 })
    -- `_claim_task`, for a job that was delivered
    claim : (now id : ℕ) → Memᴰ id s.jobs → Step s (record s { db = (claim_task id now s.db).0 })
    start : (now id : ℕ) → Step s (record s { db = mark_started id now s.db })
    -- the short cut for a task with a result
    existing :
        (now id : ℕ)
        → has_result id s.db ≡ true
        → Step s (record s { db = complete_existing id now s.db })
    -- `_persist_success`: the insertion, and then the update
    insert : (id : ℕ) (output : Text) → Step s (record s { db = insert_result id output s.db })
    finish :
        (now id : ℕ) (duration : Option ℕ) (usage : Usage)
        → has_result id s.db ≡ true
        → Step s (record s { db = mark_completed id now duration usage s.db })
    -- `_retry_or_fail`, by the attempts of a row that was read, by a worker or by a reaper
    retry :
        (now next_at : ℕ) (error : Text) (view : List Task) (t : Task)
        → Memᴰ view s.views
        → Memᴰ t view
        → t.attempts + 1 ≤ max_retries
        → Step s (record s { db = (mark_retrying t.id now (t.attempts + 1) next_at error s.db).0 })
    give_up :
        (now : ℕ) (error : Text) (view : List Task) (t : Task)
        → Memᴰ view s.views
        → Memᴰ t view
        → max_retries < t.attempts + 1
        → Step s (record s { db = (mark_failed t.id now (t.attempts + 1) error s.db).0 })
    -- any statement on the executions
    execution : (es : List Execution) → Step s (record s { db = record (s.db) { executions = es } })

  pub data Reach (s : Cluster) : Cluster → Type 0 where
    here : Reach s s
    next : {t u : Cluster} → Reach s t → Step t u → Reach s u
