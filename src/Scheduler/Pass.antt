-- ===== src/Scheduler/Pass.antt =====
-- `schedule_execution` of services/scheduler.py. Loaded tasks are the session's objects, which each
-- ORM update keeps equal to their rows, so an attribute is read from the row as it is then.
pub mod Rounds
pub mod Settled
pub mod Invariants
pub mod Liveness
pub mod Steps
use agentic_execution.Prelude.{
  ℕ, zero, suc, Bool, true, false, not, ◌&&◌, ◌||◌, none, some, List, [], ◌∷◌, map, ◌==◌,
  if◌then◌else◌, any, all, count,
}
use agentic_execution.Enums.{TaskStatus, pending, task_status_eq}
use agentic_execution.Models.{Task, Db, get_task, get_execution, tasks_of}
use agentic_execution.Redis.{Redis}
use agentic_execution.JobQueue.{enqueue_task}
use agentic_execution.World.{World, Env}
use agentic_execution.Scheduler.Statements.{cascade_failure, mark_enqueued}
use agentic_execution.Scheduler.Finalize.{
  dependencies, depends_or_nil, is_completed, is_failed, finalize,
}

-- `task.status != PENDING or task.enqueued` where false
abbrev pub is_waiting : Task → Bool
is_waiting t = task_status_eq t.status TaskStatus.pending && not t.enqueued

module _ (r : Redis) (env : Env) where
  pub cascade : ℕ → Task → World r.State → World r.State × Bool
  cascade now task w =
      let (db', rows) = cascade_failure task.id now w.db in (record w { db = db' }, not (rows == 0))

  enqueue_ready : ℕ → Task → World r.State → World r.State × Bool
  enqueue_ready now task w =
      let (db', marked) = mark_enqueued task.id now w.db in
      if marked
      then (record w { db = db'; redis = enqueue_task r env.codec task.id w.redis }, true)
      else (record w { db = db' }, false)

  -- The body of the loop over the tasks: the new world, and whether it changed.
  visit_task : ℕ → Task → World r.State → World r.State × Bool
  visit_task now task w =
      let deps = dependencies (tasks_of task.execution_id w.db) (depends_or_nil task.depends_on) in
      if not (is_waiting task)
      then (w, false)
      else if any is_failed deps
      then cascade now task w
      else if all is_completed deps
      then enqueue_ready now task w
      else (w, false)

  visit : ℕ → ℕ → World r.State → World r.State × Bool
  visit now id w = elim (get_task id w.db) [ none ↦ (w, false) | some task ↦ visit_task now task w ]

  pub visit_all : ℕ → List ℕ → World r.State → World r.State × Bool
  visit_all now [] w = (w, false)
  visit_all now (id ∷ ids) w =
      let (w', here) = visit now id w in
      let (w'', later) = visit_all now ids w' in (w'', here || later)

  -- One round of the `while` loop.
  pub pass : ℕ → ℕ → World r.State → World r.State × Bool
  pass execution_id now w = visit_all now (map (λ (t : Task). t.id) (tasks_of execution_id w.db)) w

  pub passes : ℕ → ℕ → ℕ → World r.State → World r.State
  passes zero execution_id now w = w
  passes (suc fuel) execution_id now w =
      let (w', changed) = pass execution_id now w in
      elim changed [ true ↦ passes fuel execution_id now w' | false ↦ w' ]

  -- Every round that changes something marks a task that was not marked `enqueued`.
  pub enough : World r.State → ℕ
  enough w = suc (count (λ t. not t.enqueued) w.db.tasks)

  pub schedule_execution : ℕ → ℕ → World r.State → World r.State
  schedule_execution execution_id now w = elim (get_execution execution_id w.db) [
    | none ↦ w
    | some _ ↦
        let w' = passes (enough w) execution_id now w in
        record w' { db = finalize execution_id now w'.db }
  ]
