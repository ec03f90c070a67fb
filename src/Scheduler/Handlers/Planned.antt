-- ===== src/Scheduler/Handlers/Planned.antt =====
-- The rows that `plan_execution` commits are a plan that the interleaved workers may start from.
use agentic_execution.Prelude.{
  ℕ, ◌+◌, ◌<◌, ◌≡◌, refl, subst, inl, inr, Bool, true, false, ◌&&◌, some, List, [], ◌∷◌, arith,
  ◌==◌, ==_iff, Bool-cases, count, All, ℤ, pos, negsuc,
}
use agentic_execution.Enums.{ExecutionStatus}
use agentic_execution.Models.{Execution, Task, Db, get_execution}
use agentic_execution.Models.Keys.{is_task, HasKeys}
use agentic_execution.Llm.{LlmProvider, returned}
use agentic_execution.Planner.{PlannedSubtask, new_planner, plan}
use agentic_execution.Redis.{Redis}
use agentic_execution.World.{World, Env}
use agentic_execution.Scheduler.Statements.{guard_execution, stamp_started}
use agentic_execution.Scheduler.Finalize.{has_index}
use agentic_execution.Scheduler.Pass.Steps.{schedule_execution-Reached}
use agentic_execution.Scheduler.Handlers.{
  new_task, new_tasks, start_planned, plan_claimed, plan_with_provider, plan_execution,
}
use agentic_execution.Cluster.{execution}
use agentic_execution.Cluster.Runs.{Reached, one, followed}
use agentic_execution.Cluster.Released.{HasIndexes, released}
use agentic_execution.Cluster.Order.{IsPlanned, planned}

module _ (ids : ℕ → ℕ) (distinct : (i j : ℕ) → ids i ≡ ids j → i ≡ j) (e now : ℕ) where
  new_tasks-other_id :
      (m n : ℕ) (subtasks : List PlannedSubtask)
      → m < n
      → count (is_task (ids m)) (new_tasks ids e now n subtasks) ≡ 0
  unfolding new_tasks new_task
  new_tasks-other_id m n [] lt = refl
  new_tasks-other_id m n (s ∷ subtasks) lt =
      let rest = new_tasks-other_id m (n + 1) subtasks (omega arith) in
      elim (Bool-cases (ids n == ids m)) [
        | inl same ↦ absurd (grind (arith, distinct n m, ==_iff))
        | inr other ↦ rw other (omega (arith, rest))
      ]

  new_tasks-HasKeys :
      (n : ℕ) (subtasks : List PlannedSubtask) → HasKeys (new_tasks ids e now n subtasks)
  unfolding new_tasks new_task
  new_tasks-HasKeys n [] id = omega arith
  new_tasks-HasKeys n (s ∷ subtasks) id = elim (Bool-cases (ids n == id)) [
    | inl same ↦
        let none_later : count (is_task id) (new_tasks ids e now (n + 1) subtasks) ≡ 0 =
          subst (λ k. count (is_task k) (new_tasks ids e now (n + 1) subtasks) ≡ 0)
            ((==_iff (ids n) id).0 same) (new_tasks-other_id n (n + 1) subtasks (omega arith)) in
        rw same (omega (arith, none_later))
    | inr other ↦ rw other (omega (arith, new_tasks-HasKeys (n + 1) subtasks id))
  ]

  abbrev at_place : ℕ → ℤ → Task → Bool
  at_place e' i d = d.execution_id == e' && has_index i d

  new_tasks-other_index :
      (e' m n : ℕ) (subtasks : List PlannedSubtask)
      → m < n
      → count (at_place e' (pos m)) (new_tasks ids e now n subtasks) ≡ 0
  unfolding new_tasks new_task
  new_tasks-other_index e' m n [] lt = refl
  new_tasks-other_index e' m n (s ∷ subtasks) lt =
      let rest = new_tasks-other_index e' m (n + 1) subtasks (omega arith) in
      ground (arith, rest, ==_iff m n)

  new_tasks-HasIndexes :
      (n : ℕ) (subtasks : List PlannedSubtask) → HasIndexes (new_tasks ids e now n subtasks)
  unfolding new_tasks new_task
  new_tasks-HasIndexes n [] e' i = omega arith
  new_tasks-HasIndexes n (s ∷ subtasks) e' (negsuc i) =
      ground (arith, new_tasks-HasIndexes (n + 1) subtasks e' (negsuc i))
  new_tasks-HasIndexes n (s ∷ subtasks) e' (pos i) = elim (Bool-cases (i == n)) [
    | inl same ↦
        let here = (==_iff i n).0 same in
        let rest = new_tasks-other_index e' i (n + 1) subtasks (omega arith) in ground (arith, rest)
    | inr other ↦ rw other (ground (arith, new_tasks-HasIndexes (n + 1) subtasks e' (pos i)))
  ]

  new_tasks-unreleased :
      (n : ℕ) (subtasks : List PlannedSubtask)
      → All (λ t. released t ≡ false) (new_tasks ids e now n subtasks)
  unfolding new_tasks new_task
  new_tasks-unreleased n [] = tt
  new_tasks-unreleased n (s ∷ subtasks) = (refl, new_tasks-unreleased (n + 1) subtasks)

  new_tasks-IsPlanned :
      (db : Db) (subtasks : List PlannedSubtask)
      → IsPlanned (record db { tasks = new_tasks ids e now 0 subtasks })
  new_tasks-IsPlanned db subtasks = record {
    keys = new_tasks-HasKeys 0 subtasks;
    indexes = new_tasks-HasIndexes 0 subtasks;
    unreleased = new_tasks-unreleased 0 subtasks;
  }

start_planned-Reached :
    (r : Redis) (env : Env) (llm : LlmProvider) (ids : ℕ → ℕ) (execution_id now : ℕ)
    (subtasks : List PlannedSubtask) (w : World r.State) (es : List Execution)
    → w.db.tasks ≡ []
    → Reached env.settings.task_max_retries
        (planned
          (record (w.db) { executions = es; tasks = new_tasks ids execution_id now 0 subtasks }))
        (start_planned r env llm ids execution_id now subtasks w).db
unfolding start_planned guard_execution stamp_started
start_planned-Reached r env llm ids execution_id now subtasks w es empty = rw empty (
    followed env.settings.task_max_retries
      (one env.settings.task_max_retries {jobs = []} (execution _))
      (schedule_execution-Reached r env env.settings.task_max_retries execution_id now _))

-- With distinct new ids and no task in the table, where the provider can be made, plan_execution
-- wins the execution and the planner returns subtasks, the tasks it commits are a plan to start
-- from, and what it does after that is a sequence of the statements of the interleaved workers.
pub plan_execution-Reached :
    (r : Redis) (env : Env) (llm : LlmProvider) (ids : ℕ → ℕ) (execution_id now : ℕ) (e : Execution)
    (subtasks : List PlannedSubtask) (w : World r.State)
    → ((i j : ℕ) → ids i ≡ ids j → i ≡ j)
    → w.db.tasks ≡ []
    → get_execution execution_id w.db ≡ some e
    → (guard_execution execution_id now ExecutionStatus.pending ExecutionStatus.planning w.db).1
      ≡ true
    → plan env.codec llm
        (new_planner env.settings.planner_min_tasks env.settings.planner_max_tasks)
        e.user_request
      ≡ returned subtasks
    → let added : Db = record (w.db) { tasks = new_tasks ids e.id now 0 subtasks } in
      IsPlanned added
      × Reached env.settings.task_max_retries
          (planned added)
          (plan_execution r env (returned llm) ids execution_id now w).db
unfolding plan_execution plan_with_provider plan_claimed guard_execution
plan_execution-Reached r env llm ids execution_id now e subtasks w distinct empty found won plans =
    (
      new_tasks-IsPlanned ids distinct e.id now w.db subtasks,
      rw (found, plan_with_provider)
          (rw won (
            rw (plans, plan_claimed)
              (start_planned-Reached r env llm ids e.id now subtasks _ w.db.executions empty))),
    )
