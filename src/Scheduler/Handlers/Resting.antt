-- ===== src/Scheduler/Handlers/Resting.antt =====
-- What a stop between the commit of RETRYING and `schedule_task` leaves behind: a task that waits
-- for a retry and is in no queue.
use agentic_execution.Prelude.{
  ℕ, ◌≡◌, subst, Bool, true, ◌&&◌, List, [], ◌∷◌, arith, ◌==◌, filter, All, All-to_filter,
  All-from_filter,
}
use agentic_execution.Enums.{TaskStatus, task_status_eq}
use agentic_execution.Models.{Task}
use agentic_execution.Models.Keys.{is_task}
use agentic_execution.Llm.{LlmProvider}
use agentic_execution.Redis.{Redis}
use agentic_execution.World.{World, Env}
use agentic_execution.Models.Updates.{update_where-All}
use agentic_execution.Scheduler.Statements.{cascade_failure, mark_enqueued}
use agentic_execution.Scheduler.Pass.{schedule_execution}
use agentic_execution.Scheduler.Pass.Invariants.{IsKept, schedule_execution_kept}
use agentic_execution.Scheduler.Retry.Released.{retry_or_fail_kept}
use agentic_execution.Scheduler.Handlers.{recover_each, schedule_each, recover_stale_tasks}

-- RETRYING, and marked as enqueued.
abbrev pub is_resting : Task → Bool
is_resting t = task_status_eq t.status TaskStatus.retrying && t.enqueued

module _ (r : Redis) (env : Env) (llm : LlmProvider) (now id : ℕ) where
  abbrev Rests : Task → Type 0
  Rests t = is_task id t ≡ true → is_resting t ≡ true

  recover_each-Rests :
      (ts : List Task) (w : World r.State)
      → All Rests w.db.tasks
      → All Rests (recover_each r env llm now ts w).db.tasks
  unfolding recover_each
  recover_each-Rests [] w h = h
  recover_each-Rests (u ∷ ts) w h = recover_each-Rests ts _ (
      retry_or_fail_kept r env now u _ w Rests
        (λ t t' same runs rests mine.
          let resting = rests (subst (λ k. k == id ≡ true) same mine) in absurd (ground arith))
        h)

  Rests-kept : IsKept now (λ db. All Rests db.tasks)
  unfolding cascade_failure mark_enqueued
  Rests-kept = record {
    by_cascade = λ k db h.
        update_where-All Rests _ _ db.tasks
          (λ t hit rests mine. let resting = rests mine in absurd (ground arith)) h;
    by_mark = λ k db h.
        update_where-All Rests _ _ db.tasks
          (λ t hit rests mine. let resting = rests mine in absurd (ground arith)) h;
  }

  schedule_each-Rests :
      (ids : List ℕ) (w : World r.State)
      → All Rests w.db.tasks
      → All Rests (schedule_each r env llm now ids w).db.tasks
  unfolding schedule_each
  schedule_each-Rests [] w h = h
  schedule_each-Rests (k ∷ ids) w h =
      schedule_each-Rests ids _ (schedule_execution_kept r env now (All Rests) Rests-kept k w h)

  -- Where the rows of a task are RETRYING and marked as enqueued, they stay so through
  -- schedule_execution, and through recover_stale_tasks, whether or not the task is in a queue.
  pub retrying_left_alone :
      (execution_id : ℕ) (w : World r.State)
      → All (λ t. is_resting t ≡ true) (filter (is_task id) w.db.tasks)
      → All
          (λ t. is_resting t ≡ true)
          (filter (is_task id) (schedule_execution r env execution_id now w).db.tasks)
        × All
            (λ t. is_resting t ≡ true)
            (filter (is_task id) (recover_stale_tasks r env llm now w).0.db.tasks)
  unfolding recover_stale_tasks
  retrying_left_alone execution_id w h =
      let before : All Rests w.db.tasks =
        All-from_filter (λ t. is_resting t ≡ true) (is_task id) w.db.tasks h in
      (
        All-to_filter (λ t. is_resting t ≡ true) (is_task id) _
            (schedule_execution_kept r env now (All Rests) Rests-kept execution_id w before),
        All-to_filter (λ t. is_resting t ≡ true) (is_task id) _
            (schedule_each-Rests _ _ (recover_each-Rests _ w before)),
      )
