-- ===== src/Scheduler/Pass/Settled.antt =====
-- How the loop of `schedule_execution` ends, and which tasks wait then.
use agentic_execution.Prelude.{
  ℕ, zero, suc, ◌<◌, ◌≡◌, inl, inr, false, some, arith, any, all, filter, find, All, All-filter,
  All-to_filter,
}
use agentic_execution.Models.{get_task, tasks_of}
use agentic_execution.Models.Keys.{is_task, HasKeys, find_self}
use agentic_execution.Redis.{Redis}
use agentic_execution.World.{World, Env}
use agentic_execution.Scheduler.Finalize.{is_completed, is_failed}
use agentic_execution.Scheduler.Pass.{is_waiting, pass, passes, enough}
use agentic_execution.Scheduler.Pass.Rounds.{
  deps_of, unmarked, Progress, Blocked, visit_all-Progress, visit_all-Blocked,
}

module _ (r : Redis) (env : Env) (execution_id now : ℕ) where
  pass-Progress :
      (w : World r.State) → HasKeys w.db.tasks → Progress w (pass r env execution_id now w)
  unfolding pass
  pass-Progress w keys = visit_all-Progress r env now _ w keys

  -- With more fuel than tasks that are not marked, the loop stops because a round changed nothing.
  passes_end :
      (fuel : ℕ) (w : World r.State)
      → HasKeys w.db.tasks
      → unmarked w.db < fuel
      → let w' = passes r env fuel execution_id now w in
        HasKeys w'.db.tasks × ((pass r env execution_id now w').1 ≡ false)
  unfolding passes
  passes_end zero w keys bound = elim bound [ ]
  passes_end (suc fuel) w keys bound =
      let step = pass-Progress w keys in
      elim step.1 [
        | inl (c, less) ↦ rw (c, passes) (passes_end fuel _ step.0 (omega arith))
        | inr (c, same) ↦ rw (c, passes) (rw same (keys, c))
      ]

  quiet-Blocked :
      (w : World r.State)
      → HasKeys w.db.tasks
      → (pass r env execution_id now w).1 ≡ false
      → All (Blocked w.db) (tasks_of execution_id w.db)
  unfolding pass get_task tasks_of
  quiet-Blocked w keys quiet =
      visit_all-Blocked r env now (tasks_of execution_id w.db) w keys
        (All-filter (λ t. find (is_task t.id) w.db.tasks ≡ some t) _ w.db.tasks
          (find_self w.db.tasks keys))
        quiet

  pub passes-Blocked :
      (w : World r.State)
      → HasKeys w.db.tasks
      → let w' = passes r env (enough r env w) execution_id now w in
        ((pass r env execution_id now w').1 ≡ false)
        × All (Blocked w'.db) (tasks_of execution_id w'.db)
  unfolding enough
  passes-Blocked w keys =
      let final = passes_end (enough r env w) w keys (omega arith) in
      (final.1, quiet-Blocked _ final.0 final.1)

  -- With unique ids, the loop of schedule_execution stops because a round changed nothing, and
  -- then no PENDING task of the execution that is not enqueued has a FAILED dependency or only
  -- COMPLETED ones.
  pub passes_settle :
      (w : World r.State)
      → HasKeys w.db.tasks
      → let w' = passes r env (enough r env w) execution_id now w in
        ((pass r env execution_id now w').1 ≡ false)
        × All
            (λ t.
              (any is_failed (deps_of w'.db t) ≡ false)
              × (all is_completed (deps_of w'.db t) ≡ false))
            (filter is_waiting (tasks_of execution_id w'.db))
  passes_settle w keys =
      let (quiet, blocked) = passes-Blocked w keys in
      let w' = passes r env (enough r env w) execution_id now w in
      (quiet, All-to_filter _ is_waiting (tasks_of execution_id w'.db) blocked)
