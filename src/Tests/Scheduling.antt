-- ===== src/Tests/Scheduling.antt =====
-- The scheduling theorems at two tasks, the second of which waits for the first.
use agentic_execution.Prelude.{◌≡◌, refl, ◌⊎◌, true, false, some, any, all, filter, All}
use agentic_execution.Enums.{ExecutionStatus}
use agentic_execution.Models.{Execution, tasks_of, get_execution}
use agentic_execution.Scheduler.Finalize.{is_completed, is_failed, finalize}
use agentic_execution.Scheduler.Finalize.Verdict.{finalize_lem, completed_row}
use agentic_execution.Scheduler.Pass.{is_waiting, pass, passes, enough, schedule_execution}
use agentic_execution.Scheduler.Pass.Rounds.{deps_of}
use agentic_execution.Scheduler.Pass.Settled.{passes_settle}
use agentic_execution.Scheduler.Pass.Liveness.{in_motion, schedule_execution-live}
use agentic_execution.Tests.Fixtures.{
  memory, env, execution, fresh_world, two_tasks-HasKeys, done_tasks,
}

passes_settle_example :
    let w' = passes memory env (enough memory env fresh_world) 1 7 fresh_world in
    ((pass memory env 1 7 w').1 ≡ false)
    × All
        (λ t.
          (any is_failed (deps_of w'.db t) ≡ false) × (all is_completed (deps_of w'.db t) ≡ false))
        (filter is_waiting (tasks_of 1 w'.db))
passes_settle_example = passes_settle memory env 1 7 fresh_world two_tasks-HasKeys

schedule_execution-live_example :
    let w' = schedule_execution memory env 1 7 fresh_world in
    (any in_motion (tasks_of 1 w'.db) ≡ true)
    ⊎ ((e' : Execution) × (get_execution 1 w'.db ≡ some e')
        × ((e'.status ≡ ExecutionStatus.completed) ⊎ (e'.status ≡ ExecutionStatus.failed)))
unfolding get_execution tasks_of
schedule_execution-live_example =
    schedule_execution-live memory env 1 7 fresh_world execution two_tasks-HasKeys refl refl refl
      (tt, ((refl, tt), tt))

found_execution : get_execution 1 done_tasks ≡ some execution
unfolding get_execution
found_execution = refl

finalize_lem_example :
    (get_execution 1 (finalize 1 7 done_tasks)
      ≡ some (completed_row 1 7 done_tasks execution found_execution))
    × ((finalize 1 7 done_tasks).tasks ≡ done_tasks.tasks)
unfolding tasks_of
finalize_lem_example = finalize_lem 1 7 done_tasks execution found_execution
