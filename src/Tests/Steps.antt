-- ===== src/Tests/Steps.antt =====
-- The handlers as runs of the cluster, and a stop between the mark of a task and its job.
use agentic_execution.Prelude.{◌+◌, ◌≡◌, refl, true, false, some, List, [], ◌∷◌, arith, filter, All}
use mathlib.Core.List.{Memᴰ}
use agentic_execution.Enums.{ExecutionStatus, TaskStatus}
use agentic_execution.Models.{
  Execution, Db, get_execution, update_executions, update_tasks, update_where,
}
use agentic_execution.Models.Keys.{is_task}
use agentic_execution.Llm.{returned}
use agentic_execution.World.{World}
use agentic_execution.Planner.{PlannedSubtask, new_planner, finish_plan, after_response, plan}
use agentic_execution.Scheduler.Statements.{guard_execution, mark_enqueued}
use agentic_execution.Scheduler.Handlers.{
  stale_tasks, new_tasks, plan_execution, execute_task, recover_stale_tasks,
}
use agentic_execution.Scheduler.Handlers.Steps.{execute_task-Reached, recover_stale_tasks-Reached}
use agentic_execution.Scheduler.Handlers.Planned.{plan_execution-Reached}
use agentic_execution.Scheduler.Handlers.Recovery.{recover_stale_tasks-none_stale}
use agentic_execution.Scheduler.Finalize.{dependencies}
use agentic_execution.Scheduler.Pass.{schedule_execution}
use agentic_execution.Scheduler.Handlers.Resting.{is_resting, retrying_left_alone}
use agentic_execution.Scheduler.Handlers.Safety.{IsSafe, handlers-IsSafe}
use agentic_execution.Tests.Interleavings.{two_tasks-IsPlanned}
use agentic_execution.Cluster.{look, enqueue, Reach, here, next}
use agentic_execution.Cluster.Order.{IsPlanned, planned}
use agentic_execution.Cluster.Runs.{at, Reached}
use agentic_execution.Cluster.Lost.{is_left_behind, has_job, marked_without_job}
use agentic_execution.Routes.Schemas.{show_execution}
use agentic_execution.Routes.Schemas.Readable.{is_invalid, show_execution-valid}
use agentic_execution.Tests.Fixtures.{
  provider, execution, fresh_world, memory, env, Store, research_task, two_tasks, job_codec, answer,
  no_entries,
}

execute_task-Reached_example :
    Reached 2
      (at two_tasks [] (10 ∷ []))
      (execute_task memory env (returned provider) [] false 10 100 200 fresh_world).db
execute_task-Reached_example =
    execute_task-Reached memory env (returned provider) [] false 10 100 200 fresh_world [] (10 ∷ [])
      (Memᴰ.head refl)

-- The lease of the first task ran out.
abbrev stale_world : World Store
stale_world = record {
  db = record two_tasks {
    tasks = record research_task { status = TaskStatus.running; enqueued = true } ∷ [];
  };
  redis = no_entries;
}

recover_stale_tasks-Reached_example :
    Reached 2
      (at stale_world.db [] [])
      (recover_stale_tasks memory env provider 90000002 stale_world).0.db
recover_stale_tasks-Reached_example =
    recover_stale_tasks-Reached memory env provider 90000002 stale_world [] []

abbrev new_request : Execution
new_request = record execution { status = ExecutionStatus.pending }

abbrev unplanned : Db
unplanned = record { executions = new_request ∷ []; tasks = []; results = [] }

abbrev subtasks_of_answer : List PlannedSubtask
subtasks_of_answer =
    finish_plan job_codec provider (new_planner 2 5) new_request.user_request answer

found_request : get_execution 1 unplanned ≡ some new_request
unfolding get_execution
found_request = refl

won_request :
    (guard_execution 1 7 ExecutionStatus.pending ExecutionStatus.planning unplanned).1 ≡ true
unfolding guard_execution update_executions
won_request = refl

planned_answer :
    plan job_codec provider (new_planner 2 5) new_request.user_request ≡ returned subtasks_of_answer
unfolding plan after_response
planned_answer = refl

plan_execution-Reached_example :
    let added : Db = record unplanned {
      tasks = new_tasks (λ i. 20 + i) 1 7 0 subtasks_of_answer;
    } in
    IsPlanned added
    × Reached 2
        (planned added)
        (plan_execution memory env
          (returned provider)
          (λ i. 20 + i)
          1
          7
          (record fresh_world { db = unplanned })).db
plan_execution-Reached_example =
    plan_execution-Reached memory env provider (λ i. 20 + i) 1 7 new_request subtasks_of_answer
      (record fresh_world { db = unplanned }) (λ i j e. omega arith) refl found_request won_request
      planned_answer

marked_without_job_example :
    All (λ t. is_left_behind t ≡ true) (filter (is_task 10) (mark_enqueued 10 2 two_tasks).0.tasks)
    × (has_job 10 [] ≡ false)
marked_without_job_example =
    marked_without_job 2 10 2 two_tasks [] [] (refl, tt) refl (next here look)

recover_stale_tasks-none_stale_example :
    stale_tasks memory env provider 90000002
      (recover_stale_tasks memory env provider 90000002 stale_world).0.db
    ≡ []
recover_stale_tasks-none_stale_example =
    recover_stale_tasks-none_stale memory env provider 90000002 stale_world

abbrev resting_world : World Store
resting_world = record {
  db = record two_tasks {
    tasks = record research_task { status = TaskStatus.retrying; enqueued = true } ∷ [];
  };
  redis = no_entries;
}

retrying_left_alone_example :
    All
      (λ t. is_resting t ≡ true)
      (filter (is_task 10) (schedule_execution memory env 1 90000002 resting_world).db.tasks)
    × All
        (λ t. is_resting t ≡ true)
        (filter
          (is_task 10)
          (recover_stale_tasks memory env provider 90000002 resting_world).0.db.tasks)
retrying_left_alone_example =
    retrying_left_alone memory env provider 90000002 10 1 resting_world (refl, tt)

-- A pass has enqueued the first of the two tasks.
abbrev enqueued_world : World Store
enqueued_world = record { db = (mark_enqueued 10 1 two_tasks).0; redis = no_entries }

one_enqueued : Reach 2 (planned two_tasks) (at enqueued_world.db (two_tasks.tasks ∷ []) (10 ∷ []))
unfolding mark_enqueued update_tasks update_where dependencies
one_enqueued =
    next (next here look)
      (enqueue 1 two_tasks.tasks research_task (Memᴰ.head refl) (Memᴰ.head refl) refl refl)

handlers-IsSafe_example :
    IsSafe 2 (execute_task memory env (returned provider) [] false 10 100 200 enqueued_world).db
    × IsSafe 2 (recover_stale_tasks memory env provider 200 enqueued_world).0.db
handlers-IsSafe_example =
    handlers-IsSafe memory env provider (returned provider) [] false 10 100 200 enqueued_world
      (two_tasks.tasks ∷ []) (10 ∷ []) {start = two_tasks}
      (record { is_planned = two_tasks-IsPlanned; untried = (refl, (refl, tt)); no_results = refl })
      one_enqueued (Memᴰ.head refl)

-- The plan of the answer, of which a worker has read the rows.
show_execution-valid_example :
    is_invalid (
      show_execution 1
        (record unplanned { tasks = new_tasks (λ i. 20 + i) 1 7 0 subtasks_of_answer }))
    ≡ false
show_execution-valid_example =
    show_execution-valid 2 (λ i. 20 + i) 1 7 subtasks_of_answer (new_request ∷ []) []
      (next here look) 1
