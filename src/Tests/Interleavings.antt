-- ===== src/Tests/Interleavings.antt =====
-- A short run of the cluster: a pass reads the two tasks and enqueues the first, a worker runs it,
-- another pass enqueues the second, and a worker starts it.
use agentic_execution.Prelude.{
  ℕ, ◌+◌, ◌≤◌, ◌≡◌, refl, true, none, some, [], ◌∷◌, arith, if◌then◌else◌, filter, All, codes, pos,
  negsuc,
}
use mathlib.Core.List.{Memᴰ}
use agentic_execution.Enums.{TaskStatus}
use agentic_execution.Models.{Task, insert_result, result_of, update_where, update_tasks}
use agentic_execution.Models.Updates.{Rows}
use agentic_execution.Scheduler.Statements.{Usage, claim_task, mark_completed, mark_enqueued}
use agentic_execution.Scheduler.Finalize.{dependencies, by_index, is_completed, is_failed}
use agentic_execution.Cluster.{
  Cluster, look, enqueue, claim, insert, finish, Reach, here, next, has_result,
}
use agentic_execution.Cluster.Evolution.{Moves, Endures, Step-Moves, Reach-Endures}
use agentic_execution.Cluster.Released.{needs, HasIndexes}
use agentic_execution.Cluster.Order.{IsPlanned, planned, is_running, running_after_dependencies}
use agentic_execution.Cluster.Budget.{attempts_bounded}
use agentic_execution.Cluster.Results.{results_for, results_once}
use agentic_execution.Tests.Fixtures.{research_task, summary_task, two_tasks, two_tasks-HasKeys}

two_tasks-HasIndexes : HasIndexes two_tasks.tasks
two_tasks-HasIndexes e (pos i) = ground arith
two_tasks-HasIndexes e (negsuc i) = ground arith

pub two_tasks-IsPlanned : IsPlanned two_tasks
two_tasks-IsPlanned = record {
  keys = two_tasks-HasKeys;
  indexes = two_tasks-HasIndexes;
  unreleased = (refl, (refl, tt));
}

abbrev usage : Usage
usage = record { total_tokens = 20; cost_usd = 3; tool_calls = 1 }

-- What the second pass reads: the first task is COMPLETED.
abbrev view_after : Task
view_after = record research_task {
  status = TaskStatus.completed;
  enqueued = true;
  completed_at = some 3;
  duration_ms = some 1;
  total_tokens = some 20;
  cost_usd = some 3;
  tool_calls = 1;
  updated_at = 3;
  error = none;
}

trace : (s : Cluster) × Reach 2 (planned two_tasks) s
unfolding dependencies by_index mark_enqueued claim_task insert_result mark_completed result_of
    update_where update_tasks
trace = (
  _,
  next
      (next
        (next
          (next
            (next
              (next
                (next (next here look) (
                  enqueue 1 two_tasks.tasks research_task (Memᴰ.head refl) (Memᴰ.head refl) refl
                    refl))
                (claim 2 10 (Memᴰ.head refl)))
              (insert 10 (codes "facts")))
            (finish 3 10 (some 1) usage refl))
          look)
        (enqueue 4 (view_after ∷ summary_task ∷ []) summary_task (Memᴰ.head refl)
          (Memᴰ.tail (Memᴰ.head refl)) refl refl))
      (claim 5 11 (Memᴰ.head refl)),
)

Step-Moves_example : Rows Moves two_tasks.tasks (claim_task 10 2 two_tasks).0.tasks
Step-Moves_example =
    Step-Moves 2 {s = record (planned two_tasks) { jobs = 10 ∷ [] }} (claim 2 10 (Memᴰ.head refl))

Reach-Endures_example : Rows Endures two_tasks.tasks trace.0.db.tasks
Reach-Endures_example = Reach-Endures 2 (trace.1)

running_after_dependencies_example :
    All
      (λ t. All (λ d. is_completed d ≡ true) (filter (needs t) trace.0.db.tasks))
      (filter is_running trace.0.db.tasks)
running_after_dependencies_example =
    running_after_dependencies 2 {db = two_tasks} two_tasks-IsPlanned (trace.1)

attempts_bounded_example :
    All (λ t. t.attempts ≤ 2 + (if is_failed t then 1 else 0)) trace.0.db.tasks
attempts_bounded_example =
    attempts_bounded 2 {db = two_tasks} two_tasks-IsPlanned (refl, (refl, tt)) (trace.1)

results_once_example :
    ((id : ℕ) → results_for id trace.0.db ≤ 1)
    × All (λ t. has_result t.id trace.0.db ≡ true) (filter is_completed trace.0.db.tasks)
results_once_example = results_once 2 {db = two_tasks} refl (refl, (refl, tt)) (trace.1)
