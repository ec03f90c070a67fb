-- ===== src/Executor/Runs.antt =====
-- How far a sequential run gets.
use agentic_execution.Prelude.{
  ℕ, suc, ◌≤◌, ◌≡◌, refl, ap, ◌⊎◌, inl, inr, Bool, true, false, List, [], ◌∷◌, ◌++◌, arith, length,
  All, Text, join,
}
use agentic_execution.Enums.{TaskStatus}
use agentic_execution.Models.{Task, Db, update_tasks}
use agentic_execution.Llm.{Outcome-cases, Outcome}
use agentic_execution.Agents.{AgentOutput}
use agentic_execution.Aggregator.{TaskOutcome}
use agentic_execution.Executor.{
  RunResult, begin, succeed, fail, completed_outcome, failed_outcome, context_line, run_tasks,
  execute,
}

-- All outcomes but the last are COMPLETED, and the last is FAILED.
abbrev StopsAtFailure : List TaskOutcome → Type 0
StopsAtFailure [] = Unit → ⊥
StopsAtFailure (o ∷ []) = o.status ≡ TaskStatus.failed
StopsAtFailure (o ∷ p ∷ os) = (o.status ≡ TaskStatus.completed) × StopsAtFailure (p ∷ os)

-- What a run with the given outcomes says of itself.
abbrev pub IsFaithful : ℕ → RunResult → Type 0
IsFaithful n result =
    ((result.all_completed ≡ true)
      × (length result.outcomes ≡ n)
      × All (λ o. o.status ≡ TaskStatus.completed) result.outcomes)
    ⊎ ((result.all_completed ≡ false)
        × (length result.outcomes ≤ n)
        × StopsAtFailure result.outcomes)

more_completed :
    (n : ℕ) (o : TaskOutcome) (result : RunResult)
    → o.status ≡ TaskStatus.completed
    → IsFaithful n result
    → IsFaithful (suc n) (record result { outcomes = o ∷ result.outcomes })
more_completed n o result c (inl (b, l, a)) = inl (b, ap suc l, (c, a))
more_completed n o result c (inr (b, l, stop)) = inr (b, omega arith, stops result.outcomes stop)
  where
    stops : (os : List TaskOutcome) → StopsAtFailure os → StopsAtFailure (o ∷ os)
    stops [] h = absurd (h tt)
    stops (p ∷ os) h = (c, h)

module _ (tie_up : ℕ → Bool) (agent : Text → Text → Text → Outcome AgentOutput)
    (started finished : ℕ → ℕ) where
  run_tasks-IsFaithful :
      (context : List Text) (tasks : List Task) (db : Db)
      → IsFaithful (length tasks) (run_tasks tie_up agent started finished context tasks db).0
  unfolding run_tasks completed_outcome failed_outcome
  run_tasks-IsFaithful context [] db = inl (refl, refl, tt)
  run_tasks-IsFaithful context (task ∷ tasks) db =
      elim (Outcome-cases (agent task.agent_type task.description (join (10 ∷ 10 ∷ []) context))) [
        | inl (output, e) ↦
            rw (e, run_tasks)
              (more_completed (length tasks) (completed_outcome task output) _ refl (
                run_tasks-IsFaithful (context ++ context_line task output ∷ []) tasks (
                  succeed tie_up agent started finished task output
                    (begin tie_up agent started finished task db))))
        | inr (message, e) ↦ rw (e, run_tasks) (inr (refl, omega arith, refl))
      ]

  pub execute-IsFaithful :
      (tasks : List Task) (db : Db)
      → IsFaithful (length tasks) (execute tie_up agent started finished tasks db).0
  unfolding execute
  execute-IsFaithful tasks db = run_tasks-IsFaithful [] tasks db

  -- The executor writes to the tasks and the results alone.
  run_tasks-executions :
      (context : List Text) (tasks : List Task) (db : Db)
      → ((run_tasks tie_up agent started finished context tasks db).1.executions) ≡ db.executions
  unfolding run_tasks begin succeed fail update_tasks
  run_tasks-executions context [] db = refl
  run_tasks-executions context (task ∷ tasks) db =
      elim (Outcome-cases (agent task.agent_type task.description (join (10 ∷ 10 ∷ []) context))) [
        | inl (output, e) ↦
            rw (e, run_tasks)
              (run_tasks-executions (context ++ context_line task output ∷ []) tasks (
                succeed tie_up agent started finished task output
                  (begin tie_up agent started finished task db)))
        | inr (message, e) ↦ rw (e, run_tasks) refl
      ]

  pub execute-executions :
      (tasks : List Task) (db : Db)
      → ((execute tie_up agent started finished tasks db).1.executions) ≡ db.executions
  unfolding execute
  execute-executions tasks db = run_tasks-executions [] tasks db
