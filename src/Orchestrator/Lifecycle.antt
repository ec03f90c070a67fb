-- ===== src/Orchestrator/Lifecycle.antt =====
-- How an inline execution ends.
use agentic_execution.Prelude.{
  ℕ, ◌≡◌, refl, sym, subst, ◌⊎◌, inl, inr, some, List, [], ◌∷◌, ◌++◌, arith, ◌==◌, ==_iff,
  Bool-cases, find, Text,
}
use agentic_execution.Enums.{ExecutionStatus}
use agentic_execution.Models.{
  Execution, Db, update_where, update_executions, get_execution, tasks_of,
}
use agentic_execution.Llm.{Outcome-cases, Outcome, returned, raised, LlmProvider}
use agentic_execution.Tools.{Registry}
use agentic_execution.Aggregator.{aggregate}
use agentic_execution.Planner.{PlannedSubtask, new_planner, plan}
use agentic_execution.Executor.{RunResult, execute}
use agentic_execution.Executor.Runs.{execute-executions}
use agentic_execution.Models.Updates.{find_holds}
use agentic_execution.Scheduler.Handlers.{new_tasks}
use agentic_execution.Agents.{run_agent}
use agentic_execution.World.{Env}
use agentic_execution.Orchestrator.{
  Clock, is_execution, write, set_execution_status, fail_execution, conclude, run_planned,
  plan_and_run, run_execution, failing, with_status, with_totals, with_verdict,
}

-- COMPLETED with a result, or FAILED with an error.
abbrev pub Settled : Execution → Type 0
Settled e =
    ((e.status ≡ ExecutionStatus.completed) × ((s : Text) × (e.final_result ≡ some s)))
    ⊎ ((e.status ≡ ExecutionStatus.failed) × ((s : Text) × (e.error ≡ some s)))

-- The row of the execution is there and has the property.
abbrev pub Holds : (Execution → Type 0) → ℕ → Db → Type 0
Holds P id db = (e : Execution) × (get_execution id db ≡ some e) × P e

abbrev Present : ℕ → Db → Type 0
Present = Holds (λ e. Unit)

find-write :
    (id : ℕ) (f : Execution → Execution) (es : List Execution) {e : Execution}
    → ((x : Execution) → (f x).id ≡ x.id)
    → find (is_execution id) es ≡ some e
    → find (is_execution id) (update_where (is_execution id) f es) ≡ some (f e)
unfolding update_where
find-write id f [] same found = cc
find-write id f (x ∷ xs) {e} same found = elim (Bool-cases (x.id == id)) [
  | inl b ↦ ground (arith, same x)
  | inr b ↦ ground (arith, find-write id f xs {e = e} same)
]

write-Holds :
    (P : Execution → Type 0) (id : ℕ) (f : Execution → Execution) (db : Db)
    → ((x : Execution) → (f x).id ≡ x.id)
    → ((x : Execution) → P (f x))
    → Present id db
    → Holds P id (write id f db)
unfolding get_execution update_executions
write-Holds P id f db same holds (e, found, _) =
    (f e, find-write id f db.executions {e = e} same found, holds e)

Present-same :
    (id : ℕ) (db db' : Db) → db'.executions ≡ db.executions → Present id db → Present id db'
unfolding get_execution
Present-same id db db' same (e, found, u) = (e, rw same found, u)

verdict-Settled :
    (result : RunResult) (now : ℕ) (e : Execution) → Settled (with_verdict result now e)
verdict-Settled result now e = elim (Bool-cases result.all_completed) [
  | inl b ↦ rw b (inl (refl, (aggregate result.outcomes, refl)))
  | inr b ↦ rw b (inr (refl, (_, refl)))
]

conclude-Settled :
    (id now : ℕ) (result : RunResult) (db : Db)
    → Present id db
    → Holds Settled id (conclude id now result db)
unfolding conclude
conclude-Settled id now result db =
    write-Holds Settled id (λ e. with_verdict result now (with_totals (tasks_of id db) now e)) db
      (λ x. ground arith) (λ x. verdict-Settled result now (with_totals (tasks_of id db) now x))

fail_execution-Settled :
    (id now : ℕ) (error : Text) (db : Db)
    → Present id db
    → Holds Settled id (fail_execution id now error db)
unfolding fail_execution
fail_execution-Settled id now error db =
    write-Holds Settled id (failing error now) db (λ x. refl) (λ x. inr (refl, (error, refl)))

set_status-Present :
    (id : ℕ) (status : ExecutionStatus) (now : ℕ) (db : Db)
    → Present id db
    → Present id (set_execution_status id status now db)
unfolding set_execution_status
set_status-Present id status now db =
    write-Holds (λ e. Unit) id (with_status status now) db (λ x. refl) (λ x. tt)

module _ (env : Env) (registry : Registry) (llm : LlmProvider) (ids : ℕ → ℕ) (clock : Clock) where
  run_planned-Settled :
      (id : ℕ) (subtasks : List PlannedSubtask) (db : Db)
      → Present id db
      → Holds Settled id (run_planned env registry llm ids clock id subtasks db)
  unfolding run_planned get_execution
  run_planned-Settled id subtasks db present =
      let tasks = new_tasks ids id clock.planning_at 0 subtasks in
      let added = record db { tasks = db.tasks ++ tasks } in
      let start = λ (e : Execution).
        with_status ExecutionStatus.running clock.running_at
          (record e { started_at = some clock.running_at }) in
      let agent = run_agent env.settings registry env.tool_timeout llm in
      let begun = write id start added in
      let ran = execute env.tie_up agent clock.started clock.finished tasks begun in
      conclude-Settled id clock.ended_at ran.0 ran.1 (
        Present-same id begun ran.1
          (execute-executions env.tie_up agent clock.started clock.finished tasks begun)
          (write-Holds (λ e. Unit) id start added (λ x. refl) (λ x. tt) present))

  plan_and_run-Settled :
      (execution : Execution) (db : Db)
      → Present execution.id db
      → Holds Settled execution.id (plan_and_run env registry llm ids clock execution db)
  unfolding plan_and_run
  plan_and_run-Settled execution db present =
      let planner = new_planner env.settings.planner_min_tasks env.settings.planner_max_tasks in
      let set =
        set_status-Present execution.id ExecutionStatus.planning clock.planning_at db present in
      elim (Outcome-cases (plan env.codec llm planner execution.user_request)) [
        | inl (subtasks, e) ↦ rw (e, plan_and_run) (run_planned-Settled execution.id subtasks _ set)
        | inr (error, e) ↦
            rw (e, plan_and_run) (fail_execution-Settled execution.id clock.ended_at error _ set)
      ]

-- An execution that is in the database is COMPLETED with a result or FAILED with an error when the
-- inline run returns, whatever the provider, the planner and the agents do.
pub run_execution-Settled :
    (env : Env) (registry : Registry) (llm : Outcome LlmProvider) (ids : ℕ → ℕ) (clock : Clock)
    → (id : ℕ) (db : Db) {e : Execution} → get_execution id db ≡ some e
    → Holds Settled id (run_execution env registry llm ids clock id db)
unfolding run_execution get_execution
run_execution-Settled env registry (raised error) ids clock id db {e} found =
    fail_execution-Settled id clock.ended_at error db (e, found, tt)
run_execution-Settled env registry (returned llm) ids clock id db {e} found =
    let same = (==_iff e.id id).0 (find_holds (is_execution id) db.executions {t = e} found) in
    rw (found, run_execution)
      (subst (λ n. Holds Settled n (plan_and_run env registry llm ids clock e db)) same
        (plan_and_run-Settled env registry llm ids clock e db
          (e, subst (λ n. get_execution n db ≡ some e) (sym same) found, tt)))
