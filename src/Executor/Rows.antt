-- ===== src/Executor/Rows.antt =====
-- The rows that a sequential run (backend/app/services/executor.py) leaves.
use agentic_execution.Prelude.{
  ℕ, ◌≡◌, refl, ap, ◌∙◌, ◌⊎◌, inl, inr, Bool, true, false, ◌&&◌, some, List, [], ◌∷◌, ◌++◌, arith,
  ◌==◌, length, any, All, Text, text_eq, join,
}
use agentic_execution.Enums.{TaskStatus}
use agentic_execution.Models.{Task, TaskResult, Db, update_tasks, get_task}
use agentic_execution.Llm.{Outcome-cases, Outcome}
use agentic_execution.Agents.{AgentOutput}
use agentic_execution.Aggregator.{TaskOutcome}
use agentic_execution.Executor.{
  begin, succeed, fail, completed_outcome, failed_outcome, context_line, run_tasks, execute,
}
use agentic_execution.Executor.Runs.{IsFaithful, execute-IsFaithful}
use agentic_execution.Executor.Updates.{
  status_of, status_in, is_stored, Touches, any-appended, succeeded, Touches-succeeded,
  Touches-failed, status-succeeded, status-failed, stored-succeeded,
}

-- The tasks have rows of their own.
abbrev pub HaveRows : List Task → Db → Type 0
HaveRows [] db = Unit
HaveRows (t ∷ ts) db =
    (any (λ (u : Task). u.id == t.id) ts ≡ false)
    × ((row : Task) × (get_task t.id db ≡ some row))
    × HaveRows ts db

-- The rows of the tasks that ran show their outcomes, with a stored result for each that
-- succeeded; the rows of the others are as before.
abbrev pub Shown : List Task → List TaskOutcome → Db → Db → Type 0
Shown [] os old new = Unit
Shown (t ∷ ts) [] old new = (get_task t.id new ≡ get_task t.id old) × Shown ts [] old new
Shown (t ∷ ts) (o ∷ os) old new =
    (status_in t.id new ≡ some o.status)
    × ((o.status ≡ TaskStatus.failed) ⊎ (is_stored t.id o.output new ≡ true))
    × Shown ts os old new

-- The ids of the tasks are other ones.
abbrev Apart : ℕ → List Task → Type 0
Apart id ts = All (λ t. (t.id == id) ≡ false) ts

Apart-any : (id : ℕ) (ts : List Task) → any (λ (u : Task). u.id == id) ts ≡ false → Apart id ts
Apart-any id [] h = tt
Apart-any id (t ∷ ts) h = (ground arith, Apart-any id ts (ground arith))

HaveRows-touched :
    (id : ℕ) (ts : List Task) (old new : Db)
    → Touches id old new
    → Apart id ts
    → HaveRows ts old
    → HaveRows ts new
HaveRows-touched id [] old new touches apart h = tt
HaveRows-touched id (t ∷ ts) old new touches (other, apart) (fresh, (row, found), h) =
    (fresh, (row, touches t.id other ∙ found), HaveRows-touched id ts old new touches apart h)

Shown-touched :
    (id : ℕ) (ts : List Task) (os : List TaskOutcome) (old mid new : Db)
    → Touches id old mid
    → Apart id ts
    → Shown ts os mid new
    → Shown ts os old new
Shown-touched id [] os old mid new touches apart h = tt
Shown-touched id (t ∷ ts) [] old mid new touches (other, apart) (same, h) =
    (same ∙ touches t.id other, Shown-touched id ts [] old mid new touches apart h)
Shown-touched id (t ∷ ts) (o ∷ os) old mid new touches (other, apart) (status, stored, h) =
    (status, stored, Shown-touched id ts os old mid new touches apart h)

-- Nothing runs after a failure.
Shown-unrun :
    (id : ℕ) (ts : List Task) (old new : Db)
    → Touches id old new
    → Apart id ts
    → Shown ts [] old new
Shown-unrun id [] old new touches apart = tt
Shown-unrun id (t ∷ ts) old new touches (other, apart) =
    (touches t.id other, Shown-unrun id ts old new touches apart)

module _ (tie_up : ℕ → Bool) (agent : Text → Text → Text → Outcome AgentOutput)
    (started finished : ℕ → ℕ) where
  -- What a run does not touch: the rows of other ids, and the results that are stored.
  run-other :
      (k : ℕ) (context : List Text) (tasks : List Task) (db : Db)
      → any (λ (u : Task). u.id == k) tasks ≡ false
      → get_task k (run_tasks tie_up agent started finished context tasks db).1 ≡ get_task k db
  unfolding run_tasks
  run-other k context [] db absent = refl
  run-other k context (task ∷ tasks) db absent =
      let other : (k == task.id) ≡ false = ground arith in
      elim (Outcome-cases (agent task.agent_type task.description (join (10 ∷ 10 ∷ []) context))) [
        | inl (output, e) ↦
            rw (e, run_tasks)
              (run-other k (context ++ context_line task output ∷ []) tasks
                  (succeeded tie_up agent started finished task output db) (ground arith)
                ∙ Touches-succeeded tie_up agent started finished task output db k other)
        | inr (message, e) ↦
            rw (e, run_tasks) (Touches-failed tie_up agent started finished task message db k other)
      ]

  run-stored :
      (id : ℕ) (text : Text) (context : List Text) (tasks : List Task) (db : Db)
      → is_stored id text db ≡ true
      → is_stored id text (run_tasks tie_up agent started finished context tasks db).1 ≡ true
  unfolding run_tasks begin succeed fail update_tasks
  run-stored id text context [] db stored = stored
  run-stored id text context (task ∷ tasks) db stored =
      elim (Outcome-cases (agent task.agent_type task.description (join (10 ∷ 10 ∷ []) context))) [
        | inl (output, e) ↦
            rw (e, run_tasks)
              (run-stored id text (context ++ context_line task output ∷ []) tasks
                (succeeded tie_up agent started finished task output db)
                (any-appended (λ (r : TaskResult). r.task_id == id && text_eq r.output text)
                    db.results _
                  ∙ ground (arith, stored)))
        | inr (message, e) ↦ rw (e, run_tasks) stored
      ]

  run-Shown :
      (context : List Text) (tasks : List Task) (db : Db)
      → HaveRows tasks db
      → Shown tasks
          (run_tasks tie_up agent started finished context tasks db).0.outcomes
          db
          (run_tasks tie_up agent started finished context tasks db).1
  unfolding run_tasks completed_outcome failed_outcome
  run-Shown context [] db rows = tt
  run-Shown context (task ∷ tasks) db (fresh, (row, found), rows) =
      let apart = Apart-any task.id tasks fresh in
      elim (Outcome-cases (agent task.agent_type task.description (join (10 ∷ 10 ∷ []) context))) [
        | inl (output, e) ↦
            let mid = succeeded tie_up agent started finished task output db in
            let context' = context ++ context_line task output ∷ [] in
            let touches = Touches-succeeded tie_up agent started finished task output db in
            rw (e, run_tasks)
              (
                ap status_of (run-other task.id context' tasks mid fresh)
                    ∙ status-succeeded tie_up agent started finished task output db row found,
                inr (
                    run-stored task.id output.text context' tasks mid
                      (stored-succeeded tie_up agent started finished task output db)),
                Shown-touched task.id tasks _ db mid _ touches apart (
                    run-Shown context' tasks mid
                      (HaveRows-touched task.id tasks db mid touches apart rows)),
              )
        | inr (message, e) ↦
            rw (e, run_tasks)
              (
                status-failed tie_up agent started finished task message db row found,
                inl refl,
                Shown-unrun task.id tasks db _
                    (Touches-failed tie_up agent started finished task message db) apart,
              )
      ]

  -- With a row for each task and distinct ids, the sequential executor either completes every
  -- task, or stops at the first that fails, with all outcomes before it COMPLETED; afterwards the
  -- row of each task that ran has the status of its outcome, with a stored result of the text of
  -- the outcome if it succeeded, and the rows of the tasks that did not run are as before.
  pub execute_stops :
      (tasks : List Task) (db : Db)
      → HaveRows tasks db
      → let (result, db') = execute tie_up agent started finished tasks db in
        IsFaithful (length tasks) result × Shown tasks result.outcomes db db'
  unfolding execute
  execute_stops tasks db rows =
      (execute-IsFaithful tie_up agent started finished tasks db, run-Shown [] tasks db rows)
