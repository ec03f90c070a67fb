-- ===== src/Routes/Schemas/Readable.antt =====
-- That the rows which the workers write can be read as the schemas of backend/app/schemas want.
use agentic_execution.Prelude.{
  ℕ, ◌+◌, ◌≡◌, refl, inl, inr, Bool, true, false, Option, none, some, List, [], ◌∷◌, leb,
  Bool-cases, Option-cases, All, All-filter, text_eq,
}
use mathlib.Core.Bool.{false≢true}
use agentic_execution.Enums.{AgentType, agent_type_value, known_agent_types, lookup_agent}
use agentic_execution.Models.{Execution, Task, TaskResult, Db, get_execution, tasks_of}
use agentic_execution.Models.Updates.{update_where-All}
use agentic_execution.Planner.{PlannedSubtask}
use agentic_execution.Scheduler.Statements.{
  claim_task, mark_started, complete_existing, mark_completed, mark_retrying, mark_failed,
  cascade_failure, mark_enqueued,
}
use agentic_execution.Scheduler.Handlers.{new_tasks}
use agentic_execution.Cluster.{
  Cluster, Step, look, enqueue, cascade, claim, start, existing, insert, finish, retry, give_up,
  execution, Reach, here, next,
}
use agentic_execution.Cluster.Evolution.{insert_result-tasks}
use agentic_execution.Cluster.Order.{planned}
use agentic_execution.Routes.{insert_by_order, by_order}
use agentic_execution.Routes.Schemas.{
  task_read, tasks_read, execution_read, Shown, found, missing, invalid, show_execution,
}

abbrev is_there {ℓ} : {A : Type ℓ} → Option A → Bool
is_there none = false
is_there (some x) = true

-- The agent type of the row is one of the values.
abbrev Known : Task → Type 0
Known t = is_there (lookup_agent t.agent_type known_agent_types) ≡ true

module _ (max_retries : ℕ) where
  Step-Known :
      {s s' : Cluster} → Step max_retries s s' → All Known s.db.tasks → All Known s'.db.tasks
  unfolding mark_enqueued cascade_failure claim_task mark_started complete_existing mark_completed
      mark_retrying mark_failed
  Step-Known look h = h
  Step-Known {s} (enqueue now v t vm m waits ready) h =
      update_where-All Known _ _ s.db.tasks (λ x hit k. k) h
  Step-Known {s} (cascade now v t vm m waits broken) h =
      update_where-All Known _ _ s.db.tasks (λ x hit k. k) h
  Step-Known {s} (claim now id job) h = update_where-All Known _ _ s.db.tasks (λ x hit k. k) h
  Step-Known {s} (start now id) h = update_where-All Known _ _ s.db.tasks (λ x hit k. k) h
  Step-Known {s} (existing now id res) h = update_where-All Known _ _ s.db.tasks (λ x hit k. k) h
  Step-Known {s} (insert id output) h = rw (insert_result-tasks id output s.db) h
  Step-Known {s} (finish now id duration usage res) h =
      update_where-All Known _ _ s.db.tasks (λ x hit k. k) h
  Step-Known {s} (retry now next_at error v t vm m left) h =
      update_where-All Known _ _ s.db.tasks (λ x hit k. k) h
  Step-Known {s} (give_up now error v t vm m spent) h =
      update_where-All Known _ _ s.db.tasks (λ x hit k. k) h
  Step-Known (execution es) h = h

  Reach-Known :
      {s s' : Cluster} → Reach max_retries s s' → All Known s.db.tasks → All Known s'.db.tasks
  Reach-Known here h = h
  Reach-Known (next r st) h = Step-Known st (Reach-Known r h)

new_tasks-Known :
    (ids : ℕ → ℕ) (execution_id now n : ℕ) (subtasks : List PlannedSubtask)
    → All Known (new_tasks ids execution_id now n subtasks)
unfolding new_tasks lookup_agent text_eq
new_tasks-Known ids execution_id now n [] = tt
new_tasks-Known ids execution_id now n (s ∷ subtasks) =
    (value_known s.agent_type, new_tasks-Known ids execution_id now (n + 1) subtasks)
  where
    value_known :
        (a : AgentType) → is_there (lookup_agent (agent_type_value a) known_agent_types) ≡ true
    value_known AgentType.research = refl
    value_known AgentType.analysis = refl
    value_known AgentType.summarization = refl

insert_by_order-All :
    (P : Task → Type 0) (t : Task) (ts : List Task) → P t → All P ts → All P (insert_by_order t ts)
unfolding insert_by_order
insert_by_order-All P t [] p h = (p, tt)
insert_by_order-All P t (u ∷ us) p h = elim (Bool-cases (leb t.order_index u.order_index)) [
  | inl e ↦ rw e (p, h)
  | inr e ↦ rw e (h.0, insert_by_order-All P t us p h.1)
]

by_order-All : (P : Task → Type 0) (ts : List Task) → All P ts → All P (by_order ts)
unfolding by_order
by_order-All P [] h = tt
by_order-All P (t ∷ ts) h = insert_by_order-All P t (by_order ts) h.0 (by_order-All P ts h.1)

task_read-there : (db : Db) (t : Task) → Known t → is_there (task_read db t) ≡ true
unfolding task_read
task_read-there db t k = elim (Option-cases (lookup_agent t.agent_type known_agent_types)) [
  | inl e ↦ absurd (false≢true (rw e at k))
  | inr (a, e) ↦ rw (e, task_read) refl
]

tasks_read-there : (db : Db) (ts : List Task) → All Known ts → is_there (tasks_read db ts) ≡ true
unfolding tasks_read lookup_agent text_eq
tasks_read-there db [] h = refl
tasks_read-there db (t ∷ ts) h =
    let first = task_read-there db t h.0 in
    let rest = tasks_read-there db ts h.1 in
    elim (Option-cases (task_read db t)) [
      | inl e ↦ absurd (false≢true (rw e at first))
      | inr (a, e) ↦ elim (Option-cases (tasks_read db ts)) [
        | inl f ↦ absurd (false≢true (rw f at rest))
        | inr (as', f) ↦ rw (e, f) refl
      ]
    ]

abbrev pub is_invalid : Shown → Bool
is_invalid (found read) = false
is_invalid missing = false
is_invalid invalid = true

-- From the tasks of a plan on, under any interleaving, GET of an execution is answered by its data
-- or by 404: no row of a task fails the validation of the schema.
pub show_execution-valid :
    (max_retries : ℕ) (ids : ℕ → ℕ) (execution_id now : ℕ) (subtasks : List PlannedSubtask)
    (executions : List Execution) (results : List TaskResult) {s : Cluster}
    → Reach max_retries
        (planned (record {
          executions = executions;
          tasks = new_tasks ids execution_id now 0 subtasks;
          results = results;
        }))
        s
    → (id : ℕ) → is_invalid (show_execution id s.db) ≡ false
unfolding show_execution execution_read tasks_of
show_execution-valid max_retries ids execution_id now subtasks executions results {s} r id =
    let known = Reach-Known max_retries r (new_tasks-Known ids execution_id now 0 subtasks) in
    elim (Option-cases (get_execution id s.db)) [
      | inl e ↦ rw (e, show_execution) refl
      | inr (x, e) ↦
          let siblings = tasks_of x.id s.db in
          let there =
            tasks_read-there s.db (by_order siblings)
              (by_order-All Known siblings (All-filter Known _ s.db.tasks known)) in
          elim (Option-cases (tasks_read s.db (by_order siblings))) [
            | inl f ↦ absurd (false≢true (rw f at there))
            | inr (reads, f) ↦ rw (e, show_execution) (rw (f, execution_read) refl)
          ]
    ]
