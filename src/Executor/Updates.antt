-- ===== src/Executor/Updates.antt =====
-- What one task changes in the rows, in a sequential run (backend/app/services/executor.py).
use agentic_execution.Prelude.{
  ℕ, ◌≡◌, refl, ◌∙◌, inl, inr, Bool, true, false, ◌&&◌, ◌||◌, Option, none, some, List, [], ◌∷◌,
  ◌++◌, arith, ◌==◌, if◌then◌else◌, ==_refl, Bool-cases, any, find, Text, text_eq, text_eq_refl,
}
use agentic_execution.Enums.{TaskStatus}
use agentic_execution.Models.{Task, TaskResult, Db, update_where, update_tasks, get_task}
use agentic_execution.Llm.{Outcome}
use agentic_execution.Agents.{AgentOutput}
use agentic_execution.Executor.{begin, succeed, fail}

abbrev map_row : (Task → Task) → Option Task → Option Task
map_row f none = none
map_row f (some t) = some (f t)

find-touched :
    (id k : ℕ) (f : Task → Task) (ts : List Task)
    → ((t : Task) → (f t).id ≡ t.id)
    → find (λ t. t.id == k) (update_where (λ t. t.id == id) f ts)
      ≡ (if k == id then map_row f (find (λ t. t.id == k) ts) else find (λ t. t.id == k) ts)
unfolding update_where
find-touched id k f [] same = ground arith
find-touched id k f (x ∷ xs) same = ground (arith, same x, find-touched id k f xs same)

find-touched_twice :
    (id k : ℕ) (f g : Task → Task) (ts : List Task)
    → ((t : Task) → (f t).id ≡ t.id)
    → ((t : Task) → (g t).id ≡ t.id)
    → find (λ t. t.id == k) (update_where (λ t. t.id == id) g (update_where (λ t. t.id == id) f ts))
      ≡ (if k == id
          then map_row g (map_row f (find (λ t. t.id == k) ts))
          else find (λ t. t.id == k) ts)
find-touched_twice id k f g ts same_f same_g =
    find-touched id k g (update_where (λ t. t.id == id) f ts) same_g ∙ elim (Bool-cases (k == id)) [
      | inl hit ↦ rw (hit, find-touched id k f ts same_f, hit) refl
      | inr miss ↦ rw (miss, find-touched id k f ts same_f, miss) refl
    ]

abbrev pub status_of : Option Task → Option TaskStatus
status_of none = none
status_of (some t) = some t.status

abbrev pub status_in : ℕ → Db → Option TaskStatus
status_in id db = status_of (get_task id db)

status_of-touched_twice :
    (id : ℕ) (f g : Task → Task) (ts : List Task) (row : Task)
    → ((t : Task) → (f t).id ≡ t.id)
    → ((t : Task) → (g t).id ≡ t.id)
    → find (λ t. t.id == id) ts ≡ some row
    → status_of (
        find
          (λ t. t.id == id)
          (update_where (λ t. t.id == id) g (update_where (λ t. t.id == id) f ts)))
      ≡ some (g (f row)).status
status_of-touched_twice id f g ts row same_f same_g found =
    rw (find-touched_twice id id f g ts same_f same_g, ==_refl id, found) refl

-- The result of the task, with its text, is stored.
abbrev pub is_stored : ℕ → Text → Db → Bool
is_stored id output db =
    any (λ (r : TaskResult). r.task_id == id && text_eq r.output output) db.results

-- A change of the rows of one id.
abbrev pub Touches : ℕ → Db → Db → Type 0
Touches id old new = (k : ℕ) → (k == id) ≡ false → get_task k new ≡ get_task k old

pub any-appended :
    {A : Type 0} (p : A → Bool) (xs : List A) (y : A) → any p (xs ++ y ∷ []) ≡ (any p xs || p y)
any-appended p [] y = ground arith
any-appended p (x ∷ xs) y = ground (arith, any-appended p xs y)

module _ (tie_up : ℕ → Bool) (agent : Text → Text → Text → Outcome AgentOutput)
    (started finished : ℕ → ℕ) where
  abbrev pub succeeded : Task → AgentOutput → Db → Db
  succeeded task output db =
      succeed tie_up agent started finished task output
        (begin tie_up agent started finished task db)

  abbrev pub failed_at : Task → Text → Db → Db
  failed_at task message db =
      fail tie_up agent started finished task message (begin tie_up agent started finished task db)

  pub Touches-succeeded :
      (task : Task) (output : AgentOutput) (db : Db) → Touches task.id db (succeeded task output db)
  unfolding begin succeed update_tasks get_task
  Touches-succeeded task output db k other =
      find-touched_twice task.id k _ _ db.tasks (λ t. refl) (λ t. refl) ∙ rw other refl

  pub Touches-failed :
      (task : Task) (message : Text) (db : Db) → Touches task.id db (failed_at task message db)
  unfolding begin fail update_tasks get_task
  Touches-failed task message db k other =
      find-touched_twice task.id k _ _ db.tasks (λ t. refl) (λ t. refl) ∙ rw other refl

  pub status-succeeded :
      (task : Task) (output : AgentOutput) (db : Db) (row : Task)
      → get_task task.id db ≡ some row
      → status_in task.id (succeeded task output db) ≡ some TaskStatus.completed
  unfolding begin succeed update_tasks get_task
  status-succeeded task output db row found =
      status_of-touched_twice task.id _ _ db.tasks row (λ t. refl) (λ t. refl) found

  pub status-failed :
      (task : Task) (message : Text) (db : Db) (row : Task)
      → get_task task.id db ≡ some row
      → status_in task.id (failed_at task message db) ≡ some TaskStatus.failed
  unfolding begin fail update_tasks get_task
  status-failed task message db row found =
      status_of-touched_twice task.id _ _ db.tasks row (λ t. refl) (λ t. refl) found

  pub stored-succeeded :
      (task : Task) (output : AgentOutput) (db : Db)
      → is_stored task.id output.text (succeeded task output db) ≡ true
  unfolding begin succeed update_tasks
  stored-succeeded task output db =
      any-appended _ db.results _ ∙ ground (arith, ==_refl task.id, text_eq_refl output.text)
