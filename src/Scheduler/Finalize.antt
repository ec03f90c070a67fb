-- ===== src/Scheduler/Finalize.antt =====
-- `_finalize`, `_outcomes` and `_dependency_context` of services/scheduler.py.
pub mod Verdict
use agentic_execution.Prelude.{
  ℕ, Bool, true, false, ◌||◌, Option, none, some, List, [], ◌∷◌, ◌++◌, map, leb, ◌==◌,
  if◌then◌else◌, length, any, filter, sum_by, null, Text, codes, join, decimal, ℤ, pos, negsuc,
}
use agentic_execution.Enums.{
  TaskStatus, pending, running, retrying, completed, failed, task_status_eq,
}
use agentic_execution.Models.{
  Execution, Task, TaskResult, Db, get_execution, tasks_of, result_of, ms_between, or_zero,
}
use agentic_execution.Aggregator.{TaskOutcome, aggregate}
use agentic_execution.Scheduler.Statements.{Totals, finalize_completed, finalize_failed}

-- `i == task.order_index`
abbrev pub has_index : ℤ → Task → Bool
has_index (pos i) task = i == task.order_index
has_index (negsuc i) task = false

-- `{t.order_index: t for t in tasks}` keeps the last task of an index.
unfoldable pub by_index : List Task → ℤ → Option Task
by_index [] i = none
by_index (t ∷ ts) i = elim (by_index ts i) [
  | some later ↦ some later
  | none ↦ if has_index i t then some t else none
]

abbrev pub depends_or_nil : Option (List ℤ) → List ℤ
depends_or_nil none = []
depends_or_nil (some ds) = ds

abbrev pub keep {ℓ} : {A : Type ℓ} → Option A → List A → List A
keep none xs = xs
keep (some x) xs = x ∷ xs

-- `[by_index[i] for i in depends_on if i in by_index]`
unfoldable pub dependencies : List Task → List ℤ → List Task
dependencies tasks [] = []
dependencies tasks (i ∷ is) = keep (by_index tasks i) (dependencies tasks is)

abbrev context_part : Task → Option TaskResult → Option Text
context_part dep none = none
context_part dep (some result) =
    if task_status_eq dep.status TaskStatus.completed
    then some (codes "[" ++ (dep.agent_type ++ (codes "] " ++ result.output)))
    else none

context_parts : Db → List Task → List Text
context_parts db [] = []
context_parts db (dep ∷ deps) =
    keep (context_part dep (result_of dep.id db)) (context_parts db deps)

pub dependency_context : Task → Db → Text
unfolding context_parts
dependency_context task db = join (10 ∷ 10 ∷ []) (
    context_parts db
      (dependencies (tasks_of task.execution_id db) (depends_or_nil task.depends_on)))

-- `sorted(tasks, key=lambda t: t.order_index)`, which is stable.
insert_by_index : Task → List Task → List Task
insert_by_index t [] = t ∷ []
insert_by_index t (u ∷ us) =
    if leb t.order_index u.order_index then t ∷ u ∷ us else u ∷ insert_by_index t us

sort_by_index : List Task → List Task
unfolding insert_by_index
sort_by_index [] = []
sort_by_index (t ∷ ts) = insert_by_index t (sort_by_index ts)

abbrev output_of : Option TaskResult → Text
output_of none = []
output_of (some r) = r.output

pub outcomes : Db → List Task → List TaskOutcome
outcomes db tasks =
    map
      (λ (task : Task). record {
        agent_type = task.agent_type;
        description = task.description;
        status = task.status;
        output = output_of (result_of task.id db);
        error = [];
      })
      (sort_by_index tasks)

-- pending, running or retrying
abbrev pub non_terminal : TaskStatus → Bool
non_terminal TaskStatus.completed = false
non_terminal TaskStatus.failed = false
non_terminal _ = true

abbrev pub is_completed : Task → Bool
is_completed t = task_status_eq t.status TaskStatus.completed

abbrev pub is_failed : Task → Bool
is_failed t = task_status_eq t.status TaskStatus.failed

-- `t.error or 'failed'`
abbrev error_or_failed : Option Text → Text
error_or_failed none = codes "failed"
error_or_failed (some []) = codes "failed"
error_or_failed (some (c ∷ s)) = c ∷ s

failure_summary : List Task → Text
failure_summary failed_tasks =
    join (codes "; ")
      (map (λ (t : Task). t.agent_type ++ (codes ": " ++ error_or_failed t.error)) failed_tasks)

abbrev pub totals : Execution → ℕ → List Task → Totals
totals execution now tasks = record {
  duration = ms_between execution.started_at now;
  total_tokens = sum_by (λ t. or_zero t.total_tokens) tasks;
  cost_usd = sum_by (λ t. or_zero t.cost_usd) tasks;
}

finalize_with : Execution → ℕ → List Task → Db → Db
unfolding failure_summary
finalize_with execution now tasks db =
    if length (filter is_completed tasks) == length tasks
    then finalize_completed execution.id now (aggregate (outcomes db tasks))
        (totals execution now tasks) db
    else let failed_tasks = filter is_failed tasks in
      finalize_failed execution.id now
        (decimal (length failed_tasks)
          ++ (codes " task(s) failed: " ++ failure_summary failed_tasks))
        (totals execution now tasks) db

pub finalize : ℕ → ℕ → Db → Db
finalize execution_id now db = elim (get_execution execution_id db) [
  | none ↦ db
  | some execution ↦
      let tasks = tasks_of execution_id db in
      if null tasks || any (λ t. non_terminal t.status) tasks
      then db
      else finalize_with execution now tasks db
]
