-- ===== src/Scheduler/Finalize/Verdict.antt =====
-- How `_finalize` ends an execution.
use agentic_execution.Prelude.{
  ℕ, ◌≤◌, ◌≡◌, refl, sym, ap, subst, inl, inr, Bool, true, false, not, ◌&&◌, ◌||◌, Option, none,
  some, List, [], ◌∷◌, ◌++◌, map, arith, ◌==◌, if◌then◌else◌, Bool-cases, length, any, all, filter,
  find, count, sum_by, null, Text, codes, join, decimal,
}
use agentic_execution.Enums.{ExecutionStatus, execution_status_eq}
use agentic_execution.Models.{
  Execution, Task, Db, get_execution, tasks_of, update_where, ms_between, or_zero,
}
use agentic_execution.Aggregator.{aggregate}
use agentic_execution.Scheduler.Statements.{
  as_completed, as_failed, finalize_completed, finalize_failed,
}
use agentic_execution.Scheduler.Finalize.{
  is_completed, is_failed, non_terminal, outcomes, totals, failure_summary, error_or_failed,
  finalize_with, finalize,
}

abbrev pub is_execution : ℕ → Execution → Bool
is_execution id e = e.id == id

-- An update of the row with an id, guarded, as it shows in `db.get(Execution, id)`.
find-update_execution :
    (id : ℕ) (g : Execution → Bool) (f : Execution → Execution) (es : List Execution)
    {e : Execution}
    → ((x : Execution) → (f x).id ≡ x.id)
    → find (is_execution id) es ≡ some e
    → find (is_execution id) (update_where (λ (x : Execution). x.id == id && g x) f es)
      ≡ some (if g e then f e else e)
unfolding update_where
find-update_execution id g f [] same found = cc
find-update_execution id g f (x ∷ xs) {e} same found = elim (Bool-cases (x.id == id)) [
  | inl hit ↦ ground (arith, same x)
  | inr miss ↦ ground (arith, find-update_execution id g f xs {e = e} same (rw miss at found))
]

find-id :
    (id : ℕ) (es : List Execution) {e : Execution} → find (is_execution id) es ≡ some e → e.id ≡ id
find-id id [] h = cc
find-id id (x ∷ xs) {e} h = elim (Bool-cases (x.id == id)) [
  | inl hit ↦ ground arith
  | inr miss ↦ find-id id xs {e = e} (rw miss at h)
]

find-update_row :
    (id k : ℕ) (g : Execution → Bool) (f : Execution → Execution) (es : List Execution)
    {e : Execution}
    → k ≡ id
    → ((x : Execution) → (f x).id ≡ x.id)
    → find (is_execution id) es ≡ some e
    → find (is_execution id) (update_where (λ (x : Execution). x.id == k && g x) f es)
      ≡ some (if g e then f e else e)
find-update_row id k g f es {e} same keeps found =
    subst
      (λ n.
        find (is_execution id) (update_where (λ (x : Execution). x.id == n && g x) f es)
        ≡ some (if g e then f e else e))
      (sym same) (find-update_execution id g f es {e = e} keeps found)

length-filter-all :
    {A : Type 0} (p : A → Bool) (xs : List A)
    → (length (filter p xs) ≤ length xs) × ((length (filter p xs) == length xs) ≡ all p xs)
length-filter-all p [] = (omega arith, refl)
length-filter-all p (x ∷ xs) = ground (arith, length-filter-all p xs)

-- The rows of the executions are all that `_finalize` writes.
pub finalize-executions :
    (id now : ℕ) (db : Db)
    → finalize id now db ≡ record db { executions = (finalize id now db).executions }
unfolding finalize finalize_with finalize_completed finalize_failed
finalize-executions id now db = ground arith

pub finalize-tasks : (id now : ℕ) (db : Db) → (finalize id now db).tasks ≡ db.tasks
unfolding finalize finalize_with finalize_completed finalize_failed
finalize-tasks id now db = ground arith

-- The error of a task, or a word for it where there is none.
abbrev reason : Option Text → Text
reason none = codes "failed"
reason (some text) = if null text then codes "failed" else text

-- The agent of a failed task, with its error.
abbrev failure_line : Task → Text
failure_line t = t.agent_type ++ (codes ": " ++ reason t.error)

failure_summary-reasons :
    (ts : List Task) → failure_summary ts ≡ join (codes "; ") (map failure_line ts)
unfolding failure_summary
failure_summary-reasons ts = ap (join (codes "; ")) (map_same ts)
  where
    line_same :
        (a : Text) (error : Option Text)
        → a ++ (codes ": " ++ error_or_failed error) ≡ a ++ (codes ": " ++ reason error)
    line_same a none = refl
    line_same a (some []) = refl
    line_same a (some (c ∷ s)) = refl

    map_same :
        (ts : List Task)
        → map (λ (t : Task). t.agent_type ++ (codes ": " ++ error_or_failed t.error)) ts
          ≡ map failure_line ts
    map_same [] = refl
    map_same (t ∷ ts) = rw (line_same t.agent_type t.error, map_same ts) refl

length-filter : {A : Type 0} (p : A → Bool) (xs : List A) → length (filter p xs) ≡ count p xs
length-filter p [] = refl
length-filter p (x ∷ xs) = ground (arith, length-filter p xs)

module _ (id now : ℕ) (db : Db) (e : Execution) (found : get_execution id db ≡ some e) where
  abbrev pub tasks : List Task
  tasks = tasks_of id db

  abbrev pub is_running : Bool
  is_running = execution_status_eq e.status ExecutionStatus.running

  -- The sums over the tasks, where a task without a figure counts for nothing.
  abbrev pub tokens : Option ℕ
  tokens = some (sum_by (λ (t : Task). or_zero t.total_tokens) tasks)

  abbrev pub cost : Option ℕ
  cost = some (sum_by (λ (t : Task). or_zero t.cost_usd) tasks)

  abbrev pub completed_row : Execution
  completed_row = record e {
    status = ExecutionStatus.completed;
    final_result = some (aggregate (outcomes db tasks));
    updated_at = now;
    completed_at = some now;
    duration_ms = ms_between e.started_at now;
    total_tokens = tokens;
    cost_usd = cost;
  }

  abbrev pub failure_text : Text
  failure_text =
      decimal (count is_failed tasks)
      ++ (codes " task(s) failed: "
          ++ join (codes "; ") (map failure_line (filter is_failed tasks)))

  abbrev pub failed_row : Execution
  failed_row = record e {
    status = ExecutionStatus.failed;
    error = some failure_text;
    updated_at = now;
    completed_at = some now;
    duration_ms = ms_between e.started_at now;
    total_tokens = tokens;
    cost_usd = cost;
  }

  failure_summary-text :
      decimal (length (filter is_failed tasks))
        ++ (codes " task(s) failed: " ++ failure_summary (filter is_failed tasks))
      ≡ failure_text
  failure_summary-text =
      rw (length-filter is_failed tasks, failure_summary-reasons (filter is_failed tasks)) refl

  finalize_with-row :
      get_execution id (finalize_with e now tasks db)
      ≡ some
          (if is_running then (if all is_completed tasks then completed_row else failed_row) else e)
  unfolding finalize_with finalize_completed finalize_failed get_execution
  finalize_with-row =
      let same = find-id id db.executions {e = e} found in
      rw ((length-filter-all is_completed tasks).1) (elim (Bool-cases (all is_completed tasks)) [
        | inl yes_all ↦ rw yes_all (
            find-update_row id e.id
              (λ (x : Execution). execution_status_eq x.status ExecutionStatus.running)
              (as_completed now (aggregate (outcomes db tasks)) (totals e now tasks)) db.executions
              {e = e} same (λ x. refl) found)
        | inr not_all ↦
            rw (not_all, sym failure_summary-text)
              (find-update_row id e.id
                (λ (x : Execution). execution_status_eq x.status ExecutionStatus.running)
                (as_failed now
                  (decimal (length (filter is_failed tasks))
                    ++ (codes " task(s) failed: " ++ failure_summary (filter is_failed tasks)))
                  (totals e now tasks))
                db.executions {e = e} same (λ x. refl) found)
      ])

  pub finalize-cases :
      (any (λ (t : Task). non_terminal t.status) tasks ≡ true → finalize id now db ≡ db)
      × (null tasks ≡ true → finalize id now db ≡ db)
      × (null tasks ≡ false
          → any (λ (t : Task). non_terminal t.status) tasks ≡ false
          → get_execution id (finalize id now db)
            ≡ some (
                if is_running
                then (if all is_completed tasks then completed_row else failed_row)
                else e))
  unfolding finalize
  finalize-cases = (
    λ active. elim (Bool-cases (null tasks)) [
      | inl some_null ↦ rw (found, finalize) (rw some_null refl)
      | inr not_null ↦ rw (found, finalize) (rw (not_null, active) refl)
    ],
    λ none_there. rw (found, finalize) (rw none_there refl),
    λ some_there ended. rw (found, finalize) (rw (some_there, ended) finalize_with-row),
  )

  -- _finalize keeps the row of an execution in the database with no task, with one not terminal,
  -- or that is not RUNNING; otherwise it stamps the end and the duration, records the sums of the
  -- tokens and the costs of the tasks, and makes the row COMPLETED with the aggregate of the
  -- outcomes if all tasks are COMPLETED, else FAILED with the number of the failed tasks and the
  -- error of each. No task changes.
  pub finalize_lem :
      (get_execution id (finalize id now db)
        ≡ some (
            if null tasks || any (λ (t : Task). non_terminal t.status) tasks || not is_running
            then e
            else if all is_completed tasks
            then completed_row
            else failed_row))
      × ((finalize id now db).tasks ≡ db.tasks)
  finalize_lem =
      let (active, absent, ended) = finalize-cases in
      (
        elim (Bool-cases (null tasks)) [
          | inl none_there ↦ rw (absent none_there, none_there) found
          | inr some_there ↦ elim (Bool-cases (any (λ (t : Task). non_terminal t.status) tasks)) [
            | inl going ↦ rw (active going, some_there, going) found
            | inr over ↦
                rw (ended some_there over, some_there, over)
                  (elim (Bool-cases is_running) [
                    | inl runs ↦ rw runs refl
                    | inr idle ↦ rw idle refl
                  ])
          ]
        ],
        finalize-tasks id now db,
      )
