-- ===== src/Scheduler/Pass/Liveness.antt =====
-- The state of an execution after `schedule_execution` (services/scheduler.py).
use agentic_execution.Prelude.{
  ℕ, zero, suc, ◌<◌, ◌≡◌, refl, sym, ◌∙◌, subst, ◌⊎◌, inl, inr, Bool, true, false, not, ◌&&◌, some,
  List, [], ◌∷◌, arith, ◌==◌, ==_iff, Bool-cases, Option-cases, any, all, count, sum_by, null, All,
  All-imp, All-zip, All-to_filter, All-from_filter, filter-holds, null-filter, null-filter_of_count,
  ℤ, pos, negsuc,
}
use mathlib.Core.Bool.{false≢true}
use agentic_execution.Enums.{ExecutionStatus, execution_status_eq}
use agentic_execution.Models.{Execution, Task, Db, get_execution, tasks_of}
use agentic_execution.Models.Keys.{HasKeys}
use agentic_execution.Redis.{Redis}
use agentic_execution.Planner.{earlier}
use agentic_execution.World.{World, Env}
use agentic_execution.Scheduler.Finalize.{
  has_index, by_index, depends_or_nil, dependencies, non_terminal, is_completed, is_failed,
  finalize,
}
use agentic_execution.Scheduler.Finalize.Verdict.{
  finalize-tasks, finalize-cases, completed_row, failed_row,
}
use agentic_execution.Scheduler.Pass.{is_waiting, passes, enough, schedule_execution}
use agentic_execution.Scheduler.Pass.Rounds.{Blocked}
use agentic_execution.Scheduler.Pass.Invariants.{
  passes_kept, All-IsKept, count-IsKept, executions-IsKept,
}
use agentic_execution.Scheduler.Pass.Settled.{passes-Blocked}

-- A task that a queued job, a scheduled retry or a worker will move: it is enqueued, RETRYING or
-- RUNNING.
abbrev pub in_motion : Task → Bool
in_motion t = non_terminal t.status && not (is_waiting t)

-- The dependencies of a task name earlier tasks.
abbrev DependsBack : Task → Type 0
DependsBack t = All (λ i. earlier t.order_index i ≡ true) (depends_or_nil t.depends_on)

by_index-in :
    (P : Task → Type 0) (ts : List Task) (i : ℤ) (d : Task)
    → All P ts
    → by_index ts i ≡ some d
    → P d × (has_index i d ≡ true)
unfolding by_index
by_index-in P [] i d h e = cc
by_index-in P (t ∷ ts) i d h e = elim (Option-cases (by_index ts i)) [
  | inr (u, found) ↦ by_index-in P ts i d h.1 (found ∙ (rw (found, by_index) at e))
  | inl none_later ↦ elim (Bool-cases (has_index i t)) [
    | inl hit ↦
        let same : t ≡ d = ground arith in
        (subst P same h.0, subst (λ x. has_index i x ≡ true) same hit)
    | inr miss ↦ ground arith
  ]
]

earlier_index :
    (n : ℕ) (i : ℤ) (d : Task) → earlier n i ≡ true → has_index i d ≡ true → d.order_index < n
earlier_index n (pos i) d e h = ground arith
earlier_index n (negsuc i) d e h = cc

abbrev Ended : Task → Type 0
Ended t = non_terminal t.status ≡ false

-- If all tasks below an index have ended, the dependencies of a task at the index have.
dependencies-Ended :
    (n : ℕ) (ts : List Task) (is : List ℤ)
    → All (λ i. earlier n i ≡ true) is
    → All (λ t. t.order_index < n → Ended t) ts
    → All Ended (dependencies ts is)
unfolding dependencies
dependencies-Ended n ts [] back below = tt
dependencies-Ended n ts (i ∷ is) back below = elim (Option-cases (by_index ts i)) [
  | inl e ↦ rw e (dependencies-Ended n ts is back.1 below)
  | inr (d, e) ↦
      let (ended, at_index) = by_index-in (λ t. t.order_index < n → Ended t) ts i d below e in
      rw e (ended (earlier_index n i d back.0 at_index), dependencies-Ended n ts is back.1 below)
]

all_of_none_failed :
    (ds : List Task) → All Ended ds → any is_failed ds ≡ false → all is_completed ds ≡ true
all_of_none_failed [] h e = refl
all_of_none_failed (d ∷ ds) h e = ground (arith, all_of_none_failed ds)

-- What holds of each task of the execution when nothing is in motion.
abbrev Row : ℕ → Db → Task → Type 0
Row execution_id db t =
    Blocked db t × (in_motion t ≡ false) × DependsBack t × (t.execution_id ≡ execution_id)

Row-Ended :
    (n execution_id : ℕ) (db : Db) (t : Task)
    → All (λ u. u.order_index < n → Ended u) (tasks_of execution_id db)
    → Row execution_id db t
    → t.order_index < suc n
    → Ended t
Row-Ended n execution_id db t below (blocked, still, back, owner) index =
    elim (Bool-cases (non_terminal t.status)) [
      | inr ended ↦ ended
      | inl open_still ↦
          let waits : is_waiting t ≡ true = ground arith in
          let (sound, unready) = blocked waits in
          let ended =
            dependencies-Ended t.order_index (tasks_of t.execution_id db)
              (depends_or_nil t.depends_on) back
              (All-imp (λ u. u.order_index < n → Ended u)
                (λ u. u.order_index < t.order_index → Ended u) (λ u h less. h (omega arith))
                (tasks_of t.execution_id db)
                (subst (λ k. All (λ u. u.order_index < n → Ended u) (tasks_of k db)) (sym owner)
                  below)) in
          absurd (false≢true (sym unready ∙ all_of_none_failed _ ended sound))
    ]

Ended-below :
    (n execution_id : ℕ) (db : Db)
    → All (Row execution_id db) (tasks_of execution_id db)
    → All (λ t. t.order_index < n → Ended t) (tasks_of execution_id db)
Ended-below zero execution_id db rows =
    All-imp (Row execution_id db) (λ t. t.order_index < 0 → Ended t) (λ t _ h. elim h [ ]) _ rows
Ended-below (suc n) execution_id db rows =
    All-imp (Row execution_id db) (λ t. t.order_index < suc n → Ended t)
      (λ t row. Row-Ended n execution_id db t (Ended-below n execution_id db rows) row) _ rows

none_open :
    (ts : List Task) (n : ℕ)
    → sum_by (λ t. t.order_index) ts < n
    → All (λ t. t.order_index < n → Ended t) ts
    → any (λ (t : Task). non_terminal t.status) ts ≡ false
none_open [] n bound h = refl
none_open (t ∷ ts) n bound h = rw (h.0 (omega arith)) (none_open ts n (omega arith) h.1)

any-none : {A : Type 0} (p : A → Bool) (xs : List A) → any p xs ≡ false → All (λ x. p x ≡ false) xs
any-none p [] h = tt
any-none p (x ∷ xs) h = (ground arith, any-none p xs (ground arith))

abbrev owned : ℕ → Task → Bool
owned execution_id t = t.execution_id == execution_id

module _ (r : Redis) (env : Env) (execution_id now : ℕ) (w : World r.State) (e : Execution)
    (keys : HasKeys w.db.tasks) (found : get_execution execution_id w.db ≡ some e)
    (runs : e.status ≡ ExecutionStatus.running)
    (some_task : null (tasks_of execution_id w.db) ≡ false)
    (back : All DependsBack (tasks_of execution_id w.db)) where
  abbrev settled : World r.State
  settled = passes r env (enough r env w) execution_id now w

  abbrev remaining : List Task
  remaining = tasks_of execution_id settled.db

  settled_execution : get_execution execution_id settled.db ≡ some e
  unfolding get_execution
  settled_execution =
      rw (passes_kept r env now (executions-IsKept now w.db) (enough r env w) execution_id w refl)
        found

  settled_back : All DependsBack remaining
  unfolding tasks_of
  settled_back = All-to_filter DependsBack (owned execution_id) settled.db.tasks (
      passes_kept r env now
        (All-IsKept now (λ t. owned execution_id t ≡ true → DependsBack t) (λ t h. h) (λ t h. h))
        (enough r env w) execution_id w
        (All-from_filter DependsBack (owned execution_id) w.db.tasks back))

  settled_some : null remaining ≡ false
  unfolding tasks_of
  settled_some = null-filter_of_count (owned execution_id) settled.db.tasks (
      rw
        (passes_kept r env now
          (count-IsKept now execution_id (count (owned execution_id) w.db.tasks)) (enough r env w)
          execution_id w refl)
        (null-filter (owned execution_id) w.db.tasks some_task))

  still-Ended :
      any in_motion remaining ≡ false → any (λ (t : Task). non_terminal t.status) remaining ≡ false
  still-Ended still =
      none_open remaining (suc (sum_by (λ t. t.order_index) remaining)) (omega arith) (
        Ended-below _ execution_id settled.db (
          All-imp
            (λ t.
              (Blocked settled.db t × (in_motion t ≡ false))
              × (DependsBack t × (t.execution_id ≡ execution_id)))
            (Row execution_id settled.db) (λ t h. (h.0.0, h.0.1, h.1.0, h.1.1)) remaining
            (All-zip _ _ remaining
              (All-zip (Blocked settled.db) (λ t. in_motion t ≡ false) remaining
                (passes-Blocked r env execution_id now w keys).1
                (any-none in_motion remaining still))
              (All-zip DependsBack (λ t. t.execution_id ≡ execution_id) remaining settled_back
                (unfold tasks_of in
                  All-imp (λ t. owned execution_id t ≡ true) (λ t. t.execution_id ≡ execution_id)
                    (λ t h. (==_iff t.execution_id execution_id).0 h) remaining
                    (filter-holds (owned execution_id) settled.db.tasks))))))

  tasks_of-finalize : tasks_of execution_id (finalize execution_id now settled.db) ≡ remaining
  unfolding tasks_of
  tasks_of-finalize = rw (finalize-tasks execution_id now settled.db) refl

  finished :
      any in_motion remaining ≡ false
      → (e' : Execution) × (get_execution execution_id (finalize execution_id now settled.db)
          ≡ some e')
        × ((e'.status ≡ ExecutionStatus.completed) ⊎ (e'.status ≡ ExecutionStatus.failed))
  finished still =
      let verdict = finalize-cases execution_id now settled.db e settled_execution in
      let row = verdict.2 settled_some (still-Ended still) in
      let running_row : execution_status_eq e.status ExecutionStatus.running ≡ true = rw runs in
      elim (Bool-cases (all is_completed remaining)) [
        | inl every ↦ (
          completed_row execution_id now settled.db e settled_execution,
          rw (running_row, every) at row,
          inl refl,
        )
        | inr not_every ↦ (
          failed_row execution_id now settled.db e settled_execution,
          rw (running_row, not_every) at row,
          inr refl,
        )
      ]

  -- With unique ids, after schedule_execution for a RUNNING execution that has tasks, each
  -- depending on earlier ones only, some task of it is enqueued, RUNNING or RETRYING, or the
  -- execution is COMPLETED or FAILED.
  pub schedule_execution-live :
      let w' = schedule_execution r env execution_id now w in
      (any in_motion (tasks_of execution_id w'.db) ≡ true)
      ⊎ ((e' : Execution) × (get_execution execution_id w'.db ≡ some e')
          × ((e'.status ≡ ExecutionStatus.completed) ⊎ (e'.status ≡ ExecutionStatus.failed)))
  unfolding schedule_execution
  schedule_execution-live =
      rw (found, schedule_execution)
        (elim (Bool-cases (any in_motion remaining)) [
          | inl moving ↦ inl (rw tasks_of-finalize moving)
          | inr still ↦ inr (finished still)
        ])
