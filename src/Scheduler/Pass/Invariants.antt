-- ===== src/Scheduler/Pass/Invariants.antt =====
-- A rule for what the scheduling loop keeps: what its two statements keep, the loop keeps.
use agentic_execution.Prelude.{
  ℕ, zero, suc, ◌≡◌, refl, sym, ◌∙◌, subst, inl, inr, true, some, List, [], ◌∷◌, ◌==◌, Bool-cases,
  Option-cases, any, all, count, All, codes,
}
use agentic_execution.Enums.{TaskStatus}
use agentic_execution.Models.{Task, Db, get_task, get_execution}
use agentic_execution.Models.Updates.{update_where-All, count-update_where_same}
use agentic_execution.Redis.{Redis}
use agentic_execution.World.{World, Env}
use agentic_execution.Scheduler.Statements.{cascade_failure, mark_enqueued}
use agentic_execution.Scheduler.Finalize.{is_completed, is_failed}
use agentic_execution.Scheduler.Finalize.Verdict.{finalize-tasks}
use agentic_execution.Scheduler.Pass.{
  is_waiting, cascade, enqueue_ready, visit_task, visit, visit_all, pass, passes, enough,
  schedule_execution,
}
use agentic_execution.Scheduler.Pass.Rounds.{deps_of}

-- The two updates of the loop keep a property of the database.
pub record IsKept (now : ℕ) (P : Db → Type 0) : Type 0 where
  pub by_cascade : (id : ℕ) (db : Db) → P db → P (cascade_failure id now db).0
  pub by_mark : (id : ℕ) (db : Db) → P db → P (mark_enqueued id now db).0

module _ (r : Redis) (env : Env) (now : ℕ) {P : Db → Type 0} (kept : IsKept now P) where
  cascade_kept : (t : Task) (w : World r.State) → P w.db → P (cascade r env now t w).0.db
  unfolding cascade
  cascade_kept t w h = kept.by_cascade t.id w.db h

  enqueue_ready_kept :
      (t : Task) (w : World r.State) → P w.db → P (enqueue_ready r env now t w).0.db
  unfolding enqueue_ready
  enqueue_ready_kept t w h = elim (Bool-cases (mark_enqueued t.id now w.db).1) [
    | inl e ↦ rw e (kept.by_mark t.id w.db h)
    | inr e ↦ rw e (kept.by_mark t.id w.db h)
  ]

  visit_task_kept : (t : Task) (w : World r.State) → P w.db → P (visit_task r env now t w).0.db
  unfolding visit_task
  visit_task_kept t w h = elim (Bool-cases (is_waiting t)) [
    | inr idle ↦ rw idle h
    | inl waits ↦ rw waits (elim (Bool-cases (any is_failed (deps_of w.db t))) [
      | inl broken ↦ rw broken (cascade_kept t w h)
      | inr sound ↦ rw sound (elim (Bool-cases (all is_completed (deps_of w.db t))) [
        | inl ready ↦ rw ready (enqueue_ready_kept t w h)
        | inr unready ↦ rw unready h
      ])
    ])
  ]

  visit_kept : (id : ℕ) (w : World r.State) → P w.db → P (visit r env now id w).0.db
  unfolding visit
  visit_kept id w h = elim (Option-cases (get_task id w.db)) [
    | inl e ↦ rw (e, visit) h
    | inr (t, e) ↦ rw (e, visit) (visit_task_kept t w h)
  ]

  visit_all_kept : (ids : List ℕ) (w : World r.State) → P w.db → P (visit_all r env now ids w).0.db
  unfolding visit_all
  visit_all_kept [] w h = h
  visit_all_kept (id ∷ ids) w h = visit_all_kept ids _ (visit_kept id w h)

  pub passes_kept :
      (fuel execution_id : ℕ) (w : World r.State)
      → P w.db
      → P (passes r env fuel execution_id now w).db
  unfolding passes pass
  passes_kept zero execution_id w h = h
  passes_kept (suc fuel) execution_id w h = elim (Bool-cases (pass r env execution_id now w).1) [
    | inl e ↦ rw (e, passes) (passes_kept fuel execution_id _ (visit_all_kept _ w h))
    | inr e ↦ rw (e, passes) (visit_all_kept _ w h)
  ]

-- A property of each row of the tasks, which neither update touches.
pub All-IsKept :
    (now : ℕ) (P : Task → Type 0)
    → ((t : Task)
        → P t
        → P (record t {
          status = TaskStatus.failed;
          enqueued = true;
          error = some (codes "Skipped: a dependency failed");
          updated_at = now;
        }))
    → ((t : Task) → P t → P (record t { enqueued = true; updated_at = now }))
    → IsKept now (λ db. All P db.tasks)
unfolding cascade_failure mark_enqueued
All-IsKept now P cascaded marked = record {
  by_cascade = λ id db h. update_where-All P _ _ db.tasks (λ t _. cascaded t) h;
  by_mark = λ id db h. update_where-All P _ _ db.tasks (λ t _. marked t) h;
}

-- The number of tasks of an execution.
pub count-IsKept :
    (now execution_id n : ℕ)
    → IsKept now (λ db. count (λ t. t.execution_id == execution_id) db.tasks ≡ n)
unfolding cascade_failure mark_enqueued
count-IsKept now execution_id n = record {
  by_cascade = λ id db h. count-update_where_same _ _ _ db.tasks (λ t. refl) ∙ h;
  by_mark = λ id db h. count-update_where_same _ _ _ db.tasks (λ t. refl) ∙ h;
}

-- The executions.
pub executions-IsKept : (now : ℕ) (d : Db) → IsKept now (λ db. db.executions ≡ d.executions)
unfolding cascade_failure mark_enqueued
executions-IsKept now d = record { by_cascade = λ id db h. h; by_mark = λ id db h. h }

-- A whole scheduling pass keeps what its two statements keep of the tasks, as `_finalize` writes no
-- task.
pub schedule_execution_kept :
    (r : Redis) (env : Env) (now : ℕ) (P : List Task → Type 0)
    → IsKept now (λ db. P db.tasks)
    → (execution_id : ℕ) (w : World r.State) → P w.db.tasks
    → P (schedule_execution r env execution_id now w).db.tasks
unfolding schedule_execution
schedule_execution_kept r env now P kept execution_id w h =
    elim (Option-cases (get_execution execution_id w.db)) [
      | inl e ↦ rw (e, schedule_execution) h
      | inr (x, e) ↦
          rw (e, schedule_execution)
            (subst P (sym (finalize-tasks execution_id now _))
              (passes_kept r env now kept (enough r env w) execution_id w h))
    ]
