-- ===== src/Scheduler/Statements/Claims.antt =====
-- The two compare-and-set statements that workers race for: `_claim_task` and `_mark_enqueued`.
use agentic_execution.Prelude.{
  ℕ, ◌≡◌, refl, inl, inr, Bool, true, false, not, ◌&&◌, some, List, [], ◌∷◌, arith, ◌==◌,
  if◌then◌else◌, ==_refl, Bool-cases, find, count,
}
use agentic_execution.Enums.{TaskStatus}
use agentic_execution.Models.{Task, Db, get_task}
use agentic_execution.Models.Keys.{
  is_task, HasKeys, HasKeys-update_where, count-one, find-update_where,
}
use agentic_execution.Scheduler.Statements.{claimable, claim_task, mark_enqueued}

abbrev pub as_running : ℕ → Task → Task
as_running now t = record t { status = TaskStatus.running; updated_at = now }

abbrev as_enqueued : ℕ → Task → Task
as_enqueued now t = record t { enqueued = true; updated_at = now }

-- No row with the id meets the guard, so the statement reports no row.
pub count_refused :
    (id : ℕ) (g : Task → Bool) (tasks : List Task) {t : Task}
    → HasKeys tasks
    → find (is_task id) tasks ≡ some t
    → g t ≡ false
    → count (λ (u : Task). u.id == id && g u) tasks ≡ 0
count_refused id g [] keys found refuse = refl
count_refused id g (x ∷ xs) {t} keys found refuse = elim (Bool-cases (x.id == id)) [
  | inl e ↦ ground (arith, keys id, count_absent xs (ground (arith, keys id)))
  | inr e ↦
      ground
        (arith, count_refused id g xs {t = t} (λ k. ground (arith, keys k)) (rw e at found) refuse)
]
  where
    count_absent :
        (ys : List Task)
        → count (is_task id) ys ≡ 0
        → count (λ (u : Task). u.id == id && g u) ys ≡ 0
    count_absent [] h = refl
    count_absent (y ∷ ys) h = ground (arith, count_absent ys)

module _ (id : ℕ) (db : Db) (t : Task) (keys : HasKeys db.tasks)
    (found : get_task id db ≡ some t) where
  -- With unique ids, a claim of a task in the database succeeds exactly when it is PENDING or
  -- RETRYING, and then it is RUNNING with its lease stamped; otherwise its row is as it was.
  pub claim_task_lem :
      (now : ℕ)
      → ((claim_task id now db).1 ≡ claimable t.status)
        × (get_task id (claim_task id now db).0
            ≡ some (if claimable t.status then as_running now t else t))
  unfolding claim_task get_task
  claim_task_lem now = (
    elim (Bool-cases (claimable t.status)) [
      | inl e ↦
          rw (count-one id (λ (u : Task). claimable u.status) db.tasks {t = t} keys found e, e)
      | inr e ↦
          rw (count_refused id (λ (u : Task). claimable u.status) db.tasks {t = t} keys found e, e)
    ],
    rw (
      find-update_where id id (λ (u : Task). claimable u.status) (as_running now) db.tasks
          (λ u. refl),
      ==_refl id,
      found,
    ),
  )

  -- With unique ids, of two claims in a row of a task that is in the database, the second is
  -- refused.
  pub claim_task-exclusive :
      (now later : ℕ) → (claim_task id later (claim_task id now db).0).1 ≡ false
  unfolding claim_task get_task
  claim_task-exclusive now = λ later. rw (
      count_refused id (λ (u : Task). claimable u.status) _
        {t = if claimable t.status then as_running now t else t}
        (HasKeys-update_where _ _ db.tasks (λ u. refl) keys) ((claim_task_lem now).1)
        (ground arith))

  mark_enqueued-row :
      (now : ℕ)
      → get_task id (mark_enqueued id now db).0
        ≡ some (if not t.enqueued then as_enqueued now t else t)
  unfolding mark_enqueued get_task
  mark_enqueued-row now = rw (
    find-update_where id id (λ (u : Task). not u.enqueued) (as_enqueued now) db.tasks (λ u. refl),
    ==_refl id,
    found,
  )

  -- With unique ids, of two markings in a row of a task in the database, the first succeeds
  -- exactly if the task was not enqueued, and the second fails.
  mark_enqueued-once :
      (now later : ℕ)
      → ((mark_enqueued id now db).1 ≡ not t.enqueued)
        × ((mark_enqueued id later (mark_enqueued id now db).0).1 ≡ false)
  unfolding mark_enqueued get_task
  mark_enqueued-once now later = (
    elim (Bool-cases t.enqueued) [
      | inl e ↦
          rw (count_refused id (λ (u : Task). not u.enqueued) db.tasks {t = t} keys found (rw e), e)
      | inr e ↦
          rw (count-one id (λ (u : Task). not u.enqueued) db.tasks {t = t} keys found (rw e), e)
    ],
    rw (
        count_refused id (λ (u : Task). not u.enqueued) _
          {t = if not t.enqueued then as_enqueued now t else t}
          (HasKeys-update_where _ _ db.tasks (λ u. refl) keys) (mark_enqueued-row now)
          (ground arith)),
  )
