-- ===== src/Scheduler/Pass/Rounds.antt =====
-- What one round of the scheduling loop does to the measure that bounds the rounds.
use agentic_execution.Prelude.{
  ℕ, ◌<◌, ◌≡◌, refl, sym, ◌∙◌, subst, ◌⊎◌, inl, inr, Bool, true, false, not, some, List, [], ◌∷◌,
  map, arith, ==_iff, Bool-cases, Option-cases, any, all, find, count, All,
}
use mathlib.Core.Bool.{false≢true}
use agentic_execution.Enums.{TaskStatus, task_status_eq}
use agentic_execution.Models.{Task, Db, get_task, tasks_of}
use agentic_execution.Models.Updates.{count-update_where-lt, find_holds}
use agentic_execution.Models.Keys.{is_task, HasKeys, HasKeys-update_where, count-one}
use agentic_execution.Redis.{Redis}
use agentic_execution.World.{World, Env}
use agentic_execution.Scheduler.Statements.{cascade_failure, mark_enqueued}
use agentic_execution.Scheduler.Finalize.{dependencies, depends_or_nil, is_completed, is_failed}
use agentic_execution.Scheduler.Pass.{
  is_waiting, cascade, enqueue_ready, visit_task, visit, visit_all,
}

abbrev pub unmarked : Db → ℕ
unmarked db = count (λ t. not t.enqueued) db.tasks

-- The dependencies of a task, as the rows are now.
abbrev pub deps_of : Db → Task → List Task
deps_of db t = dependencies (tasks_of t.execution_id db) (depends_or_nil t.depends_on)

-- A row that is found under some id is found under its own.
found_self : (id : ℕ) (db : Db) (t : Task) → get_task id db ≡ some t → get_task t.id db ≡ some t
unfolding get_task
found_self id db t e =
    subst (λ k. get_task k db ≡ some t)
      (sym ((==_iff t.id id).0 (find_holds (is_task id) db.tasks {t = t} e))) e

-- A step of the loop either changes nothing and says so, or marks one more task.
abbrev pub Progress : {S : Type 0} → World S → World S × Bool → Type 0
Progress w out =
    HasKeys out.0.db.tasks
    × (((out.1 ≡ true) × (unmarked out.0.db < unmarked w.db)) ⊎ ((out.1 ≡ false) × (out.0 ≡ w)))

module _ (r : Redis) (env : Env) (now : ℕ) (t : Task) (w : World r.State)
    (keys : HasKeys w.db.tasks) (found : get_task t.id w.db ≡ some t)
    (waits : is_waiting t ≡ true) where
  row : find (is_task t.id) w.db.tasks ≡ some t
  unfolding get_task
  row = found

  cascade-changed : (cascade r env now t w).1 ≡ true
  unfolding cascade cascade_failure
  cascade-changed = rw (
      count-one t.id (λ (u : Task). task_status_eq u.status TaskStatus.pending) w.db.tasks {t = t}
        keys row (ground arith))

  cascade-Progress : Progress w (cascade r env now t w)
  unfolding cascade cascade_failure
  cascade-Progress = (
    HasKeys-update_where _ _ w.db.tasks (λ u. refl) keys,
    inl (
      cascade-changed,
      count-update_where-lt (λ u. not u.enqueued) _ (is_task t.id) _ w.db.tasks {t = t} (λ u. refl)
          row (ground arith) (ground arith),
    ),
  )

  enqueue_ready-changed : (enqueue_ready r env now t w).1 ≡ true
  unfolding enqueue_ready mark_enqueued
  enqueue_ready-changed =
      rw (count-one t.id (λ (u : Task). not u.enqueued) w.db.tasks {t = t} keys row (ground arith))

  enqueue_ready-Progress : Progress w (enqueue_ready r env now t w)
  unfolding enqueue_ready mark_enqueued
  enqueue_ready-Progress =
      rw (count-one t.id (λ (u : Task). not u.enqueued) w.db.tasks {t = t} keys row (ground arith))
        (
          HasKeys-update_where _ _ w.db.tasks (λ u. refl) keys,
          inl (
            refl,
            count-update_where-lt (λ u. not u.enqueued) _ (is_task t.id) _ w.db.tasks {t = t}
                (λ u. refl) row (ground arith) (ground arith),
          ),
        )

-- What a quiet visit shows: the task does not wait, or it waits for a dependency that neither
-- failed nor completed.
abbrev pub Blocked : Db → Task → Type 0
Blocked db t =
    is_waiting t ≡ true
    → (any is_failed (deps_of db t) ≡ false) × (all is_completed (deps_of db t) ≡ false)

module _ (r : Redis) (env : Env) (now : ℕ) where
  visit_task-Progress :
      (t : Task) (w : World r.State)
      → HasKeys w.db.tasks
      → get_task t.id w.db ≡ some t
      → Progress w (visit_task r env now t w)
  unfolding visit_task
  visit_task-Progress t w keys found = elim (Bool-cases (is_waiting t)) [
    | inr idle ↦ rw idle (keys, inr (refl, refl))
    | inl waits ↦ rw waits (elim (Bool-cases (any is_failed (deps_of w.db t))) [
      | inl broken ↦ rw broken (cascade-Progress r env now t w keys found waits)
      | inr sound ↦ rw sound (elim (Bool-cases (all is_completed (deps_of w.db t))) [
        | inl ready ↦ rw ready (enqueue_ready-Progress r env now t w keys found waits)
        | inr unready ↦ rw unready (keys, inr (refl, refl))
      ])
    ])
  ]

  visit_task-Blocked :
      (t : Task) (w : World r.State)
      → HasKeys w.db.tasks
      → get_task t.id w.db ≡ some t
      → (visit_task r env now t w).1 ≡ false
      → Blocked w.db t
  unfolding visit_task
  visit_task-Blocked t w keys found quiet waits =
      elim (Bool-cases (any is_failed (deps_of w.db t))) [
        | inl broken ↦ absurd (
            false≢true
              (sym (rw (waits, broken) at quiet) ∙ cascade-changed r env now t w keys found waits))
        | inr sound ↦ elim (Bool-cases (all is_completed (deps_of w.db t))) [
          | inl ready ↦ absurd (
              false≢true (
                sym (rw (waits, sound, ready) at quiet)
                ∙ enqueue_ready-changed r env now t w keys found waits))
          | inr unready ↦ (sound, unready)
        ]
      ]

  visit-Progress :
      (id : ℕ) (w : World r.State) → HasKeys w.db.tasks → Progress w (visit r env now id w)
  unfolding visit
  visit-Progress id w keys = elim (Option-cases (get_task id w.db)) [
    | inl e ↦ rw (e, visit) (keys, inr (refl, refl))
    | inr (t, e) ↦ rw (e, visit) (visit_task-Progress t w keys (found_self id w.db t e))
  ]

  visit-Blocked :
      (t : Task) (w : World r.State)
      → HasKeys w.db.tasks
      → get_task t.id w.db ≡ some t
      → (visit r env now t.id w).1 ≡ false
      → Blocked w.db t
  unfolding visit
  visit-Blocked t w keys found quiet =
      visit_task-Blocked t w keys found (rw (found, visit) at quiet)

  pub visit_all-Progress :
      (ids : List ℕ) (w : World r.State)
      → HasKeys w.db.tasks
      → Progress w (visit_all r env now ids w)
  unfolding visit_all
  visit_all-Progress [] w keys = (keys, inr (refl, refl))
  visit_all-Progress (id ∷ ids) w keys =
      let first = visit-Progress id w keys in
      let others = visit_all-Progress ids (visit r env now id w).0 first.0 in
      (
        others.0,
        elim first.1 [
          | inl (c, less) ↦ inl (
            rw c,
            elim others.1 [ inl (c', less') ↦ omega arith | inr (c', same') ↦ rw same' less ],
          )
          | inr (c, same) ↦ elim others.1 [
            | inl (c', less') ↦ inl (
              rw (c, c'),
              subst
                  (λ v.
                    unmarked (visit_all r env now ids (visit r env now id w).0).0.db
                    < unmarked v.db)
                  same less',
            )
            | inr (c', same') ↦ inr (rw (c, c'), same' ∙ same)
          ]
        ],
      )

  -- A round that changes nothing leaves every task of it blocked.
  pub visit_all-Blocked :
      (ts : List Task) (w : World r.State)
      → HasKeys w.db.tasks
      → All (λ t. get_task t.id w.db ≡ some t) ts
      → (visit_all r env now (map (λ (t : Task). t.id) ts) w).1 ≡ false
      → All (Blocked w.db) ts
  unfolding visit_all
  visit_all-Blocked [] w keys found quiet = tt
  visit_all-Blocked (t ∷ ts) w keys found quiet = elim (visit-Progress t.id w keys).1 [
    | inl (c, less) ↦ cc
    | inr (c, same) ↦ (
      visit-Blocked t w keys found.0 c,
      visit_all-Blocked ts w keys found.1 (rw (same, c) at quiet),
    )
  ]
