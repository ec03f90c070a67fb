-- ===== src/Scheduler/Pass/Steps.antt =====
-- The scheduling loop, as a sequence of the statements of the interleaved workers.
use agentic_execution.Prelude.{
  ℕ, zero, suc, ◌≡◌, refl, inl, inr, Bool, true, some, List, [], ◌∷◌, arith, Bool-cases,
  Option-cases, any, all, find,
}
use mathlib.Core.List.{Memᴰ}
use agentic_execution.Models.{Task, Db, get_task, get_execution, tasks_of}
use agentic_execution.Models.Keys.{is_task}
use agentic_execution.Redis.{Redis}
use agentic_execution.World.{World, Env}
use agentic_execution.Scheduler.Statements.{mark_enqueued}
use agentic_execution.Scheduler.Finalize.{is_completed, is_failed, finalize}
use agentic_execution.Scheduler.Finalize.Verdict.{finalize-executions}
use agentic_execution.Scheduler.Pass.{
  is_waiting, cascade, enqueue_ready, visit_task, visit, visit_all, pass, passes, enough,
  schedule_execution,
}
use agentic_execution.Scheduler.Pass.Rounds.{deps_of}
use agentic_execution.Cluster.{enqueue, cascade as cascade_step, execution}
use agentic_execution.Cluster.Runs.{at, Reached, stay, one, after_look, followed}

pub find-Memᴰ : {A : Type 0} (p : A → Bool) (xs : List A) {x : A} → find p xs ≡ some x → Memᴰ x xs
find-Memᴰ p [] e = absurd (ground arith)
find-Memᴰ p (y ∷ ys) {x} e = elim (Bool-cases (p y)) [
  | inl hit ↦ Memᴰ.head (ground (arith, hit))
  | inr miss ↦ Memᴰ.tail (find-Memᴰ p ys (ground (arith, miss)))
]

module _ (r : Redis) (env : Env) (max_retries now : ℕ) where
  module _ (t : Task) (w : World r.State) (found : Memᴰ t w.db.tasks) (waits : is_waiting t ≡ true)
      (views : List (List Task)) (jobs : List ℕ) where
    cascade-Reached :
        any is_failed (deps_of w.db t) ≡ true
        → Reached max_retries (at w.db views jobs) (cascade r env now t w).0.db
    unfolding cascade tasks_of
    cascade-Reached broken = after_look max_retries (
        one max_retries {jobs = jobs}
          (cascade_step now w.db.tasks t (Memᴰ.head refl) found waits broken))

    enqueue_ready-db : (enqueue_ready r env now t w).0.db ≡ (mark_enqueued t.id now w.db).0
    unfolding enqueue_ready
    enqueue_ready-db = elim (Bool-cases (mark_enqueued t.id now w.db).1) [
      | inl e ↦ rw e refl
      | inr e ↦ rw e refl
    ]

    enqueue_ready-Reached :
        all is_completed (deps_of w.db t) ≡ true
        → Reached max_retries (at w.db views jobs) (enqueue_ready r env now t w).0.db
    unfolding tasks_of
    enqueue_ready-Reached ready = rw enqueue_ready-db (
        after_look max_retries
          (one max_retries (enqueue now w.db.tasks t (Memᴰ.head refl) found waits ready)))

  visit_task-Reached :
      (t : Task) (w : World r.State) (views : List (List Task)) (jobs : List ℕ)
      → Memᴰ t w.db.tasks
      → Reached max_retries (at w.db views jobs) (visit_task r env now t w).0.db
  unfolding visit_task
  visit_task-Reached t w views jobs found = elim (Bool-cases (is_waiting t)) [
    | inr idle ↦ rw idle (stay max_retries w.db views jobs)
    | inl waits ↦ rw waits (elim (Bool-cases (any is_failed (deps_of w.db t))) [
      | inl broken ↦ rw broken (cascade-Reached t w found waits views jobs broken)
      | inr sound ↦ rw sound (elim (Bool-cases (all is_completed (deps_of w.db t))) [
        | inl ready ↦ rw ready (enqueue_ready-Reached t w found waits views jobs ready)
        | inr unready ↦ rw unready (stay max_retries w.db views jobs)
      ])
    ])
  ]

  visit-Reached :
      (id : ℕ) (w : World r.State) (views : List (List Task)) (jobs : List ℕ)
      → Reached max_retries (at w.db views jobs) (visit r env now id w).0.db
  unfolding visit get_task
  visit-Reached id w views jobs = elim (Option-cases (get_task id w.db)) [
    | inl e ↦ rw (e, visit) (stay max_retries w.db views jobs)
    | inr (t, e) ↦
        rw (e, visit) (visit_task-Reached t w views jobs (find-Memᴰ (is_task id) w.db.tasks e))
  ]

  visit_all-Reached :
      (ids : List ℕ) (w : World r.State) (views : List (List Task)) (jobs : List ℕ)
      → Reached max_retries (at w.db views jobs) (visit_all r env now ids w).0.db
  unfolding visit_all
  visit_all-Reached [] w views jobs = stay max_retries w.db views jobs
  visit_all-Reached (id ∷ ids) w views jobs =
      followed max_retries (visit-Reached id w views jobs) (visit_all-Reached ids _)

  passes-Reached :
      (fuel execution_id : ℕ) (w : World r.State) (views : List (List Task)) (jobs : List ℕ)
      → Reached max_retries (at w.db views jobs) (passes r env fuel execution_id now w).db
  unfolding passes pass
  passes-Reached zero execution_id w views jobs = stay max_retries w.db views jobs
  passes-Reached (suc fuel) execution_id w views jobs =
      elim (Bool-cases (pass r env execution_id now w).1) [
        | inl e ↦
            rw (e, passes)
              (followed max_retries (visit_all-Reached _ w views jobs)
                (passes-Reached fuel execution_id _))
        | inr e ↦ rw (e, passes) (visit_all-Reached _ w views jobs)
      ]

  finalize-Reached :
      (execution_id : ℕ) (db : Db) (views : List (List Task)) (jobs : List ℕ)
      → Reached max_retries (at db views jobs) (finalize execution_id now db)
  finalize-Reached execution_id db views jobs =
      rw (finalize-executions execution_id now db) (one max_retries (execution _))

-- However the rows stand, what schedule_execution does to the database is a sequence of the
-- statements of the interleaved workers.
pub schedule_execution-Reached :
    (r : Redis) (env : Env) (max_retries execution_id now : ℕ) (w : World r.State)
    (views : List (List Task)) (jobs : List ℕ)
    → Reached max_retries (at w.db views jobs) (schedule_execution r env execution_id now w).db
unfolding schedule_execution
schedule_execution-Reached r env max_retries execution_id now w views jobs =
    elim (Option-cases (get_execution execution_id w.db)) [
      | inl e ↦ rw (e, schedule_execution) (stay max_retries w.db views jobs)
      | inr (x, e) ↦
          rw (e, schedule_execution)
            (followed max_retries
              (passes-Reached r env max_retries now (enough r env w) execution_id w views jobs)
              (finalize-Reached r env max_retries now execution_id _))
    ]
