-- ===== src/Scheduler/Retry/Released.antt =====
-- `_retry_or_fail` takes a task out of RUNNING, whichever verdict it comes to.
use agentic_execution.Prelude.{
  ℕ, ◌+◌, ◌≡◌, refl, inl, inr, Bool, true, false, ◌&&◌, arith, leb, ◌==◌, Bool-cases, All, Text,
}
use agentic_execution.Enums.{TaskStatus, task_status_eq}
use agentic_execution.Models.{Task}
use agentic_execution.Models.Updates.{update_where-All, update_where-All_step}
use agentic_execution.Redis.{Redis}
use agentic_execution.World.{World, Env}
use agentic_execution.Scheduler.Statements.{mark_retrying, mark_failed}
use agentic_execution.Scheduler.Retry.{retry_later, fail_for_good, retry_or_fail}

abbrev pub runs_as : ℕ → Task → Bool
runs_as id t = t.id == id && task_status_eq t.status TaskStatus.running

-- A rule for the rows: those that ran under the id do not run any more, and the others are kept.
pub retry_or_fail-All :
    (r : Redis) (env : Env) (now : ℕ) (task : Task) (error : Text) (w : World r.State)
    (P Q : Task → Type 0)
    → ((t : Task) → task_status_eq t.status TaskStatus.running ≡ false → Q t)
    → ((t : Task) → runs_as task.id t ≡ false → P t → Q t)
    → All P w.db.tasks
    → All Q (retry_or_fail r env now task error w).0.db.tasks
unfolding retry_or_fail retry_later fail_for_good mark_retrying mark_failed
retry_or_fail-All r env now task error w P Q idle other h =
    elim (Bool-cases (leb (task.attempts + 1) env.settings.task_max_retries)) [
      | inl left ↦
          rw left (update_where-All_step P Q _ _ w.db.tasks (λ t hit p. idle _ refl) other h)
      | inr spent ↦
          rw spent (update_where-All_step P Q _ _ w.db.tasks (λ t hit p. idle _ refl) other h)
    ]

-- What holds of the rows that do not run is kept.
pub retry_or_fail_kept :
    (r : Redis) (env : Env) (now : ℕ) (task : Task) (error : Text) (w : World r.State)
    (P : Task → Type 0)
    → ((t u : Task) → u.id ≡ t.id → task_status_eq t.status TaskStatus.running ≡ true → P t → P u)
    → All P w.db.tasks
    → All P (retry_or_fail r env now task error w).0.db.tasks
unfolding retry_or_fail retry_later fail_for_good mark_retrying mark_failed
retry_or_fail_kept r env now task error w P step h =
    elim (Bool-cases (leb (task.attempts + 1) env.settings.task_max_retries)) [
      | inl left ↦
          rw left (update_where-All P _ _ w.db.tasks (λ t hit p. step t _ refl (ground arith) p) h)
      | inr spent ↦
          rw spent (update_where-All P _ _ w.db.tasks (λ t hit p. step t _ refl (ground arith) p) h)
    ]
