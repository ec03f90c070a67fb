-- ===== src/Scheduler/Retry/Steps.antt =====
-- `_retry_or_fail`, as a statement of the interleaved workers.
use agentic_execution.Prelude.{ℕ, ◌+◌, inl, inr, List, arith, leb, Bool-cases, Text}
use mathlib.Core.List.{Memᴰ}
use agentic_execution.Models.{Task}
use agentic_execution.Redis.{Redis}
use agentic_execution.World.{World, Env}
use agentic_execution.Scheduler.Retry.{retry_later, fail_for_good, retry_or_fail}
use agentic_execution.Cluster.{retry as retry_step, give_up}
use agentic_execution.Cluster.Runs.{at, Reached, one}

-- The row may have been read long ago, as the reaper's is.
pub retry_or_fail-Reached :
    (r : Redis) (env : Env) (now : ℕ) (task : Task) (error : Text) (w : World r.State)
    (view : List Task) (views : List (List Task)) (jobs : List ℕ)
    → Memᴰ view views
    → Memᴰ task view
    → Reached env.settings.task_max_retries
        (at w.db views jobs)
        (retry_or_fail r env now task error w).0.db
unfolding retry_or_fail retry_later fail_for_good
retry_or_fail-Reached r env now task error w view views jobs v t =
    elim (Bool-cases (leb (task.attempts + 1) env.settings.task_max_retries)) [
      | inl left ↦
          rw left (
            one env.settings.task_max_retries (retry_step now _ error view task v t (ground arith)))
      | inr spent ↦
          rw spent
            (one env.settings.task_max_retries (give_up now error view task v t (ground arith)))
    ]
