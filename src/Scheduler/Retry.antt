-- ===== src/Scheduler/Retry.antt =====
-- The retry policy of services/scheduler.py: `_backoff` and `_retry_or_fail`.
pub mod Policy
pub mod Backoff
pub mod Steps
pub mod Released
use agentic_execution.Prelude.{
  ℕ, ◌+◌, ◌-◌, ◌*◌, ◌^◌, min, leb, ◌==◌, if◌then◌else◌, Text, codes, pos,
}
use agentic_execution.Settings.{Settings}
use agentic_execution.Models.{Task}
use agentic_execution.Json.{Json, int, str, obj, field, end}
use agentic_execution.Redis.{Redis}
use agentic_execution.JobQueue.{schedule_task, push_dead_letter}
use agentic_execution.World.{World, Env}
use agentic_execution.Scheduler.Statements.{mark_retrying, mark_failed}

-- Times are in microseconds. `attempt` is at least 1 in every call.
pub backoff : ℕ → Settings → (ℕ → ℕ) → ℕ
backoff attempt settings jitter =
    let delay = min (settings.retry_backoff_base * 2 ^ (attempt - 1)) settings.retry_backoff_max in
    if settings.retry_backoff_jitter then jitter delay else delay

-- The string that `_retry_or_fail` returns.
pub data Verdict : Type 0 where
  retry failed : Verdict

module _ (r : Redis) (env : Env) where
  open env use {settings, codec}

  pub dead_letter : ℕ → Task → ℕ → Text → Json
  dead_letter now task attempts error = obj (
      field (codes "task_id") (str (codec.uuid_str task.id)) (
        field (codes "execution_id") (str (codec.uuid_str task.execution_id)) (
          field (codes "agent_type") (str task.agent_type) (
            field (codes "attempts") (int (pos attempts)) (
              field (codes "error") (str error)
                (field (codes "failed_at") (str (codec.isoformat now)) end))))))

  retry_later : ℕ → Task → ℕ → Text → World r.State → World r.State
  retry_later now task attempts error w =
      let next_at = now + backoff attempts settings env.jitter in
      let (db', rows) = mark_retrying task.id now attempts next_at error w.db in
      record w {
        db = db';
        redis = if rows == 0 then w.redis else schedule_task r codec task.id next_at w.redis;
      }

  fail_for_good : ℕ → Task → ℕ → Text → World r.State → World r.State
  fail_for_good now task attempts error w =
      let (db', rows) = mark_failed task.id now attempts error w.db in
      record w {
        db = db';
        redis =
            if rows == 0
            then w.redis
            else push_dead_letter r codec (dead_letter now task attempts error) w.redis;
      }

  pub retry_or_fail : ℕ → Task → Text → World r.State → World r.State × Verdict
  unfolding retry_later fail_for_good
  retry_or_fail now task error w =
      let attempts = task.attempts + 1 in
      if leb attempts settings.task_max_retries
      then (retry_later now task attempts error w, retry)
      else (fail_for_good now task attempts error w, failed)
