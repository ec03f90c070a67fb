-- ===== src/Scheduler/Retry/Policy.antt =====
-- What `_retry_or_fail` does to the task, the delayed queue and the dead-letter queue.
use agentic_execution.Prelude.{
  ℕ, ◌+◌, ◌≤◌, ◌<◌, ◌≡◌, refl, ◌≢◌, inl, inr, true, false, Option, none, some, [], ◌∷◌, ◌++◌, arith,
  leb, if◌then◌else◌, ==_refl, Bool-cases, Text, codes, text_eq, pos,
}
use agentic_execution.Enums.{TaskStatus, task_status_eq}
use agentic_execution.Models.{Task, get_task}
use agentic_execution.Models.Keys.{HasKeys, count-one, find-update_where}
use agentic_execution.Models.Updates.{update_where-none}
use agentic_execution.Scheduler.Statements.Claims.{count_refused}
use agentic_execution.Redis.{Redis, RedisLaws}
use agentic_execution.JobQueue.{
  delayed_key, dlq_key, queue_key, schedule_task, push_dead_letter, promote_due,
}
use agentic_execution.Scheduler.Retry.Backoff.{doubled, backoff-doubled}
use agentic_execution.JobQueue.Promotion.{IsDistinct, names}
use agentic_execution.JobQueue.Delay.{Waits, schedule_task-Waits}
use agentic_execution.Json.{Json, obj, str, int, get_field}
use agentic_execution.World.{World, Env}
use agentic_execution.Scheduler.Statements.{mark_retrying, mark_failed}
use agentic_execution.Scheduler.Retry.{
  backoff, dead_letter, retry_later, fail_for_good, retry_or_fail, retry, failed as for_good,
}

module _ (r : Redis) (laws : RedisLaws r) (env : Env) (now : ℕ) (t : Task) (error : Text)
    (w : World r.State) (keys : HasKeys w.db.tasks) (found : get_task t.id w.db ≡ some t)
    (runs : t.status ≡ TaskStatus.running) where
  abbrev pub next_at : ℕ
  next_at =
      let delay = doubled env.settings t.attempts in
      now + (if env.settings.retry_backoff_jitter then env.jitter delay else delay)

  next_at-backoff : now + backoff (t.attempts + 1) env.settings env.jitter ≡ next_at
  next_at-backoff = rw (backoff-doubled t.attempts env.settings env.jitter) refl

  is_running : task_status_eq t.status TaskStatus.running ≡ true
  is_running = rw runs

  abbrev pub retried : Task
  retried = record t {
    status = TaskStatus.retrying;
    attempts = t.attempts + 1;
    next_attempt_at = some next_at;
    error = some error;
    updated_at = now;
  }

  abbrev pub given_up : Task
  given_up = record t {
    status = TaskStatus.failed;
    attempts = t.attempts + 1;
    error = some error;
    updated_at = now;
  }

  retry_later-redis :
      (retry_later r env now t (t.attempts + 1) error w).redis
      ≡ schedule_task r env.codec t.id next_at w.redis
  unfolding retry_later mark_retrying get_task
  retry_later-redis =
      rw
        (
          count-one t.id (λ (u : Task). task_status_eq u.status TaskStatus.running) w.db.tasks
              {t = t} keys found is_running,
          next_at-backoff,
        )
        refl

  retry_later-row :
      get_task t.id (retry_later r env now t (t.attempts + 1) error w).db ≡ some retried
  unfolding retry_later mark_retrying get_task
  retry_later-row = rw (
    next_at-backoff,
    find-update_where t.id t.id (λ (u : Task). task_status_eq u.status TaskStatus.running)
        (λ (u : Task). record u {
          status = TaskStatus.retrying;
          attempts = t.attempts + 1;
          next_attempt_at = some next_at;
          error = some error;
          updated_at = now;
        })
        w.db.tasks (λ u. refl),
    ==_refl t.id,
    found,
    is_running,
  )

  fail_for_good-redis :
      (fail_for_good r env now t (t.attempts + 1) error w).redis
      ≡ push_dead_letter r env.codec (dead_letter r env now t (t.attempts + 1) error) w.redis
  unfolding fail_for_good mark_failed get_task
  fail_for_good-redis = rw (
      count-one t.id (λ (u : Task). task_status_eq u.status TaskStatus.running) w.db.tasks {t = t}
        keys found is_running)

  fail_for_good-row :
      get_task t.id (fail_for_good r env now t (t.attempts + 1) error w).db ≡ some given_up
  unfolding fail_for_good mark_failed get_task
  fail_for_good-row = rw (
    find-update_where t.id t.id (λ (u : Task). task_status_eq u.status TaskStatus.running)
        (λ (u : Task). record u {
          status = TaskStatus.failed;
          attempts = t.attempts + 1;
          error = some error;
          updated_at = now;
        })
        w.db.tasks (λ u. refl),
    ==_refl t.id,
    found,
    is_running,
  )

  -- With unique ids, a Redis as documented, and distinct members in the delayed queue, for a
  -- RUNNING task with attempts left, _retry_or_fail makes it RETRYING with one attempt more, due
  -- after a delay that doubles with each attempt up to the maximum and has the jitter applied; it
  -- touches neither the main queue nor the dead letters; and when promote_due runs next, at
  -- whatever time, the task is still in the delayed queue if that is before it is due, and is
  -- among the jobs that go onto the main queue if it is not.
  pub retry_or_fail-retry :
      t.attempts + 1 ≤ env.settings.task_max_retries
      → IsDistinct (names (r.members delayed_key w.redis))
      → (later : ℕ)
      → let (w', verdict) = retry_or_fail r env now t error w in
        (verdict ≡ retry)
        × (get_task t.id w'.db ≡ some retried)
        × (r.entries queue_key w'.redis ≡ r.entries queue_key w.redis)
        × (r.entries dlq_key w'.redis ≡ r.entries dlq_key w.redis)
        × Waits r laws env.codec t.id next_at later w.redis
            (promote_due r env.codec later w'.redis).0
  unfolding retry_or_fail schedule_task
  retry_or_fail-retry left distinct later =
      let tries : leb (t.attempts + 1) env.settings.task_max_retries ≡ true = ground arith in
      rw tries (
        refl,
        retry_later-row,
        rw (retry_later-redis, laws.entries-zadd) refl,
        rw (retry_later-redis, laws.entries-zadd) refl,
        rw retry_later-redis
            (schedule_task-Waits r laws env.codec t.id next_at later w.redis distinct),
      )

  abbrev value_of : Text → Json → Option Json
  value_of key (obj fields) = get_field key fields
  value_of key _ = none

  -- The six fields of a dead letter of the task.
  abbrev pub IsLetter : Json → Type 0
  IsLetter letter =
      (value_of (codes "task_id") letter ≡ some (str (env.codec.uuid_str t.id)))
      × (value_of (codes "execution_id") letter ≡ some (str (env.codec.uuid_str t.execution_id)))
      × (value_of (codes "agent_type") letter ≡ some (str t.agent_type))
      × (value_of (codes "attempts") letter ≡ some (int (pos (t.attempts + 1))))
      × (value_of (codes "error") letter ≡ some (str error))
      × (value_of (codes "failed_at") letter ≡ some (str (env.codec.isoformat now)))

  dead_letter-IsLetter : IsLetter (dead_letter r env now t (t.attempts + 1) error)
  unfolding dead_letter get_field text_eq
  dead_letter-IsLetter = (refl, refl, refl, refl, refl, refl)

  -- With unique ids and a Redis as documented, for a RUNNING task with no attempt left,
  -- _retry_or_fail makes it FAILED and appends exactly one dead letter, which has the ids of the
  -- task and of its execution, the agent, the number of attempts, the error and the time; the
  -- other queues are as before.
  pub retry_or_fail-failed :
      env.settings.task_max_retries < t.attempts + 1
      → let (w', verdict) = retry_or_fail r env now t error w in
        (verdict ≡ for_good)
        × (get_task t.id w'.db ≡ some given_up)
        × ((letter : Json) × (r.entries dlq_key w'.redis
              ≡ r.entries dlq_key w.redis ++ env.codec.dumps letter ∷ [])
            × IsLetter letter)
        × (r.entries queue_key w'.redis ≡ r.entries queue_key w.redis)
        × (r.members delayed_key w'.redis ≡ r.members delayed_key w.redis)
  unfolding retry_or_fail push_dead_letter text_eq
  retry_or_fail-failed spent =
      let tries : leb (t.attempts + 1) env.settings.task_max_retries ≡ false = ground arith in
      rw tries (
        refl,
        fail_for_good-row,
        (
          dead_letter r env now t (t.attempts + 1) error,
          rw (fail_for_good-redis, laws.entries-rpush) refl,
          dead_letter-IsLetter,
        ),
        rw (fail_for_good-redis, laws.entries-rpush) refl,
        rw (fail_for_good-redis, laws.members-rpush) refl,
      )

-- With unique ids, _retry_or_fail changes nothing, no row and no queue, for a task that is not
-- RUNNING in the database, whatever the worker read.
pub retry_or_fail-lost :
    (r : Redis) (env : Env) (now : ℕ) (fresh t : Task) (error : Text) (w : World r.State)
    → HasKeys w.db.tasks
    → get_task fresh.id w.db ≡ some t
    → t.status ≢ TaskStatus.running
    → (retry_or_fail r env now fresh error w).0 ≡ w
unfolding retry_or_fail retry_later fail_for_good mark_retrying mark_failed get_task
retry_or_fail-lost r env now fresh t error w keys found moved =
    let refused : task_status_eq t.status TaskStatus.running ≡ false = ground arith in
    let none_met =
      count_refused fresh.id (λ (u : Task). task_status_eq u.status TaskStatus.running) w.db.tasks
        {t = t} keys found refused in
    elim (Bool-cases (leb (fresh.attempts + 1) env.settings.task_max_retries)) [
      | inl e ↦ rw (e, none_met, update_where-none _ _ w.db.tasks none_met) refl
      | inr e ↦ rw (e, none_met, update_where-none _ _ w.db.tasks none_met) refl
    ]
