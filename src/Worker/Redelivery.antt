-- ===== src/Worker/Redelivery.antt =====
-- From `_retry_or_fail` (services/scheduler.py) through the delayed queue back to a worker.
use agentic_execution.Prelude.{
  ℕ, suc, ◌+◌, ◌≤◌, ◌≡◌, refl, ap, ◌∙◌, inl, inr, true, some, List, [], ◌∷◌, ◌++◌, map, arith,
  Bool-cases, drop, any, Text, text_eq, eq-of-text_eq,
}
use agentic_execution.Enums.{TaskStatus}
use agentic_execution.Models.{Task, get_task}
use agentic_execution.Models.Keys.{HasKeys}
use agentic_execution.Json.{Json, Codec}
use agentic_execution.Redis.{Redis, RedisLaws, first}
use agentic_execution.JobQueue.{
  CodecLaws, queue_key, delayed_key, task_type, job, dequeue, load_payload, promote_due,
}
use agentic_execution.JobQueue.Promotion.{IsDistinct, names}
use agentic_execution.World.{World, Env}
use agentic_execution.Scheduler.Retry.{retry_or_fail}
use agentic_execution.Scheduler.Retry.Policy.{next_at, retry_or_fail-retry}
use agentic_execution.Worker.{task_job, dispatch}
use agentic_execution.Worker.Delivery.{dequeue_many, entries-dequeue_many, dispatch-task}

-- Where a member stands among the jobs.
position :
    (write : Text → Text) (id : Text) (ahead ids : List Text)
    → any (text_eq id) ids ≡ true
    → (n : ℕ) × ((rest : List Text) × (drop n (ahead ++ map write ids) ≡ write id ∷ rest))
position write id (a ∷ ahead) ids h =
    let (n, later) = position write id ahead ids h in (suc n, later)
position write id [] [] h = cc
position write id [] (m ∷ ids) h = elim (Bool-cases (text_eq id m)) [
  | inl hit ↦ (0, (map write ids, rw (eq-of-text_eq id m hit) refl))
  | inr miss ↦ let (n, later) = position write id [] ids (ground arith) in (suc n, later)
]

module _ (r : Redis) (redis_laws : RedisLaws r) (c : Codec) (laws : CodecLaws c) where
  -- A job for the task is taken after some others.
  abbrev pub Arrives : ℕ → r.State → Type 0
  Arrives task_id s =
      (n : ℕ) × (j : Json) × ((dequeue r c (dequeue_many r redis_laws c n s)).0 ≡ some j)
      × (dispatch c j ≡ task_job task_id)

  queued-Arrives :
      (task_id : ℕ) (ahead ids : List Text) (s : r.State)
      → r.entries queue_key s ≡ ahead ++ map (λ m. c.dumps (job task_type m)) ids
      → any (text_eq (c.uuid_str task_id)) ids ≡ true
      → Arrives task_id s
  unfolding dequeue
  queued-Arrives task_id ahead ids s queued there =
      let id = c.uuid_str task_id in
      let (n, (later, at_front)) = position (λ m. c.dumps (job task_type m)) id ahead ids there in
      let front = entries-dequeue_many r redis_laws c n s ∙ ap (drop n) queued ∙ at_front in
      (
        n,
        job task_type id,
        ap (load_payload r c)
              (redis_laws.blpop-value queue_key (dequeue_many r redis_laws c n s) ∙ ap first front)
            ∙ laws.loads-dumps task_type id,
        dispatch-task c laws task_id,
      )

module _ (r : Redis) (redis_laws : RedisLaws r) (env : Env) (laws : CodecLaws env.codec) where
  -- With unique ids, a Redis and a codec as documented, and distinct members in the delayed queue:
  -- where _retry_or_fail retries a RUNNING task and promote_due runs once the task is due, one of
  -- the jobs taken from the main queue after that is dispatched to execute_task with the id of the
  -- task.
  pub retry_or_fail-Arrives :
      (now later : ℕ) (t : Task) (error : Text) (w : World r.State) (keys : HasKeys w.db.tasks)
      (found : get_task t.id w.db ≡ some t) (runs : t.status ≡ TaskStatus.running)
      → t.attempts + 1 ≤ env.settings.task_max_retries
      → IsDistinct (names (r.members delayed_key w.redis))
      → next_at r redis_laws env now t error w keys found runs ≤ later
      → Arrives r redis_laws env.codec laws t.id
          (promote_due r env.codec later (retry_or_fail r env now t error w).0.redis).0
  retry_or_fail-Arrives now later t error w keys found runs left distinct due =
      let waits =
        (retry_or_fail-retry r redis_laws env now t error w keys found runs left distinct
          later).4 in
      let (ids, queued, there) = waits.1 in
      queued-Arrives r redis_laws env.codec laws t.id (r.entries queue_key w.redis) ids _ queued
        (there ∙ ground arith)
