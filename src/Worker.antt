-- ===== src/Worker.antt =====
-- backend/app/worker.py: what a consumer thread does with a job. A job that raises is logged and
-- dropped, as is a job with no valid id or no known type.
pub mod Delivery
pub mod Redelivery
pub mod Process
use agentic_execution.Prelude.{
  ℕ, zero, Bool, true, false, not, Option, none, some, if◌then◌else◌, null, Text, codes, text_eq,
  pos,
}
use agentic_execution.Json.{
  Json, Items, Fields, Codec, null as json_null, bool, int, float, str, arr, obj, nil, end,
  get_field,
}
use agentic_execution.Redis.{Redis}
use agentic_execution.JobQueue.{plan_type, task_type, dequeue}
use agentic_execution.Llm.{Outcome, LlmProvider}
use agentic_execution.Tools.{Registry}
use agentic_execution.World.{World, Env}
use agentic_execution.Scheduler.Handlers.{plan_execution, execute_task}

pub data Dispatch : Type 0 where
  dropped : Dispatch
  plan_job : ℕ → Dispatch
  task_job : ℕ → Dispatch

-- `bool(raw_id)`. A float is 0 by its text in no job that the program writes; it is no UUID either way.
abbrev truthy : Json → Bool
truthy json_null = false
truthy (bool b) = b
truthy (int (pos zero)) = false
truthy (int _) = true
truthy (float s) = true
truthy (str s) = not (null s)
truthy (arr nil) = false
truthy (arr _) = true
truthy (obj end) = false
truthy (obj _) = true

abbrev is_type : Text → Option Json → Bool
is_type kind (some (str s)) = text_eq s kind
is_type kind _ = false

abbrev by_type : Option Json → Option ℕ → Dispatch
by_type job_type none = dropped
by_type job_type (some id) =
    if is_type plan_type job_type
    then plan_job id
    else if is_type task_type job_type
    then task_job id
    else dropped

abbrev job_id : Codec → Option Json → Option ℕ
job_id c none = none
job_id c (some raw) = if truthy raw then c.parse_uuid (c.to_str raw) else none

-- The guards of `_handle_job`. A job that is no object has no `get`, and raises.
pub dispatch : Codec → Json → Dispatch
dispatch c (obj fields) =
    by_type (get_field (codes "type") fields) (job_id c (get_field (codes "id") fields))
dispatch c _ = dropped

module _ (r : Redis) (env : Env) (provider : Outcome LlmProvider) (registry : Registry) where
  -- What the handlers take from outside: new ids, the times, and whether the agent is late.
  pub record Run : Type 0 where
    pub ids : ℕ → ℕ
    pub begun : ℕ
    pub ended : ℕ
    pub late : Bool

  -- Each handler calls `get_llm_provider` for itself.
  handle : Run → Dispatch → World r.State → World r.State
  handle run dropped w = w
  handle run (plan_job id) w = plan_execution r env provider run.ids id run.begun w
  handle run (task_job id) w =
      execute_task r env provider registry run.late id run.begun run.ended w

  handle_job : Run → Json → World r.State → World r.State
  unfolding dispatch handle
  handle_job run job w = handle run (dispatch env.codec job) w

  abbrev handle_dequeued : Run → Option Json → World r.State → World r.State
  handle_dequeued run none w = w
  handle_dequeued run (some job) w = handle_job run job w

  -- One turn of `_consumer_loop`.
  consume : Run → World r.State → World r.State
  consume run w =
      let (job, redis') = dequeue r env.codec w.redis in
      handle_dequeued run job (record w { redis = redis' })
