-- ===== src/JobQueue.antt =====
-- backend/app/jobqueue.py: the job queue, the delayed queue and the dead-letter queue.
pub mod Promotion
pub mod Delay
use agentic_execution.Prelude.{
  ℕ, ◌+◌, ◌-◌, ◌≡◌, ◌≢◌, Option, none, some, List, [], ◌∷◌, reverse, ◌==◌, if◌then◌else◌, length,
  drop, Text, codes,
}
use agentic_execution.Json.{Json, Codec, str, obj, end, field}
use agentic_execution.Redis.{Redis}

abbrev pub queue_key : Text
queue_key = codes "aep:jobs"

abbrev pub delayed_key : Text
delayed_key = codes "aep:delayed"

abbrev pub dlq_key : Text
dlq_key = codes "aep:dlq"

-- JobType.PLAN and JobType.TASK
abbrev pub plan_type : Text
plan_type = codes "plan"

abbrev pub task_type : Text
task_type = codes "task"

-- {"type": ..., "id": ...}
abbrev pub job : Text → Text → Json
job kind id = obj (field (codes "type") (str kind) (field (codes "id") (str id) end))

-- What the program relies on: jobs and ids come back as they were written, `str` leaves a text
-- as it is, and no id is written as the empty text.
pub record CodecLaws (c : Codec) : Type 0 where
  pub loads-dumps : (kind id : Text) → c.loads (c.dumps (job kind id)) ≡ some (job kind id)
  pub to_str-str : (s : Text) → c.to_str (str s) ≡ s
  pub parse-uuid_str : (id : ℕ) → c.parse_uuid (c.uuid_str id) ≡ some id
  pub uuid_str-ne_nil : (id : ℕ) → c.uuid_str id ≢ []

module _ (r : Redis) (c : Codec) where
  open r use {State, rpush, blpop, entries, zadd, zrangebyscore, zrem, members}

  unfoldable pub enqueue : Json → State → State
  enqueue j s = rpush queue_key (c.dumps j) s

  unfoldable pub enqueue_plan : ℕ → State → State
  unfolding enqueue
  enqueue_plan execution_id s = enqueue (job plan_type (c.uuid_str execution_id)) s

  unfoldable pub enqueue_task : ℕ → State → State
  unfolding enqueue
  enqueue_task task_id s = enqueue (job task_type (c.uuid_str task_id)) s

  abbrev pub load_payload : Option Text → Option Json
  load_payload none = none
  load_payload (some payload) = c.loads payload

  -- A malformed payload is dropped, with the same result as no payload.
  unfoldable pub dequeue : State → Option Json × State
  dequeue s = let (payload, s') = blpop queue_key s in (load_payload payload, s')

  pub queue_depth : State → ℕ
  queue_depth s = length (entries queue_key s)

  unfoldable pub schedule_task : ℕ → ℕ → State → State
  schedule_task task_id run_at s = zadd delayed_key (c.uuid_str task_id) run_at s

  -- The body of the loop over the due members.
  promote_member : Text → State × ℕ → State × ℕ
  promote_member member (s, moved) =
      let (removed, s') = zrem delayed_key member s in
      if removed == 1
      then (rpush queue_key (c.dumps (job task_type member)) s', moved + 1)
      else (s', moved)

  promote_all : List Text → State × ℕ → State × ℕ
  promote_all [] acc = acc
  promote_all (member ∷ due) acc = promote_all due (promote_member member acc)

  pub promote_due : ℕ → State → State × ℕ
  promote_due now s = promote_all (zrangebyscore delayed_key now s) (s, 0)

  pub delayed_depth : State → ℕ
  delayed_depth s = length (members delayed_key s)

  unfoldable pub push_dead_letter : Json → State → State
  push_dead_letter entry s = rpush dlq_key (c.dumps entry) s

  load_entries : List Text → List Json
  load_entries [] = []
  load_entries (item ∷ items) = elim (c.loads item) [
    | none ↦ load_entries items
    | some entry ↦ entry ∷ load_entries items
  ]

  -- `lrange(DLQ_KEY, -limit, -1)`, the most recent first. With `limit` 0 the range is the whole
  -- list, since -0 is 0.
  pub dead_letter_entries : ℕ → State → List Json
  unfolding load_entries
  dead_letter_entries limit s =
      let all_entries = entries dlq_key s in
      reverse (
        load_entries
          (if limit == 0 then all_entries else drop (length all_entries - limit) all_entries))

  pub dead_letter_depth : State → ℕ
  dead_letter_depth s = length (entries dlq_key s)
