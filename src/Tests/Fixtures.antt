-- ===== src/Tests/Fixtures.antt =====
-- A Redis server in memory, a codec, and small worlds to run the handlers on.
use agentic_execution.Prelude.{
  ℕ, ◌≡◌, refl, ap, true, false, Option, none, some, List, [], ◌∷◌, ◌++◌, map, arith, leb,
  if◌then◌else◌, length, take, drop, filter, Text, codes, text_eq, pos,
}
use agentic_execution.Enums.{ExecutionStatus, TaskStatus, AgentType, agent_type_value}
use agentic_execution.Settings.{Settings}
use agentic_execution.Models.{Execution, Task, Db}
use agentic_execution.Models.Keys.{HasKeys}
use agentic_execution.Json.{Json, Codec, str, obj, get_field}
use agentic_execution.JobQueue.{job, CodecLaws}
use agentic_execution.Redis.{
  Redis, RedisLaws, Scored, without, insert_scored, has_member, first, rest,
}
use agentic_execution.Llm.{returned, LlmProvider, LlmResponse}
use agentic_execution.World.{World, Env}

abbrev pub Store : Type 0
Store = (Text → List Text) × (Text → List Scored)

abbrev pub memory : Redis
memory = record {
  State = Store;
  rpush = λ key value s. (λ k. if text_eq key k then s.0 k ++ value ∷ [] else s.0 k, s.1);
  blpop = λ key s. (first (s.0 key), (λ k. if text_eq key k then rest (s.0 k) else s.0 k, s.1));
  entries = λ key s. s.0 key;
  zadd = λ key m n s. (
    s.0,
    λ k.
        if text_eq key k
        then insert_scored (record { member = m; score = n }) (without m (s.1 k))
        else s.1 k,
  );
  zrangebyscore =
      λ key bound s. map (λ (z : Scored). z.member) (filter (λ z. leb z.score bound) (s.1 key));
  zrem = λ key m s. (
    if has_member m (s.1 key) then 1 else 0,
    (s.0, λ k. if text_eq key k then without m (s.1 k) else s.1 k),
  );
  members = λ key s. s.1 key;
}

pub memory_laws : RedisLaws memory
memory_laws = record {
  entries-rpush = λ key other value s. refl;
  members-rpush = λ key other value s. refl;
  blpop-value = λ key s. refl;
  entries-blpop = λ key other s. refl;
  members-blpop = λ key other s. refl;
  entries-zadd = λ key other m n s. refl;
  members-zadd = λ key other m n s. refl;
  zrangebyscore_due = λ key bound s. refl;
  zrem-count = λ key m s. refl;
  entries-zrem = λ key other m s. refl;
  members-zrem = λ key other m s. refl;
}

abbrev pub settings : Settings
settings = record {
  llm_model = codes "mock-model";
  planner_min_tasks = 2;
  planner_max_tasks = 5;
  queue_mode = true;
  task_max_retries = 2;
  retry_backoff_base = 1000000;
  retry_backoff_max = 30000000;
  retry_backoff_jitter = true;
  task_lease = 90000000;
  tools_enabled = true;
  agent_max_tool_iterations = 3;
  api_key = none;
  api_keys = [];
  rate_limit_per_minute = 2;
  max_request_bytes = 65536;
}

abbrev pub execution : Execution
execution = record {
  id = 1;
  user_request = codes "compare two databases";
  status = ExecutionStatus.running;
  final_result = none;
  error = none;
  started_at = some 5;
  completed_at = none;
  duration_ms = none;
  total_tokens = none;
  cost_usd = none;
  created_at = 1;
  updated_at = 1;
}

abbrev pub research_task : Task
research_task = record {
  id = 10;
  execution_id = 1;
  agent_type = agent_type_value AgentType.research;
  description = codes "gather";
  status = TaskStatus.pending;
  order_index = 0;
  error = none;
  depends_on = some [];
  enqueued = false;
  attempts = 0;
  next_attempt_at = none;
  started_at = none;
  completed_at = none;
  duration_ms = none;
  total_tokens = none;
  cost_usd = none;
  tool_calls = 0;
  created_at = 1;
  updated_at = 1;
}

abbrev pub summary_task : Task
summary_task = record research_task {
  id = 11;
  agent_type = agent_type_value AgentType.summarization;
  order_index = 1;
  depends_on = some (pos 0 ∷ []);
}

abbrev pub two_tasks : Db
two_tasks = record {
  executions = execution ∷ [];
  tasks = research_task ∷ summary_task ∷ [];
  results = [];
}

-- Both have succeeded.
abbrev pub done_tasks : Db
done_tasks = record two_tasks {
  tasks =
      record research_task { status = TaskStatus.completed }
      ∷ record summary_task { status = TaskStatus.completed }
      ∷ [];
  results =
      record { task_id = 10; output = codes "facts" }
      ∷ record { task_id = 11; output = codes "verdict" }
      ∷ [];
}

pub two_tasks-HasKeys : HasKeys two_tasks.tasks
two_tasks-HasKeys id = ground arith

abbrev pub no_entries : Store
no_entries = (λ key. [], λ key. [])

abbrev pub fresh_world : World Store
fresh_world = record { db = two_tasks; redis = no_entries }

-- A codec that writes the two texts of a job, and reads them back; other values are written empty.
abbrev write_job : Option Json → Option Json → Text
write_job (some (str kind)) (some (str id)) = length kind ∷ (kind ++ id)
write_job _ _ = []

abbrev write_json : Json → Text
write_json (obj fields) =
    write_job (get_field (codes "type") fields) (get_field (codes "id") fields)
write_json _ = []

abbrev read_json : Text → Option Json
read_json [] = none
read_json (n ∷ s) = some (job (take n s) (drop n s))

abbrev text_of : Json → Text
text_of (str s) = s
text_of _ = []

abbrev read_id : Text → Option ℕ
read_id (n ∷ []) = some n
read_id _ = none

abbrev pub job_codec : Codec
job_codec = record {
  dumps = write_json;
  loads = read_json;
  to_str = text_of;
  uuid_str = λ id. id ∷ [];
  parse_uuid = read_id;
  isoformat = λ n. n ∷ [];
}

take-append : (xs ys : Text) → take (length xs) (xs ++ ys) ≡ xs
take-append [] ys = refl
take-append (x ∷ xs) ys = ap (λ (s : Text). x ∷ s) (take-append xs ys)

drop-append : (xs ys : Text) → drop (length xs) (xs ++ ys) ≡ ys
drop-append [] ys = refl
drop-append (x ∷ xs) ys = drop-append xs ys

pub job_codec-laws : CodecLaws job_codec
unfolding get_field text_eq
job_codec-laws = record {
  loads-dumps = λ kind id. rw (take-append kind id, drop-append kind id);
  to_str-str = λ s. refl;
  parse-uuid_str = λ id. refl;
  uuid_str-ne_nil = λ id e. cc;
}

abbrev pub env : Env
env = record {
  settings = settings;
  codec = job_codec;
  jitter = λ d. d;
  tie_up = λ n. false;
  task_timeout = codes "30.0";
  tool_timeout = codes "10.0";
}

abbrev pub answer : LlmResponse
answer = record {
  text = codes "noted";
  model = codes "gpt-4o-mini";
  prompt_tokens = some 12;
  completion_tokens = some 8;
  tool_calls = [];
}

abbrev pub provider : LlmProvider
provider = record {
  model = codes "gpt-4o-mini";
  complete = λ prompt system. returned answer;
  chat = λ messages system tools. returned answer;
}
