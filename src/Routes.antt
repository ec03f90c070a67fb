-- ===== src/Routes.antt =====
-- backend/app/api/routes/executions.py. The body of a request is validated before the route runs;
-- the response is the JSON of the row, which the schemas of backend/app/schemas make of it.
pub mod Stream
pub mod System
pub mod Schemas
use agentic_execution.Prelude.{
  ℕ, Bool, true, false, ◌&&◌, Option, none, some, List, [], ◌∷◌, ◌++◌, leb, if◌then◌else◌, take,
  Text, text_eq, strip,
}
use agentic_execution.Enums.{ExecutionStatus, pending, completed, failed}
use agentic_execution.Settings.{Settings}
use agentic_execution.Models.{Execution, Task, Db, get_execution, tasks_of}
use agentic_execution.Json.{Codec}
use agentic_execution.Redis.{Redis}
use agentic_execution.JobQueue.{enqueue_plan}
use agentic_execution.World.{World, Env}

-- `Execution(...)` with the defaults of its columns.
new_execution : ℕ → ℕ → Text → Execution
new_execution id now user_request = record {
  id = id;
  user_request = strip user_request;
  status = ExecutionStatus.pending;
  final_result = none;
  error = none;
  started_at = none;
  completed_at = none;
  duration_ms = none;
  total_tokens = none;
  cost_usd = none;
  created_at = now;
  updated_at = now;
}

-- What runs after the response: in inline mode, `run_execution` of the id.
pub data Background : Type 0 where
  nothing : Background
  run_inline : ℕ → Background

create_execution : (r : Redis) → Env → ℕ → ℕ → Text → World r.State → World r.State × Background
unfolding new_execution
create_execution r env id now user_request w =
    let db' = record (w.db) {
      executions = w.db.executions ++ new_execution id now user_request ∷ [];
    } in
    if env.settings.queue_mode
    then (record w { db = db'; redis = enqueue_plan r env.codec id w.redis }, nothing)
    else (record w { db = db' }, run_inline id)

-- `order_by(Execution.created_at.desc())`; the order of equal times is the database's, here that of
-- the rows.
insert_newest : Execution → List Execution → List Execution
insert_newest e [] = e ∷ []
insert_newest e (x ∷ xs) =
    if leb x.created_at e.created_at then e ∷ x ∷ xs else x ∷ insert_newest e xs

newest_first : List Execution → List Execution
unfolding insert_newest
newest_first [] = []
newest_first (e ∷ es) = insert_newest e (newest_first es)

-- `Query(ge=1, le=200)`: `none` is the answer 422.
list_executions : ℕ → Db → Option (List Execution)
unfolding newest_first
list_executions limit db =
    if leb 1 limit && leb limit 200 then some (take limit (newest_first db.executions)) else none

insert_by_order : Task → List Task → List Task
insert_by_order t [] = t ∷ []
insert_by_order t (u ∷ us) =
    if leb t.order_index u.order_index then t ∷ u ∷ us else u ∷ insert_by_order t us

by_order : List Task → List Task
unfolding insert_by_order
by_order [] = []
by_order (t ∷ ts) = insert_by_order t (by_order ts)

-- `none` is the answer 404.
get_execution_tasks : ℕ → Db → Option (List Task)
unfolding by_order
get_execution_tasks id db = elim (get_execution id db) [
  | none ↦ none
  | some _ ↦ some (by_order (tasks_of id db))
]

-- The server-sent events of `stream_execution_events`.
pub data Event : Type 0 where
  not_found : Event
  update : Text → Event
  done : Event
  keepalive : Event

-- `execution.status in _TERMINAL`
abbrev pub is_terminal : Execution → Bool
is_terminal e = elim e.status [
  | ExecutionStatus.completed ↦ true
  | ExecutionStatus.failed ↦ true
  | _ ↦ false
]

abbrev same_text : Option Text → Text → Bool
same_text none s = false
same_text (some t) s = text_eq t s

-- `event_stream`: each turn before the deadline sees a state of the database.
pub event_stream : (Execution → Db → Text) → ℕ → Option Text → List Db → List Event
event_stream render id last_payload [] = []
event_stream render id last_payload (db ∷ dbs) = elim (get_execution id db) [
  | none ↦ not_found ∷ []
  | some e ↦
      let data_text = render e db in
      let changed = event_stream render id (some data_text) dbs in
      let unchanged = event_stream render id last_payload dbs in
      if same_text last_payload data_text
      then keepalive ∷ unchanged
      else update data_text ∷ (if is_terminal e then done ∷ [] else changed)
]
