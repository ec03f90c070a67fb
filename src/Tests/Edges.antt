-- ===== src/Tests/Edges.antt =====
-- The HTTP edge and the worker: the quota, the API keys, the delivery of jobs and the event stream.
use agentic_execution.Prelude.{
  ℕ, ◌≡◌, refl, sym, ◌≢◌, inl, inr, Bool, true, false, not, ◌&&◌, Option, none, some, List, [], ◌∷◌,
  ◌++◌, map, arith, if◌then◌else◌, Bool-cases, length, filter, null, Text, codes, text_eq, is_space,
  lstrip, strip, lower,
}
use agentic_execution.Enums.{ExecutionStatus}
use agentic_execution.Settings.{Settings}
use agentic_execution.Models.{Execution, Db, get_execution}
use agentic_execution.JobQueue.{
  queue_key, delayed_key, task_type, job, dequeue, enqueue_task, enqueue_plan, promote_due,
}
use agentic_execution.JobQueue.Promotion.{IsDistinct, IsAscending, names, is_due, promote_due-moves}
use agentic_execution.Json.{Json}
use agentic_execution.App.{Router}
use agentic_execution.Middleware.{Scope, is_prefix}
use agentic_execution.Security.{Request, split, configured_api_keys, provided_key, require_api_key}
use agentic_execution.Worker.{dispatch, plan_job, task_job}
use agentic_execution.Worker.Delivery.{dequeue_many, enqueue-delivered}
use agentic_execution.Routes.{event_stream, done, is_terminal}
use agentic_execution.Routes.Stream.{last_event, ShowsStatus, stream-done}
use agentic_execution.Tests.Fixtures.{
  memory, memory_laws, job_codec, job_codec-laws, settings, execution, two_tasks, no_entries, Store,
}

abbrev ann : Scope
ann = record {
  is_http = true;
  headers = (codes "x-api-key", codes "ann") ∷ [];
  path = codes "/api/executions";
  client = none;
}

abbrev burst : List (ℕ × Scope)
burst = (120, ann) ∷ (121, ann) ∷ (150, ann) ∷ []

abbrev keyed : Settings
keyed = record settings {
  api_keys = codes "ann,bob";
  rate_limit_per_minute = 2;
  max_request_bytes = 1000;
}

abbrev under_api : Scope → Bool
under_api scope = scope.is_http && is_prefix (codes "/api") scope.path

abbrev only_executions : Scope → Option Router
only_executions scope = if under_api scope then some Router.executions else none

-- The third request of the burst is refused for the rate, and the fourth for its size.
abbrev long_burst : List (ℕ × Scope)
long_burst =
    burst ++ ((151, record ann { headers = (codes "content-length", codes "1001") ∷ [] }) ∷ [])

abbrev guarded : Settings
guarded = record settings { api_keys = codes "k1,k2" }

abbrev caller : Request
caller = record {
  api_key_header = none;
  api_key_param = none;
  authorization = some (codes "Bearer k2");
}

guarded_keys : null (configured_api_keys guarded) ≡ false
unfolding configured_api_keys split strip lstrip is_space
guarded_keys = refl

caller_passes : require_api_key guarded caller ≡ true
unfolding require_api_key configured_api_keys provided_key split strip lstrip is_space text_eq lower
caller_passes = refl

enqueue-delivered_example :
    let s = enqueue_plan memory job_codec 1 no_entries in
    let ahead = dequeue_many memory memory_laws job_codec (length (memory.entries queue_key s)) in
    ((j : Json) × ((dequeue memory job_codec (ahead (enqueue_task memory job_codec 10 s))).0
        ≡ some j)
      × (dispatch job_codec j ≡ task_job 10))
    × ((j : Json) × ((dequeue memory job_codec (ahead (enqueue_plan memory job_codec 10 s))).0
          ≡ some j)
        × (dispatch job_codec j ≡ plan_job 10))
enqueue-delivered_example =
    enqueue-delivered memory memory_laws job_codec job_codec-laws 10
      (enqueue_plan memory job_codec 1 no_entries)

-- A retry that is due, and one that is not.
abbrev delayed_pair : Store
delayed_pair = (
  λ key. [],
  λ key. record { member = codes "a"; score = 5 } ∷ record { member = codes "b"; score = 50 } ∷ [],
)

delayed_pair-IsDistinct : IsDistinct (names (memory.members delayed_key delayed_pair))
unfolding text_eq
delayed_pair-IsDistinct = (refl, (refl, tt))

delayed_pair-IsAscending : IsAscending (memory.members delayed_key delayed_pair)
unfolding text_eq
delayed_pair-IsAscending = ((omega arith, tt), (tt, tt))

promote_due-moves_example :
    let due = filter (is_due 7) (memory.members delayed_key delayed_pair) in
    let (s', moved) = promote_due memory job_codec 7 delayed_pair in
    (moved ≡ length due)
    × (memory.entries queue_key s'
        ≡ memory.entries queue_key delayed_pair
          ++ map (λ m. job_codec.dumps (job task_type m)) (names due))
    × (memory.members delayed_key s'
        ≡ filter (λ z. not (is_due 7 z)) (memory.members delayed_key delayed_pair))
    × IsAscending due
promote_due-moves_example =
    promote_due-moves memory memory_laws job_codec 7 delayed_pair delayed_pair-IsDistinct
      delayed_pair-IsAscending

-- A payload that says whether the execution has ended.
abbrev render : Execution → Db → Text
render e db = if is_terminal e then codes "ended" else codes "open"

render-ShowsStatus : ShowsStatus render
render-ShowsStatus e e' db db' same = elim (Bool-cases (is_terminal e)) [
  | inl t ↦ elim (Bool-cases (is_terminal e')) [
    | inl t' ↦ rw (t, t') refl
    | inr o' ↦ absurd (differ (sym (rw (t, o') at same)))
  ]
  | inr o ↦ elim (Bool-cases (is_terminal e')) [
    | inl t' ↦ absurd (differ (rw (o, t') at same))
    | inr o' ↦ rw (o, o') refl
  ]
]
  where
    differ : codes "open" ≢ codes "ended"
    differ h = ground arith

abbrev finished_db : Db
finished_db = record two_tasks {
  executions = record execution { status = ExecutionStatus.completed } ∷ [];
}

stream-done_example :
    last_event (event_stream render 1 none (two_tasks ∷ two_tasks ∷ finished_db ∷ [])) ≡ some done
unfolding get_execution
stream-done_example =
    stream-done render render-ShowsStatus 1 (two_tasks ∷ two_tasks ∷ finished_db ∷ [])
      ((_, refl), ((_, refl), ((_, refl), tt))) refl
