-- ===== src/Metrics.antt =====
-- backend/app/observability/metrics.py: the figures that are read from the tables and the queues,
-- and their text for Prometheus. An average is in tenths of a millisecond; which way a tie in its
-- rounding goes, and how a float is printed, are parameters.
pub mod Totals
pub mod Prometheus
use agentic_execution.Prelude.{
  ℕ, ◌+◌, ◌*◌, ◌/◌, ◌%◌, max, Bool, Option, none, some, List, [], ◌∷◌, map, ltb, if◌then◌else◌,
  length, sum_by, Text,
}
use agentic_execution.Enums.{
  ExecutionStatus, execution_status_eq, TaskStatus, pending, running, retrying, completed, failed,
  task_status_eq,
}
use agentic_execution.Settings.{Settings}
use agentic_execution.Models.{Execution, Task, Db, or_zero}
use agentic_execution.Json.{Codec}
use agentic_execution.Redis.{Redis}
use agentic_execution.JobQueue.{queue_depth, delayed_depth, dead_letter_depth}
use agentic_execution.Llm.{Outcome, returned, raised}

module _ {S : Type 0} (eq : S → S → Bool) where
  -- `SELECT status, count(*) ... GROUP BY status`, as a dict.
  tally_one : S → List (S × ℕ) → List (S × ℕ)
  tally_one s [] = (s, 1) ∷ []
  tally_one s ((key, n) ∷ counts) =
      if eq key s then (key, n + 1) ∷ counts else (key, n) ∷ tally_one s counts

  tally : List S → List (S × ℕ)
  unfolding tally_one
  tally [] = []
  tally (s ∷ statuses) = tally_one s (tally statuses)

  -- `counts.get(s, 0)`
  count_of : S → List (S × ℕ) → ℕ
  count_of s [] = 0
  count_of s ((key, n) ∷ counts) = if eq key s then n else count_of s counts

  -- `sum(counts.values())`
  total_of : List (S × ℕ) → ℕ
  total_of counts = sum_by (λ (entry : S × ℕ). entry.1) counts

  -- `{s.value: int(counts.get(s.value, 0)) for s in statuses}`
  by_status : List S → List (S × ℕ) → List (S × ℕ)
  unfolding count_of
  by_status statuses counts = map (λ s. (s, count_of s counts)) statuses

abbrev pub execution_statuses : List ExecutionStatus
execution_statuses =
    ExecutionStatus.pending ∷ ExecutionStatus.planning ∷ ExecutionStatus.running
    ∷ ExecutionStatus.completed ∷ ExecutionStatus.failed ∷ []

abbrev pub task_statuses : List TaskStatus
task_statuses =
    TaskStatus.pending ∷ TaskStatus.running ∷ TaskStatus.retrying ∷ TaskStatus.completed
    ∷ TaskStatus.failed ∷ []

-- The values that are not NULL.
known : List (Option ℕ) → List ℕ
known [] = []
known (none ∷ xs) = known xs
known (some n ∷ xs) = n ∷ known xs

-- `func.max`
largest : List ℕ → Option ℕ
largest [] = none
largest (n ∷ ns) = elim (largest ns) [ none ↦ some n | some m ↦ some (max n m) ]

-- `_round(avg)`: to the nearest tenth.
average : (ℕ → Bool) → List ℕ → Option ℕ
average tie_up [] = none
average tie_up (n ∷ ns) =
    let size = length (n ∷ ns) in
    let tenths = 10 * sum_by (λ k. k) (n ∷ ns) in
    let below = tenths / size in
    let rest = 2 * (tenths % size) in
    some (
      if ltb rest size
      then below
      else if ltb size rest
      then below + 1
      else if tie_up below
      then below + 1
      else below)

pub data QueueMetrics : Type 0 where
  depths : ℕ → ℕ → ℕ → QueueMetrics
  unavailable : Text → QueueMetrics

pub record Metrics : Type 0 where
  pub executions_total : ℕ
  pub executions_by_status : List (ExecutionStatus × ℕ)
  pub tasks_total : ℕ
  pub tasks_by_status : List (TaskStatus × ℕ)
  pub execution_avg : Option ℕ
  pub execution_max : Option ℕ
  pub task_avg : Option ℕ
  pub task_max : Option ℕ
  pub total_tokens : ℕ
  pub total_cost_usd : ℕ
  pub total_calls : ℕ
  -- `none` where the key is absent, in inline mode
  pub queue : Option QueueMetrics

module _ (r : Redis) (codec : Codec) where
  -- The depths of the three queues, where Redis may raise.
  queue_metrics : Outcome r.State → QueueMetrics
  queue_metrics (raised e) = unavailable e
  queue_metrics (returned s) =
      depths (queue_depth r codec s) (delayed_depth r codec s) (dead_letter_depth r codec s)

  pub collect_metrics : Settings → (ℕ → Bool) → Db → Outcome r.State → Metrics
  unfolding known largest average queue_metrics
  collect_metrics settings tie_up db redis =
      let exec_counts =
        tally execution_status_eq (map (λ (e : Execution). e.status) db.executions) in
      let task_counts = tally task_status_eq (map (λ (t : Task). t.status) db.tasks) in
      let exec_ms = known (map (λ (e : Execution). e.duration_ms) db.executions) in
      let task_ms = known (map (λ (t : Task). t.duration_ms) db.tasks) in
      record {
        executions_total = total_of execution_status_eq exec_counts;
        executions_by_status = by_status execution_status_eq execution_statuses exec_counts;
        tasks_total = total_of task_status_eq task_counts;
        tasks_by_status = by_status task_status_eq task_statuses task_counts;
        execution_avg = average tie_up exec_ms;
        execution_max = largest exec_ms;
        task_avg = average tie_up task_ms;
        task_max = largest task_ms;
        total_tokens = sum_by (λ t. or_zero t.total_tokens) db.tasks;
        total_cost_usd = sum_by (λ t. or_zero t.cost_usd) db.tasks;
        total_calls = sum_by (λ t. t.tool_calls) db.tasks;
        queue = if settings.queue_mode then some (queue_metrics redis) else none;
      }
