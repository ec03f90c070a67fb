-- ===== src/Metrics/Prometheus.antt =====
-- `render_prometheus` of backend/app/observability/metrics.py. How a float is printed is a
-- parameter: an average, in tenths, and a cost, in millionths.
use agentic_execution.Prelude.{
  ℕ, Option, none, some, List, [], ◌∷◌, ◌++◌, map, if◌then◌else◌, Text, codes, text_eq, join,
  decimal,
}
use agentic_execution.Enums.{ExecutionStatus, TaskStatus}
use agentic_execution.Metrics.{Metrics, QueueMetrics, depths, unavailable}

abbrev execution_status_value : ExecutionStatus → Text
execution_status_value ExecutionStatus.pending = codes "PENDING"
execution_status_value ExecutionStatus.planning = codes "PLANNING"
execution_status_value ExecutionStatus.running = codes "RUNNING"
execution_status_value ExecutionStatus.completed = codes "COMPLETED"
execution_status_value ExecutionStatus.failed = codes "FAILED"

abbrev task_status_value : TaskStatus → Text
task_status_value TaskStatus.pending = codes "PENDING"
task_status_value TaskStatus.running = codes "RUNNING"
task_status_value TaskStatus.retrying = codes "RETRYING"
task_status_value TaskStatus.completed = codes "COMPLETED"
task_status_value TaskStatus.failed = codes "FAILED"

help_lines : Text → Text → Text → List Text
help_lines name [] metric_type = []
help_lines name (c ∷ help) metric_type =
    (codes "# HELP " ++ (name ++ 32 ∷ c ∷ help))
    ∷ (codes "# TYPE " ++ (name ++ 32 ∷ metric_type))
    ∷ []

suffix : Text → Text
suffix [] = []
suffix (c ∷ labels) = 123 ∷ c ∷ labels ++ 125 ∷ []

-- `add`: the lines of one sample.
add : Text → Option Text → Text → Text → Text → List Text
unfolding help_lines suffix
add name none labels help metric_type = []
add name (some value) labels help metric_type =
    help_lines name help metric_type ++ (name ++ (suffix labels ++ 32 ∷ value)) ∷ []

-- `key="value"`
abbrev label : Text → Text → Text
label key value = key ++ (61 ∷ 34 ∷ value ++ 34 ∷ [])

abbrev gauge : Text
gauge = codes "gauge"

abbrev counter : Text
counter = codes "counter"

status_lines : Text → Text → List (Text × ℕ) → List Text
unfolding add
status_lines name help [] = []
status_lines name help ((status, n) ∷ counts) =
    add name (some (decimal n)) (label (codes "status") status)
      (if text_eq status (codes "PENDING") then help else []) gauge
    ++ status_lines name help counts

abbrev depth_line : Text → ℕ → Text → List Text
depth_line name depth help =
    add (codes "aep_queue_depth") (some (decimal depth)) (label (codes "queue") name) help gauge

queue_lines : Option QueueMetrics → List Text
unfolding add
queue_lines none = []
queue_lines (some (unavailable error)) = []
queue_lines (some (depths main delayed dead)) =
    depth_line (codes "main") main (codes "Queue depth")
    ++ (depth_line (codes "delayed") delayed [] ++ depth_line (codes "dead_letter") dead [])

abbrev shown : (ℕ → Text) → Option ℕ → Option Text
shown print none = none
shown print (some n) = some (print n)

module _ (tenths_str cost_str : ℕ → Text) where
  duration_lines : Metrics → List Text
  unfolding add
  duration_lines m =
      add (codes "aep_execution_duration_ms_avg") (shown tenths_str m.execution_avg) []
        (codes "Avg execution duration (ms)") gauge
      ++ (add (codes "aep_execution_duration_ms_max") (shown decimal m.execution_max) []
            (codes "Max execution duration (ms)") gauge
          ++ (add (codes "aep_task_duration_ms_avg") (shown tenths_str m.task_avg) []
                (codes "Avg task duration (ms)") gauge
              ++ add (codes "aep_task_duration_ms_max") (shown decimal m.task_max) []
                  (codes "Max task duration (ms)") gauge))

  total_lines : Metrics → List Text
  unfolding add
  total_lines m =
      add (codes "aep_llm_tokens_total") (some (decimal m.total_tokens)) []
        (codes "Total LLM tokens") counter
      ++ (add (codes "aep_llm_cost_usd_total") (some (cost_str m.total_cost_usd)) []
            (codes "Estimated LLM cost (USD)") counter
          ++ add (codes "aep_tool_calls_total") (some (decimal m.total_calls)) []
              (codes "Total tool invocations") counter)

  pub render_prometheus : Metrics → Text
  unfolding status_lines queue_lines duration_lines total_lines
  render_prometheus m =
      join (10 ∷ []) (
        status_lines (codes "aep_executions_total") (codes "Executions by status") (
          map (λ (e : ExecutionStatus × ℕ). (execution_status_value e.0, e.1))
            m.executions_by_status)
        ++ (status_lines (codes "aep_tasks_total") (codes "Tasks by status")
              (map (λ (t : TaskStatus × ℕ). (task_status_value t.0, t.1)) m.tasks_by_status)
            ++ (duration_lines m ++ (total_lines m ++ queue_lines m.queue))))
      ++ 10 ∷ []
