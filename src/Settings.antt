-- ===== src/Settings.antt =====
-- backend/app/config.py: the settings that the modelled code reads. Times are in microseconds.
use agentic_execution.Prelude.{ℕ, Bool, Option, Text}

pub record Settings : Type 0 where
  pub llm_model : Text
  pub planner_min_tasks : ℕ
  pub planner_max_tasks : ℕ
  -- `execution_mode.lower() == "queue"` where true
  pub queue_mode : Bool
  pub task_max_retries : ℕ
  pub retry_backoff_base : ℕ
  pub retry_backoff_max : ℕ
  pub retry_backoff_jitter : Bool
  pub task_lease : ℕ
  pub tools_enabled : Bool
  pub agent_max_tool_iterations : ℕ
  pub api_key : Option Text
  pub api_keys : Text
  pub rate_limit_per_minute : ℕ
  pub max_request_bytes : ℕ
