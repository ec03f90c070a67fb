-- ===== src/Routes/System.antt =====
-- backend/app/api/routes/system.py, health.py and metrics.py. Redis may raise, with the text of the
-- exception; the health check is given what the database answers to `SELECT 1`, and Redis to a ping.
use agentic_execution.Prelude.{
  ℕ, Bool, true, false, not, ◌&&◌, ◌||◌, Option, none, some, List, if◌then◌else◌, null, Text,
}
use agentic_execution.Settings.{Settings}
use agentic_execution.Json.{Json, Codec}
use agentic_execution.Models.{Db}
use agentic_execution.Redis.{Redis}
use agentic_execution.JobQueue.{queue_depth, delayed_depth, dead_letter_depth, dead_letter_entries}
use agentic_execution.Llm.{Outcome, returned, raised}
use agentic_execution.Metrics.{Metrics, collect_metrics}
use agentic_execution.Metrics.Prometheus.{render_prometheus}
use agentic_execution.Security.{configured_api_keys}

-- The answers of `/dead-letter`: of a mode without a queue, of one with, and of a failed lookup.
pub data DeadLetters : Type 0 where
  disabled : DeadLetters
  letters : ℕ → ℕ → ℕ → List Json → DeadLetters
  lookup_failed : Text → DeadLetters

-- `"ok"`, or `"unavailable: ..."`.
pub data Check : Type 0 where
  ok : Check
  unavailable : Text → Check

pub record Health : Type 0 where
  -- `"status"` is `"ok"`, else it is `"degraded"`
  pub is_ok : Bool
  pub auth_enabled : Bool
  pub database : Check
  -- `none` where the mode is not "queue"
  pub redis : Option Check
  pub queue_depth : Option ℕ

abbrev check_of {ℓ} : {A : Type ℓ} → Outcome A → Check
check_of (returned x) = ok
check_of (raised e) = unavailable e

abbrev succeeded {ℓ} : {A : Type ℓ} → Outcome A → Bool
succeeded (returned x) = true
succeeded (raised e) = false

module _ (r : Redis) (codec : Codec) (settings : Settings) where
  -- With the mode "queue".
  letters_of : ℕ → Outcome r.State → DeadLetters
  letters_of limit (raised e) = lookup_failed e
  letters_of limit (returned s) =
      letters (queue_depth r codec s) (delayed_depth r codec s) (dead_letter_depth r codec s)
        (dead_letter_entries r codec limit s)

  pub dead_letter : ℕ → Outcome r.State → DeadLetters
  unfolding letters_of
  dead_letter limit redis = if settings.queue_mode then letters_of limit redis else disabled

  depth_of : Outcome r.State → Option ℕ
  depth_of (raised e) = none
  depth_of (returned s) = some (queue_depth r codec s)

  health : Outcome ℕ → Outcome r.State → Health
  unfolding depth_of
  health database redis = record {
    is_ok = succeeded database && (not settings.queue_mode || succeeded redis);
    auth_enabled = not (null (configured_api_keys settings));
    database = check_of database;
    redis = if settings.queue_mode then some (check_of redis) else none;
    queue_depth = if settings.queue_mode then depth_of redis else none;
  }

  metrics_json : (ℕ → Bool) → Db → Outcome r.State → Metrics
  metrics_json tie_up db redis = collect_metrics r codec settings tie_up db redis

  metrics_prometheus : (ℕ → Text) → (ℕ → Text) → (ℕ → Bool) → Db → Outcome r.State → Text
  metrics_prometheus tenths_str cost_str tie_up db redis =
      render_prometheus tenths_str cost_str (collect_metrics r codec settings tie_up db redis)
