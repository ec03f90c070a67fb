-- ===== src/World.antt =====
-- What the workers share: the database and the Redis server. And what the code takes from outside:
-- the settings, the codecs, and the jitter of the backoff.
use agentic_execution.Prelude.{ℕ, ◌*◌, ◌≤◌, Bool, Text}
use agentic_execution.Settings.{Settings}
use agentic_execution.Models.{Db}
use agentic_execution.Json.{Codec}

pub record World (S : Type 0) : Type 0 where
  pub db : Db
  pub redis : S

pub record Env : Type 0 where
  pub settings : Settings
  pub codec : Codec
  -- `delay * random.uniform(0.8, 1.2)`
  pub jitter : ℕ → ℕ
  -- which way the rounding of a cost goes at a tie
  pub tie_up : ℕ → Bool
  -- the task timeout, and the tool timeout, in seconds, as they are printed
  pub task_timeout : Text
  pub tool_timeout : Text

-- The documented range of `random.uniform(0.8, 1.2)`.
pub record JitterLaws (jitter : ℕ → ℕ) : Type 0 where
  pub at_least : (d : ℕ) → 8 * d ≤ 10 * jitter d
  pub at_most : (d : ℕ) → 10 * jitter d ≤ 12 * d
