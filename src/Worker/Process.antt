-- ===== src/Worker/Process.antt =====
-- backend/app/worker.py: the start-up wait, the turns of the promoter and of the reaper, and the
-- threads that the process starts.
pub mod Startup
use agentic_execution.Prelude.{
  ℕ, zero, suc, ◌+◌, max, Bool, not, Option, none, some, if◌then◌else◌, codes,
}
use agentic_execution.Redis.{Redis}
use agentic_execution.JobQueue.{promote_due}
use agentic_execution.Llm.{Outcome, returned, raised, LlmProvider}
use agentic_execution.World.{World, Env}
use agentic_execution.Scheduler.Handlers.{recover_stale_tasks}

-- One of the two loops of `_wait_for_dependencies`: it ends at the first attempt that answers, and
-- the attempts that are left are counted down. `none` is the exception of the last failure.
wait_for : (ℕ → Bool) → ℕ → ℕ → Option ℕ
wait_for answers attempt zero = none
wait_for answers attempt (suc left) =
    let later = wait_for answers (attempt + 1) left in
    if answers attempt then some attempt else later

abbrev schema_after : Option ℕ → (ℕ → Bool) → ℕ → Outcome ℕ
schema_after none schema_ready max_attempts = raised (codes "RuntimeError: Redis not reachable")
schema_after (some attempt) schema_ready max_attempts =
    elim (wait_for schema_ready 1 max_attempts) [
      | none ↦ raised (codes "RuntimeError: Database schema not ready")
      | some last ↦ returned last
    ]

-- `_wait_for_dependencies`: whether the ping, and the query of the schema, answer at each attempt.
pub wait_for_dependencies : (ℕ → Bool) → (ℕ → Bool) → ℕ → Outcome ℕ
unfolding wait_for
wait_for_dependencies redis_up schema_ready max_attempts =
    schema_after (wait_for redis_up 1 max_attempts) schema_ready max_attempts

-- The number of consumer threads.
abbrev consumers : ℕ → ℕ
consumers worker_concurrency = max 1 worker_concurrency

module _ (r : Redis) (env : Env) (llm : LlmProvider) where
  -- One turn of `_promoter_loop` and of `_reaper_loop`, where Redis and the database answer.
  promoter_turn : ℕ → World r.State → World r.State
  promoter_turn now w = record w { redis = (promote_due r env.codec now w.redis).0 }

  reaper_turn : ℕ → World r.State → World r.State
  reaper_turn now w = (recover_stale_tasks r env llm now w).0
