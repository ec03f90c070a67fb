-- ===== src/Tests/Retries.antt =====
-- The statements on one task and the retry policy, at a RUNNING task and at a PENDING one.
use agentic_execution.Prelude.{
  ◌+◌, ◌*◌, ◌≤◌, ◌≡◌, refl, true, false, some, [], ◌∷◌, ◌++◌, arith, if◌then◌else◌, Text, codes,
}
use agentic_execution.Enums.{TaskStatus}
use agentic_execution.Models.{Task, get_task, get_execution}
use agentic_execution.Models.Keys.{HasKeys}
use agentic_execution.World.{World, JitterLaws}
use agentic_execution.Json.{Json}
use agentic_execution.Llm.{Outcome, returned, raised, LlmProvider}
use agentic_execution.JobQueue.Delay.{Waits}
use agentic_execution.JobQueue.{delayed_key, dlq_key, queue_key, promote_due}
use agentic_execution.Scheduler.Statements.{claim_task}
use agentic_execution.Scheduler.Statements.Claims.{as_running, claim_task_lem, claim_task-exclusive}
use agentic_execution.Scheduler.Retry.{backoff, retry_or_fail, retry, failed as for_good}
use agentic_execution.Scheduler.Retry.Policy.{
  next_at, retried, given_up, IsLetter, retry_or_fail-retry, retry_or_fail-failed,
  retry_or_fail-lost,
}
use agentic_execution.Scheduler.Retry.Backoff.{doubled, backoff-jittered}
use agentic_execution.Scheduler.Handlers.{execute_task, plan_execution}
use agentic_execution.Scheduler.Handlers.Duplicates.{
  HasExecutionKeys, Replanned, execute_task-duplicate, plan_execution-duplicate,
}
use agentic_execution.Worker.Redelivery.{Arrives, retry_or_fail-Arrives}
use agentic_execution.Tests.Fixtures.{
  job_codec-laws, provider, execution, fresh_world, memory, memory_laws, settings, env, Store,
  research_task, two_tasks, two_tasks-HasKeys, no_entries,
}

found_research : get_task 10 two_tasks ≡ some research_task
unfolding get_task
found_research = refl

claim_task_lem_example :
    ((claim_task 10 7 two_tasks).1 ≡ true)
    × (get_task 10 (claim_task 10 7 two_tasks).0 ≡ some (as_running 7 research_task))
claim_task_lem_example =
    claim_task_lem 10 two_tasks research_task two_tasks-HasKeys found_research 7

claim_task-exclusive_example : (claim_task 10 8 (claim_task 10 7 two_tasks).0).1 ≡ false
claim_task-exclusive_example =
    claim_task-exclusive 10 two_tasks research_task two_tasks-HasKeys found_research 7 8

-- A RUNNING task on its first attempt, and one that has no attempt left.
abbrev first_try : Task
first_try = record research_task { status = TaskStatus.running; enqueued = true }

abbrev last_try : Task
last_try = record first_try { attempts = 2 }

abbrev world_of : Task → World Store
world_of t = record { db = record two_tasks { tasks = t ∷ [] }; redis = no_entries }

first_try-HasKeys : HasKeys (world_of first_try).db.tasks
first_try-HasKeys id = ground arith

last_try-HasKeys : HasKeys (world_of last_try).db.tasks
last_try-HasKeys id = ground arith

abbrev reason : Text
reason = codes "timeout"

found_first : get_task 10 (world_of first_try).db ≡ some first_try
unfolding get_task
found_first = refl

found_last : get_task 10 (world_of last_try).db ≡ some last_try
unfolding get_task
found_last = refl

retry_or_fail-retry_example :
    let w = world_of first_try in
    let (w', verdict) = retry_or_fail memory env 100 first_try reason w in
    (verdict ≡ retry)
    × (get_task 10 w'.db
        ≡ some (
            retried memory memory_laws env 100 first_try reason w first_try-HasKeys found_first
              refl))
    × (memory.entries queue_key w'.redis ≡ memory.entries queue_key w.redis)
    × (memory.entries dlq_key w'.redis ≡ memory.entries dlq_key w.redis)
    × Waits memory memory_laws env.codec 10
        (next_at memory memory_laws env 100 first_try reason w first_try-HasKeys found_first refl)
        2000000
        w.redis
        (promote_due memory env.codec 2000000 w'.redis).0
retry_or_fail-retry_example =
    retry_or_fail-retry memory memory_laws env 100 first_try reason (world_of first_try)
      first_try-HasKeys found_first refl (omega arith) tt 2000000

retry_or_fail-Arrives_example :
    Arrives memory memory_laws env.codec job_codec-laws 10
      (promote_due memory env.codec 2000000
        (retry_or_fail memory env 100 first_try reason (world_of first_try)).0.redis).0
retry_or_fail-Arrives_example =
    retry_or_fail-Arrives memory memory_laws env job_codec-laws 100 2000000 first_try reason
      (world_of first_try) first_try-HasKeys found_first refl (omega arith) tt (omega arith)

retry_or_fail-failed_example :
    let w = world_of last_try in
    let (w', verdict) = retry_or_fail memory env 100 last_try reason w in
    (verdict ≡ for_good)
    × (get_task 10 w'.db
        ≡ some (
            given_up memory memory_laws env 100 last_try reason w last_try-HasKeys found_last refl))
    × ((letter : Json) × (memory.entries dlq_key w'.redis
          ≡ memory.entries dlq_key w.redis ++ env.codec.dumps letter ∷ [])
        × IsLetter memory memory_laws env 100 last_try reason w last_try-HasKeys found_last refl
            letter)
    × (memory.entries queue_key w'.redis ≡ memory.entries queue_key w.redis)
    × (memory.members delayed_key w'.redis ≡ memory.members delayed_key w.redis)
retry_or_fail-failed_example =
    retry_or_fail-failed memory memory_laws env 100 last_try reason (world_of last_try)
      last_try-HasKeys found_last refl (omega arith)

-- The worker read the task as RUNNING, but it is PENDING.
retry_or_fail-lost_example :
    (retry_or_fail memory env 100 first_try reason
      (record { db = two_tasks; redis = no_entries })).0
    ≡ record { db = two_tasks; redis = no_entries }
retry_or_fail-lost_example =
    retry_or_fail-lost memory env 100 first_try research_task reason
      (record { db = two_tasks; redis = no_entries }) two_tasks-HasKeys found_research (λ e. cc)

execute_task-duplicate_example :
    execute_task memory env (returned provider) [] false 10 100 200 (world_of first_try)
    ≡ world_of first_try
execute_task-duplicate_example =
    execute_task-duplicate memory env (returned provider) [] false 10 100 200 (world_of first_try)
      first_try first_try-HasKeys found_first refl

two_tasks-HasExecutionKeys : HasExecutionKeys two_tasks.executions
two_tasks-HasExecutionKeys id = ground arith

found_execution : get_execution 1 two_tasks ≡ some execution
unfolding get_execution
found_execution = refl

-- The execution runs, and the provider of the worker cannot be made.
abbrev no_provider : Outcome LlmProvider
no_provider = raised (codes "RuntimeError: no API key")

plan_execution-duplicate_example :
    Replanned no_provider 1 7 execution fresh_world
      (plan_execution memory env no_provider (λ index. 20 + index) 1 7 fresh_world)
plan_execution-duplicate_example =
    plan_execution-duplicate memory env no_provider (λ index. 20 + index) 1 7 fresh_world execution
      two_tasks-HasExecutionKeys found_execution refl

steady_laws : JitterLaws (λ d. d)
steady_laws = record { at_least = λ d. omega arith; at_most = λ d. omega arith }

backoff-jittered_example :
    let d = backoff 3 settings (λ d. d) in
    (d ≡ (if settings.retry_backoff_jitter then doubled settings 2 else doubled settings 2))
    × (8 * doubled settings 2 ≤ 10 * d)
    × (10 * d ≤ 12 * settings.retry_backoff_max)
backoff-jittered_example = backoff-jittered 2 settings (λ d. d) steady_laws
