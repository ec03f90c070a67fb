-- ===== src/Lib.antt =====
-- The agent execution platform of backend/app: a request is planned into tasks that depend on each
-- other, workers run the tasks with LLM agents, and a scheduling pass after each task starts what has
-- become ready and ends the execution. The tasks, their results and the executions live in a
-- database; jobs, delayed retries and dead letters live in Redis.
--
-- The files and the code that they model:
--   Models                 backend/app/models: the rows, and the SELECT and UPDATE statements on them
--   Enums, Settings        backend/app/enums.py; the settings of backend/app/config.py that are read
--   Scheduler.Statements   services/scheduler.py: each statement, with its guard and its row count
--                          (_claim_task, _mark_started, _persist_success, _mark_enqueued,
--                          _guard_execution, _fail_execution, and those in the other functions)
--   Scheduler.Retry        _backoff and _retry_or_fail
--   Scheduler.Finalize     _finalize, _outcomes and _dependency_context; Aggregator for
--                          services/aggregator.py
--   Scheduler.Pass         the loop of schedule_execution
--   Scheduler.Handlers     plan_execution, execute_task, recover_stale_tasks
--   Cluster                all workers at once: the statements as atomic steps, in any order
--   JobQueue, Worker       backend/app/jobqueue.py and backend/app/worker.py
--   Planner                services/planner.py
--   Executor, Orchestrator services/executor.py and services/orchestrator.py, the inline mode
--   Agents, Tools          backend/app/agents; backend/app/tools, each tool in a child module
--   Llm, Pricing           backend/app/llm: base.py, mock.py (Llm.Mock), openai_provider.py,
--                          anthropic_provider.py, factory.py, and pricing.py
--   Middleware, Security   backend/app/middleware.py and backend/app/api/security.py
--   App                    backend/app/main.py: a request through the limits to its router
--   Routes                 backend/app/api/routes/executions.py; Routes.System for system.py, health.py
--                          and metrics.py beside it, Routes.Schemas for backend/app/schemas
--   Metrics, Logging       backend/app/observability/metrics.py and backend/app/logging_config.py
--   Prelude, Tests         shared helpers; runs of the theorems at concrete inputs
-- (services/ is backend/app/services.) Proofs are in child modules of what they are about.
--
-- The state is passed explicitly: a Db of three lists of rows, and the state of the Redis server,
-- together a World. Each UPDATE is one atomic step that rewrites the rows meeting its WHERE clause and
-- reports how many they are, as the database does under its row locks. Ids are unique where a theorem
-- says HasKeys, which is the PRIMARY KEY constraint. In Cluster a worker may decide by any rows that it
-- has read before, however old, and a job may be delivered at any time and any number of times.
--
-- Code from outside is a parameter: the Redis commands (Redis, with the laws of their documented
-- behaviour, where a sorted set is ordered by score and then by member), JSON and UUID conversion
-- (Codec), the clients of the LLM SDKs and of HTTP, the routing of the web framework, the numbers
-- and the parser of Python (for the calculator), what a tool returns, the jitter, the clock and the
-- new ids. A Python exception is the raised case of Outcome, with the type and the text.
--
-- Numbers: times are microseconds and costs are millionths of a dollar, as whole numbers; which way a
-- tie in the rounding of a cost goes is a parameter, since it depends on the binary fractions. Text is
-- a list of code points.
--
-- Fuel: the loop of schedule_execution runs on fuel that counts the tasks not yet marked and one more;
-- each round that changes something marks a task, so the fuel lasts. The digits of a number run on fuel
-- one above the number, and the tool loop of an agent on its configured count. All other loops are
-- structural.
--
-- Not modelled: the set-up of the database, CORS and the service information of the application,
-- the threads, timers and signals of the worker process, the load test, and the frontend. The
-- handlers take the database and Redis to answer every command; a stop between two of them is a
-- state that Cluster may start from.
mod Prelude
pub mod Enums
pub mod Settings
pub mod Models
pub mod Json
pub mod Redis
pub mod JobQueue
pub mod Llm
pub mod Pricing
pub mod Aggregator
pub mod Tools
pub mod App
pub mod Agents
pub mod Planner
pub mod World
pub mod Scheduler
mod Tests
pub mod Cluster
pub mod Executor
pub mod Orchestrator
pub mod Middleware
pub mod Security
pub mod Worker
pub mod Metrics
pub mod Logging
pub mod Routes
