-- ===== src/Scheduler/Handlers/Steps.antt =====
-- The job handlers, as sequences of the statements of the interleaved workers: what is shown of
-- every interleaving of those holds for the handlers as they are written.
use agentic_execution.Prelude.{
  ℕ, ◌-◌, ◌≡◌, refl, inl, inr, Bool, true, some, List, [], ◌∷◌, ◌++◌, arith, ◌==◌, ==_refl,
  Bool-cases, Option-cases, any, find, All, All-imp, All-filter, Text,
}
use mathlib.Core.List.{Memᴰ}
use agentic_execution.Models.{Task, TaskResult, Db, get_task, result_of, insert_result}
use agentic_execution.Models.Keys.{is_task}
use agentic_execution.Llm.{Outcome, returned, raised, LlmProvider}
use agentic_execution.Tools.{Registry}
use agentic_execution.Agents.{AgentOutput}
use agentic_execution.Redis.{Redis}
use agentic_execution.World.{World, Env}
use agentic_execution.Scheduler.Statements.{claim_task, Usage, persist_success}
use agentic_execution.Scheduler.Pass.Steps.{find-Memᴰ, schedule_execution-Reached}
use agentic_execution.Scheduler.Retry.Steps.{retry_or_fail-Reached}
use agentic_execution.Scheduler.Handlers.{
  record_failure, record_outcome, begin_task, run_claimed, execute_with_provider, execute_task,
  lease_expired, recover_each, schedule_each, stale_tasks, recover_stale_tasks,
}
use agentic_execution.Cluster.{claim, start, existing, insert, finish, has_result}
use agentic_execution.Cluster.Runs.{at, Reached, stay, one, after_look, followed, followed_seen}

find-any : {A : Type 0} (p : A → Bool) (xs : List A) {x : A} → find p xs ≡ some x → any p xs ≡ true
find-any p [] e = absurd (ground arith)
find-any p (y ∷ ys) {x} e = elim (Bool-cases (p y)) [
  | inl hit ↦ rw hit refl
  | inr miss ↦ rw miss (find-any p ys {x = x} (ground (arith, miss)))
]

any-last :
    {A : Type 0} (p : A → Bool) (xs : List A) (x : A) → p x ≡ true → any p (xs ++ x ∷ []) ≡ true
any-last p [] x hit = rw hit refl
any-last p (y ∷ ys) x hit = ground (arith, any-last p ys x)

insert_result-has_result :
    (id : ℕ) (output : Text) (db : Db) → has_result id (insert_result id output db) ≡ true
unfolding insert_result result_of
insert_result-has_result id output db = elim (Option-cases (result_of id db)) [
  | inr (x, e) ↦ rw (e, insert_result) (find-any (λ (r : TaskResult). r.task_id == id) db.results e)
  | inl e ↦
      rw (e, insert_result)
        (any-last (λ (r : TaskResult). r.task_id == id) db.results _ (==_refl id))
]

All-Memᴰ : {A : Type 0} (xs : List A) → All (λ x. Memᴰ x xs) xs
All-Memᴰ [] = tt
All-Memᴰ (x ∷ xs) = (
  Memᴰ.head refl,
  All-imp (λ y. Memᴰ y xs) (λ y. Memᴰ y (x ∷ xs)) (λ y m. Memᴰ.tail m) xs (All-Memᴰ xs),
)

module _ (r : Redis) (env : Env) (llm : LlmProvider) where
  abbrev tries : ℕ
  tries = env.settings.task_max_retries

  persist_success-Reached :
      (id now : ℕ) (output : Text) (usage : Usage) (db : Db) (views : List (List Task))
      (jobs : List ℕ)
      → Reached tries (at db views jobs) (persist_success id now output usage db)
  unfolding persist_success
  persist_success-Reached id now output usage db views jobs =
      followed tries (one tries {jobs = jobs} (insert id output))
        (λ views' jobs'. one tries (finish now id _ usage (insert_result-has_result id output db)))

  record_failure-Reached :
      (id now : ℕ) (error : Text) (w : World r.State) (views : List (List Task)) (jobs : List ℕ)
      → Reached tries (at w.db views jobs) (record_failure r env llm id now error w).db
  unfolding record_failure get_task
  record_failure-Reached id now error w views jobs = elim (Option-cases (get_task id w.db)) [
    | inl e ↦ rw (e, record_failure) (stay tries w.db views jobs)
    | inr (fresh, e) ↦
        rw (e, record_failure)
          (after_look tries (
            retry_or_fail-Reached r env now fresh error w w.db.tasks (w.db.tasks ∷ views) jobs
              (Memᴰ.head refl) (find-Memᴰ (is_task id) w.db.tasks e)))
  ]

  record_outcome-Reached :
      (id now : ℕ) (outcome : Outcome AgentOutput) (w : World r.State) (views : List (List Task))
      (jobs : List ℕ)
      → Reached tries (at w.db views jobs) (record_outcome r env llm id now outcome w).db
  unfolding record_outcome
  record_outcome-Reached id now (raised error) w = record_failure-Reached id now error w
  record_outcome-Reached id now (returned output) w =
      persist_success-Reached id now output.text _ w.db

  run_claimed-Reached :
      (registry : Registry) (late : Bool) (task : Task) (ended : ℕ) (w : World r.State)
      (views : List (List Task)) (jobs : List ℕ)
      → Reached tries (at w.db views jobs) (run_claimed r env llm registry late task ended w).db
  unfolding run_claimed result_of
  run_claimed-Reached registry late task ended w views jobs =
      elim (Option-cases (result_of task.id w.db)) [
        | inl e ↦ rw (e, run_claimed) (record_outcome-Reached task.id ended _ w views jobs)
        | inr (x, e) ↦
            rw (e, run_claimed)
              (one tries {jobs = jobs} (
                existing ended task.id
                  (find-any (λ (r : TaskResult). r.task_id == task.id) w.db.results e)))
      ]

  begin_task-Reached :
      (id now : ℕ) (db : Db) (views : List (List Task)) (jobs : List ℕ)
      → Memᴰ id jobs
      → Reached tries (at db views jobs) (begin_task r env llm id now db).0
  unfolding begin_task
  begin_task-Reached id now db views jobs job =
      let claimed = one tries {views = views} (claim now id job) in
      elim (Bool-cases (claim_task id now db).1) [
        | inl won ↦
            rw won
              (followed tries claimed (λ views' jobs'. one tries {jobs = jobs'} (start now id)))
        | inr lost ↦ rw lost claimed
      ]

  execute_with_provider-Reached :
      (registry : Registry) (late : Bool) (task_id begun ended : ℕ) (w : World r.State)
      (views : List (List Task)) (jobs : List ℕ)
      → Memᴰ task_id jobs
      → Reached tries
          (at w.db views jobs)
          (execute_with_provider r env llm registry late task_id begun ended w).db
  unfolding execute_with_provider
  execute_with_provider-Reached registry late task_id begun ended w views jobs job =
      let taken = begin_task-Reached task_id begun w.db views jobs job in
      elim (Option-cases (get_task task_id w.db)) [
        | inl e ↦ rw (e, execute_with_provider) (stay tries w.db views jobs)
        | inr (t, e) ↦
            rw (e, execute_with_provider)
              (elim (Bool-cases (begin_task r env llm task_id begun w.db).1) [
                | inr lost ↦ rw lost taken
                | inl won ↦ rw won (
                    followed tries taken (λ views' jobs'.
                      followed tries (run_claimed-Reached registry late t ended _ views' jobs')
                        (schedule_execution-Reached r env tries t.execution_id ended _)))
              ])
      ]

  recover_each-Reached :
      (now : ℕ) (ts : List Task) (w : World r.State) (view : List Task) (views : List (List Task))
      (jobs : List ℕ)
      → Memᴰ view views
      → All (λ t. Memᴰ t view) ts
      → Reached tries (at w.db views jobs) (recover_each r env llm now ts w).db
  unfolding recover_each
  recover_each-Reached now [] w view views jobs seen m = stay tries w.db views jobs
  recover_each-Reached now (t ∷ ts) w view views jobs seen m =
      followed_seen tries view seen (retry_or_fail-Reached r env now t _ w view views jobs seen m.0)
        (λ views' jobs' seen'. recover_each-Reached now ts _ view views' jobs' seen' m.1)

  schedule_each-Reached :
      (now : ℕ) (ids : List ℕ) (w : World r.State) (views : List (List Task)) (jobs : List ℕ)
      → Reached tries (at w.db views jobs) (schedule_each r env llm now ids w).db
  unfolding schedule_each
  schedule_each-Reached now [] w views jobs = stay tries w.db views jobs
  schedule_each-Reached now (id ∷ ids) w views jobs =
      followed tries (schedule_execution-Reached r env tries id now w views jobs)
        (schedule_each-Reached now ids _)

  -- Whatever the rows and the queues, what recover_stale_tasks does to the database is a sequence
  -- of the statements of the interleaved workers.
  pub recover_stale_tasks-Reached :
      (now : ℕ) (w : World r.State) (views : List (List Task)) (jobs : List ℕ)
      → Reached tries (at w.db views jobs) (recover_stale_tasks r env llm now w).0.db
  unfolding recover_stale_tasks stale_tasks
  recover_stale_tasks-Reached now w views jobs = after_look tries (
      followed tries
        (recover_each-Reached now (stale_tasks r env llm now w.db) w w.db.tasks (w.db.tasks ∷ views)
          jobs (Memᴰ.head refl)
          (All-filter (λ t. Memᴰ t w.db.tasks)
            (lease_expired r env llm (now - env.settings.task_lease)) w.db.tasks
            (All-Memᴰ w.db.tasks)))
        (schedule_each-Reached now _ _))

-- Whatever the rows, the queues, the agent and the provider, what execute_task does to the
-- database for a job that was enqueued is a sequence of the statements of the interleaved workers.
pub execute_task-Reached :
    (r : Redis) (env : Env) (provider : Outcome LlmProvider) (registry : Registry) (late : Bool)
    (task_id begun ended : ℕ) (w : World r.State) (views : List (List Task)) (jobs : List ℕ)
    → Memᴰ task_id jobs
    → Reached env.settings.task_max_retries
        (at w.db views jobs)
        (execute_task r env provider registry late task_id begun ended w).db
unfolding execute_task
execute_task-Reached r env (raised error) registry late task_id begun ended w views jobs job =
    stay env.settings.task_max_retries w.db views jobs
execute_task-Reached r env (returned llm) registry late task_id begun ended w views jobs job =
    execute_with_provider-Reached r env llm registry late task_id begun ended w views jobs job
