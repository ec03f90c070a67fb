-- ===== src/Scheduler/Handlers/Duplicates.antt =====
-- A job that is delivered again.
use agentic_execution.Prelude.{
  ℕ, ◌≤◌, ◌≡◌, refl, inl, inr, Bool, false, ◌&&◌, some, List, [], ◌∷◌, ◌++◌, arith, ◌==◌,
  Bool-cases, find, count, codes,
}
use agentic_execution.Models.{Execution, Task, Db, get_task, get_execution, update_where}
use agentic_execution.Enums.{ExecutionStatus, execution_status_eq}
use agentic_execution.Models.Keys.{HasKeys}
use agentic_execution.Models.Updates.{update_where-none}
use agentic_execution.Llm.{Outcome, returned, raised, LlmProvider}
use agentic_execution.Tools.{Registry}
use agentic_execution.Redis.{Redis}
use agentic_execution.World.{World, Env}
use agentic_execution.Scheduler.Statements.{claimable, claim_task, guard_execution, fail_execution}
use agentic_execution.Scheduler.Statements.Claims.{count_refused}
use agentic_execution.Scheduler.Handlers.{
  begin_task, execute_with_provider, execute_task, plan_with_provider, plan_execution,
}

module _ (id : ℕ) (db : Db) (t : Task) (keys : HasKeys db.tasks) (found : get_task id db ≡ some t)
    (refused : claimable t.status ≡ false) where
  claim_task-refused : (now : ℕ) → claim_task id now db ≡ (db, false)
  unfolding claim_task get_task
  claim_task-refused now =
      let none_met =
        count_refused id (λ (u : Task). claimable u.status) db.tasks {t = t} keys found refused in
      rw (none_met, update_where-none _ _ db.tasks none_met) refl

-- With unique ids, a job for a task that is RUNNING, COMPLETED or FAILED changes nothing, neither
-- a row nor a queue, whether or not the provider can be made.
pub execute_task-duplicate :
    (r : Redis) (env : Env) (provider : Outcome LlmProvider) (registry : Registry) (late : Bool)
    (id begun ended : ℕ)
    → (w : World r.State) (t : Task) → HasKeys w.db.tasks
    → get_task id w.db ≡ some t
    → claimable t.status ≡ false
    → execute_task r env provider registry late id begun ended w ≡ w
unfolding execute_task execute_with_provider begin_task
execute_task-duplicate r env (raised error) registry late id begun ended w t keys found refused =
    refl
execute_task-duplicate r env (returned llm) registry late id begun ended w t keys found refused =
    rw (found, claim_task-refused id w.db t keys found refused begun, execute_with_provider) refl

-- The PRIMARY KEY constraint of the table of executions.
abbrev pub HasExecutionKeys : List Execution → Type 0
HasExecutionKeys es = (id : ℕ) → count (λ (e : Execution). e.id == id) es ≤ 1

count-none_of_key :
    (id : ℕ) (g : Execution → Bool) (es : List Execution)
    → count (λ (e : Execution). e.id == id) es ≡ 0
    → count (λ (e : Execution). e.id == id && g e) es ≡ 0
count-none_of_key id g [] h = refl
count-none_of_key id g (e ∷ es) h = ground (arith, count-none_of_key id g es)

count-refused :
    (id : ℕ) (g : Execution → Bool) (es : List Execution) {e : Execution}
    → count (λ (x : Execution). x.id == id) es ≤ 1
    → find (λ x. x.id == id) es ≡ some e
    → g e ≡ false
    → count (λ (x : Execution). x.id == id && g x) es ≡ 0
count-refused id g [] keys found h = refl
count-refused id g (x ∷ xs) {e} keys found h = elim (Bool-cases (x.id == id)) [
  | inl b ↦ ground (arith, count-none_of_key id g xs (ground arith))
  | inr b ↦ ground (arith, count-refused id g xs {e = e})
]

plan_with_provider-duplicate :
    (r : Redis) (env : Env) (llm : LlmProvider) (ids : ℕ → ℕ) (id now : ℕ) (w : World r.State)
    → (e : Execution) → HasExecutionKeys w.db.executions
    → get_execution id w.db ≡ some e
    → execution_status_eq e.status ExecutionStatus.pending ≡ false
    → plan_with_provider r env llm ids id now w ≡ w
unfolding plan_with_provider guard_execution get_execution
plan_with_provider-duplicate r env llm ids id now w e keys found started =
    let none_met =
      count-refused id (λ (x : Execution). execution_status_eq x.status ExecutionStatus.pending)
        w.db.executions {e = e} (keys id) found started in
    rw (found, none_met, update_where-none _ _ w.db.executions none_met, plan_with_provider) refl

find-overwritten :
    (id : ℕ) (f : Execution → Execution) (es : List Execution) {e : Execution}
    → ((x : Execution) → (f x).id ≡ x.id)
    → find (λ x. x.id == id) es ≡ some e
    → find (λ x. x.id == id) (update_where (λ (x : Execution). x.id == id) f es) ≡ some (f e)
unfolding update_where
find-overwritten id f [] same found = cc
find-overwritten id f (x ∷ xs) {e} same found = elim (Bool-cases (x.id == id)) [
  | inl hit ↦ ground (arith, same x)
  | inr miss ↦ ground (arith, find-overwritten id f xs {e = e} same (rw miss at found))
]

-- What a plan job makes of an execution that is there and has been planned already.
abbrev pub Replanned :
    {S : Type 0} → Outcome LlmProvider → ℕ → ℕ → Execution → World S → World S → Type 0
Replanned (returned llm) id now e w w' = w' ≡ w
Replanned (raised error) id now e w w' =
    (get_execution id w'.db
      ≡ some (record e {
        status = ExecutionStatus.failed;
        error = some (codes "Planning failed: " ++ error);
        updated_at = now;
      }))
    × (w'.db.tasks ≡ w.db.tasks)
    × (w'.db.results ≡ w.db.results)
    × (w'.redis ≡ w.redis)

-- With unique ids, a plan job for an execution that is not PENDING changes nothing, neither a row
-- nor a queue, where the provider can be made; where it cannot, the execution becomes FAILED with
-- the error, whatever its status was, and no task, no result and no queue changes.
pub plan_execution-duplicate :
    (r : Redis) (env : Env) (provider : Outcome LlmProvider) (ids : ℕ → ℕ) (id now : ℕ)
    (w : World r.State) (e : Execution)
    → HasExecutionKeys w.db.executions
    → get_execution id w.db ≡ some e
    → execution_status_eq e.status ExecutionStatus.pending ≡ false
    → Replanned provider id now e w (plan_execution r env provider ids id now w)
unfolding plan_execution fail_execution get_execution
plan_execution-duplicate r env (returned llm) ids id now w e keys found started =
    plan_with_provider-duplicate r env llm ids id now w e keys found started
plan_execution-duplicate r env (raised error) ids id now w e keys found started = (
  find-overwritten id
      (λ (x : Execution). record x {
        status = ExecutionStatus.failed;
        error = some (codes "Planning failed: " ++ error);
        updated_at = now;
      })
      w.db.executions {e = e} (λ x. refl) found,
  refl,
  refl,
  refl,
)
