-- ===== src/Cluster/Order.antt =====
-- The order of a task and its dependencies in the interleavings of the workers.
use agentic_execution.Prelude.{
  ℕ, ◌≡◌, Bool, true, false, [], arith, filter, All, All-imp, All-to_filter,
}
use agentic_execution.Enums.{TaskStatus, task_status_eq}
use agentic_execution.Models.{Task, Db}
use agentic_execution.Models.Keys.{HasKeys}
use agentic_execution.Cluster.{Cluster, Reach}
use agentic_execution.Cluster.Released.{Justified, HasIndexes, released, needs}
use agentic_execution.Scheduler.Finalize.{is_completed}
use agentic_execution.Cluster.Invariant.{Inv, Reach-Inv}

-- The rows that a plan commits, before any worker acts: with keys and indexes of their own, and
-- none enqueued.
pub record IsPlanned (db : Db) : Type 0 where
  pub keys : HasKeys db.tasks
  pub indexes : HasIndexes db.tasks
  pub unreleased : All (λ t. released t ≡ false) db.tasks

abbrev pub planned : Db → Cluster
planned db = record { db = db; views = []; jobs = [] }

pub planned-Inv : {db : Db} → IsPlanned db → Inv (planned db)
planned-Inv {db} p = record {
  keys = p.keys;
  indexes = p.indexes;
  seen = λ view m. elim m [ ];
  queued = λ id m. elim m [ ];
  ordered =
      All-imp (λ t. released t ≡ false) (λ t. released t ≡ true → Justified db.tasks t)
        (λ t shut free. cc) db.tasks p.unreleased;
}

abbrev pub is_running : Task → Bool
is_running t = task_status_eq t.status TaskStatus.running

-- From a plan with unique ids and indexes and nothing enqueued on, under any interleaving of
-- workers, reapers and scheduling passes, which may act on rows read earlier, every task of its
-- execution that a RUNNING task depends on is COMPLETED.
pub running_after_dependencies :
    (max_retries : ℕ) {db : Db} {s : Cluster}
    → IsPlanned db
    → Reach max_retries (planned db) s
    → All
        (λ t. All (λ d. is_completed d ≡ true) (filter (needs t) s.db.tasks))
        (filter is_running s.db.tasks)
running_after_dependencies max_retries {db} {s} p r =
    All-to_filter (λ t. All (λ d. is_completed d ≡ true) (filter (needs t) s.db.tasks)) is_running
      s.db.tasks
      (All-imp (λ t. released t ≡ true → Justified s.db.tasks t)
        (λ t. is_running t ≡ true → All (λ d. is_completed d ≡ true) (filter (needs t) s.db.tasks))
        (λ t just runs.
          All-to_filter (λ d. is_completed d ≡ true) (needs t) s.db.tasks (just (ground arith)))
        s.db.tasks ((Reach-Inv max_retries (planned-Inv p) r).ordered))
