-- ===== src/Cluster/Lost.antt =====
-- What a stop between `_mark_enqueued` and `enqueue_task` leaves behind: the row is marked, and no
-- job was put into the queue.
use agentic_execution.Prelude.{
  ℕ, ◌≡◌, refl, inl, inr, Bool, true, false, not, ◌&&◌, ◌||◌, List, [], ◌∷◌, arith, ◌==◌, ==_iff,
  Bool-cases, any, filter, count, All, All-to_filter, All-from_filter,
}
use mathlib.Core.List.{Memᴰ}
use agentic_execution.Enums.{TaskStatus, task_status_eq}
use agentic_execution.Models.{Task, Db, update_where}
use agentic_execution.Models.Updates.{update_where-All}
use agentic_execution.Models.Keys.{is_task}
use agentic_execution.Scheduler.Statements.{
  claim_task, mark_started, complete_existing, mark_completed, mark_retrying, mark_failed,
  cascade_failure, mark_enqueued,
}
use agentic_execution.Scheduler.Finalize.{is_failed}
use agentic_execution.Scheduler.Pass.{is_waiting}
use agentic_execution.Cluster.{
  Cluster, Step, look, enqueue, cascade, claim, start, existing, insert, finish, retry, give_up,
  execution, Reach, here, next,
}
use agentic_execution.Cluster.Evolution.{insert_result-tasks}
use agentic_execution.Cluster.Runs.{at}

-- Marked as enqueued, and not claimed since.
abbrev pub is_left_behind : Task → Bool
is_left_behind t = t.enqueued && (task_status_eq t.status TaskStatus.pending || is_failed t)

abbrev pub has_job : ℕ → List ℕ → Bool
has_job id jobs = any (λ i. i == id) jobs

module _ (id : ℕ) where
  abbrev Left : Task → Type 0
  Left t = is_task id t ≡ true → is_left_behind t ≡ true

  record Lost (s : Cluster) : Type 0 where
    rows : All Left s.db.tasks
    no_job : has_job id s.jobs ≡ false

  has_job-Memᴰ : (k : ℕ) (jobs : List ℕ) → Memᴰ k jobs → has_job id jobs ≡ false → (k == id) ≡ false
  has_job-Memᴰ k [] m h = elim m [ ]
  has_job-Memᴰ k (j ∷ jobs) (Memᴰ.head e) h = ground (arith, e)
  has_job-Memᴰ k (j ∷ jobs) (Memᴰ.tail m) h = has_job-Memᴰ k jobs m (ground arith)

  -- A marking of a row that is marked counts no row.
  unmarked-none :
      (k : ℕ) (tasks : List Task)
      → All Left tasks
      → (k == id) ≡ true
      → count (λ (t : Task). t.id == k && not t.enqueued) tasks ≡ 0
  unmarked-none k [] h same = refl
  unmarked-none k (t ∷ ts) h same =
      let rest = unmarked-none k ts h.1 same in let this = h.0 in ground (arith, this, ==_iff k id)

  module _ (max_retries : ℕ) (s : Cluster) (lost : Lost s) where
    Step-Lost : {s' : Cluster} → Step max_retries s s' → Lost s'
    unfolding mark_enqueued cascade_failure claim_task mark_started complete_existing mark_completed
        mark_retrying mark_failed
    Step-Lost look = record { rows = lost.rows; no_job = lost.no_job }
    Step-Lost (enqueue now view t v m waits ready) = record {
      rows =
          update_where-All Left _ _ s.db.tasks (λ x hit h mine. ground (arith, h mine)) lost.rows;
      no_job = elim (Bool-cases (t.id == id)) [
        | inl same ↦ rw (unmarked-none t.id s.db.tasks lost.rows same) lost.no_job
        | inr other ↦
            elim (Bool-cases (count (λ u. u.id == t.id && not u.enqueued) s.db.tasks == 1)) [
              | inl marked ↦ rw marked (rw other lost.no_job)
              | inr unmarked ↦ rw unmarked lost.no_job
            ]
      ];
    }
    Step-Lost (cascade now view t v m waits broken) = record {
      rows = update_where-All Left _ _ s.db.tasks (λ x hit h mine. refl) lost.rows;
      no_job = lost.no_job;
    }
    Step-Lost (claim now k job) = record {
      rows =
          let other = has_job-Memᴰ k s.jobs job lost.no_job in
          update_where-All Left _ _ s.db.tasks
            (λ x hit h mine. ground (arith, ==_iff x.id k, ==_iff x.id id, other, ==_iff k id))
            lost.rows;
      no_job = lost.no_job;
    }
    Step-Lost (start now k) = record {
      rows = update_where-All Left _ _ s.db.tasks (λ x hit h mine. h mine) lost.rows;
      no_job = lost.no_job;
    }
    Step-Lost (existing now k res) = record {
      rows =
          update_where-All Left _ _ s.db.tasks (λ x hit h mine. ground (arith, h mine)) lost.rows;
      no_job = lost.no_job;
    }
    Step-Lost (insert k output) = record {
      rows = rw (insert_result-tasks k output s.db) lost.rows;
      no_job = lost.no_job;
    }
    Step-Lost (finish now k duration usage res) = record {
      rows =
          update_where-All Left _ _ s.db.tasks (λ x hit h mine. ground (arith, h mine)) lost.rows;
      no_job = lost.no_job;
    }
    Step-Lost (retry now next_at error view t v m left) = record {
      rows =
          update_where-All Left _ _ s.db.tasks (λ x hit h mine. ground (arith, h mine)) lost.rows;
      no_job = lost.no_job;
    }
    Step-Lost (give_up now error view t v m spent) = record {
      rows =
          update_where-All Left _ _ s.db.tasks (λ x hit h mine. ground (arith, h mine)) lost.rows;
      no_job = lost.no_job;
    }
    Step-Lost (execution es) = record { rows = lost.rows; no_job = lost.no_job }

  Reach-Lost : (max_retries : ℕ) {s s' : Cluster} → Reach max_retries s s' → Lost s → Lost s'
  Reach-Lost max_retries here h = h
  Reach-Lost max_retries (next {t = t} r st) h =
      Step-Lost max_retries t (Reach-Lost max_retries r h) st

marked-Left :
    (id now : ℕ) (tasks : List Task)
    → All (λ t. is_task id t ≡ true → is_waiting t ≡ true) tasks
    → All (Left id) (
        update_where
          (λ t. t.id == id && not t.enqueued)
          (λ t. record t { enqueued = true; updated_at = now })
          tasks)
unfolding update_where
marked-Left id now [] h = tt
marked-Left id now (t ∷ ts) h = elim (Bool-cases (t.id == id)) [
  | inl mine ↦ let waits = h.0 mine in (ground (arith, waits), marked-Left id now ts h.1)
  | inr other ↦ rw other (λ mine. cc, marked-Left id now ts h.1)
]

-- Where a process stops after _mark_enqueued has marked a waiting task and before enqueue_task,
-- and no job for it is in the queue, then under any interleaving of workers, reapers and
-- scheduling passes the task is never claimed: it stays PENDING and marked, or becomes FAILED, and
-- gets no job.
pub marked_without_job :
    (max_retries id now : ℕ) (db : Db) (views : List (List Task)) (jobs : List ℕ) {s : Cluster}
    → All (λ t. is_waiting t ≡ true) (filter (is_task id) db.tasks)
    → has_job id jobs ≡ false
    → Reach max_retries (at (mark_enqueued id now db).0 views jobs) s
    → All (λ t. is_left_behind t ≡ true) (filter (is_task id) s.db.tasks)
      × (has_job id s.jobs ≡ false)
unfolding mark_enqueued
marked_without_job max_retries id now db views jobs {s} waits no_job r =
    let start : Lost id (at (mark_enqueued id now db).0 views jobs) = record {
      rows =
          marked-Left id now db.tasks
            (All-from_filter (λ t. is_waiting t ≡ true) (is_task id) db.tasks waits);
      no_job = no_job;
    } in
    let lost = Reach-Lost id max_retries r start in
    (All-to_filter (λ t. is_left_behind t ≡ true) (is_task id) s.db.tasks lost.rows, lost.no_job)
