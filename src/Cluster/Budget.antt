-- ===== src/Cluster/Budget.antt =====
-- The attempts of a task in the interleavings of the workers (services/scheduler.py).
use agentic_execution.Prelude.{
  ℕ, ◌+◌, ◌≤◌, ◌≡◌, sym, ◌∙◌, subst, inl, inr, true, false, List, arith, ◌==◌, if◌then◌else◌,
  Bool-cases, All, All-imp,
}
use mathlib.Core.Bool.{false≢true}
use mathlib.Core.List.{Memᴰ}
use agentic_execution.Models.{Task, Db}
use agentic_execution.Models.Updates.{update_where-All, update_where-All_known, All-get}
use agentic_execution.Scheduler.Statements.{
  claim_task, mark_started, complete_existing, mark_completed, mark_retrying, mark_failed,
  cascade_failure, mark_enqueued,
}
use agentic_execution.Scheduler.Finalize.{is_failed}
use agentic_execution.Cluster.{
  Cluster, Step, look, enqueue, cascade, claim, start, existing, insert, finish, retry, give_up,
  execution, Reach, here, next,
}
use agentic_execution.Cluster.Evolution.{Evolves, insert_result-tasks}
use agentic_execution.Cluster.Released.{row_of_seen}
use agentic_execution.Cluster.Invariant.{Inv, Reach-Inv, views_next}
use agentic_execution.Cluster.Order.{IsPlanned, planned, planned-Inv}

-- A task has failed at most once more than it may be retried, and no more often than that unless
-- it is FAILED.
abbrev Bounded : ℕ → Task → Type 0
Bounded max_retries t =
    (t.attempts ≤ max_retries + 1) × (is_failed t ≡ false → t.attempts ≤ max_retries)

record Attempts (max_retries : ℕ) (s : Cluster) : Type 0 where
  now_bounded : All (Bounded max_retries) s.db.tasks
  seen_bounded : (view : List Task) → Memᴰ view s.views → All (Bounded max_retries) view

module _ (max_retries : ℕ) (s : Cluster) (inv : Inv s) (h : Attempts max_retries s) where
  given_up_row :
      (view : List Task) (t : Task)
      → Memᴰ view s.views
      → Memᴰ t view
      → All (λ u. u.id == t.id ≡ true → is_failed u ≡ false → t.attempts ≤ max_retries) s.db.tasks
  given_up_row view t v m =
      let bound = All-get (Bounded max_retries) m (h.seen_bounded view v) in
      All-imp (λ u. u.id == t.id ≡ true → Evolves t u)
        (λ u. u.id == t.id ≡ true → is_failed u ≡ false → t.attempts ≤ max_retries)
        (λ u later hit open_still. elim (Bool-cases (is_failed t)) [
          | inl gone ↦ absurd (false≢true (sym open_still ∙ (later hit).stays_failed gone))
          | inr alive ↦ bound.1 alive
        ])
        s.db.tasks (row_of_seen view s.db.tasks t (inv.seen view v) inv.keys m)

  Step-Bounded : {s' : Cluster} → Step max_retries s s' → All (Bounded max_retries) s'.db.tasks
  unfolding mark_enqueued cascade_failure claim_task mark_started complete_existing mark_completed
      mark_retrying mark_failed
  Step-Bounded look = h.now_bounded
  Step-Bounded (insert id output) = rw (insert_result-tasks id output s.db) h.now_bounded
  Step-Bounded (execution es) = h.now_bounded
  Step-Bounded (enqueue now view t v m waits ready) =
      update_where-All (Bounded max_retries) _ _ s.db.tasks (λ x p b. b) h.now_bounded
  Step-Bounded (cascade now view t v m waits broken) =
      update_where-All (Bounded max_retries) _ _ s.db.tasks (λ x p b. ground arith) h.now_bounded
  Step-Bounded (claim now id job) =
      update_where-All (Bounded max_retries) _ _ s.db.tasks (λ x p b. ground arith) h.now_bounded
  Step-Bounded (start now id) =
      update_where-All (Bounded max_retries) _ _ s.db.tasks (λ x p b. b) h.now_bounded
  Step-Bounded (existing now id res) =
      update_where-All (Bounded max_retries) _ _ s.db.tasks (λ x p b. ground arith) h.now_bounded
  Step-Bounded (finish now id duration usage res) =
      update_where-All (Bounded max_retries) _ _ s.db.tasks (λ x p b. ground arith) h.now_bounded
  Step-Bounded (retry now next_at error view t v m left) =
      update_where-All (Bounded max_retries) _ _ s.db.tasks (λ x p b. ground arith) h.now_bounded
  Step-Bounded (give_up now error view t v m spent) =
      update_where-All_known (Bounded max_retries)
        (λ u. u.id == t.id ≡ true → is_failed u ≡ false → t.attempts ≤ max_retries) _ _ s.db.tasks
        (given_up_row view t v m)
        (λ x q p. let below = q (ground arith) (ground arith) in (omega arith, λ g. cc))
        h.now_bounded

  Step-Attempts : {s' : Cluster} → Step max_retries s s' → Attempts max_retries s'
  Step-Attempts st = record {
    now_bounded = Step-Bounded st;
    seen_bounded = λ view m. elim (views_next max_retries s inv st view m) [
      | inl e ↦ subst (λ v. All (Bounded max_retries) v) (sym e) h.now_bounded
      | inr old ↦ h.seen_bounded view old
    ];
  }

Reach-Attempts :
    (max_retries : ℕ) {s s' : Cluster}
    → Inv s
    → Attempts max_retries s
    → Reach max_retries s s'
    → Attempts max_retries s'
Reach-Attempts max_retries inv h here = h
Reach-Attempts max_retries inv h (next r st) =
    Step-Attempts max_retries _ (Reach-Inv max_retries inv r) (Reach-Attempts max_retries inv h r)
      st

-- From a plan with unique ids and indexes, nothing enqueued and no attempt made on, under any
-- interleaving, the attempts of a task are at most task_max_retries, and one more if it is FAILED.
pub attempts_bounded :
    (max_retries : ℕ) {db : Db} {s : Cluster}
    → IsPlanned db
    → All (λ t. t.attempts ≡ 0) db.tasks
    → Reach max_retries (planned db) s
    → All (λ t. t.attempts ≤ max_retries + (if is_failed t then 1 else 0)) s.db.tasks
attempts_bounded max_retries {db} {s} p zeros r =
    let start : Attempts max_retries (planned db) = record {
      now_bounded =
          All-imp (λ t. t.attempts ≡ 0) (Bounded max_retries)
            (λ t z. (omega arith, λ _. omega arith)) db.tasks zeros;
      seen_bounded = λ view m. elim m [ ];
    } in
    All-imp (Bounded max_retries) (λ t. t.attempts ≤ max_retries + (if is_failed t then 1 else 0))
      (λ t b. ground arith) s.db.tasks
      ((Reach-Attempts max_retries (planned-Inv p) start r).now_bounded)
