-- ===== src/Cluster/Invariant.antt =====
-- The invariant of the interleaved workers.
use agentic_execution.Prelude.{
  ℕ, ◌≡◌, sym, subst, ◌⊎◌, inl, inr, Bool, true, false, List, [], ◌∷◌, arith, ◌==◌, All, All-imp,
}
use mathlib.Core.List.{Memᴰ}
use agentic_execution.Models.{Task}
use agentic_execution.Models.Updates.{
  Rows, Rows-refl, Rows-trans, update_where-Rows, update_where-Rows_known, update_where-All_after,
}
use agentic_execution.Models.Keys.{HasKeys}
use agentic_execution.Scheduler.Statements.{
  claim_task, mark_started, complete_existing, mark_completed, mark_retrying, mark_failed,
  cascade_failure, mark_enqueued,
}
use agentic_execution.Cluster.{
  Cluster, Step, look, enqueue, cascade, claim, start, existing, insert, finish, retry, give_up,
  execution, Reach, here, next, add_job,
}
use agentic_execution.Cluster.Evolution.{Evolves, Evolves-trans, Step-Evolves, insert_result-tasks}
use agentic_execution.Cluster.Released.{
  Justified, HasIndexes, released, ready-Justified, Justified-Rows, HasIndexes-back, HasIndexes-on,
  HasKeys-on, row_of_seen,
}

-- What the readings of the workers are worth: each is an earlier state of the rows.
pub record Inv (s : Cluster) : Type 0 where
  pub keys : HasKeys s.db.tasks
  pub indexes : HasIndexes s.db.tasks
  pub seen : (view : List Task) → Memᴰ view s.views → Rows Evolves view s.db.tasks
  pub queued :
      (id : ℕ) → Memᴰ id s.jobs → All (λ t. t.id == id ≡ true → t.enqueued ≡ true) s.db.tasks
  pub ordered : All (λ t. released t ≡ true → Justified s.db.tasks t) s.db.tasks

-- A row that a statement releases was released before, or is justified by the rows as they were.
abbrev Released : List Task → Task → Task → Type 0
Released rows t u = released u ≡ true → (released t ≡ true) ⊎ Justified rows t

Released-refl : (rows : List Task) (t : Task) → Released rows t t
Released-refl rows t h = inl h

-- The order of the releases, from one state of the rows to the next.
ordered_next :
    (rows rows' ts us : List Task)
    → Rows Evolves rows rows'
    → Rows Evolves ts us
    → Rows (Released rows) ts us
    → All (λ t. released t ≡ true → Justified rows t) ts
    → All (λ u. released u ≡ true → Justified rows' u) us
ordered_next rows rows' [] [] all_rows evolve change h = tt
ordered_next rows rows' [] (u ∷ us) all_rows evolve change h = absurd (evolve tt)
ordered_next rows rows' (t ∷ ts) [] all_rows evolve change h = absurd (evolve tt)
ordered_next rows rows' (t ∷ ts) (u ∷ us) all_rows evolve change h = (
  λ free.
      Justified-Rows rows rows' t u all_rows evolve.0.same.execution_id evolve.0.same.depends_on
        (elim (change.0 free) [ inl old ↦ h.0 old | inr new ↦ new ]),
  ordered_next rows rows' ts us all_rows evolve.1 change.1 h.1,
)

queued_next :
    (id : ℕ) (ts us : List Task)
    → Rows Evolves ts us
    → All (λ t. t.id == id ≡ true → t.enqueued ≡ true) ts
    → All (λ u. u.id == id ≡ true → u.enqueued ≡ true) us
queued_next id [] [] rows h = tt
queued_next id [] (u ∷ us) rows h = absurd (rows tt)
queued_next id (t ∷ ts) [] rows h = absurd (rows tt)
queued_next id (t ∷ ts) (u ∷ us) rows h = (
  λ hit. rows.0.stays_enqueued (h.0 (subst (λ k. k == id ≡ true) (sym rows.0.same.id) hit)),
  queued_next id ts us rows.1 h.1,
)

module _ (max_retries : ℕ) (s : Cluster) (inv : Inv s) where
  -- The row that a scheduling pass releases is justified by the rows as they are now.
  ready_row :
      (view : List Task) (t : Task)
      → Memᴰ view s.views
      → Memᴰ t view
      → Justified view t
      → All (λ u. u.id == t.id ≡ true → Justified s.db.tasks u) s.db.tasks
  ready_row view t v m just =
      All-imp (λ u. u.id == t.id ≡ true → Evolves t u)
        (λ u. u.id == t.id ≡ true → Justified s.db.tasks u)
        (λ u same hit.
          Justified-Rows view s.db.tasks t u (inv.seen view v) (same hit).same.execution_id
            (same hit).same.depends_on just)
        s.db.tasks (row_of_seen view s.db.tasks t (inv.seen view v) inv.keys m)

  Step-Released :
      {s' : Cluster} → Step max_retries s s' → Rows (Released s.db.tasks) s.db.tasks s'.db.tasks
  unfolding mark_enqueued cascade_failure claim_task mark_started complete_existing mark_completed
      mark_retrying mark_failed
  Step-Released look = Rows-refl (Released s.db.tasks) (Released-refl s.db.tasks) s.db.tasks
  Step-Released (insert id output) =
      rw (insert_result-tasks id output s.db)
        (Rows-refl (Released s.db.tasks) (Released-refl s.db.tasks) s.db.tasks)
  Step-Released (execution es) =
      Rows-refl (Released s.db.tasks) (Released-refl s.db.tasks) s.db.tasks
  Step-Released (enqueue now view t v m waits ready) =
      update_where-Rows_known (Released s.db.tasks)
        (λ u. u.id == t.id ≡ true → Justified s.db.tasks u) _ _ s.db.tasks
        (ready_row view t v m (
          ready-Justified view t (HasIndexes-back view s.db.tasks (inv.seen view v) inv.indexes)
            ready))
        (Released-refl s.db.tasks) (λ x just p h. inr (just (ground arith)))
  Step-Released (cascade now view t v m waits broken) =
      update_where-Rows (Released s.db.tasks) _ _ s.db.tasks (Released-refl s.db.tasks)
        (λ x p h. absurd (ground arith))
  Step-Released (claim now id job) =
      update_where-Rows_known (Released s.db.tasks) (λ u. u.id == id ≡ true → u.enqueued ≡ true) _ _
        s.db.tasks (inv.queued id job) (Released-refl s.db.tasks)
        (λ x q p h. inl (ground (arith, q (ground arith))))
  Step-Released (start now id) =
      update_where-Rows (Released s.db.tasks) _ _ s.db.tasks (Released-refl s.db.tasks)
        (λ x p h. inl h)
  Step-Released (existing now id res) =
      update_where-Rows (Released s.db.tasks) _ _ s.db.tasks (Released-refl s.db.tasks)
        (λ x p h. inl (ground arith))
  Step-Released (finish now id duration usage res) =
      update_where-Rows (Released s.db.tasks) _ _ s.db.tasks (Released-refl s.db.tasks)
        (λ x p h. inl (ground arith))
  Step-Released (retry now next_at error view t v m left) =
      update_where-Rows (Released s.db.tasks) _ _ s.db.tasks (Released-refl s.db.tasks)
        (λ x p h. inl (ground arith))
  Step-Released (give_up now error view t v m spent) =
      update_where-Rows (Released s.db.tasks) _ _ s.db.tasks (Released-refl s.db.tasks)
        (λ x p h. absurd (ground arith))

  pub views_next :
      {s' : Cluster}
      → Step max_retries s s'
      → (view : List Task) → Memᴰ view s'.views
      → (view ≡ s.db.tasks) ⊎ Memᴰ view s.views
  views_next look view (Memᴰ.head e) = inl e
  views_next look view (Memᴰ.tail m) = inr m
  views_next (enqueue now v t vm m waits ready) view k = inr k
  views_next (cascade now v t vm m waits broken) view k = inr k
  views_next (claim now id job) view k = inr k
  views_next (start now id) view k = inr k
  views_next (existing now id res) view k = inr k
  views_next (insert id output) view k = inr k
  views_next (finish now id duration usage res) view k = inr k
  views_next (retry now next_at error v t vm m left) view k = inr k
  views_next (give_up now error v t vm m spent) view k = inr k
  views_next (execution es) view k = inr k

  -- An enqueued task is marked.
  marked_after :
      (now id : ℕ)
      → All (λ u. u.id == id ≡ true → u.enqueued ≡ true) (mark_enqueued id now s.db).0.tasks
  unfolding mark_enqueued
  marked_after now id =
      update_where-All_after (λ u. u.id == id ≡ true → u.enqueued ≡ true) _ _ s.db.tasks
        (λ x p hit. ground arith) (λ x p hit. ground arith)

  added_job :
      (b : Bool) (id k : ℕ) (jobs : List ℕ) → Memᴰ k (add_job b id jobs) → (k ≡ id) ⊎ Memᴰ k jobs
  added_job true id k jobs (Memᴰ.head e) = inl e
  added_job true id k jobs (Memᴰ.tail m) = inr m
  added_job false id k jobs m = inr m

  jobs_next :
      {s' : Cluster}
      → Step max_retries s s'
      → (k : ℕ) → Memᴰ k s'.jobs
      → Memᴰ k s.jobs ⊎ All (λ u. u.id == k ≡ true → u.enqueued ≡ true) s'.db.tasks
  jobs_next (enqueue now v t vm m waits ready) k job = elim (added_job _ t.id k s.jobs job) [
    | inl e ↦ inr (
        subst
          (λ (j : ℕ).
            All (λ u. u.id == j ≡ true → u.enqueued ≡ true) (mark_enqueued t.id now s.db).0.tasks)
          (sym e) (marked_after now t.id))
    | inr old ↦ inl old
  ]
  jobs_next look k job = inl job
  jobs_next (cascade now v t vm m waits broken) k job = inl job
  jobs_next (claim now id job') k job = inl job
  jobs_next (start now id) k job = inl job
  jobs_next (existing now id res) k job = inl job
  jobs_next (insert id output) k job = inl job
  jobs_next (finish now id duration usage res) k job = inl job
  jobs_next (retry now next_at error v t vm m left) k job = inl job
  jobs_next (give_up now error v t vm m spent) k job = inl job
  jobs_next (execution es) k job = inl job

  Step-Inv : {s' : Cluster} → Step max_retries s s' → Inv s'
  Step-Inv {s'} st =
      let rows = Step-Evolves max_retries st in
      record {
        keys = HasKeys-on _ _ rows inv.keys;
        indexes = HasIndexes-on _ _ rows inv.indexes;
        seen = λ view m. elim (views_next st view m) [
          | inl e ↦ subst (λ v. Rows Evolves v s'.db.tasks) (sym e) rows
          | inr old ↦ Rows-trans Evolves Evolves-trans _ _ _ (inv.seen view old) rows
        ];
        queued = λ id m. elim (jobs_next st id m) [
          | inl old ↦ queued_next id _ _ rows (inv.queued id old)
          | inr marked ↦ marked
        ];
        ordered = ordered_next _ _ _ _ rows rows (Step-Released st) inv.ordered;
      }

pub Reach-Inv : (max_retries : ℕ) {s s' : Cluster} → Inv s → Reach max_retries s s' → Inv s'
Reach-Inv max_retries inv here = inv
Reach-Inv max_retries inv (next r st) = Step-Inv max_retries _ (Reach-Inv max_retries inv r) st
