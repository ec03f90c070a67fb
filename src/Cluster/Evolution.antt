-- ===== src/Cluster/Evolution.antt =====
-- How a row may change: the life cycle of a task.
use agentic_execution.Prelude.{
  ℕ, ◌≡◌, refl, ◌∙◌, ◌≢◌, ◌⊎◌, inl, inr, Bool, true, false, not, ◌&&◌, ◌||◌, List, [], ◌∷◌, arith,
  Text,
}
use agentic_execution.Enums.{TaskStatus}
use agentic_execution.Models.{Task, Db, update_where, insert_result}
use agentic_execution.Models.Updates.{Rows-imp, Rows, update_where-Rows, Rows-refl, Rows-trans}
use agentic_execution.Scheduler.Statements.{
  claim_task, mark_started, complete_existing, mark_completed, mark_retrying, mark_failed,
  cascade_failure, mark_enqueued,
}
use agentic_execution.Scheduler.Finalize.{is_completed, is_failed}
use agentic_execution.Cluster.{
  Cluster, Step, look, enqueue, cascade, claim, start, existing, insert, finish, retry, give_up,
  execution, Reach, here, next,
}

-- The life cycle of README.md and enums.py, with the late success of a task that was given back
-- for retry.
pub data Edge : TaskStatus → TaskStatus → Type 0 where
  claimed : Edge TaskStatus.pending TaskStatus.running
  reclaimed : Edge TaskStatus.retrying TaskStatus.running
  succeeded : Edge TaskStatus.running TaskStatus.completed
  late : Edge TaskStatus.retrying TaskStatus.completed
  retried : Edge TaskStatus.running TaskStatus.retrying
  exhausted : Edge TaskStatus.running TaskStatus.failed
  skipped : Edge TaskStatus.pending TaskStatus.failed

-- What no statement changes.
pub record SameTask (t u : Task) : Type 0 where
  pub id : t.id ≡ u.id
  pub execution_id : t.execution_id ≡ u.execution_id
  pub order_index : t.order_index ≡ u.order_index
  pub depends_on : t.depends_on ≡ u.depends_on

-- One statement moves a row along an edge of the life cycle, or keeps its status.
abbrev pub Moves : Task → Task → Type 0
Moves t u = SameTask t u × ((t.status ≡ u.status) ⊎ Edge t.status u.status)

ruleset edges = (claimed, reclaimed, succeeded, late, retried, exhausted, skipped)

-- What holds between a row and itself any number of statements later.
pub record Evolves (t u : Task) : Type 0 where
  pub same : SameTask t u
  pub stays_completed : is_completed t ≡ true → is_completed u ≡ true
  pub stays_failed : is_failed t ≡ true → is_failed u ≡ true
  pub stays_enqueued : t.enqueued ≡ true → u.enqueued ≡ true

-- The end of the task, or its mark, is lost from one row to the other.
abbrev lost : Task → Task → Bool
lost t u =
    is_completed t && not (is_completed u)
    || is_failed t && not (is_failed u)
    || t.enqueued && not u.enqueued

abbrev pub Endures : Task → Task → Type 0
Endures t u = SameTask t u × (lost t u ≡ false)

SameTask-refl : (t : Task) → SameTask t t
SameTask-refl t = record { id = refl; execution_id = refl; order_index = refl; depends_on = refl }

Moves-refl : (t : Task) → Moves t t
Moves-refl t = (SameTask-refl t, inl refl)

moved_by :
    (p : Task → Bool) (f : Task → Task) (tasks : List Task)
    → ((x : Task) → p x ≡ true → SameTask x (f x) × Edge x.status (f x).status)
    → Rows Moves tasks (update_where p f tasks)
moved_by p f tasks edge =
    update_where-Rows Moves p f tasks Moves-refl (λ x h. let e = edge x h in (e.0, inr e.1))

pub insert_result-tasks :
    (id : ℕ) (output : Text) (db : Db) → (insert_result id output db).tasks ≡ db.tasks
unfolding insert_result
insert_result-tasks id output db = ground arith

module _ (max_retries : ℕ) where
  -- Every statement of a worker, a reaper or a scheduling pass, on every row of the tasks, keeps
  -- the identity of the task, and keeps its status or moves it along an edge of the life cycle.
  pub Step-Moves : {s s' : Cluster} → Step max_retries s s' → Rows Moves s.db.tasks s'.db.tasks
  unfolding mark_enqueued cascade_failure claim_task mark_started complete_existing mark_completed
      mark_retrying mark_failed
  Step-Moves {s} look = Rows-refl Moves Moves-refl s.db.tasks
  Step-Moves {s} (enqueue now view t v m waits ready) =
      update_where-Rows Moves _ _ s.db.tasks Moves-refl (λ x h. (ground arith, inl refl))
  Step-Moves {s} (cascade now view t v m waits broken) =
      moved_by _ _ s.db.tasks (λ x h. (ground arith, grind (arith, skipped)))
  Step-Moves {s} (claim now id job) =
      moved_by _ _ s.db.tasks (λ x h. (ground arith, grind (arith, claimed, reclaimed)))
  Step-Moves {s} (start now id) =
      update_where-Rows Moves _ _ s.db.tasks Moves-refl (λ x h. (ground arith, inl refl))
  Step-Moves {s} (existing now id res) =
      moved_by _ _ s.db.tasks (λ x h. (ground arith, grind (arith, succeeded)))
  Step-Moves {s} (insert id output) =
      rw (insert_result-tasks id output s.db) (Rows-refl Moves Moves-refl s.db.tasks)
  Step-Moves {s} (finish now id duration usage res) =
      moved_by _ _ s.db.tasks (λ x h. (ground arith, grind (arith, succeeded, late)))
  Step-Moves {s} (retry now next_at error view t v m left) =
      moved_by _ _ s.db.tasks (λ x h. (ground arith, grind (arith, retried)))
  Step-Moves {s} (give_up now error view t v m spent) =
      moved_by _ _ s.db.tasks (λ x h. (ground arith, grind (arith, exhausted)))
  Step-Moves {s} (execution es) = Rows-refl Moves Moves-refl s.db.tasks

Evolves-refl : (t : Task) → Evolves t t
Evolves-refl t = record {
  same = SameTask-refl t;
  stays_completed = λ h. h;
  stays_failed = λ h. h;
  stays_enqueued = λ h. h;
}

SameTask-trans : (t u v : Task) → SameTask t u → SameTask u v → SameTask t v
SameTask-trans t u v h k = record {
  id = h.id ∙ k.id;
  execution_id = h.execution_id ∙ k.execution_id;
  order_index = h.order_index ∙ k.order_index;
  depends_on = h.depends_on ∙ k.depends_on;
}

pub Evolves-trans : (t u v : Task) → Evolves t u → Evolves u v → Evolves t v
Evolves-trans t u v h k = record {
  same = SameTask-trans t u v h.same k.same;
  stays_completed = λ c. k.stays_completed (h.stays_completed c);
  stays_failed = λ c. k.stays_failed (h.stays_failed c);
  stays_enqueued = λ c. k.stays_enqueued (h.stays_enqueued c);
}

-- No edge of the life cycle leaves COMPLETED or FAILED.
Edge-completed : {a b : TaskStatus} → Edge a b → a ≢ TaskStatus.completed
Edge-completed claimed h = cc
Edge-completed reclaimed h = cc
Edge-completed succeeded h = cc
Edge-completed late h = cc
Edge-completed retried h = cc
Edge-completed exhausted h = cc
Edge-completed skipped h = cc

Edge-failed : {a b : TaskStatus} → Edge a b → a ≢ TaskStatus.failed
Edge-failed claimed h = cc
Edge-failed reclaimed h = cc
Edge-failed succeeded h = cc
Edge-failed late h = cc
Edge-failed retried h = cc
Edge-failed exhausted h = cc
Edge-failed skipped h = cc

moved_completed : (t u : Task) → Moves t u → is_completed t ≡ true → is_completed u ≡ true
moved_completed t u (same, inl kept) h = ground arith
moved_completed t u (same, inr edge) h = absurd (Edge-completed edge (ground arith))

moved_failed : (t u : Task) → Moves t u → is_failed t ≡ true → is_failed u ≡ true
moved_failed t u (same, inl kept) h = ground arith
moved_failed t u (same, inr edge) h = absurd (Edge-failed edge (ground arith))

abbrev Marked : Task → Task → Type 0
Marked t u = t.enqueued ≡ true → u.enqueued ≡ true

module _ (max_retries : ℕ) where
  -- No statement takes a mark back.
  Step-Marked : {s s' : Cluster} → Step max_retries s s' → Rows Marked s.db.tasks s'.db.tasks
  unfolding mark_enqueued cascade_failure claim_task mark_started complete_existing mark_completed
      mark_retrying mark_failed
  Step-Marked {s} look = Rows-refl Marked (λ x h. h) s.db.tasks
  Step-Marked {s} (insert id output) =
      rw (insert_result-tasks id output s.db) (Rows-refl Marked (λ x h. h) s.db.tasks)
  Step-Marked {s} (execution es) = Rows-refl Marked (λ x h. h) s.db.tasks
  Step-Marked {s} (enqueue now view t v m waits ready) =
      update_where-Rows Marked _ _ s.db.tasks (λ x h. h) (λ x p h. ground arith)
  Step-Marked {s} (cascade now view t v m waits broken) =
      update_where-Rows Marked _ _ s.db.tasks (λ x h. h) (λ x p h. ground arith)
  Step-Marked {s} (claim now id job) =
      update_where-Rows Marked _ _ s.db.tasks (λ x h. h) (λ x p h. ground arith)
  Step-Marked {s} (start now id) =
      update_where-Rows Marked _ _ s.db.tasks (λ x h. h) (λ x p h. ground arith)
  Step-Marked {s} (existing now id res) =
      update_where-Rows Marked _ _ s.db.tasks (λ x h. h) (λ x p h. ground arith)
  Step-Marked {s} (finish now id duration usage res) =
      update_where-Rows Marked _ _ s.db.tasks (λ x h. h) (λ x p h. ground arith)
  Step-Marked {s} (retry now next_at error view t v m left) =
      update_where-Rows Marked _ _ s.db.tasks (λ x h. h) (λ x p h. ground arith)
  Step-Marked {s} (give_up now error view t v m spent) =
      update_where-Rows Marked _ _ s.db.tasks (λ x h. h) (λ x p h. ground arith)

  evolved : (ts us : List Task) → Rows Moves ts us → Rows Marked ts us → Rows Evolves ts us
  evolved [] [] h k = tt
  evolved [] (u ∷ us) h k = absurd (h tt)
  evolved (t ∷ ts) [] h k = absurd (h tt)
  evolved (t ∷ ts) (u ∷ us) h k = (
    record {
      same = h.0.0;
      stays_completed = moved_completed t u h.0;
      stays_failed = moved_failed t u h.0;
      stays_enqueued = k.0;
    },
    evolved ts us h.1 k.1,
  )

  pub Step-Evolves : {s s' : Cluster} → Step max_retries s s' → Rows Evolves s.db.tasks s'.db.tasks
  Step-Evolves st = evolved _ _ (Step-Moves max_retries st) (Step-Marked st)

  Reach-Evolves : {s s' : Cluster} → Reach max_retries s s' → Rows Evolves s.db.tasks s'.db.tasks
  Reach-Evolves {s} here = Rows-refl Evolves Evolves-refl s.db.tasks
  Reach-Evolves (next r st) =
      Rows-trans Evolves Evolves-trans _ _ _ (Reach-Evolves r) (Step-Evolves st)

  -- Under any interleaving the table keeps its tasks, a COMPLETED task stays COMPLETED, a FAILED
  -- one stays FAILED, and an enqueued one stays marked.
  pub Reach-Endures :
      {s s' : Cluster} → Reach max_retries s s' → Rows Endures s.db.tasks s'.db.tasks
  Reach-Endures r = Rows-imp Evolves Endures (λ t u e. (e.same, endured e)) _ _ (Reach-Evolves r)
    where
      endured : {t u : Task} → Evolves t u → lost t u ≡ false
      endured {t} {u} e = ground (arith, e.stays_completed, e.stays_failed, e.stays_enqueued)
