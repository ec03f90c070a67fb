-- ===== src/Cluster/Results.antt =====
-- The rows of task_results in the interleavings of the workers.
use agentic_execution.Prelude.{
  ℕ, ◌≤◌, ◌≡◌, refl, sym, subst, inl, inr, Bool, true, false, none, List, [], ◌∷◌, ◌++◌, arith,
  ◌==◌, ==_iff, Option-cases, any, filter, find, count, null, All, count-append, All-imp,
  All-to_filter, Text,
}
use agentic_execution.Models.{Task, TaskResult, Db, insert_result, result_of}
use agentic_execution.Models.Updates.{update_where-All}
use agentic_execution.Scheduler.Statements.{
  claim_task, mark_started, complete_existing, mark_completed, mark_retrying, mark_failed,
  cascade_failure, mark_enqueued,
}
use agentic_execution.Scheduler.Finalize.{is_completed}
use agentic_execution.Cluster.{
  Cluster, Step, look, enqueue, cascade, claim, start, existing, insert, finish, retry, give_up,
  execution, Reach, here, next, has_result,
}
use agentic_execution.Cluster.Evolution.{insert_result-tasks}
use agentic_execution.Cluster.Order.{planned}

-- The results of a task.
abbrev pub results_for : ℕ → Db → ℕ
results_for id db = count (λ (r : TaskResult). r.task_id == id) db.results

abbrev Produced : Db → Task → Type 0
Produced db t = is_completed t ≡ true → has_result t.id db ≡ true

record Results (s : Cluster) : Type 0 where
  unique : (id : ℕ) → results_for id s.db ≤ 1
  produced : All (Produced s.db) s.db.tasks

find-none : {A : Type 0} (p : A → Bool) (xs : List A) → find p xs ≡ none → count p xs ≡ 0
find-none p [] h = refl
find-none p (x ∷ xs) h = ground (arith, find-none p xs)

any-append :
    {A : Type 0} (p : A → Bool) (xs ys : List A) → any p xs ≡ true → any p (xs ++ ys) ≡ true
any-append p [] ys h = cc
any-append p (x ∷ xs) ys h = ground (arith, any-append p xs ys)

insert_result_unique :
    (id k : ℕ) (output : Text) (db : Db)
    → results_for k db ≤ 1
    → results_for k (insert_result id output db) ≤ 1
unfolding insert_result result_of
insert_result_unique id k output db h = elim (Option-cases (result_of id db)) [
  | inr (t, e) ↦ rw (e, insert_result) h
  | inl e ↦
      rw (e, insert_result)
        (rw count-append
          (ground (arith, find-none (λ (r : TaskResult). r.task_id == id) db.results, ==_iff id k)))
]

-- A result that is there stays there.
has_result-insert :
    (id k : ℕ) (output : Text) (db : Db)
    → has_result k db ≡ true
    → has_result k (insert_result id output db) ≡ true
unfolding insert_result
has_result-insert id k output db h = elim (Option-cases (result_of id db)) [
  | inr (t, e) ↦ rw (e, insert_result) h
  | inl e ↦ rw (e, insert_result) (any-append _ db.results _ h)
]

module _ (max_retries : ℕ) (s : Cluster) (h : Results s) where
  with_result :
      (x : Task) (id : ℕ)
      → has_result id s.db ≡ true
      → x.id == id ≡ true
      → has_result x.id s.db ≡ true
  with_result x id res hit =
      subst (λ k. has_result k s.db ≡ true) (sym ((==_iff x.id id).0 hit)) res

  Step-produced : {s' : Cluster} → Step max_retries s s' → All (Produced s'.db) s'.db.tasks
  unfolding mark_enqueued cascade_failure claim_task mark_started complete_existing mark_completed
      mark_retrying mark_failed
  Step-produced look = h.produced
  Step-produced (insert id output) =
      subst (λ ts. All (Produced (insert_result id output s.db)) ts)
        (sym (insert_result-tasks id output s.db))
        (All-imp (Produced s.db) (Produced (insert_result id output s.db))
          (λ t made done. has_result-insert id t.id output s.db (made done)) s.db.tasks h.produced)
  Step-produced (execution es) = h.produced
  Step-produced (enqueue now view t v m waits ready) =
      update_where-All (Produced s.db) _ _ s.db.tasks (λ x p b. b) h.produced
  Step-produced (cascade now view t v m waits broken) =
      update_where-All (Produced s.db) _ _ s.db.tasks (λ x p b c. cc) h.produced
  Step-produced (claim now id job) =
      update_where-All (Produced s.db) _ _ s.db.tasks (λ x p b c. cc) h.produced
  Step-produced (start now id) =
      update_where-All (Produced s.db) _ _ s.db.tasks (λ x p b. b) h.produced
  Step-produced (existing now id res) =
      update_where-All (Produced s.db) _ _ s.db.tasks
        (λ x p b c. with_result x id res (ground arith)) h.produced
  Step-produced (finish now id duration usage res) =
      update_where-All (Produced s.db) _ _ s.db.tasks
        (λ x p b c. with_result x id res (ground arith)) h.produced
  Step-produced (retry now next_at error view t v m left) =
      update_where-All (Produced s.db) _ _ s.db.tasks (λ x p b c. cc) h.produced
  Step-produced (give_up now error view t v m spent) =
      update_where-All (Produced s.db) _ _ s.db.tasks (λ x p b c. cc) h.produced

  Step-unique : {s' : Cluster} → Step max_retries s s' → (k : ℕ) → results_for k s'.db ≤ 1
  unfolding mark_enqueued cascade_failure claim_task mark_started complete_existing mark_completed
      mark_retrying mark_failed
  Step-unique (insert id output) k = insert_result_unique id k output s.db (h.unique k)
  Step-unique look k = h.unique k
  Step-unique (execution es) k = h.unique k
  Step-unique (enqueue now view t v m waits ready) k = h.unique k
  Step-unique (cascade now view t v m waits broken) k = h.unique k
  Step-unique (claim now id job) k = h.unique k
  Step-unique (start now id) k = h.unique k
  Step-unique (existing now id res) k = h.unique k
  Step-unique (finish now id duration usage res) k = h.unique k
  Step-unique (retry now next_at error view t v m left) k = h.unique k
  Step-unique (give_up now error view t v m spent) k = h.unique k

Reach-Results : (max_retries : ℕ) {s s' : Cluster} → Results s → Reach max_retries s s' → Results s'
Reach-Results max_retries h here = h
Reach-Results max_retries h (next r st) =
    let before = Reach-Results max_retries h r in
    record {
      unique = Step-unique max_retries _ before st;
      produced = Step-produced max_retries _ before st;
    }

no_results :
    (id : ℕ) (rs : List TaskResult)
    → null rs ≡ true
    → count (λ (r : TaskResult). r.task_id == id) rs ≡ 0
no_results id [] h = refl
no_results id (r ∷ rs) h = cc

-- From a plan with no results and no COMPLETED task on, under any interleaving, a task has at most
-- one result, and every COMPLETED task has one.
pub results_once :
    (max_retries : ℕ) {db : Db} {s : Cluster}
    → null db.results ≡ true
    → All (λ t. is_completed t ≡ false) db.tasks
    → Reach max_retries (planned db) s
    → ((id : ℕ) → results_for id s.db ≤ 1)
      × All (λ t. has_result t.id s.db ≡ true) (filter is_completed s.db.tasks)
results_once max_retries {db} {s} none_yet open_all r =
    let final =
      Reach-Results max_retries
        (record {
          unique = λ id. omega (arith, no_results id db.results none_yet);
          produced =
              All-imp (λ t. is_completed t ≡ false) (Produced db) (λ t o c. cc) db.tasks open_all;
        })
        r in
    (
      final.unique,
      All-to_filter (λ t. has_result t.id s.db ≡ true) is_completed s.db.tasks final.produced,
    )
