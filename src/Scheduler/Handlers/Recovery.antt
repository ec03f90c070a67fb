-- ===== src/Scheduler/Handlers/Recovery.antt =====
-- What `recover_stale_tasks` comes to.
use agentic_execution.Prelude.{
  ℕ, ◌-◌, ◌≡◌, refl, inl, inr, Bool, true, false, List, [], ◌∷◌, arith, ◌==◌, ==_iff, ==_refl,
  Bool-cases, any, filter, All, All-imp,
}
use mathlib.Core.Bool.{false≢true}
use agentic_execution.Models.{Task}
use agentic_execution.Llm.{LlmProvider}
use agentic_execution.Redis.{Redis}
use agentic_execution.World.{World, Env}
use agentic_execution.Scheduler.Pass.Invariants.{IsKept, All-IsKept, schedule_execution_kept}
use agentic_execution.Scheduler.Retry.Released.{runs_as, retry_or_fail-All}
use agentic_execution.Scheduler.Handlers.{
  lease_expired, recover_each, schedule_each, stale_tasks, recover_stale_tasks,
}

module _ (r : Redis) (env : Env) (llm : LlmProvider) (now : ℕ) where
  abbrev cutoff : ℕ
  cutoff = now - env.settings.task_lease

  abbrev is_stale : Task → Bool
  is_stale t = lease_expired r env llm cutoff t

  abbrev Fresh : Task → Type 0
  Fresh t = is_stale t ≡ false

  -- A stale row is one of the tasks that are still to be recovered.
  abbrev Listed : List Task → Task → Type 0
  Listed ts t = is_stale t ≡ true → any (λ (u : Task). u.id == t.id) ts ≡ true

  Listed-next :
      (u : Task) (ts : List Task) (t : Task)
      → runs_as u.id t ≡ false
      → Listed (u ∷ ts) t
      → Listed ts t
  Listed-next u ts t other h stale =
      let found = h stale in ground (arith, found, ==_iff u.id t.id, ==_iff t.id u.id)

  recover_each-Fresh :
      (ts : List Task) (w : World r.State)
      → All (Listed ts) w.db.tasks
      → All Fresh (recover_each r env llm now ts w).db.tasks
  unfolding recover_each
  recover_each-Fresh [] w h =
      All-imp (Listed []) Fresh
        (λ t listed. elim (Bool-cases (is_stale t)) [
          | inr fresh ↦ fresh
          | inl stale ↦ absurd (false≢true (listed stale))
        ])
        w.db.tasks h
  recover_each-Fresh (u ∷ ts) w h = recover_each-Fresh ts _ (
      retry_or_fail-All r env now u _ w (Listed (u ∷ ts)) (Listed ts)
        (λ t idle stale. absurd (ground arith)) (Listed-next u ts) h)

  Fresh-kept : IsKept now (λ db. All Fresh db.tasks)
  Fresh-kept = All-IsKept now Fresh (λ t fresh. ground arith) (λ t fresh. ground arith)

  schedule_each-Fresh :
      (ids : List ℕ) (w : World r.State)
      → All Fresh w.db.tasks
      → All Fresh (schedule_each r env llm now ids w).db.tasks
  unfolding schedule_each
  schedule_each-Fresh [] w h = h
  schedule_each-Fresh (id ∷ ids) w h =
      schedule_each-Fresh ids _ (schedule_execution_kept r env now (All Fresh) Fresh-kept id w h)

  Listed-more :
      (u : Task) (ts : List Task) (t : Task)
      → Listed (filter is_stale ts) t
      → Listed (filter is_stale (u ∷ ts)) t
  Listed-more u ts t h stale = let found = h stale in ground (arith, found)

  stale-Listed : (ts : List Task) → All (Listed (filter is_stale ts)) ts
  stale-Listed [] = tt
  stale-Listed (t ∷ ts) = (
    λ stale. rw stale (rw (==_refl t.id) refl),
    All-imp (Listed (filter is_stale ts)) (Listed (filter is_stale (t ∷ ts))) (Listed-more t ts) ts
        (stale-Listed ts),
  )

  filter-none : (p : Task → Bool) (ts : List Task) → All (λ t. p t ≡ false) ts → filter p ts ≡ []
  filter-none p [] h = refl
  filter-none p (t ∷ ts) h = rw (h.0, filter-none p ts h.1) refl

  -- After recover_stale_tasks, whatever the rows were, no task is RUNNING with a lease that has
  -- expired: the recovery leaves none out, and the scheduling passes make none.
  pub recover_stale_tasks-none_stale :
      (w : World r.State)
      → stale_tasks r env llm now (recover_stale_tasks r env llm now w).0.db ≡ []
  unfolding recover_stale_tasks stale_tasks
  recover_stale_tasks-none_stale w = filter-none is_stale _ (
      schedule_each-Fresh _ _
        (recover_each-Fresh (filter is_stale w.db.tasks) w (stale-Listed w.db.tasks)))
