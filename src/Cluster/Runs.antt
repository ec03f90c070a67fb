-- ===== src/Cluster/Runs.antt =====
-- Runs of the interleaved workers that end in a given database: how the bodies of the handlers
-- (services/scheduler.py) are compared with the atomic statements.
use agentic_execution.Prelude.{ℕ, List, ◌∷◌}
use mathlib.Core.List.{Memᴰ}
use agentic_execution.Models.{Task, Db}
use agentic_execution.Cluster.{
  Cluster, Step, look, enqueue, cascade, claim, start, existing, insert, finish, retry, give_up,
  execution, Reach, here, next,
}

abbrev pub at : Db → List (List Task) → List ℕ → Cluster
at db views jobs = record { db = db; views = views; jobs = jobs }

-- Some sequence of statements takes the cluster to the database.
pub record Reached (max_retries : ℕ) (s : Cluster) (db : Db) : Type 0 where
  pub views : List (List Task)
  pub jobs : List ℕ
  pub reach : Reach max_retries s (at db views jobs)

module _ (max_retries : ℕ) where
  pub Reach-trans :
      {s t u : Cluster} → Reach max_retries s t → Reach max_retries t u → Reach max_retries s u
  Reach-trans r here = r
  Reach-trans r (next q st) = next (Reach-trans r q) st

  pub stay :
      (db : Db) (views : List (List Task)) (jobs : List ℕ)
      → Reached max_retries (at db views jobs) db
  stay db views jobs = record { views = views; jobs = jobs; reach = here }

  -- One statement.
  pub one :
      {s : Cluster} {db : Db} {views : List (List Task)} {jobs : List ℕ}
      → Step max_retries s (at db views jobs)
      → Reached max_retries s db
  one {s} {db} {views} {jobs} st = record { views = views; jobs = jobs; reach = next here st }

  -- A reading of the tasks, and a run that may rest on it.
  pub after_look :
      {db db' : Db} {views : List (List Task)} {jobs : List ℕ}
      → Reached max_retries (at db (db.tasks ∷ views) jobs) db'
      → Reached max_retries (at db views jobs) db'
  after_look run = record {
    views = run.views;
    jobs = run.jobs;
    reach = Reach-trans (next here look) run.reach;
  }

  -- One run after the other.
  pub followed :
      {s : Cluster} {db db' : Db}
      → Reached max_retries s db
      → ((views : List (List Task)) (jobs : List ℕ) → Reached max_retries (at db views jobs) db')
      → Reached max_retries s db'
  followed first rest =
      let last = rest first.views first.jobs in
      record { views = last.views; jobs = last.jobs; reach = Reach-trans first.reach last.reach }

  -- What was read stays read.
  Step-views :
      {s s' : Cluster} (view : List Task)
      → Step max_retries s s'
      → Memᴰ view s.views
      → Memᴰ view s'.views
  Step-views view look m = Memᴰ.tail m
  Step-views view (enqueue now v t vm tm waits ready) m = m
  Step-views view (cascade now v t vm tm waits broken) m = m
  Step-views view (claim now id job) m = m
  Step-views view (start now id) m = m
  Step-views view (existing now id res) m = m
  Step-views view (insert id output) m = m
  Step-views view (finish now id duration usage res) m = m
  Step-views view (retry now next_at error v t vm tm left) m = m
  Step-views view (give_up now error v t vm tm spent) m = m
  Step-views view (execution es) m = m

  Reach-views :
      {s s' : Cluster} (view : List Task)
      → Reach max_retries s s'
      → Memᴰ view s.views
      → Memᴰ view s'.views
  Reach-views view here m = m
  Reach-views view (next r st) m = Step-views view st (Reach-views view r m)

  -- One run after another, where both rest on the same reading.
  pub followed_seen :
      {db db' db'' : Db} {views : List (List Task)} {jobs : List ℕ} (view : List Task)
      → Memᴰ view views
      → Reached max_retries (at db views jobs) db'
      → ((views' : List (List Task)) (jobs' : List ℕ)
          → Memᴰ view views'
          → Reached max_retries (at db' views' jobs') db'')
      → Reached max_retries (at db views jobs) db''
  followed_seen view seen first rest =
      let last = rest first.views first.jobs (Reach-views view first.reach seen) in
      record { views = last.views; jobs = last.jobs; reach = Reach-trans first.reach last.reach }
