-- ===== src/Metrics/Totals.antt =====
-- The counts by status (backend/app/observability/metrics.py), against the rows.
use agentic_execution.Prelude.{
  ℕ, ◌+◌, ◌≡◌, refl, sym, ◌∙◌, ◌↔◌, inl, inr, Bool, true, false, List, [], ◌∷◌, map, arith,
  if◌then◌else◌, Bool-cases, length, count, sum_by,
}
use agentic_execution.Enums.{ExecutionStatus, execution_status_eq, TaskStatus, task_status_eq}
use agentic_execution.Settings.{Settings}
use agentic_execution.Json.{Codec}
use agentic_execution.Models.{Execution, Task, Db}
use agentic_execution.Redis.{Redis}
use agentic_execution.Llm.{Outcome}
use agentic_execution.Metrics.{
  tally_one, tally, count_of, total_of, by_status, execution_statuses, task_statuses,
  collect_metrics,
}

module _ {S : Type 0} (eq : S → S → Bool) (law : (a b : S) → (eq a b ≡ true) ↔ (a ≡ b)) where
  not_both : (s x key : S) → eq key x ≡ false → eq key s ≡ true → eq x s ≡ false
  not_both s x key other hit = elim (Bool-cases (eq x s)) [
    | inr miss ↦ miss
    | inl both ↦
        let same : eq key x ≡ true = (law key x).1 ((law key s).0 hit ∙ sym ((law x s).0 both)) in
        absurd (ground arith)
  ]

  count_of-tally_one :
      (s x : S) (counts : List (S × ℕ))
      → count_of eq s (tally_one eq x counts) ≡ (if eq x s then 1 else 0) + count_of eq s counts
  unfolding tally_one count_of
  count_of-tally_one s x [] = omega arith
  count_of-tally_one s x ((key, n) ∷ counts) = elim (Bool-cases (eq key x)) [
    | inl same ↦ rw (same, (law key x).0 same) (ground arith)
    | inr other ↦ rw other (elim (Bool-cases (eq key s)) [
      | inl hit ↦ rw (hit, not_both s x key other hit) (omega arith)
      | inr miss ↦ rw miss (count_of-tally_one s x counts)
    ])
  ]

  count_of-tally : (s : S) (xs : List S) → count_of eq s (tally eq xs) ≡ count (λ x. eq x s) xs
  unfolding tally count_of
  count_of-tally s [] = refl
  count_of-tally s (x ∷ xs) =
      omega (arith, count_of-tally_one s x (tally eq xs), count_of-tally s xs)

  total_of-tally_one :
      (x : S) (counts : List (S × ℕ)) → total_of eq (tally_one eq x counts) ≡ 1 + total_of eq counts
  unfolding tally_one total_of
  total_of-tally_one x [] = omega arith
  total_of-tally_one x ((key, n) ∷ counts) = ground (arith, total_of-tally_one x counts)

  total_of-tally : (xs : List S) → total_of eq (tally eq xs) ≡ length xs
  unfolding tally total_of
  total_of-tally [] = refl
  total_of-tally (x ∷ xs) = omega (arith, total_of-tally_one x (tally eq xs), total_of-tally xs)

execution_status_law : (a b : ExecutionStatus) → (execution_status_eq a b ≡ true) ↔ (a ≡ b)
execution_status_law a b = ground arith

task_status_law : (a b : TaskStatus) → (task_status_eq a b ≡ true) ↔ (a ≡ b)
task_status_law a b = ground arith

-- Every execution has one of the five states, and every task too.
execution_statuses_cover :
    (xs : List ExecutionStatus)
    → sum_by (λ s. count (λ x. execution_status_eq x s) xs) execution_statuses ≡ length xs
execution_statuses_cover [] = refl
execution_statuses_cover (x ∷ xs) = let rest = execution_statuses_cover xs in ground (arith, rest)

task_statuses_cover :
    (xs : List TaskStatus)
    → sum_by (λ s. count (λ x. task_status_eq x s) xs) task_statuses ≡ length xs
task_statuses_cover [] = refl
task_statuses_cover (x ∷ xs) = let rest = task_statuses_cover xs in ground (arith, rest)

count-map :
    {A B : Type 0} (p : B → Bool) (f : A → B) (xs : List A)
    → count p (map f xs) ≡ count (λ x. p (f x)) xs
count-map p f [] = refl
count-map p f (x ∷ xs) = omega (arith, count-map p f xs)

length-map : {A B : Type 0} (f : A → B) (xs : List A) → length (map f xs) ≡ length xs
length-map f [] = refl
length-map f (x ∷ xs) = omega (arith, length-map f xs)

-- The figures of collect_metrics agree with the rows: each total is the number of rows, each count
-- by status is the number of rows with it, and the counts add up to the total, for the executions
-- and for the tasks.
pub collect_metrics-totals :
    (r : Redis) (codec : Codec) (settings : Settings) (tie_up : ℕ → Bool) (db : Db)
    (redis : Outcome r.State)
    → let m = collect_metrics r codec settings tie_up db redis in
      (m.executions_total ≡ length db.executions)
      × (m.executions_by_status
          ≡ map
              (λ s. (s, count (λ (e : Execution). execution_status_eq e.status s) db.executions))
              execution_statuses)
      × (sum_by (λ (entry : ExecutionStatus × ℕ). entry.1) m.executions_by_status
          ≡ m.executions_total)
      × (m.tasks_total ≡ length db.tasks)
      × (m.tasks_by_status
          ≡ map (λ s. (s, count (λ (t : Task). task_status_eq t.status s) db.tasks)) task_statuses)
      × (sum_by (λ (entry : TaskStatus × ℕ). entry.1) m.tasks_by_status ≡ m.tasks_total)
unfolding collect_metrics by_status
collect_metrics-totals r codec settings tie_up db redis =
    let es = map (λ (e : Execution). e.status) db.executions in
    let ts = map (λ (t : Task). t.status) db.tasks in
    let e_total = total_of-tally execution_status_eq execution_status_law es in
    let t_total = total_of-tally task_status_eq task_status_law ts in
    (
      e_total ∙ length-map _ db.executions,
      simp (count_of-tally execution_status_eq execution_status_law, count-map) refl,
      simp (count_of-tally execution_status_eq execution_status_law)
          (execution_statuses_cover es ∙ sym e_total),
      t_total ∙ length-map _ db.tasks,
      simp (count_of-tally task_status_eq task_status_law, count-map) refl,
      simp (count_of-tally task_status_eq task_status_law) (task_statuses_cover ts ∙ sym t_total),
    )
