-- ===== src/Cluster/Released.antt =====
-- Released tasks and their dependencies, in the rows that a scheduling pass (services/scheduler.py)
-- decides by.
use agentic_execution.Prelude.{
  ℕ, ◌≤◌, ◌<◌, ◌≡◌, refl, sym, ap, ◌∙◌, subst, inl, inr, Bool, true, false, ◌&&◌, Option, none,
  some, List, [], ◌∷◌, arith, ◌==◌, Bool-cases, Option-cases, any, all, filter, count, All, All-imp,
  All-from_filter, ℤ, pos, negsuc,
}
use mathlib.Core.Path.{ap₂}
use mathlib.Core.List.{Memᴰ}
use agentic_execution.Enums.{TaskStatus}
use agentic_execution.Models.{Task}
use agentic_execution.Models.Updates.{Rows}
use agentic_execution.Models.Keys.{is_task, HasKeys}
use agentic_execution.Scheduler.Finalize.{
  has_index, by_index, dependencies, depends_or_nil, is_completed,
}
use agentic_execution.Cluster.{deps_in}
use agentic_execution.Cluster.Evolution.{SameTask, Evolves}

-- The row is one of the dependencies of the task.
abbrev pub needs : Task → Task → Bool
needs t d =
    d.execution_id == t.execution_id && any (λ i. has_index i d) (depends_or_nil t.depends_on)

-- All rows that the task needs are COMPLETED.
abbrev pub Justified : List Task → Task → Type 0
Justified rows t = All (λ d. needs t d ≡ true → is_completed d ≡ true) rows

-- Within an execution, at most one task has an index.
abbrev pub HasIndexes : List Task → Type 0
HasIndexes rows = (e : ℕ) (i : ℤ) → count (λ d. d.execution_id == e && has_index i d) rows ≤ 1

-- The task may run, runs, or has run: it is enqueued, RUNNING, RETRYING or COMPLETED.
abbrev pub released : Task → Bool
released t = elim t.status [
  | TaskStatus.pending ↦ t.enqueued
  | TaskStatus.failed ↦ false
  | _ ↦ true
]

by_index-none : (i : ℤ) (xs : List Task) → count (has_index i) xs ≡ 0 → by_index xs i ≡ none
unfolding by_index
by_index-none i [] h = refl
by_index-none i (x ∷ xs) h = ground (arith, by_index-none i xs)

by_index_unique :
    (i : ℤ) (xs : List Task)
    → count (has_index i) xs ≤ 1
    → All (λ d. has_index i d ≡ true → by_index xs i ≡ some d) xs
unfolding by_index
by_index_unique i [] h = tt
by_index_unique i (x ∷ xs) h = (
  λ here. ground (arith, by_index-none i xs),
  All-imp (λ d. has_index i d ≡ true → by_index xs i ≡ some d)
      (λ d. has_index i d ≡ true → by_index (x ∷ xs) i ≡ some d) (λ d later hit. rw (later hit)) xs
      (by_index_unique i xs (ground arith)),
)

count-filter :
    (p q : Task → Bool) (xs : List Task) → count p (filter q xs) ≡ count (λ x. q x && p x) xs
count-filter p q [] = refl
count-filter p q (x ∷ xs) = ground (arith, count-filter p q xs)

-- A dependency that resolves to a row puts the row among the dependencies.
completed_of_dep :
    (rows : List Task) (d : Task) (is : List ℤ)
    → ((i : ℤ) → has_index i d ≡ true → by_index rows i ≡ some d)
    → any (λ i. has_index i d) is ≡ true
    → all is_completed (dependencies rows is) ≡ true
    → is_completed d ≡ true
unfolding dependencies
completed_of_dep rows d [] resolve h done = cc
completed_of_dep rows d (i ∷ is) resolve h done = elim (Bool-cases (has_index i d)) [
  | inl hit ↦ let all_done = rw (resolve i hit) at done in ground arith
  | inr miss ↦
      completed_of_dep rows d is resolve (rw miss at h) (elim (Option-cases (by_index rows i)) [
        | inl e ↦ rw e at done
        | inr (u, e) ↦ let all_done = rw e at done in ground arith
      ])
]

All-pi :
    {A : Type 0} (P : ℤ → A → Type 0) (xs : List A)
    → ((i : ℤ) → All (P i) xs)
    → All (λ x. (i : ℤ) → P i x) xs
All-pi P [] h = tt
All-pi P (x ∷ xs) h = (λ i. (h i).0, All-pi P xs (λ i. (h i).1))

-- A task that a view shows as ready is justified by the rows of the view.
pub ready-Justified :
    (view : List Task) (t : Task)
    → HasIndexes view
    → all is_completed (deps_in view t) ≡ true
    → Justified view t
ready-Justified view t unique ready =
    All-imp
      (λ d.
        d.execution_id == t.execution_id ≡ true
        → (i : ℤ) → has_index i d ≡ true
        → by_index siblings i ≡ some d)
      (λ d. needs t d ≡ true → is_completed d ≡ true)
      (λ d resolve need.
        completed_of_dep siblings d (depends_or_nil t.depends_on) (resolve (ground arith))
          (ground arith) ready)
      view
      (All-from_filter (λ d. (i : ℤ) → has_index i d ≡ true → by_index siblings i ≡ some d)
        (λ d. d.execution_id == t.execution_id) view
        (All-pi (λ i d. has_index i d ≡ true → by_index siblings i ≡ some d) siblings
          (λ i. by_index_unique i siblings (
            rw (count-filter (has_index i) (λ d. d.execution_id == t.execution_id) view)
              (unique t.execution_id i)))))
  where
    siblings : List Task
    siblings = filter (λ d. d.execution_id == t.execution_id) view

has_index_same :
    (i : ℤ) (d e : Task) → d.order_index ≡ e.order_index → has_index i d ≡ has_index i e
has_index_same (pos n) d e o = ap (λ k. n == k) o
has_index_same (negsuc n) d e o = refl

any_index_same :
    (is : List ℤ) (d e : Task)
    → d.order_index ≡ e.order_index
    → any (λ i. has_index i d) is ≡ any (λ i. has_index i e) is
any_index_same [] d e o = refl
any_index_same (i ∷ is) d e o = rw (has_index_same i d e o, any_index_same is d e o) refl

needs-same :
    (t u d e : Task)
    → t.execution_id ≡ u.execution_id
    → t.depends_on ≡ u.depends_on
    → SameTask d e
    → needs u e ≡ true
    → needs t d ≡ true
needs-same t u d e owner deps same h =
    ap₂ (λ (a : Bool) (b : Bool). a && b) (ap₂ (λ (a : ℕ) (b : ℕ). a == b) same.execution_id owner)
      (any_index_same (depends_or_nil t.depends_on) d e same.order_index
        ∙ ap (λ (ds : Option (List ℤ)). any (λ i. has_index i e) (depends_or_nil ds)) deps)
    ∙ h

-- What justified a task justifies it for ever.
pub Justified-Rows :
    (ts us : List Task) (t u : Task)
    → Rows Evolves ts us
    → t.execution_id ≡ u.execution_id
    → t.depends_on ≡ u.depends_on
    → Justified ts t
    → Justified us u
Justified-Rows [] [] t u rows owner deps h = tt
Justified-Rows [] (y ∷ us) t u rows owner deps h = absurd (rows tt)
Justified-Rows (x ∷ ts) [] t u rows owner deps h = absurd (rows tt)
Justified-Rows (x ∷ ts) (y ∷ us) t u rows owner deps h = (
  λ need. rows.0.stays_completed (h.0 (needs-same t u x y owner deps rows.0.same need)),
  Justified-Rows ts us t u rows.1 owner deps h.1,
)

-- A test on what no statement changes counts the same rows.
count-Rows :
    (q : Task → Bool) (ts us : List Task)
    → ((t u : Task) → SameTask t u → q t ≡ q u)
    → Rows Evolves ts us
    → count q ts ≡ count q us
count-Rows q [] [] same rows = refl
count-Rows q [] (u ∷ us) same rows = absurd (rows tt)
count-Rows q (t ∷ ts) [] same rows = absurd (rows tt)
count-Rows q (t ∷ ts) (u ∷ us) same rows = rw (same t u rows.0.same, count-Rows q ts us same rows.1)

index_same :
    (e : ℕ) (i : ℤ) (t u : Task)
    → SameTask t u
    → (t.execution_id == e && has_index i t) ≡ (u.execution_id == e && has_index i u)
index_same e i t u same =
    ap₂ (λ (a : Bool) (b : Bool). a && b) (ap (λ (k : ℕ). k == e) same.execution_id)
      (has_index_same i t u same.order_index)

pub HasIndexes-back : (ts us : List Task) → Rows Evolves ts us → HasIndexes us → HasIndexes ts
HasIndexes-back ts us rows unique e i =
    rw (count-Rows (λ d. d.execution_id == e && has_index i d) ts us (index_same e i) rows)
      (unique e i)

pub HasIndexes-on : (ts us : List Task) → Rows Evolves ts us → HasIndexes ts → HasIndexes us
HasIndexes-on ts us rows unique e i =
    rw (← count-Rows (λ d. d.execution_id == e && has_index i d) ts us (index_same e i) rows)
      (unique e i)

pub HasKeys-on : (ts us : List Task) → Rows Evolves ts us → HasKeys ts → HasKeys us
HasKeys-on ts us rows keys id =
    rw (← count-Rows (is_task id) ts us (λ t u same. ap (λ (n : ℕ). n == id) same.id) rows)
      (keys id)

-- The row with the id of a task that was read is that task, later.
count-seen :
    (view us : List Task) (t : Task)
    → Rows Evolves view us
    → Memᴰ t view
    → 0 < count (is_task t.id) us
count-seen [] us t rows m = elim m [ ]
count-seen (x ∷ view) [] t rows m = absurd (rows tt)
count-seen (x ∷ view) (u ∷ us) t rows (Memᴰ.head e) =
    let same : u.id ≡ t.id = sym (ap (λ (k : Task). k.id) e ∙ rows.0.same.id) in ground arith
count-seen (x ∷ view) (u ∷ us) t rows (Memᴰ.tail m) = ground (arith, count-seen view us t rows.1 m)

pub row_of_seen :
    (view us : List Task) (t : Task)
    → Rows Evolves view us
    → HasKeys us
    → Memᴰ t view
    → All (λ u. u.id == t.id ≡ true → Evolves t u) us
row_of_seen [] us t rows keys m = elim m [ ]
row_of_seen (x ∷ view) [] t rows keys m = absurd (rows tt)
row_of_seen (x ∷ view) (u ∷ us) t rows keys (Memᴰ.head e) =
    let here : Evolves t u = subst (λ y. Evolves y u) (sym e) rows.0 in
    (λ _. here, all_other us (ground (arith, keys t.id, here.same.id)))
  where
    all_other :
        (ys : List Task)
        → count (is_task t.id) ys ≡ 0
        → All (λ y. y.id == t.id ≡ true → Evolves t y) ys
    all_other [] h = tt
    all_other (y ∷ ys) h = (λ hit. absurd (ground arith), all_other ys (ground arith))
row_of_seen (x ∷ view) (u ∷ us) t rows keys (Memᴰ.tail m) = (
  λ hit. absurd (ground (arith, keys t.id, count-seen view us t rows.1 m)),
  row_of_seen view us t rows.1 (λ id. ground (arith, keys id)) m,
)
