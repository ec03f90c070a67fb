-- ===== src/Models/Keys.antt =====
-- Primary keys: at most one task has a given id.
use agentic_execution.Prelude.{
  ℕ, ◌≤◌, ◌≡◌, ap, Bool, true, ◌&&◌, Option, none, some, List, [], ◌∷◌, arith, ◌==◌, if◌then◌else◌,
  ==_refl, find, count, All, All-imp,
}
use agentic_execution.Models.{Task, update_where}
use agentic_execution.Models.Updates.{
  count-update_where_same, count-pos_of_find, count-le_of_imp, find_holds,
}

abbrev pub is_task : ℕ → Task → Bool
is_task id t = t.id == id

-- The PRIMARY KEY constraint of the table of tasks.
abbrev pub HasKeys : List Task → Type 0
HasKeys tasks = (id : ℕ) → count (is_task id) tasks ≤ 1

pub HasKeys-update_where :
    (p : Task → Bool) (f : Task → Task) (tasks : List Task)
    → ((t : Task) → (f t).id ≡ t.id)
    → HasKeys tasks
    → HasKeys (update_where p f tasks)
HasKeys-update_where p f tasks same keys id =
    rw (count-update_where_same (is_task id) p f tasks (λ t. ap (λ (n : ℕ). n == id) (same t)))
      (keys id)

-- A guarded statement on one id that meets its row counts exactly that row.
pub count-one :
    (id : ℕ) (g : Task → Bool) (tasks : List Task) {t : Task}
    → HasKeys tasks
    → find (is_task id) tasks ≡ some t
    → g t ≡ true
    → count (λ (u : Task). u.id == id && g u) tasks ≡ 1
count-one id g tasks {t} keys found hg =
    let meets = find_holds (is_task id) tasks {t = t} found in
    omega (
      arith,
      keys id,
      count-le_of_imp (λ (u : Task). u.id == id && g u) (is_task id) tasks (λ u h. ground arith),
      count-pos_of_find (is_task id) (λ (u : Task). u.id == id && g u) tasks {t = t} found
          (ground arith),
    )

-- Every row is found under its id.
pub find_self :
    (tasks : List Task) → HasKeys tasks → All (λ t. find (is_task t.id) tasks ≡ some t) tasks
find_self [] keys = tt
find_self (x ∷ xs) keys = (
  rw (==_refl x.id),
  All-imp (λ t. find (is_task t.id) xs ≡ some t) (λ t. find (is_task t.id) (x ∷ xs) ≡ some t)
      (λ t found. ground (
        arith,
        keys t.id,
        count-pos_of_find (is_task t.id) (is_task t.id) xs {t = t} found (==_refl t.id),
      ))
      xs (find_self xs (λ id. ground (arith, keys id))),
)

abbrev rewrite_row : (Task → Bool) → (Task → Task) → Option Task → Option Task
rewrite_row g f none = none
rewrite_row g f (some t) = some (if g t then f t else t)

-- A guarded statement on one id rewrites the row of that id, if it meets the guard, and no other.
pub find-update_where :
    (k id : ℕ) (g : Task → Bool) (f : Task → Task) (tasks : List Task)
    → ((t : Task) → (f t).id ≡ t.id)
    → find (is_task k) (update_where (λ (u : Task). u.id == id && g u) f tasks)
      ≡ (if k == id then rewrite_row g f (find (is_task k) tasks) else find (is_task k) tasks)
unfolding update_where
find-update_where k id g f [] same = ground arith
find-update_where k id g f (x ∷ xs) same =
    ground (arith, same x, find-update_where k id g f xs same)
