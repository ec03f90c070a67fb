-- ===== src/Models/Updates.antt =====
-- Lemmas on UPDATE statements over the rows of a table.
use mathlib.Core.List.{Memᴰ}
use agentic_execution.Prelude.{
  ◌≤◌, ◌<◌, ◌≡◌, refl, sym, subst, inl, inr, Bool, true, false, some, List, [], ◌∷◌, arith,
  Bool-cases, find, count, All,
}
use agentic_execution.Models.{update_where}

-- The same number of rows, related one by one.
abbrev pub Rows {ℓ κ} : {A : Type ℓ} → (A → A → Type κ) → List A → List A → Type κ
Rows R [] [] = Unit
Rows R (x ∷ xs) (y ∷ ys) = R x y × Rows R xs ys
Rows R _ _ = Unit → ⊥

module _ {ℓ} {A : Type ℓ} where
  -- Every row is kept or is replaced under the guard.
  pub update_where-Rows {κ} :
      (R : A → A → Type κ) (p : A → Bool) (f : A → A) (xs : List A)
      → ((x : A) → R x x)
      → ((x : A) → p x ≡ true → R x (f x))
      → Rows R xs (update_where p f xs)
  unfolding update_where
  update_where-Rows R p f [] keep change = tt
  update_where-Rows R p f (x ∷ xs) keep change = elim (Bool-cases (p x)) [
    | inl e ↦ rw e (change x e, update_where-Rows R p f xs keep change)
    | inr e ↦ rw e (keep x, update_where-Rows R p f xs keep change)
  ]

  pub update_where-All {κ} :
      (P : A → Type κ) (p : A → Bool) (f : A → A) (xs : List A)
      → ((x : A) → p x ≡ true → P x → P (f x))
      → All P xs
      → All P (update_where p f xs)
  unfolding update_where
  update_where-All P p f [] change h = tt
  update_where-All P p f (x ∷ xs) change h = elim (Bool-cases (p x)) [
    | inl e ↦ rw e (change x e h.0, update_where-All P p f xs change h.1)
    | inr e ↦ rw e (h.0, update_where-All P p f xs change h.1)
  ]

  -- A test that the update does not touch counts the same rows.
  pub count-update_where_same :
      (q p : A → Bool) (f : A → A) (xs : List A)
      → ((x : A) → q (f x) ≡ q x)
      → count q (update_where p f xs) ≡ count q xs
  unfolding update_where
  count-update_where_same q p f [] same = refl
  count-update_where_same q p f (x ∷ xs) same =
      ground (arith, same x, count-update_where_same q p f xs same)

  -- A test that fails on every updated row counts no more rows than before.
  count-update_where-le :
      (q p : A → Bool) (f : A → A) (xs : List A)
      → ((x : A) → q (f x) ≡ false)
      → count q (update_where p f xs) ≤ count q xs
  unfolding update_where
  count-update_where-le q p f [] clear = omega arith
  count-update_where-le q p f (x ∷ xs) clear =
      ground (arith, clear x, count-update_where-le q p f xs clear)

  -- And fewer, if the statement meets a row that it counts.
  pub count-update_where-lt :
      (q p key : A → Bool) (f : A → A) (xs : List A) {t : A}
      → ((x : A) → q (f x) ≡ false)
      → find key xs ≡ some t
      → p t ≡ true
      → q t ≡ true
      → count q (update_where p f xs) < count q xs
  unfolding update_where
  count-update_where-lt q p key f [] clear found hp hq = cc
  count-update_where-lt q p key f (x ∷ xs) {t} clear found hp hq = elim (Bool-cases (key x)) [
    | inl e ↦ ground (arith, clear x, count-update_where-le q p f xs clear)
    | inr e ↦
        ground
          (arith, clear x, count-update_where-lt q p key f xs {t = t} clear (rw e at found) hp hq)
  ]

  -- A statement that meets no row changes nothing.
  pub update_where-none :
      (p : A → Bool) (f : A → A) (xs : List A) → count p xs ≡ 0 → update_where p f xs ≡ xs
  unfolding update_where
  update_where-none p f [] h = refl
  update_where-none p f (x ∷ xs) h = ground (arith, update_where-none p f xs)

  pub find_holds : (p : A → Bool) (xs : List A) {t : A} → find p xs ≡ some t → p t ≡ true
  find_holds p [] h = cc
  find_holds p (x ∷ xs) {t} h = elim (Bool-cases (p x)) [
    | inl e ↦ ground arith
    | inr e ↦ find_holds p xs {t = t} (rw e at h)
  ]

  -- A row that is found is counted.
  pub count-pos_of_find :
      (key p : A → Bool) (xs : List A) {t : A} → find key xs ≡ some t → p t ≡ true → 0 < count p xs
  count-pos_of_find key p [] h hp = cc
  count-pos_of_find key p (x ∷ xs) {t} h hp = elim (Bool-cases (key x)) [
    | inl e ↦ ground arith
    | inr e ↦ ground (arith, count-pos_of_find key p xs {t = t} (rw e at h) hp)
  ]

  pub count-le_of_imp :
      (p q : A → Bool) (xs : List A) → ((x : A) → p x ≡ true → q x ≡ true) → count p xs ≤ count q xs
  count-le_of_imp p q [] h = omega arith
  count-le_of_imp p q (x ∷ xs) h = ground (arith, h x, count-le_of_imp p q xs h)

  pub Rows-refl {κ} : (R : A → A → Type κ) → ((x : A) → R x x) → (xs : List A) → Rows R xs xs
  Rows-refl R keep [] = tt
  Rows-refl R keep (x ∷ xs) = (keep x, Rows-refl R keep xs)

  pub Rows-trans {κ} :
      (R : A → A → Type κ)
      → ((x y z : A) → R x y → R y z → R x z)
      → (xs ys zs : List A) → Rows R xs ys
      → Rows R ys zs
      → Rows R xs zs
  Rows-trans R step [] [] [] h k = tt
  Rows-trans R step [] [] (z ∷ zs) h k = k
  Rows-trans R step [] (y ∷ ys) zs h k = absurd (h tt)
  Rows-trans R step (x ∷ xs) [] zs h k = absurd (h tt)
  Rows-trans R step (x ∷ xs) (y ∷ ys) [] h k = k
  Rows-trans R step (x ∷ xs) (y ∷ ys) (z ∷ zs) h k =
      (step x y z h.0 k.0, Rows-trans R step xs ys zs h.1 k.1)

  pub Rows-imp {κ μ} :
      (R : A → A → Type κ) (S : A → A → Type μ)
      → ((x y : A) → R x y → S x y)
      → (xs ys : List A) → Rows R xs ys
      → Rows S xs ys
  Rows-imp R S f [] [] h = tt
  Rows-imp R S f [] (y ∷ ys) h = absurd (h tt)
  Rows-imp R S f (x ∷ xs) [] h = absurd (h tt)
  Rows-imp R S f (x ∷ xs) (y ∷ ys) h = (f x y h.0, Rows-imp R S f xs ys h.1)

  -- The same rule for rows of which something is known.
  pub update_where-Rows_known {κ μ} :
      (R : A → A → Type κ) (Q : A → Type μ) (p : A → Bool) (f : A → A) (xs : List A)
      → All Q xs
      → ((x : A) → R x x)
      → ((x : A) → Q x → p x ≡ true → R x (f x))
      → Rows R xs (update_where p f xs)
  unfolding update_where
  update_where-Rows_known R Q p f [] known keep change = tt
  update_where-Rows_known R Q p f (x ∷ xs) known keep change = elim (Bool-cases (p x)) [
    | inl e ↦ rw e (change x known.0 e, update_where-Rows_known R Q p f xs known.1 keep change)
    | inr e ↦ rw e (keep x, update_where-Rows_known R Q p f xs known.1 keep change)
  ]

  -- What holds of every row after an update.
  pub update_where-All_after {κ} :
      (P : A → Type κ) (p : A → Bool) (f : A → A) (xs : List A)
      → ((x : A) → p x ≡ true → P (f x))
      → ((x : A) → p x ≡ false → P x)
      → All P (update_where p f xs)
  unfolding update_where
  update_where-All_after P p f [] hit miss = tt
  update_where-All_after P p f (x ∷ xs) hit miss = elim (Bool-cases (p x)) [
    | inl e ↦ rw e (hit x e, update_where-All_after P p f xs hit miss)
    | inr e ↦ rw e (miss x e, update_where-All_after P p f xs hit miss)
  ]

  pub All-get {κ} : (P : A → Type κ) {x : A} {xs : List A} → Memᴰ x xs → All P xs → P x
  All-get P (Memᴰ.head e) h = subst P (sym e) h.0
  All-get P (Memᴰ.tail m) h = All-get P m h.1

  pub update_where-All_known {κ μ} :
      (P : A → Type κ) (Q : A → Type μ) (p : A → Bool) (f : A → A) (xs : List A)
      → All Q xs
      → ((x : A) → Q x → p x ≡ true → P (f x))
      → All P xs
      → All P (update_where p f xs)
  unfolding update_where
  update_where-All_known P Q p f [] known change h = tt
  update_where-All_known P Q p f (x ∷ xs) known change h = elim (Bool-cases (p x)) [
    | inl e ↦ rw e (change x known.0 e, update_where-All_known P Q p f xs known.1 change h.1)
    | inr e ↦ rw e (h.0, update_where-All_known P Q p f xs known.1 change h.1)
  ]

  -- A property of every row gives another of every row that is updated, and of every other row.
  pub update_where-All_step {κ μ} :
      (P : A → Type κ) (Q : A → Type μ) (p : A → Bool) (f : A → A) (xs : List A)
      → ((x : A) → p x ≡ true → P x → Q (f x))
      → ((x : A) → p x ≡ false → P x → Q x)
      → All P xs
      → All Q (update_where p f xs)
  unfolding update_where
  update_where-All_step P Q p f [] hit miss h = tt
  update_where-All_step P Q p f (x ∷ xs) hit miss h = elim (Bool-cases (p x)) [
    | inl e ↦ rw e (hit x e h.0, update_where-All_step P Q p f xs hit miss h.1)
    | inr e ↦ rw e (miss x e h.0, update_where-All_step P Q p f xs hit miss h.1)
  ]
