-- ===== src/JobQueue/Promotion.antt =====
-- What a turn of the promoter moves from the delayed queue to the main queue.
use agentic_execution.Prelude.{
  ℕ, suc, ◌+◌, ◌≤◌, ◌≡◌, refl, sym, ap, ◌∙◌, inl, inr, Bool, true, false, not, ◌&&◌, List, [], ◌∷◌,
  ◌++◌, map, arith, leb, Bool-cases, length, any, filter, All, All-imp, All-filter, All-zip, Text,
  text_eq, text_eq_refl, text_eq_iff, eq-of-text_eq,
}
use mathlib.Core.List.{append-nil, append_assoc}
use agentic_execution.Json.{Codec}
use agentic_execution.Redis.{Redis, RedisLaws, Scored, without, has_member}
use agentic_execution.JobQueue.{
  queue_key, delayed_key, task_type, job, promote_member, promote_all, promote_due,
}

-- No text stands twice in the list.
abbrev pub IsDistinct : List Text → Type 0
IsDistinct [] = Unit
IsDistinct (m ∷ ms) = (any (text_eq m) ms ≡ false) × IsDistinct ms

-- From the lowest score to the highest.
abbrev pub IsAscending : List Scored → Type 0
IsAscending [] = Unit
IsAscending (z ∷ zs) = All (λ (y : Scored). z.score ≤ y.score) zs × IsAscending zs

abbrev pub names : List Scored → List Text
names = map (λ (z : Scored). z.member)

abbrev pub is_due : ℕ → Scored → Bool
is_due now z = leb z.score now

without_all : List Text → List Scored → List Scored
without_all [] zs = zs
without_all (m ∷ ms) zs = without_all ms (without m zs)

has_member-without :
    (m k : Text) (zs : List Scored)
    → text_eq m k ≡ false
    → has_member k zs ≡ true
    → has_member k (without m zs) ≡ true
has_member-without m k [] ne h = h
has_member-without m k (z ∷ zs) ne h = elim (Bool-cases (text_eq z.member m)) [
  | inl e ↦
      let other : text_eq z.member k ≡ false =
        ap (λ t. text_eq t k) (eq-of-text_eq z.member m e) ∙ ne in
      ground (arith, has_member-without m k zs ne)
  | inr e ↦ ground (arith, has_member-without m k zs ne)
]

All-without :
    (m : Text) (ks : List Text) (zs : List Scored)
    → any (text_eq m) ks ≡ false
    → All (λ k. has_member k zs ≡ true) ks
    → All (λ k. has_member k (without m zs) ≡ true) ks
All-without m [] zs ne h = tt
All-without m (k ∷ ks) zs ne h =
    (has_member-without m k zs (ground arith) h.0, All-without m ks zs (ground arith) h.1)

pub any-due :
    (m : Text) (p : Scored → Bool) (zs : List Scored)
    → any (text_eq m) (names zs) ≡ false
    → any (text_eq m) (names (filter p zs)) ≡ false
any-due m p [] h = refl
any-due m p (z ∷ zs) h = ground (arith, any-due m p zs)

apart :
    (m : Text) (zs : List Scored)
    → any (text_eq m) (names zs) ≡ false
    → All (λ z. text_eq z.member m ≡ false) zs
apart m [] h = tt
apart m (z ∷ zs) h =
    (ground (arith, text_eq_iff z.member m, text_eq_iff m z.member), apart m zs (ground arith))

due_names :
    (p : Scored → Bool) (zs : List Scored)
    → IsDistinct (names zs)
    → All (λ z. any (text_eq z.member) (names (filter p zs)) ≡ p z) zs
due_names p [] distinct = tt
due_names p (z ∷ zs) (fresh, distinct) = (
  elim (Bool-cases (p z)) [
    | inl e ↦ rw (e, text_eq_refl z.member) refl
    | inr e ↦ rw e (any-due z.member p zs fresh)
  ],
  All-imp
      (λ y.
        (any (text_eq y.member) (names (filter p zs)) ≡ p y) × (text_eq y.member z.member ≡ false))
      (λ y. any (text_eq y.member) (names (filter p (z ∷ zs))) ≡ p y)
      (λ y (same, other). ground (arith, same, other)) zs
      (All-zip _ _ zs (due_names p zs distinct) (apart z.member zs fresh)),
)

without-filter :
    (m : Text) (q : Scored → Bool) (zs : List Scored)
    → filter q (without m zs) ≡ filter (λ z. not (text_eq z.member m) && q z) zs
without-filter m q [] = refl
without-filter m q (z ∷ zs) = ground (arith, without-filter m q zs)

filter-same :
    (p q : Scored → Bool) (zs : List Scored) → All (λ z. p z ≡ q z) zs → filter p zs ≡ filter q zs
filter-same p q [] h = refl
filter-same p q (z ∷ zs) (same, h) = rw (same, filter-same p q zs h) refl

filter_ext :
    (p q : Scored → Bool) (zs : List Scored)
    → ((z : Scored) → p z ≡ q z)
    → filter p zs ≡ filter q zs
filter_ext p q [] h = refl
filter_ext p q (z ∷ zs) h = rw (h z, filter_ext p q zs h) refl

filter_all : (zs : List Scored) → zs ≡ filter (λ z. true) zs
filter_all [] = refl
filter_all (z ∷ zs) = ap (λ ys. z ∷ ys) (filter_all zs)

without_all-filter :
    (ms : List Text) (zs : List Scored)
    → without_all ms zs ≡ filter (λ z. not (any (text_eq z.member) ms)) zs
unfolding without_all
without_all-filter [] zs = filter_all zs
without_all-filter (m ∷ ms) zs =
    without_all-filter ms (without m zs)
    ∙ without-filter m (λ z. not (any (text_eq z.member) ms)) zs
    ∙ filter_ext _ _ zs (λ z. ground arith)

pub IsDistinct-due :
    (p : Scored → Bool) (zs : List Scored)
    → IsDistinct (names zs)
    → IsDistinct (names (filter p zs))
IsDistinct-due p [] distinct = tt
IsDistinct-due p (z ∷ zs) (fresh, distinct) = elim (Bool-cases (p z)) [
  | inl e ↦ rw e (any-due z.member p zs fresh, IsDistinct-due p zs distinct)
  | inr e ↦ rw e (IsDistinct-due p zs distinct)
]

due_present :
    (p : Scored → Bool) (zs : List Scored) → All (λ m. has_member m zs ≡ true) (names (filter p zs))
due_present p [] = tt
due_present p (z ∷ zs) =
    let later =
      All-imp (λ m. has_member m zs ≡ true) (λ m. has_member m (z ∷ zs) ≡ true)
        (λ m h. ground arith) (names (filter p zs)) (due_present p zs) in
    elim (Bool-cases (p z)) [
      | inl e ↦ rw (e, text_eq_refl z.member) (refl, later)
      | inr e ↦ rw e later
    ]

IsAscending-due :
    (p : Scored → Bool) (zs : List Scored) → IsAscending zs → IsAscending (filter p zs)
IsAscending-due p [] ascending = tt
IsAscending-due p (z ∷ zs) (least, ascending) = elim (Bool-cases (p z)) [
  | inl e ↦ rw e (All-filter _ p zs least, IsAscending-due p zs ascending)
  | inr e ↦ rw e (IsAscending-due p zs ascending)
]

length-names : (zs : List Scored) → length (names zs) ≡ length zs
length-names [] = refl
length-names (z ∷ zs) = ap suc (length-names zs)

module _ (r : Redis) (laws : RedisLaws r) (c : Codec) where
  open r use {State, rpush, entries, zrem, members}

  abbrev pub write : Text → Text
  write m = c.dumps (job task_type m)

  promote_all-moves :
      (ms : List Text) (s : r.State) (n : ℕ)
      → IsDistinct ms
      → All (λ m. has_member m (r.members delayed_key s) ≡ true) ms
      → let (s', moved) = promote_all r c ms (s, n) in
        (moved ≡ n + length ms)
        × (r.entries queue_key s' ≡ r.entries queue_key s ++ map write ms)
        × (r.members delayed_key s' ≡ without_all ms (r.members delayed_key s))
  unfolding promote_all promote_member without_all
  promote_all-moves [] s n distinct here = (omega arith, sym (append-nil _), refl)
  promote_all-moves (m ∷ ms) s n (fresh, distinct) (here, later) =
      let after = rpush queue_key (write m) (zrem delayed_key m s).1 in
      let removed : (zrem delayed_key m s).0 ≡ 1 =
        rw (laws.zrem-count delayed_key m s, here) refl in
      let shorter : members delayed_key after ≡ without m (members delayed_key s) =
        laws.members-rpush queue_key delayed_key (write m) (zrem delayed_key m s).1
        ∙ laws.members-zrem delayed_key delayed_key m s
        ∙ rw (text_eq_refl delayed_key) refl in
      let longer : entries queue_key after ≡ entries queue_key s ++ write m ∷ [] =
        laws.entries-rpush queue_key queue_key (write m) (zrem delayed_key m s).1
        ∙ rw (text_eq_refl queue_key, laws.entries-zrem delayed_key queue_key m s) refl in
      let (count_rest, queue_rest, delayed_rest) =
        promote_all-moves ms after (n + 1) distinct
          (rw shorter (All-without m ms (members delayed_key s) fresh later)) in
      let moves : promote_member r c m (s, n) ≡ (after, n + 1) = rw removed refl in
      rw (moves, promote_all)
        (
          omega (arith, count_rest),
          queue_rest ∙ rw longer (append_assoc (entries queue_key s) (write m ∷ []) (map write ms)),
          delayed_rest ∙ ap (without_all ms) shorter,
        )

  pub promote_due-queues :
      (now : ℕ) (s : r.State)
      → IsDistinct (names (r.members delayed_key s))
      → let due = filter (is_due now) (r.members delayed_key s) in
        let (s', moved) = promote_due r c now s in
        (moved ≡ length due)
        × (r.entries queue_key s' ≡ r.entries queue_key s ++ map write (names due))
        × (r.members delayed_key s' ≡ filter (λ z. not (is_due now z)) (r.members delayed_key s))
  unfolding promote_due
  promote_due-queues now s distinct =
      let zs = members delayed_key s in
      let due = filter (is_due now) zs in
      let (counted, queued, left) =
        promote_all-moves (names due) s 0 (IsDistinct-due (is_due now) zs distinct)
          (due_present (is_due now) zs) in
      let kept : without_all (names due) zs ≡ filter (λ z. not (is_due now z)) zs =
        without_all-filter (names due) zs
        ∙ filter-same _ _ zs (
            All-imp (λ z. any (text_eq z.member) (names due) ≡ is_due now z)
              (λ z. not (any (text_eq z.member) (names due)) ≡ not (is_due now z)) (λ z h. ap not h)
              zs (due_names (is_due now) zs distinct)) in
      rw (laws.zrangebyscore_due delayed_key now s, promote_due)
        (omega (arith, counted, length-names due), queued, left ∙ kept)

  -- With a Redis as documented, and distinct members in ascending order of their scores in the
  -- delayed queue, promote_due counts and moves exactly the due ones: one job for each onto the
  -- main queue, in ascending order of the scores; exactly the members that are not due are left.
  pub promote_due-moves :
      (now : ℕ) (s : r.State)
      → IsDistinct (names (r.members delayed_key s))
      → IsAscending (r.members delayed_key s)
      → let due = filter (is_due now) (r.members delayed_key s) in
        let (s', moved) = promote_due r c now s in
        (moved ≡ length due)
        × (r.entries queue_key s' ≡ r.entries queue_key s ++ map write (names due))
        × (r.members delayed_key s' ≡ filter (λ z. not (is_due now z)) (r.members delayed_key s))
        × IsAscending due
  promote_due-moves now s distinct ascending =
      let (counted, queued, left) = promote_due-queues now s distinct in
      (counted, queued, left, IsAscending-due (is_due now) (members delayed_key s) ascending)
