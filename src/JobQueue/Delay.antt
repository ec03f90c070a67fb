-- ===== src/JobQueue/Delay.antt =====
-- How long a task waits in the delayed queue: from schedule_task to promote_due
-- (backend/app/jobqueue.py).
use agentic_execution.Prelude.{
  ℕ, ◌≡◌, refl, ◌∙◌, inl, inr, Bool, false, not, List, [], ◌∷◌, ◌++◌, map, arith, ltb, leb,
  Bool-cases, any, filter, Text, text_eq, text_eq_refl, text_eq_iff,
}
use agentic_execution.Json.{Codec}
use agentic_execution.Redis.{Redis, RedisLaws, Scored, without, before, insert_scored}
use agentic_execution.JobQueue.{queue_key, delayed_key, task_type, job, schedule_task, promote_due}
use agentic_execution.JobQueue.Promotion.{
  IsDistinct, names, is_due, IsDistinct-due, any-due, promote_due-queues,
}

any-insert :
    (k : Text) (z : Scored) (zs : List Scored)
    → text_eq k z.member ≡ false
    → any (text_eq k) (names zs) ≡ false
    → any (text_eq k) (names (insert_scored z zs)) ≡ false
any-insert k z [] other h = ground arith
any-insert k z (y ∷ ys) other h = elim (Bool-cases (before y z)) [
  | inl e ↦ rw e (ground (arith, any-insert k z ys other))
  | inr e ↦ rw e (ground arith)
]

IsDistinct-insert :
    (z : Scored) (zs : List Scored)
    → any (text_eq z.member) (names zs) ≡ false
    → IsDistinct (names zs)
    → IsDistinct (names (insert_scored z zs))
IsDistinct-insert z [] fresh distinct = (refl, tt)
IsDistinct-insert z (y ∷ ys) fresh (apart, distinct) = elim (Bool-cases (before y z)) [
  | inl e ↦ rw e (
    any-insert y.member z ys
        (ground (arith, text_eq_iff y.member z.member, text_eq_iff z.member y.member)) apart,
    IsDistinct-insert z ys (ground arith) distinct,
  )
  | inr e ↦ rw e (fresh, (apart, distinct))
]

any-without : (m : Text) (zs : List Scored) → any (text_eq m) (names (without m zs)) ≡ false
any-without m [] = refl
any-without m (z ∷ zs) =
    ground (arith, any-without m zs, text_eq_iff m z.member, text_eq_iff z.member m)

-- Of the members that pass a test, the one that was put in is one if it passes.
any-insert_passes :
    (p : Scored → Bool) (z : Scored) (zs : List Scored)
    → any (text_eq z.member) (names zs) ≡ false
    → any (text_eq z.member) (names (filter p (insert_scored z zs))) ≡ p z
any-insert_passes p z [] fresh = ground (arith, text_eq_refl z.member)
any-insert_passes p z (y ∷ ys) fresh = elim (Bool-cases (before y z)) [
  | inl e ↦ rw e (ground (arith, any-insert_passes p z ys))
  | inr e ↦ rw e (ground (arith, text_eq_refl z.member, any-due z.member p (y ∷ ys) fresh))
]

module _ (r : Redis) (laws : RedisLaws r) (c : Codec) where
  -- What a task that is scheduled for a time finds when the promoter runs at another.
  abbrev pub Waits : ℕ → ℕ → ℕ → r.State → r.State → Type 0
  Waits task_id run_at now before_it after_it =
      (any (text_eq (c.uuid_str task_id)) (names (r.members delayed_key after_it)) ≡ ltb now run_at)
      × ((ids : List Text) × (r.entries queue_key after_it
            ≡ r.entries queue_key before_it ++ map (λ m. c.dumps (job task_type m)) ids)
          × (any (text_eq (c.uuid_str task_id)) ids ≡ leb run_at now))

  pub schedule_task-Waits :
      (task_id run_at now : ℕ) (s : r.State)
      → IsDistinct (names (r.members delayed_key s))
      → Waits task_id run_at now s (promote_due r c now (schedule_task r c task_id run_at s)).0
  unfolding schedule_task
  schedule_task-Waits task_id run_at now s distinct =
      let id = c.uuid_str task_id in
      let z : Scored = record { member = id; score = run_at } in
      let old = without id (r.members delayed_key s) in
      let scheduled = r.zadd delayed_key id run_at s in
      let set : r.members delayed_key scheduled ≡ insert_scored z old =
        rw (laws.members-zadd, text_eq_refl) refl in
      let fresh = any-without id (r.members delayed_key s) in
      let still =
        IsDistinct-insert z old fresh (IsDistinct-due _ (r.members delayed_key s) distinct) in
      let (counted, queued, left) = promote_due-queues r laws c now scheduled (rw set still) in
      (
        rw (left, set) (any-insert_passes (λ y. not (is_due now y)) z old fresh ∙ ground arith),
        (
          names (filter (is_due now) (r.members delayed_key scheduled)),
          queued ∙ rw (laws.entries-zadd) refl,
          rw set (any-insert_passes (is_due now) z old fresh),
        ),
      )
