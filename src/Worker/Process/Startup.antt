-- ===== src/Worker/Process/Startup.antt =====
-- The start-up wait of the worker (backend/app/worker.py): when it ends, and how.
use agentic_execution.Prelude.{
  ℕ, zero, suc, ◌+◌, ◌≤◌, ◌<◌, ◌≡◌, refl, ◌⊎◌, inl, inr, Bool, true, false, none, some, List, [],
  ◌∷◌, arith, Bool-cases, Option-cases, any,
}
use agentic_execution.Llm.{Outcome, returned, raised}
use agentic_execution.Worker.Process.{wait_for, wait_for_dependencies, schema_after}

-- The numbers of so many attempts.
abbrev pub attempts : ℕ → ℕ → List ℕ
attempts first zero = []
attempts first (suc left) = first ∷ attempts (first + 1) left

wait_for-some :
    (answers : ℕ → Bool) (first left k : ℕ)
    → wait_for answers first left ≡ some k
    → (first ≤ k) × (k < first + left) × (answers k ≡ true)
unfolding wait_for
wait_for-some answers first zero k h = cc
wait_for-some answers first (suc left) k h = elim (Bool-cases (answers first)) [
  | inl up ↦
      let same : some first ≡ some k = rw up at h in
      (ground (arith, same), ground (arith, same), ground (arith, same, up))
  | inr down ↦
      let rest = wait_for-some answers (first + 1) left k (rw down at h) in
      (omega (arith, rest.0), omega (arith, rest.1), rest.2)
]

wait_for-none :
    (answers : ℕ → Bool) (first left : ℕ)
    → wait_for answers first left ≡ none
    → any answers (attempts first left) ≡ false
unfolding wait_for
wait_for-none answers first zero h = refl
wait_for-none answers first (suc left) h = elim (Bool-cases (answers first)) [
  | inl up ↦ ground arith
  | inr down ↦ rw down (wait_for-none answers (first + 1) left (rw down at h))
]

-- What the wait comes to, by the answers of Redis and of the schema.
abbrev pub Started : (ℕ → Bool) → (ℕ → Bool) → ℕ → Outcome ℕ → Type 0
Started redis_up schema_ready n (returned last) =
    (1 ≤ last) × (last ≤ n) × (schema_ready last ≡ true) × (any redis_up (attempts 1 n) ≡ true)
Started redis_up schema_ready n (raised e) =
    (any redis_up (attempts 1 n) ≡ false) ⊎ (any schema_ready (attempts 1 n) ≡ false)

any-attempts :
    (answers : ℕ → Bool) (first left k : ℕ)
    → wait_for answers first left ≡ some k
    → any answers (attempts first left) ≡ true
unfolding wait_for
any-attempts answers first zero k h = cc
any-attempts answers first (suc left) k h = elim (Bool-cases (answers first)) [
  | inl up ↦ rw up refl
  | inr down ↦ rw down (any-attempts answers (first + 1) left k (rw down at h))
]

-- The wait for the dependencies ends after at most the given attempts at each: it returns only
-- after Redis has answered and at an attempt at which the schema was ready, and it raises only if
-- no attempt found Redis, or none the schema.
pub wait_for_dependencies-Started :
    (redis_up schema_ready : ℕ → Bool) (n : ℕ)
    → Started redis_up schema_ready n (wait_for_dependencies redis_up schema_ready n)
unfolding wait_for_dependencies
wait_for_dependencies-Started redis_up schema_ready n =
    elim (Option-cases (wait_for redis_up 1 n)) [
      | inl e ↦ rw (e, wait_for_dependencies) (inl (wait_for-none redis_up 1 n e))
      | inr (first, e) ↦ elim (Option-cases (wait_for schema_ready 1 n)) [
        | inl f ↦
            rw (e, wait_for_dependencies)
              (rw (f, schema_after) (inr (wait_for-none schema_ready 1 n f)))
        | inr (last, f) ↦
            let found = wait_for-some schema_ready 1 n last f in
            rw (e, wait_for_dependencies)
              (rw (f, schema_after)
                (found.0, omega (arith, found.1), found.2, any-attempts redis_up 1 n first e))
      ]
    ]
