-- ===== src/Planner/Dependencies.antt =====
-- The plans that `Planner.plan` returns: how many tasks, and what they depend on.
use agentic_execution.Prelude.{
  ℕ, zero, suc, ◌+◌, ◌≤◌, ◌<◌, ◌≡◌, refl, ap, subst, inl, inr, true, List, [], ◌∷◌, arith,
  if◌then◌else◌, Bool-cases, length, null, All, length-take, filter-holds, Text,
}
use agentic_execution.Json.{Codec}
use agentic_execution.Llm.{Outcome, returned, raised, LlmProvider, LlmResponse}
use agentic_execution.Planner.{
  PlannedSubtask, fallback, range_from, earlier, is_summarization, assign, assign_from,
  assign_dependencies, Planner, new_planner, finish_plan, after_response, parse, plan,
}

-- The item at each position satisfies the predicate at that position.
abbrev pub AllFrom {ℓ κ} : {A : Type ℓ} → (ℕ → A → Type κ) → ℕ → List A → Type κ
AllFrom P i [] = Unit
AllFrom P i (x ∷ xs) = P i x × AllFrom P (i + 1) xs

-- Every dependency names an earlier position of the plan.
abbrev pub DependsEarlier : ℕ → PlannedSubtask → Type 0
DependsEarlier i s = All (λ d. earlier i d ≡ true) s.depends_on

range_from-earlier :
    (start n index : ℕ) → start + n ≤ index → All (λ d. earlier index d ≡ true) (range_from start n)
unfolding range_from
range_from-earlier start zero index h = tt
range_from-earlier start (suc n) index h =
    (ground arith, range_from-earlier (start + 1) n index (omega arith))

assign-DependsEarlier : (index : ℕ) (s : PlannedSubtask) → DependsEarlier index (assign index s)
unfolding assign
assign-DependsEarlier index s = elim (Bool-cases (null s.depends_on)) [
  | inl e ↦ rw e (elim (Bool-cases (is_summarization s.agent_type)) [
    | inl joins ↦ rw joins (range_from-earlier 0 index index (omega arith))
    | inr alone ↦ rw alone tt
  ])
  | inr e ↦ rw e (filter-holds (earlier index) s.depends_on)
]

assign_from-DependsEarlier :
    (index : ℕ) (ss : List PlannedSubtask) → AllFrom DependsEarlier index (assign_from index ss)
unfolding assign_from
assign_from-DependsEarlier index [] = tt
assign_from-DependsEarlier index (s ∷ ss) =
    (assign-DependsEarlier index s, assign_from-DependsEarlier (index + 1) ss)

length-assign_from :
    (index : ℕ) (ss : List PlannedSubtask) → length (assign_from index ss) ≡ length ss
unfolding assign_from
length-assign_from index [] = refl
length-assign_from index (s ∷ ss) = ap suc (length-assign_from (index + 1) ss)

module _ (c : Codec) (llm : LlmProvider) (min_tasks max_tasks : ℕ) (user_request : Text) where
  abbrev planner : Planner
  planner = new_planner min_tasks max_tasks

  chosen-ne_nil :
      (subtasks : List PlannedSubtask)
      → 0 < length (if null subtasks then fallback user_request else subtasks)
  unfolding fallback
  chosen-ne_nil [] = omega arith
  chosen-ne_nil (s ∷ ss) = omega arith

  finish_plan_bounds :
      (response : LlmResponse)
      → let subtasks = finish_plan c llm planner user_request response in
        (0 < length subtasks) × (length subtasks ≤ planner.max_tasks)
  unfolding finish_plan assign_dependencies new_planner
  finish_plan_bounds response =
      let chosen = chosen-ne_nil (parse c response.text) in
      rw (length-assign_from, length-take) (omega arith, omega arith)

  abbrev IsShaped : List PlannedSubtask → Type 0
  IsShaped subtasks =
      (0 < length subtasks)
      × (length subtasks ≤ planner.max_tasks)
      × AllFrom DependsEarlier 0 subtasks

  finish_plan-IsShaped :
      (response : LlmResponse) → IsShaped (finish_plan c llm planner user_request response)
  unfolding finish_plan assign_dependencies
  finish_plan-IsShaped response =
      let (some_task, bounded) = finish_plan_bounds response in
      (some_task, bounded, assign_from-DependsEarlier 0 _)

  after_response-IsShaped :
      (answer : Outcome LlmResponse) (subtasks : List PlannedSubtask)
      → after_response c llm planner user_request answer ≡ returned subtasks
      → IsShaped subtasks
  unfolding after_response
  after_response-IsShaped (raised e) subtasks h = cc
  after_response-IsShaped (returned response) subtasks h =
      subst IsShaped (cc) (finish_plan-IsShaped response)

  -- Whatever the LLM answers, a plan that is returned has between one task and the configured
  -- maximum, and each task depends on earlier tasks only.
  pub plan_shape :
      (subtasks : List PlannedSubtask)
      → plan c llm planner user_request ≡ returned subtasks
      → (0 < length subtasks)
        × (length subtasks ≤ planner.max_tasks)
        × AllFrom DependsEarlier 0 subtasks
  unfolding plan
  plan_shape subtasks e = after_response-IsShaped _ subtasks e
