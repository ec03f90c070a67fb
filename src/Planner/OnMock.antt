-- ===== src/Planner/OnMock.antt =====
-- The planner on the mock provider (backend/app/llm/mock.py): what the mock writes is what the
-- planner reads.
use agentic_execution.Prelude.{
  ℕ, zero, suc, ◌-◌, ◌≤◌, ◌≡◌, refl, ap, ◌∙◌, inl, inr, Bool, true, false, not, ◌||◌, some, List,
  [], ◌∷◌, ◌++◌, reverse, arith, leb, ◌==◌, if◌then◌else◌, Bool-cases, length, take, any, null,
  Text, codes, text_eq, is_space, lstrip, strip, rstrip, collapse, starts_with, contains, lower, ℤ,
  pos,
}
use mathlib.Core.List.{reverse_aux}
use agentic_execution.Enums.{AgentType, agent_type_value, from_value-value}
use agentic_execution.Json.{Json, Codec, str, obj, field, end, nil, cons, get_field}
use agentic_execution.Llm.{returned, LlmProvider}
use agentic_execution.Llm.Mock.{mock_provider, complete}
use agentic_execution.Llm.Mock.Expressions.{Digits}
use agentic_execution.Llm.Mock.Answers.{
  clip, plan_value, extract_request, before_quotes, after_quotes, quoted_request, answer_text,
  estimate_tokens,
}
use agentic_execution.Planner.{
  PlannedSubtask, Planner, system_prompt, user_prompt, parse, parse_items, parse_item, load_json,
  assign, assign_from, assign_dependencies, finish_plan, after_response, plan, agent_type_of,
  range_from,
}

abbrev has_ink : Text → Bool
has_ink s = any (λ ch. not (is_space ch)) s

has_ink-reverse_aux : (s acc : Text) → has_ink (reverse_aux s acc) ≡ (has_ink s || has_ink acc)
has_ink-reverse_aux [] acc = refl
has_ink-reverse_aux (ch ∷ s) acc = ground (arith, has_ink-reverse_aux s (ch ∷ acc))

has_ink-lstrip : (s : Text) → has_ink (lstrip s) ≡ has_ink s
unfolding lstrip
has_ink-lstrip [] = refl
has_ink-lstrip (ch ∷ s) = elim (Bool-cases (is_space ch)) [
  | inl e ↦ rw e (has_ink-lstrip s)
  | inr e ↦ ground arith
]

null-has_ink : (s : Text) → has_ink s ≡ true → null s ≡ false
null-has_ink [] ink = cc
null-has_ink (ch ∷ s) ink = refl

null-strip : (s : Text) → has_ink s ≡ true → null (strip s) ≡ false
unfolding strip
null-strip s ink =
    let front = lstrip s in
    let first = has_ink-reverse_aux front [] in
    let second = has_ink-lstrip (reverse front) in
    let third = has_ink-reverse_aux (lstrip (reverse front)) [] in
    null-has_ink (strip s) (ground (arith, first, second, third, has_ink-lstrip s))

load_json-loads :
    (c : Codec) (text : Text) (value : Json)
    → null text ≡ false
    → c.loads text ≡ some value
    → load_json c text ≡ some value
unfolding load_json
load_json-loads c [] value ne_nil read = cc
load_json-loads c (ch ∷ text) value ne_nil read = rw (read, load_json) refl

abbrev item : AgentType → Text → Json
item kind description = obj (
    field (codes "agent_type") (str (agent_type_value kind))
      (field (codes "description") (str description) end))

parse_items-three :
    (c : Codec) (i j k : Json) (x y z : PlannedSubtask)
    → parse_item c i ≡ some x
    → parse_item c j ≡ some y
    → parse_item c k ≡ some z
    → parse_items c (cons i (cons j (cons k nil))) ≡ x ∷ y ∷ z ∷ []
unfolding parse_items
parse_items-three c i j k x y z e f g = rw (e, f, g) refl

take-nil : {A : Type 0} (n : ℕ) → take {A = A} n [] ≡ []
take-nil zero = refl
take-nil (suc n) = refl

before_quotes-plain :
    (s rest : Text)
    → any (λ ch. ch == 34) s ≡ false
    → before_quotes (s ++ (34 ∷ 34 ∷ 34 ∷ rest)) ≡ some s
unfolding before_quotes starts_with
before_quotes-plain [] rest plain = refl
before_quotes-plain (ch ∷ s) rest plain =
    let other : (34 == ch) ≡ false = ground arith in
    rw (other, before_quotes-plain s rest (ground arith)) refl

module _ (c : Codec) (dumps_indented : Json → Text) (digits : Digits) (model : Text)
    (planner : Planner) (user_request : Text) where
  abbrev mock : LlmProvider
  mock = mock_provider dumps_indented digits model

  abbrev pub written : Json
  written = plan_value (user_prompt c mock planner user_request)

  -- The request that the mock provider finds in the prompt.
  abbrev request : Text
  request = clip (extract_request (user_prompt c mock planner user_request)) 200

  abbrev research_about : Text → Text
  research_about about =
      codes "Gather relevant background information, facts and sources about: " ++ about

  abbrev analysis_about : Text → Text
  analysis_about about =
      codes "Analyze the gathered information and identify the key insights, "
      ++ (codes "patterns and trade-offs for: " ++ about)

  abbrev summary_about : Text → Text
  summary_about about =
      codes "Synthesize the research and analysis into a clear, "
      ++ (codes "well-structured final answer for: " ++ about)

  abbrev planned_as : AgentType → Text → List ℤ → PlannedSubtask
  planned_as kind description depends_on = record {
    agent_type = kind;
    description = strip description;
    depends_on = depends_on;
  }

  abbrev pub three_subtasks : Text → List ℤ → List PlannedSubtask
  three_subtasks about last_depends_on =
      planned_as AgentType.research (research_about about) []
      ∷ planned_as AgentType.analysis (analysis_about about) []
      ∷ planned_as AgentType.summarization (summary_about about) last_depends_on
      ∷ []

  -- The words of the request, with an ellipsis where they are longer than 200.
  abbrev pub shortened : Text
  shortened =
      let words = collapse (strip user_request) in
      if leb (length words) 200 then words else rstrip (take 199 words) ++ 8230 ∷ []

  abbrev ending : Text
  ending = 10 ∷ 10 ∷ codes "Return the JSON array of subtasks now."

  after_quotes-prompt :
      after_quotes (user_prompt c mock planner user_request)
      ≡ some (user_request ++ (34 ∷ 34 ∷ 34 ∷ ending))
  unfolding after_quotes starts_with user_prompt
  after_quotes-prompt = refl

  extract_request-prompt :
      any (λ ch. ch == 34) user_request ≡ false
      → extract_request (user_prompt c mock planner user_request) ≡ strip user_request
  unfolding extract_request quoted_request
  extract_request-prompt plain =
      rw (extract_request, after_quotes-prompt, before_quotes-plain user_request ending plain) refl

  request-shortened : any (λ ch. ch == 34) user_request ≡ false → request ≡ shortened
  unfolding clip
  request-shortened plain = rw (extract_request-prompt plain) refl

  is_planning_prompt :
      contains (codes "planning assistant") (lower (system_prompt c mock planner)) ≡ true
  unfolding system_prompt contains starts_with lower
  is_planning_prompt = refl

  complete-mock :
      (t : Text)
      → mock.complete t (system_prompt c mock planner)
        ≡ returned (record {
          text = dumps_indented (plan_value t);
          model = model;
          prompt_tokens = some (estimate_tokens (system_prompt c mock planner ++ t));
          completion_tokens = some (estimate_tokens (dumps_indented (plan_value t)));
          tool_calls = [];
        })
  unfolding mock_provider complete answer_text
  complete-mock t = rw is_planning_prompt refl

  module _ (text : Text) (ne_nil : null text ≡ false) (read : c.loads text ≡ some written)
      (plain : (s : Text) → c.to_str (str s) ≡ s) where
    load-written : load_json c text ≡ some written
    load-written = load_json-loads c text written ne_nil read

    parse_item-written :
        (kind : AgentType) (description : Text)
        → has_ink description ≡ true
        → parse_item c (item kind description) ≡ some (planned_as kind description [])
    unfolding parse_item get_field agent_type_of text_eq
    parse_item-written kind description ink =
        rw
          (
            plain description,
            plain (agent_type_value kind),
            null-strip description ink,
            from_value-value kind,
          )
          refl

    parse-written : parse c text ≡ three_subtasks request []
    unfolding parse plan_value is_space
    parse-written = rw load-written (
        parse_items-three c (item AgentType.research (research_about request))
          (item AgentType.analysis (analysis_about request))
          (item AgentType.summarization (summary_about request))
          (planned_as AgentType.research (research_about request) [])
          (planned_as AgentType.analysis (analysis_about request) [])
          (planned_as AgentType.summarization (summary_about request) [])
          (parse_item-written AgentType.research (research_about request) refl)
          (parse_item-written AgentType.analysis (analysis_about request) refl)
          (parse_item-written AgentType.summarization (summary_about request) refl))

  plan_on_mock :
      null (dumps_indented written) ≡ false
      → c.loads (dumps_indented written) ≡ some written
      → ((s : Text) → c.to_str (str s) ≡ s)
      → 3 ≤ planner.max_tasks
      → plan c mock planner user_request ≡ returned (three_subtasks request (pos 0 ∷ pos 1 ∷ []))
  unfolding plan after_response finish_plan assign_dependencies assign_from assign mock_provider
      range_from
  plan_on_mock ne_nil read plain room =
      let enough : planner.max_tasks ≡ suc (suc (suc (planner.max_tasks - 3))) = omega arith in
      rw
        (
          complete-mock (user_prompt c mock planner user_request),
          parse-written (dumps_indented written) ne_nil read plain,
          enough,
          take-nil (planner.max_tasks - 3),
        )
        refl

  -- For a request without a quotation mark, with json.loads reading back what json.dumps wrote, a
  -- text that is not empty, str of a string being the string itself, and three tasks allowed at
  -- least, the plan on the mock provider is research, analysis and summarization of the words of
  -- the request, shortened to 200 characters, where the last depends on the two others.
  pub plan-mock :
      any (λ ch. ch == 34) user_request ≡ false
      → null (dumps_indented written) ≡ false
      → c.loads (dumps_indented written) ≡ some written
      → ((s : Text) → c.to_str (str s) ≡ s)
      → 3 ≤ planner.max_tasks
      → plan c mock planner user_request ≡ returned (three_subtasks shortened (pos 0 ∷ pos 1 ∷ []))
  plan-mock quoteless ne_nil read plain room =
      plan_on_mock ne_nil read plain room
      ∙ ap (λ about. returned (three_subtasks about (pos 0 ∷ pos 1 ∷ [])))
          (request-shortened quoteless)
