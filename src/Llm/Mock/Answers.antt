-- ===== src/Llm/Mock/Answers.antt =====
-- The texts of the mock provider (backend/app/llm/mock.py), and its estimate of tokens.
use agentic_execution.Prelude.{
  ℕ, ◌-◌, ◌/◌, max, Bool, Option, none, some, [], ◌∷◌, ◌++◌, leb, ◌==◌, if◌then◌else◌, length, take,
  drop, find, Text, codes, strip, rstrip, collapse, starts_with, contains, split_lines, lower,
}
use agentic_execution.Json.{Json, str, obj, arr, field, end, nil, cons}

-- `_estimate_tokens`
pub estimate_tokens : Text → ℕ
estimate_tokens text = max 1 (length text / 4)

-- `_clip`
unfoldable pub clip : Text → ℕ → Text
clip s limit =
    let words = collapse s in
    if leb (length words) limit then words else rstrip (take (limit - 1) words) ++ 8230 ∷ []

-- `"""`
abbrev quotes : Text
quotes = 34 ∷ 34 ∷ 34 ∷ []

-- The text before the first `"""`, and the text after it.
unfoldable pub before_quotes : Text → Option Text
before_quotes [] = none
before_quotes (c ∷ s) =
    let rest = before_quotes s in
    if starts_with quotes (c ∷ s)
    then some []
    else elim rest [ none ↦ none | some t ↦ some (c ∷ t) ]

unfoldable pub after_quotes : Text → Option Text
after_quotes [] = none
after_quotes (c ∷ s) =
    let rest = after_quotes s in if starts_with quotes (c ∷ s) then some (drop 3 (c ∷ s)) else rest

-- `re.compile(r'"""(.*?)"""', re.DOTALL).search(prompt)`, the group.
unfoldable pub quoted_request : Option Text → Option Text
unfolding before_quotes
quoted_request none = none
quoted_request (some s) = before_quotes s

-- `_extract_request`
unfoldable pub extract_request : Text → Text
unfolding after_quotes quoted_request
extract_request prompt = elim (quoted_request (after_quotes prompt)) [
  | some request ↦ strip request
  | none ↦ strip prompt
]

-- `line.split(":", 1)[1]`, of a line that has a colon.
after_colon : Text → Text
after_colon [] = []
after_colon (c ∷ s) = let rest = after_colon s in if c == 58 then s else rest

abbrev is_task_line : Text → Bool
is_task_line line = starts_with (codes "task:") (lower (strip line))

-- `_task_line`
pub task_line : Text → Text
unfolding after_colon
task_line prompt = elim (find is_task_line (split_lines prompt)) [
  | some line ↦ clip (after_colon line) 200
  | none ↦ clip prompt 200
]

abbrev subtask : Text → Text → Json
subtask agent_type description = obj (
    field (codes "agent_type") (str agent_type) (field (codes "description") (str description) end))

-- The list that `_plan` writes.
unfoldable pub plan_value : Text → Json
unfolding extract_request
plan_value prompt =
    let request = clip (extract_request prompt) 200 in
    arr (
      cons
        (subtask (codes "research")
          (codes "Gather relevant background information, facts and sources about: " ++ request))
        (cons
          (subtask (codes "analysis") (
            codes "Analyze the gathered information and identify the key insights, "
            ++ (codes "patterns and trade-offs for: " ++ request)))
          (cons
            (subtask (codes "summarization") (
              codes "Synthesize the research and analysis into a clear, "
              ++ (codes "well-structured final answer for: " ++ request)))
            nil)))

abbrev quoted : Text → Text
quoted task = 8220 ∷ task ++ 8221 ∷ 58 ∷ 10 ∷ []

-- Lines, each ended by a line feed.
abbrev line : Text → Text → Text
line s rest = s ++ 10 ∷ rest

research : Text → Text
research prompt =
    codes "[mock:research] Findings for "
    ++ (quoted (task_line prompt)
        ++ line (codes "1. Established a working definition and the main entities involved.") (
            line (codes "2. Collected representative facts, figures and example sources.") (
              line (codes "3. Noted two competing perspectives worth analyzing further.") (
                line [] (
                  codes "(Simulated output from the mock LLM provider. Configure LLM_PROVIDER "
                  ++ codes "and an API key for real model responses.)")))))

analysis : Text → Text
analysis prompt =
    codes "[mock:analysis] Analysis of "
    ++ (quoted (task_line prompt)
        ++ line (codes "- Key insight: the strongest signal points to a clear, actionable pattern.")
            (line (codes "- Trade-off: short-term cost versus long-term benefit.") (
              line (codes "- Risk: results are sensitive to the quality of the input data.")
                (line [] (codes "(Simulated output from the mock LLM provider.)")))))

summarize : Text → Text
summarize prompt =
    codes "[mock:summary] Final answer for "
    ++ (quoted (task_line prompt)
        ++ line
            (codes "Based on the research and analysis, the recommended conclusion balances "
              ++ (codes
                    "the identified trade-offs and highlights the most important insight as the "
                  ++ codes "primary driver of the decision."))
            (line [] (codes "(Simulated output from the mock LLM provider.)")))

generic : Text → Text
generic prompt = codes "[mock] " ++ clip prompt 240

-- The branches of `complete`, by the system prompt in lower case.
unfoldable pub answer_text : (Json → Text) → Text → Text → Text
unfolding plan_value research analysis summarize generic
answer_text dumps_indented system_l prompt =
    if contains (codes "planning assistant") system_l
    then dumps_indented (plan_value prompt)
    else if contains (codes "research agent") system_l
    then research prompt
    else if contains (codes "analysis agent") system_l
    then analysis prompt
    else if contains (codes "summarization agent") system_l
    then summarize prompt
    else generic prompt
