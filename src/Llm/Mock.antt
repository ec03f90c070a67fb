-- ===== src/Llm/Mock.antt =====
-- backend/app/llm/mock.py: the provider with canned answers, but for the texts of its answers to a
-- single prompt, which are in the child module. `json.dumps(value, indent=2)` is a parameter, and
-- so are the two tables of digits, those of `\d` and of `str.isdigit`.
pub mod Expressions
pub mod Answers
use agentic_execution.Prelude.{
  ◌-◌, Bool, not, ◌&&◌, Option, none, some, List, [], ◌∷◌, ◌++◌, map, if◌then◌else◌, any, Text,
  codes, text_eq, contains, lower, join,
}
use agentic_execution.Json.{Json, str, obj, arr, field, end, nil, cons}
use agentic_execution.Llm.{
  Outcome, returned, raised, ToolCall, LlmResponse, ToolSpec, Message, user, assistant, tool,
  LlmProvider,
}
use agentic_execution.Llm.Mock.Expressions.{Digits, extract_expression}
use agentic_execution.Llm.Mock.Answers.{estimate_tokens, clip, task_line, answer_text}

-- The message of the exception of the test hook.
abbrev forced_failure : Text
forced_failure = codes "RuntimeError: forced failure (mock provider saw 'force_fail')"

abbrev is_planning : Text → Bool
is_planning system_l = contains (codes "planning assistant") system_l

abbrev is_forced : Text → Text → Bool
is_forced system_l text = not (is_planning system_l) && contains (codes "force_fail") (lower text)

abbrev user_text : List Message → Text
user_text [] = []
user_text (user content ∷ messages) = content
user_text (assistant content calls ∷ messages) = user_text messages
user_text (tool id name content ∷ messages) = user_text messages

abbrev tool_outputs : List Message → List Text
tool_outputs [] = []
tool_outputs (user content ∷ messages) = tool_outputs messages
tool_outputs (assistant content calls ∷ messages) = tool_outputs messages
tool_outputs (tool id name content ∷ messages) = content ∷ tool_outputs messages

abbrev has_tool : Text → List ToolSpec → Bool
has_tool name specs = any (λ (t : ToolSpec). text_eq t.name name) specs

observations : List Text → Text
observations [] = []
observations (o ∷ outputs) =
    (10 ∷ 10 ∷ codes "Tool observations:")
    ++ (10 ∷ join (10 ∷ []) (map (λ x. codes "- " ++ clip x 160) (o ∷ outputs)))

-- The quoted task.
abbrev quoted : Text → Text
quoted task = 8220 ∷ task ++ 8221 ∷ []

abbrev simulated : Text
simulated = 10 ∷ 10 ∷ codes "(Simulated mock output.)"

-- `_final_text`
final_text : Text → Text → List Text → Text
unfolding observations
final_text system_l text outputs =
    let task = task_line text in
    if contains (codes "research agent") system_l
    then codes "[mock:research] Findings for "
      ++ (quoted task
          ++ (codes ", informed by tool results." ++ (observations outputs ++ simulated)))
    else if contains (codes "analysis agent") system_l
    then codes "[mock:analysis] Analysis of "
      ++ (quoted task
          ++ (codes ": key insight, trade-off and risk." ++ (observations outputs ++ simulated)))
    else if contains (codes "summarization agent") system_l
    then codes "[mock:summary] Final answer for "
      ++ (quoted task
          ++ (codes ": a clear, balanced conclusion "
              ++ (codes "drawn from the research and analysis." ++ simulated)))
    else codes "[mock] " ++ clip text 240

module _ (digits : Digits) where
  calculator_call : Option Text → Option ToolCall
  calculator_call none = none
  calculator_call (some []) = none
  calculator_call (some (c ∷ expr)) = some (record {
    id = codes "call_calc";
    name = codes "calculator";
    arguments = obj (field (codes "expression") (str (c ∷ expr)) end);
  })

  -- `_decide_tool_call`
  decide_tool_call : Text → Text → List ToolSpec → Option ToolCall
  unfolding calculator_call
  decide_tool_call system_l text specs =
      if contains (codes "research agent") system_l && has_tool (codes "web_search") specs
      then some (record {
        id = codes "call_ws";
        name = codes "web_search";
        arguments = obj (field (codes "query") (str (clip (task_line text) 120)) end);
      })
      else if contains (codes "analysis agent") system_l && has_tool (codes "calculator") specs
      then calculator_call (extract_expression digits text)
      else none

  -- The call of the first turn, if there is one: only with tools, and before any tool has answered.
  first_call : Text → Text → Option (List ToolSpec) → List Text → Option ToolCall
  unfolding decide_tool_call
  first_call system_l text none outputs = none
  first_call system_l text (some specs) [] = decide_tool_call system_l text specs
  first_call system_l text (some specs) (o ∷ outputs) = none

  chat_response : Text → Text → Text → List Text → Option ToolCall → LlmResponse
  chat_response model system text outputs (some call) = record {
    text = [];
    model = model;
    prompt_tokens = some (estimate_tokens (system ++ text));
    completion_tokens = some 0;
    tool_calls = call ∷ [];
  }
  chat_response model system text outputs none =
      let answer = final_text (lower system) text outputs in
      record {
        text = answer;
        model = model;
        prompt_tokens = some (estimate_tokens (system ++ (text ++ join [] outputs)));
        completion_tokens = some (estimate_tokens answer);
        tool_calls = [];
      }

  pub chat : Text → List Message → Text → Option (List ToolSpec) → Outcome LlmResponse
  unfolding first_call chat_response
  chat model messages system tools =
      let text = user_text messages in
      let outputs = tool_outputs messages in
      if is_forced (lower system) text
      then raised forced_failure
      else returned
          (chat_response model system text outputs (first_call (lower system) text tools outputs))

module _ (dumps_indented : Json → Text) where
  unfoldable pub complete : Text → Text → Text → Outcome LlmResponse
  complete model prompt system =
      if is_forced (lower system) prompt
      then raised forced_failure
      else let text = answer_text dumps_indented (lower system) prompt in
        returned (record {
          text = text;
          model = model;
          prompt_tokens = some (estimate_tokens (system ++ prompt));
          completion_tokens = some (estimate_tokens text);
          tool_calls = [];
        })

  -- `MockLLMProvider`
  unfoldable pub mock_provider : Digits → Text → LlmProvider
  mock_provider digits model = record {
    model = model;
    complete = complete model;
    chat = chat digits model;
  }
