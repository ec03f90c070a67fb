-- ===== src/Tests/Providers.antt =====
-- The mock provider under the planner and under an agent, the other adapters, the tools, the
-- metrics and the start of a worker.
use agentic_execution.Prelude.{
  ℕ, ◌+◌, ◌≡◌, refl, ap, true, false, ◌&&◌, Option, some, List, [], ◌∷◌, ◌++◌, map, arith, ltb, leb,
  length, take, drop, count, sum_by, Text, codes, is_space, lstrip, strip, rstrip, collapse_after,
  collapse, starts_with, decimal, pos,
}
use agentic_execution.Enums.{
  AgentType, ExecutionStatus, TaskStatus, execution_status_eq, task_status_eq,
}
use agentic_execution.Models.{Execution, Task}
use agentic_execution.Json.{Json, Items, Codec, str, obj, arr, field, end, nil, cons}
use agentic_execution.Llm.{Outcome, returned, raised, LlmResponse, ToolSpec, Message, LlmProvider}
use agentic_execution.Llm.Mock.{mock_provider}
use agentic_execution.Llm.Mock.Expressions.{Digits}
use agentic_execution.Llm.Mock.Answers.{
  clip, plan_value, extract_request, before_quotes, after_quotes, quoted_request,
}
use agentic_execution.Agents.{system_prompt, build_user_prompt, run}
use agentic_execution.Agents.Conversation.{Conversation, opened, answered, run_same}
use agentic_execution.Planner.{Planner, plan, user_prompt}
use agentic_execution.Planner.OnMock.{written, three_subtasks, shortened, plan-mock}
use agentic_execution.Metrics.{execution_statuses, task_statuses, collect_metrics}
use agentic_execution.Metrics.Totals.{collect_metrics-totals}
use agentic_execution.Worker.Process.{wait_for_dependencies}
use agentic_execution.Worker.Process.Startup.{Started, wait_for_dependencies-Started}
use agentic_execution.Tools.Calculator.{Python, Expr, number, binary, BinaryOp, tree, eval}
use agentic_execution.Tools.Calculator.Safety.{is_allowed, eval-is_allowed}
use agentic_execution.Tests.Fixtures.{memory, settings, job_codec, done_tasks, no_entries}

abbrev ascii_digits : Digits
ascii_digits = record {
  is_decimal = λ c. leb 48 c && leb c 57;
  is_digit = λ c. leb 48 c && leb c 57;
}

-- A list of objects with two texts, written with the lengths of the texts.
abbrev write_items : Items → Text
write_items (cons (obj (field k (str a) (field l (str d) end))) items) =
    length a ∷ (a ++ length d ∷ (d ++ write_items items))
write_items _ = []

abbrev write_plan : Json → Text
write_plan (arr items) = write_items items
write_plan _ = []

abbrev read_item : Text → Text → Json
read_item a d = obj (field (codes "agent_type") (str a) (field (codes "description") (str d) end))

abbrev read_second : Text → Text → Json × Text
read_second a [] = (read_item a [], [])
read_second a (n ∷ s) = (read_item a (take n s), drop n s)

abbrev read_first : Text → Json × Text
read_first [] = (read_item [] [], [])
read_first (n ∷ s) = read_second (take n s) (drop n s)

abbrev read_plan : Text → Json
read_plan s =
    let (i, s') = read_first s in
    let (j, s'') = read_first s' in
    let (k, s''') = read_first s'' in arr (cons i (cons j (cons k nil)))

abbrev plan_codec : Codec
plan_codec = record job_codec { loads = λ s. some (read_plan s) }

abbrev mock : LlmProvider
mock = mock_provider write_plan ascii_digits (codes "mock-model")

abbrev bounds : Planner
bounds = record { min_tasks = 2; max_tasks = 5 }

abbrev topic : Text
topic = codes "tea"

read-written :
    read_plan
      (write_plan (written plan_codec write_plan ascii_digits (codes "mock-model") bounds topic))
    ≡ written plan_codec write_plan ascii_digits (codes "mock-model") bounds topic
unfolding plan_value extract_request clip before_quotes after_quotes quoted_request user_prompt
    collapse collapse_after lstrip strip rstrip starts_with is_space
read-written = refl

plan-mock_example :
    plan plan_codec mock bounds topic
    ≡ returned (
        three_subtasks plan_codec write_plan ascii_digits
          (codes "mock-model")
          bounds
          topic
          (shortened plan_codec write_plan ascii_digits (codes "mock-model") bounds topic)
          (pos 0 ∷ pos 1 ∷ []))
unfolding plan_value
plan-mock_example =
    plan-mock plan_codec write_plan ascii_digits (codes "mock-model") bounds topic refl refl
      (ap (λ (j : Json). some j) read-written) (λ s. refl) (omega arith)

-- The mock provider, but it refuses an empty list of messages.
abbrev strict_chat : List Message → Text → Option (List ToolSpec) → Outcome LlmResponse
strict_chat [] system specs = raised (codes "BadRequestError: messages must not be empty")
strict_chat (m ∷ messages) system specs = mock.chat (m ∷ messages) system specs

abbrev strict : LlmProvider
strict = record mock { chat = strict_chat }

chat-append :
    (messages : List Message) (m : Message) (rest : List Message) (system : Text)
    (specs : Option (List ToolSpec))
    → mock.chat (messages ++ (m ∷ rest)) system specs
      ≡ strict_chat (messages ++ (m ∷ rest)) system specs
chat-append [] m rest system specs = refl
chat-append (n ∷ messages) m rest system specs = refl

chat-strict :
    (prompt system : Text) (specs : Option (List ToolSpec)) (n : ℕ) (messages : List Message)
    → Conversation prompt n messages
    → mock.chat messages system specs ≡ strict_chat messages system specs
chat-strict prompt system specs n messages opened = refl
chat-strict prompt system specs n messages (answered text before called replies) =
    chat-append _ _ _ system specs

run_same_example :
    run settings [] (codes "10.0") mock AgentType.analysis (codes "compute 6 * 7") []
    ≡ run settings [] (codes "10.0") strict AgentType.analysis (codes "compute 6 * 7") []
run_same_example =
    run_same settings [] (codes "10.0") AgentType.analysis mock strict (codes "compute 6 * 7") []
      (λ n messages conversation few.
        chat-strict (build_user_prompt (codes "compute 6 * 7") [])
          (system_prompt AgentType.analysis) _ n messages conversation)
      refl

collect_metrics-totals_example :
    let m =
      collect_metrics memory job_codec settings (λ n. false) done_tasks (returned no_entries) in
    (m.executions_total ≡ 1)
    × (m.executions_by_status
        ≡ map
            (λ s.
              (s, count (λ (e : Execution). execution_status_eq e.status s) done_tasks.executions))
            execution_statuses)
    × (sum_by (λ (entry : ExecutionStatus × ℕ). entry.1) m.executions_by_status
        ≡ m.executions_total)
    × (m.tasks_total ≡ 2)
    × (m.tasks_by_status
        ≡ map
            (λ s. (s, count (λ (t : Task). task_status_eq t.status s) done_tasks.tasks))
            task_statuses)
    × (sum_by (λ (entry : TaskStatus × ℕ). entry.1) m.tasks_by_status ≡ m.tasks_total)
collect_metrics-totals_example =
    collect_metrics-totals memory job_codec settings (λ n. false) done_tasks (returned no_entries)

wait_for_dependencies-Started_example :
    Started (λ n. leb 3 n) (λ n. leb 2 n) 5 (wait_for_dependencies (λ n. leb 3 n) (λ n. leb 2 n) 5)
wait_for_dependencies-Started_example =
    wait_for_dependencies-Started (λ n. leb 3 n) (λ n. leb 2 n) 5

-- Whole numbers without an upper bound, where each operation but addition is refused.
abbrev add_only : BinaryOp → ℕ → ℕ → Outcome ℕ
add_only BinaryOp.add m n = returned (m + n)
add_only _ m n = raised (codes "TypeError")

abbrev naturals : Python
naturals = record {
  Num = ℕ;
  apply_binary = add_only;
  apply_unary = λ op n. returned n;
  exceeds_256 = λ n. ltb 256 n;
  apply_function = λ f ns. raised (codes "TypeError");
  constant = λ id. 3;
  settled = λ n. n;
  to_str = λ n. returned (decimal n);
  parse = λ s. tree (number (length s));
}

sum_value : eval naturals (binary BinaryOp.add (number 20) (number 22)) ≡ returned 42
unfolding eval
sum_value = refl

abbrev sum : Expr ℕ
sum = binary BinaryOp.add (number 20) (number 22)

eval-is_allowed_example : is_allowed sum ≡ true
eval-is_allowed_example = eval-is_allowed naturals sum 42 sum_value
