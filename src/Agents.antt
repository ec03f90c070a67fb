-- ===== src/Agents.antt =====
-- backend/app/agents: the agents of the registry, and the tool-calling loop of base.py. A provider
-- answers the same messages with the same response here; a call that raises ends the run.
pub mod Equipped
pub mod Conversation
use agentic_execution.Prelude.{
  ℕ, zero, suc, ◌+◌, max, true, false, not, Option, none, some, List, [], ◌∷◌, ◌++◌, map, reverse,
  if◌then◌else◌, length, find, null, Text, codes, text_eq, strip,
}
use agentic_execution.Enums.{AgentType, from_value}
use agentic_execution.Settings.{Settings}
use agentic_execution.Llm.{
  Outcome, returned, raised, ToolCall, LlmResponse, ToolSpec, Message, user, assistant, tool,
  LlmProvider,
}
use agentic_execution.Tools.{
  Tool, Registry, ToolResult, success, failure, spec, execute_tool, get_tools,
}

pub record AgentOutput : Type 0 where
  pub text : Text
  pub prompt_tokens : ℕ
  pub completion_tokens : ℕ
  pub total_tokens : ℕ
  pub tool_calls : ℕ
  pub model : Text

-- agents/research.py, agents/analysis.py, agents/summarization.py
abbrev tool_names : AgentType → List Text
tool_names AgentType.research = codes "web_search" ∷ codes "fetch_url" ∷ []
tool_names AgentType.analysis = codes "calculator" ∷ codes "fetch_url" ∷ []
tool_names AgentType.summarization = []

pub system_prompt : AgentType → Text
system_prompt AgentType.research =
    codes "You are a research agent. Your job is to gather accurate, relevant "
    ++ (codes "information and facts about the given task. Be concise, cite the kinds "
        ++ (codes "of sources you would use, and surface the most important points. Do not "
            ++ codes "draw final conclusions; that is a later step."))
system_prompt AgentType.analysis =
    codes "You are an analysis agent. Your job is to analyze the information "
    ++ (codes "provided in the context, identify key insights, patterns, trade-offs "
        ++ (codes "and risks, and reason about what matters most for the task. Be precise "
            ++ codes "and structured."))
system_prompt AgentType.summarization =
    codes "You are a summarization agent. Your job is to synthesize the research "
    ++ (codes "and analysis from the context into a clear, well-structured final answer "
        ++ (codes "for the original request. Lead with the conclusion, then support it "
            ++ codes "briefly. Avoid repetition."))

abbrev or_default : Text → Text → Text
or_default [] d = d
or_default (c ∷ s) d = c ∷ s

pub build_user_prompt : Text → Text → Text
build_user_prompt task_description context =
    codes "Task: "
    ++ (task_description
        ++ (10 ∷ 10 ∷ codes "Context from previous steps:")
        ++ (10 ∷ or_default (strip context) (codes "(no prior context)"))
        ++ (10 ∷ 10 ∷ codes "Use tools if helpful, then produce your output for this task."))

abbrev tokens : Option ℕ → ℕ
tokens none = 0
tokens (some n) = n

abbrev some_if_any : List ToolSpec → Option (List ToolSpec)
some_if_any [] = none
some_if_any (s ∷ specs) = some (s ∷ specs)

-- What the loop carries from one round to the next.
pub record Loop : Type 0 where
  pub messages : List Message
  pub prompt_tokens : ℕ
  pub completion_tokens : ℕ
  pub tool_calls_made : ℕ
  pub response : Option LlmResponse

module _ (settings : Settings) (registry : Registry) (timeout : Text) (llm : LlmProvider)
    (kind : AgentType) where
  abbrev tools : List Tool
  tools = if settings.tools_enabled then get_tools (tool_names kind) registry else []

  abbrev observation : ToolResult → Text
  observation (success output) = output
  observation (failure error) = codes "ERROR: " ++ error

  -- `tool_by_name` maps a name to the last of the agent's tools that has it.
  call_content : ToolCall → Text
  call_content call = elim (find (λ (t : Tool). text_eq t.name call.name) (reverse tools)) [
    | none ↦ codes "ERROR: unknown tool '" ++ (call.name ++ codes "'")
    | some t ↦ observation (execute_tool timeout t call.arguments)
  ]

  run_calls : List ToolCall → List Message
  run_calls [] = []
  run_calls (call ∷ calls) = tool call.id call.name (call_content call) ∷ run_calls calls

  -- The response is counted; the loop ends at one that asks for no tool.
  count_response : Loop → LlmResponse → Loop
  count_response s response = record s {
    prompt_tokens = s.prompt_tokens + tokens response.prompt_tokens;
    completion_tokens = s.completion_tokens + tokens response.completion_tokens;
    response = some response;
  }

  after_calls : Loop → LlmResponse → Loop
  after_calls s response = record s {
    messages =
        s.messages ++ (assistant response.text response.tool_calls ∷ run_calls response.tool_calls);
    tool_calls_made = s.tool_calls_made + length response.tool_calls;
  }

  -- `for _ in range(n)`
  rounds : ℕ → Loop → Outcome Loop
  rounds zero s = returned s
  rounds (suc n) s =
      elim (llm.chat s.messages (system_prompt kind) (some_if_any (map spec tools))) [
        | raised e ↦ raised e
        | returned response ↦ elim (null response.tool_calls) [
          | true ↦ returned (count_response s response)
          | false ↦ rounds n (after_calls (count_response s response) response)
        ]
      ]

  abbrev start : Text → Text → Loop
  start task_description context = record {
    messages = user (build_user_prompt task_description context) ∷ [];
    prompt_tokens = 0;
    completion_tokens = 0;
    tool_calls_made = 0;
    response = none;
  }

  abbrev response_text : Option LlmResponse → Text
  response_text none = []
  response_text (some r) = r.text

  abbrev response_model : Option LlmResponse → Text
  response_model none = []
  response_model (some r) = r.model

  pub output_of : Loop → AgentOutput
  output_of s = record {
    text = or_default (response_text s.response) (codes "(no answer produced)");
    prompt_tokens = s.prompt_tokens;
    completion_tokens = s.completion_tokens;
    total_tokens = s.prompt_tokens + s.completion_tokens;
    tool_calls = s.tool_calls_made;
    model = or_default (response_model s.response) llm.model;
  }

  abbrev finish : Outcome Loop → Outcome AgentOutput
  finish (raised e) = raised e
  finish (returned s) = returned (output_of s)

  pub run : Text → Text → Outcome AgentOutput
  unfolding rounds output_of
  run task_description context =
      finish (rounds (max 1 settings.agent_max_tool_iterations) (start task_description context))

-- `get_agent(agent_type, llm).run`: the type may be any text.
pub run_agent : Settings → Registry → Text → LlmProvider → Text → Text → Text → Outcome AgentOutput
run_agent settings registry timeout llm agent_type =
    run settings registry timeout llm (from_value (some agent_type))
