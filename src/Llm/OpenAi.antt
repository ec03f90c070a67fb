-- ===== src/Llm/OpenAi.antt =====
-- backend/app/llm/openai_provider.py. The client of the SDK is a parameter: what it answers to a
-- request, of which the first choice and the usage are read. `json.dumps` is a parameter too.
use agentic_execution.Prelude.{ℕ, Option, none, some, List, [], ◌∷◌, ◌++◌, map, Text, codes, pos}
use agentic_execution.Json.{
  Json, Fields, Codec, null as json_null, int, float, str, arr, obj, end, field,
}
use agentic_execution.Llm.{
  Outcome, returned, raised, ToolCall, LlmResponse, ToolSpec, Message, user, assistant, tool,
  LlmProvider,
}
use agentic_execution.Llm.Requests.{Sampling, items_of, text_or}

-- A function call of a response: its id, and the name and the arguments of the function.
pub record FunctionCall : Type 0 where
  pub id : Text
  pub name : Text
  pub arguments : Option Text

pub record Completion : Type 0 where
  pub content : Option Text
  pub tool_calls : List FunctionCall
  pub prompt_tokens : Option ℕ
  pub completion_tokens : Option ℕ

abbrev said : Text → Text → Json
said role content =
    obj (field (codes "role") (str role) (field (codes "content") (str content) end))

module _ (codec : Codec) where
  -- The entries of `tool_calls` in a message.
  pub call_json : ToolCall → Json
  call_json call = obj (
      field (codes "id") (str call.id) (
        field (codes "type") (str (codes "function")) (
          field (codes "function")
            (obj (
              field (codes "name") (str call.name)
                (field (codes "arguments") (str (codec.dumps call.arguments)) end)))
            end)))

  -- `message.get("content") or None`
  content_or_null : Text → Json
  content_or_null [] = json_null
  content_or_null (c ∷ s) = str (c ∷ s)

  message_json : Message → Json
  unfolding content_or_null
  message_json (user content) = said (codes "user") content
  message_json (tool id name content) = obj (
      field (codes "role") (str (codes "tool"))
        (field (codes "tool_call_id") (str id) (field (codes "content") (str content) end)))
  message_json (assistant content []) = said (codes "assistant") content
  message_json (assistant content (call ∷ calls)) = obj (
      field (codes "role") (str (codes "assistant")) (
        field (codes "content") (content_or_null content)
          (field (codes "tool_calls") (arr (items_of (map call_json (call ∷ calls)))) end)))

  system_message : Text → List Json
  system_message [] = []
  system_message (c ∷ s) = said (codes "system") (c ∷ s) ∷ []

  tool_json : ToolSpec → Json
  tool_json t = obj (
      field (codes "type") (str (codes "function")) (
        field (codes "function")
          (obj (
            field (codes "name") (str t.name) (
              field (codes "description") (str t.description)
                (field (codes "parameters") t.parameters end))))
          end))

  tools_fields : Option (List ToolSpec) → Fields
  unfolding tool_json
  tools_fields none = end
  tools_fields (some specs) =
      field (codes "tools") (arr (items_of (map tool_json specs)))
        (field (codes "tool_choice") (str (codes "auto")) end)

  -- The keyword arguments of `chat.completions.create`.
  request : Text → Sampling → List Json → Fields → Json
  request model sampling messages more = obj (
      field (codes "model") (str model) (
        field (codes "messages") (arr (items_of messages)) (
          field (codes "temperature") (float sampling.temperature)
            (field (codes "max_tokens") (int (pos sampling.max_tokens)) more))))

  -- `json.loads(tc.function.arguments or "{}")`, where an error gives an empty dict.
  abbrev or_braces : Option Text → Text
  or_braces none = codes "{}"
  or_braces (some []) = codes "{}"
  or_braces (some (c ∷ s)) = c ∷ s

  arguments_of : Option Text → Json
  arguments_of arguments = elim (codec.loads (or_braces arguments)) [ none ↦ obj end | some j ↦ j ]

  pub tool_calls_of : List FunctionCall → List ToolCall
  unfolding arguments_of
  tool_calls_of [] = []
  tool_calls_of (call ∷ calls) =
      record { id = call.id; name = call.name; arguments = arguments_of call.arguments }
      ∷ tool_calls_of calls

  response_of : Text → Completion → List ToolCall → LlmResponse
  response_of model completion calls = record {
    text = text_or completion.content;
    model = model;
    prompt_tokens = completion.prompt_tokens;
    completion_tokens = completion.completion_tokens;
    tool_calls = calls;
  }

  module _ (create : Json → Outcome Completion) (model : Text) (sampling : Sampling) where
    pub complete : Text → Text → Outcome LlmResponse
    unfolding system_message request response_of
    complete prompt system =
        elim (create
          (request model sampling (system_message system ++ said (codes "user") prompt ∷ []) end)) [
            | raised e ↦ raised e
            | returned completion ↦ returned (response_of model completion [])
          ]

    pub chat : List Message → Text → Option (List ToolSpec) → Outcome LlmResponse
    unfolding message_json system_message tools_fields request response_of
    chat messages system tools =
        elim (create (
          request model sampling (system_message system ++ map message_json messages)
            (tools_fields tools))) [
              | raised e ↦ raised e
              | returned completion ↦
                  returned (response_of model completion (tool_calls_of completion.tool_calls))
            ]

    -- `OpenAIProvider`, with its client made.
    pub openai_provider : LlmProvider
    openai_provider = record { model = model; complete = complete; chat = chat }
