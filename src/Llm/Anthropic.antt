-- ===== src/Llm/Anthropic.antt =====
-- backend/app/llm/anthropic_provider.py. The client of the SDK is a parameter: what it answers to a
-- request, as a list of content blocks with the usage.
use agentic_execution.Prelude.{
  ℕ, Option, none, some, List, [], ◌∷◌, ◌++◌, map, Text, codes, join, pos,
}
use agentic_execution.Json.{Json, Fields, int, float, str, arr, obj, end, field}
use agentic_execution.Llm.{
  Outcome, returned, raised, ToolCall, LlmResponse, ToolSpec, Message, user, assistant, tool,
  LlmProvider,
}
use agentic_execution.Llm.Requests.{Sampling, items_of}

-- A block of type `text` or `tool_use`, or of another type, which may have a text too. An input
-- that is absent or empty is `{}`.
pub data Block : Type 0 where
  text_block : Text → Block
  tool_use : Text → Text → Json → Block
  other : Text → Block

pub record Reply : Type 0 where
  pub content : List Block
  pub input_tokens : Option ℕ
  pub output_tokens : Option ℕ

abbrev said : Text → Text → Json
said role content =
    obj (field (codes "role") (str role) (field (codes "content") (str content) end))

abbrev with_blocks : Text → List Json → Json
with_blocks role blocks =
    obj (field (codes "role") (str role) (field (codes "content") (arr (items_of blocks)) end))

pub call_json : ToolCall → Json
call_json call = obj (
    field (codes "type") (str (codes "tool_use")) (
      field (codes "id") (str call.id)
        (field (codes "name") (str call.name) (field (codes "input") call.arguments end))))

text_json : Text → List Json
text_json [] = []
text_json (c ∷ s) =
    obj (field (codes "type") (str (codes "text")) (field (codes "text") (str (c ∷ s)) end)) ∷ []

message_json : Message → Json
unfolding text_json
message_json (user content) = said (codes "user") content
message_json (assistant content []) = said (codes "assistant") content
message_json (assistant content (call ∷ calls)) =
    with_blocks (codes "assistant") (text_json content ++ map call_json (call ∷ calls))
message_json (tool id name content) = with_blocks (codes "user") (
    obj (
      field (codes "type") (str (codes "tool_result"))
        (field (codes "tool_use_id") (str id) (field (codes "content") (str content) end)))
    ∷ [])

tool_json : ToolSpec → Json
tool_json t = obj (
    field (codes "name") (str t.name) (
      field (codes "description") (str t.description)
        (field (codes "input_schema") t.parameters end)))

tools_fields : Option (List ToolSpec) → Fields
unfolding tool_json
tools_fields none = end
tools_fields (some specs) = field (codes "tools") (arr (items_of (map tool_json specs))) end

-- The keyword arguments of `messages.create`.
request : Text → Sampling → Text → List Json → Fields → Json
request model sampling system messages more = obj (
    field (codes "model") (str model) (
      field (codes "max_tokens") (int (pos sampling.max_tokens)) (
        field (codes "temperature") (float sampling.temperature) (
          field (codes "system") (str system)
            (field (codes "messages") (arr (items_of messages)) more)))))

-- `getattr(block, "text", "")`, in `complete` of every block, in `chat` of the text blocks.
abbrev any_text : Block → Text
any_text (text_block s) = s
any_text (tool_use id name input) = []
any_text (other s) = s

text_parts : List Block → List Text
text_parts [] = []
text_parts (text_block s ∷ blocks) = s ∷ text_parts blocks
text_parts (tool_use id name input ∷ blocks) = text_parts blocks
text_parts (other s ∷ blocks) = text_parts blocks

pub tool_calls_of : List Block → List ToolCall
tool_calls_of [] = []
tool_calls_of (text_block s ∷ blocks) = tool_calls_of blocks
tool_calls_of (tool_use id name input ∷ blocks) =
    record { id = id; name = name; arguments = input } ∷ tool_calls_of blocks
tool_calls_of (other s ∷ blocks) = tool_calls_of blocks

response_of : Text → Reply → List Text → List ToolCall → LlmResponse
response_of model reply parts calls = record {
  text = join [] parts;
  model = model;
  prompt_tokens = reply.input_tokens;
  completion_tokens = reply.output_tokens;
  tool_calls = calls;
}

module _ (create : Json → Outcome Reply) (model : Text) (sampling : Sampling) where
  pub complete : Text → Text → Outcome LlmResponse
  unfolding request response_of
  complete prompt system =
      elim (create (request model sampling system (said (codes "user") prompt ∷ []) end)) [
        | raised e ↦ raised e
        | returned reply ↦ returned (response_of model reply (map any_text reply.content) [])
      ]

  pub chat : List Message → Text → Option (List ToolSpec) → Outcome LlmResponse
  unfolding request message_json tools_fields text_parts response_of
  chat messages system tools =
      elim (create
        (request model sampling system (map message_json messages) (tools_fields tools))) [
          | raised e ↦ raised e
          | returned reply ↦
              returned
                (response_of model reply (text_parts reply.content) (tool_calls_of reply.content))
        ]

  -- `AnthropicProvider`, with its client made.
  pub anthropic_provider : LlmProvider
  anthropic_provider = record { model = model; complete = complete; chat = chat }
