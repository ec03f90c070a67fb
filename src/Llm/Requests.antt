-- ===== src/Llm/Requests.antt =====
-- What the two SDK providers of backend/app/llm share: the sampling parameters of base.py, and the
-- values that their requests are made of.
use agentic_execution.Prelude.{ℕ, Option, none, some, List, [], ◌∷◌, ◌++◌, Text, codes, join}
use agentic_execution.Json.{Json, Items, nil, cons}
use agentic_execution.Llm.{Outcome, LlmResponse, ToolSpec, Message, user, assistant, tool}

-- `temperature`, as it is written, and `max_tokens`.
pub record Sampling : Type 0 where
  pub temperature : Text
  pub max_tokens : ℕ

pub items_of : List Json → Items
items_of [] = nil
items_of (j ∷ js) = cons j (items_of js)

-- `x or ""`
abbrev pub text_or : Option Text → Text
text_or none = []
text_or (some s) = s

-- The parts of `messages_to_prompt`.
abbrev said_part : Text → List Text → List Text
said_part [] parts = parts
said_part (c ∷ s) parts = (c ∷ s) ∷ parts

prompt_parts : List Message → List Text
prompt_parts [] = []
prompt_parts (user content ∷ messages) = said_part content (prompt_parts messages)
prompt_parts (assistant content calls ∷ messages) = said_part content (prompt_parts messages)
prompt_parts (tool id name content ∷ messages) =
    (codes "[tool:" ++ (name ++ (codes "] " ++ content))) ∷ prompt_parts messages

messages_to_prompt : List Message → Text
unfolding prompt_parts
messages_to_prompt messages = join (10 ∷ 10 ∷ []) (prompt_parts messages)

-- `LLMProvider.chat`, for a provider that does not override it.
default_chat :
    (Text → Text → Outcome LlmResponse)
    → List Message
    → Text
    → Option (List ToolSpec)
    → Outcome LlmResponse
default_chat complete messages system tools = complete (messages_to_prompt messages) system
