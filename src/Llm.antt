-- ===== src/Llm.antt =====
-- backend/app/llm/base.py: the provider interface. What a provider answers is a parameter.
pub mod Mock
pub mod Requests
pub mod OpenAi
pub mod Anthropic
pub mod Factory
use agentic_execution.Prelude.{ℕ, ◌≡◌, refl, ◌⊎◌, inl, inr, Option, List, Text}
use agentic_execution.Json.{Json}

-- A call that may raise; the text of an exception is `f"{type(exc).__name__}: {exc}"`.
pub data Outcome {ℓ} (A : Type ℓ) : Type ℓ where
  returned : A → Outcome A
  raised : Text → Outcome A

pub Outcome-cases {ℓ} :
    {A : Type ℓ} → (o : Outcome A) → ((x : A) × (o ≡ returned x)) ⊎ ((m : Text) × (o ≡ raised m))
Outcome-cases (returned x) = inl (x, refl)
Outcome-cases (raised m) = inr (m, refl)

pub record ToolCall : Type 0 where
  pub id : Text
  pub name : Text
  pub arguments : Json

pub record LlmResponse : Type 0 where
  pub text : Text
  pub model : Text
  pub prompt_tokens : Option ℕ
  pub completion_tokens : Option ℕ
  pub tool_calls : List ToolCall

pub record ToolSpec : Type 0 where
  pub name : Text
  pub description : Text
  pub parameters : Json

pub data Message : Type 0 where
  user : Text → Message
  assistant : Text → List ToolCall → Message
  -- `tool_call_id`, `name` and `content`
  tool : Text → Text → Text → Message

pub record LlmProvider : Type 0 where
  pub model : Text
  -- the prompt and the system prompt
  pub complete : Text → Text → Outcome LlmResponse
  -- the messages, the system prompt and the tools, `none` where the list is empty
  pub chat : List Message → Text → Option (List ToolSpec) → Outcome LlmResponse
