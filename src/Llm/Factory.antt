-- ===== src/Llm/Factory.antt =====
-- backend/app/llm/factory.py, with the checks of the providers' constructors. Whether the two SDKs
-- are installed, and the clients that they make of a key, are parameters.
use agentic_execution.Prelude.{
  Option, none, some, [], ◌∷◌, ◌++◌, if◌then◌else◌, Text, codes, text_eq, strip, lower,
}
use agentic_execution.Json.{Json, Codec}
use agentic_execution.Llm.{Outcome, returned, raised, LlmProvider}
use agentic_execution.Llm.Requests.{Sampling}
use agentic_execution.Llm.Mock.{mock_provider}
use agentic_execution.Llm.Mock.Expressions.{Digits}
use agentic_execution.Llm.OpenAi.{Completion, openai_provider}
use agentic_execution.Llm.Anthropic.{Reply, anthropic_provider}

-- The settings of config.py that the factory reads.
pub record LlmSettings : Type 0 where
  pub llm_provider : Text
  pub llm_model : Text
  pub sampling : Sampling
  pub openai_api_key : Option Text
  pub anthropic_api_key : Option Text

-- The SDKs: `none` is an ImportError.
pub record Sdks : Type 0 where
  pub codec : Codec
  pub dumps_indented : Json → Text
  pub digits : Digits
  pub openai : Option (Text → Json → Outcome Completion)
  pub anthropic : Option (Text → Json → Outcome Reply)

-- `if not api_key`, after the import.
abbrev with_key {ℓ} :
    {A : Type ℓ}
    → Text
    → Text
    → Option A
    → Option Text
    → (A → Text → LlmProvider)
    → Outcome LlmProvider
with_key not_installed no_key none key make = raised not_installed
with_key not_installed no_key (some sdk) none make = raised no_key
with_key not_installed no_key (some sdk) (some []) make = raised no_key
with_key not_installed no_key (some sdk) (some (c ∷ key)) make = returned (make sdk (c ∷ key))

abbrev or_mock : Text → Text
or_mock [] = codes "mock"
or_mock (c ∷ s) = c ∷ s

build_openai : Sdks → LlmSettings → Outcome LlmProvider
build_openai sdks settings =
    with_key
      (codes "RuntimeError: LLM_PROVIDER=openai requires the 'openai' package. "
        ++ codes "Install it with: pip install 'openai>=1.0'")
      (codes "RuntimeError: LLM_PROVIDER=openai requires OPENAI_API_KEY to be set.") sdks.openai
      settings.openai_api_key
      (λ client key. openai_provider sdks.codec (client key) settings.llm_model settings.sampling)

build_anthropic : Sdks → LlmSettings → Outcome LlmProvider
build_anthropic sdks settings =
    with_key
      (codes "RuntimeError: LLM_PROVIDER=anthropic requires the 'anthropic' package. "
        ++ codes "Install it with: pip install 'anthropic>=0.39'")
      (codes "RuntimeError: LLM_PROVIDER=anthropic requires ANTHROPIC_API_KEY to be set.")
      sdks.anthropic settings.anthropic_api_key
      (λ client key. anthropic_provider (client key) settings.llm_model settings.sampling)

build_llm_provider : Sdks → LlmSettings → Outcome LlmProvider
build_llm_provider sdks settings =
    let provider = lower (strip (or_mock settings.llm_provider)) in
    if text_eq provider (codes "mock")
    then returned (mock_provider sdks.dumps_indented sdks.digits settings.llm_model)
    else if text_eq provider (codes "openai")
    then build_openai sdks settings
    else if text_eq provider (codes "anthropic")
    then build_anthropic sdks settings
    else raised (
        codes "ValueError: Unknown LLM_PROVIDER '"
        ++ (settings.llm_provider ++ codes "'. Expected one of: mock, openai, anthropic."))
