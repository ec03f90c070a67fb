-- ===== src/Pricing.antt =====
-- backend/app/llm/pricing.py: the estimated cost of a call. Prices are in units of 10^-8 dollars
-- per token and a cost is in millionths of a dollar, so the floats of the source become whole
-- numbers. Where the exact cost lies halfway between two millionths, the rounding of the float
-- depends on its binary form: `tie_up` says which way it goes.
use agentic_execution.Prelude.{
  ℕ, ◌+◌, ◌*◌, ◌/◌, ◌%◌, Bool, Option, none, some, List, [], ◌∷◌, ltb, ◌==◌, if◌then◌else◌, Text,
  codes, text_eq,
}

pub record Rates : Type 0 where
  pub prompt : ℕ
  pub completion : ℕ

abbrev pricing : List (Text × Rates)
pricing =
    (codes "mock-model", record { prompt = 50; completion = 150 })
    ∷ (codes "gpt-4o-mini", record { prompt = 15; completion = 60 })
    ∷ (codes "gpt-4o", record { prompt = 500; completion = 1500 })
    ∷ (codes "gpt-4.1-mini", record { prompt = 40; completion = 160 })
    ∷ (codes "claude-3-5-sonnet-latest", record { prompt = 300; completion = 1500 })
    ∷ (codes "claude-3-5-haiku-latest", record { prompt = 80; completion = 400 })
    ∷ []

abbrev free : Rates
free = record { prompt = 0; completion = 0 }

-- `PRICING.get(model, (0.0, 0.0))`
rates_in : Text → List (Text × Rates) → Rates
rates_in model [] = free
rates_in model ((name, rates) ∷ rest) = if text_eq name model then rates else rates_in model rest

rates_of : Text → Rates
unfolding rates_in
rates_of model = rates_in model pricing

-- `round(cost, 6)`
round_cost : (ℕ → Bool) → ℕ → ℕ
round_cost tie_up n =
    let whole = n / 100 in
    let part = n % 100 in
    if ltb part 50
    then whole
    else if part == 50
    then (if tie_up n then whole + 1 else whole)
    else whole + 1

abbrev or_none : Option ℕ → ℕ
or_none none = 0
or_none (some n) = n

pub estimate_cost : (ℕ → Bool) → Text → Option ℕ → Option ℕ → ℕ
unfolding round_cost
estimate_cost tie_up model prompt_tokens completion_tokens =
    let rates = rates_of model in
    round_cost tie_up
      (or_none prompt_tokens * rates.prompt + or_none completion_tokens * rates.completion)
