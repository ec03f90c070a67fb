-- ===== src/Llm/Mock/Expressions.antt =====
-- The expression that the mock provider looks for in a text (`_EXPR_RE` and `_extract_expression`
-- of backend/app/llm/mock.py). From its first digit on a match reaches to the end of the run of
-- digits, spaces, operators, points and brackets, since the last class of the pattern holds all of
-- these; there must be an operator in the run that a digit follows.
use agentic_execution.Prelude.{
  ℕ, Bool, false, ◌&&◌, ◌||◌, Option, none, some, [], ◌∷◌, ◌==◌, if◌then◌else◌, any, Text, is_space,
  lstrip, strip,
}

pub record Digits : Type 0 where
  -- `\d` and `str.isdigit`
  pub is_decimal : ℕ → Bool
  pub is_digit : ℕ → Bool

-- `+ - * / %`
abbrev is_operator : ℕ → Bool
is_operator c = c == 43 || c == 45 || c == 42 || c == 47 || c == 37

-- `- + (`
abbrev is_sign : ℕ → Bool
is_sign c = c == 45 || c == 43 || c == 40

module _ (digits : Digits) where
  open digits use {is_decimal, is_digit}

  -- The class `[\d\s+\-*/%().]`.
  in_class : ℕ → Bool
  in_class c = is_decimal c || is_space c || is_operator c || c == 40 || c == 41 || c == 46

  class_run : Text → Text
  unfolding in_class
  class_run [] = []
  class_run (c ∷ s) = let rest = class_run s in if in_class c then c ∷ rest else []

  starts_with_digit : Text → Bool
  starts_with_digit [] = false
  starts_with_digit (c ∷ s) = is_decimal c

  -- `[+\-*/%]\s*\d` somewhere.
  has_operation : Text → Bool
  unfolding starts_with_digit
  has_operation [] = false
  has_operation (c ∷ s) = (is_operator c && starts_with_digit (lstrip s)) || has_operation s

  -- From the first digit on.
  from_digit : Text → Option Text
  unfolding class_run has_operation
  from_digit [] = none
  from_digit (c ∷ s) =
      if is_decimal c && has_operation (class_run s) then some (c ∷ class_run s) else none

  -- `\s*` and what follows.
  after_spaces : Text → Option Text
  unfolding from_digit
  after_spaces [] = none
  after_spaces (c ∷ s) =
      let rest = after_spaces s in
      if is_space c then (elim rest [ none ↦ none | some m ↦ some (c ∷ m) ]) else from_digit (c ∷ s)

  -- The match that starts here: a sign is no digit and no space, so it is taken where it stands.
  match_here : Text → Option Text
  unfolding after_spaces
  match_here [] = none
  match_here (c ∷ s) =
      if is_sign c
      then (elim (after_spaces s) [ none ↦ none | some m ↦ some (c ∷ m) ])
      else after_spaces (c ∷ s)

  search : Text → Option Text
  unfolding match_here
  search [] = none
  search (c ∷ s) =
      let later = search s in elim (match_here (c ∷ s)) [ some m ↦ some m | none ↦ later ]

  checked : Option Text → Option Text
  checked none = none
  checked (some m) =
      let expr = strip m in if any is_operator expr && any is_digit expr then some expr else none

  pub extract_expression : Text → Option Text
  unfolding search checked
  extract_expression text = checked (search text)
