-- ===== src/Tools/Calculator.antt =====
-- backend/app/tools/calculator.py. The numbers of Python with their operations, and the parser
-- `ast.parse`, are parameters; an exception is its type and its text.

pub mod Safety
use agentic_execution.Prelude.{
  ◌+◌, ◌-◌, ◌*◌, ◌/◌, ◌%◌, min, max, Bool, true, false, not, ◌&&◌, Option, none, some, List, [],
  ◌∷◌, ◌++◌, if◌then◌else◌, any, null, Text, codes, text_eq, strip,
}
use agentic_execution.Json.{Json, Fields, str, obj, arr, field, end, nil, cons, get_field}
use agentic_execution.Llm.{Outcome, returned, raised}
use agentic_execution.Tools.{Tool, Run, finished}

-- The operators of a syntax tree: those of `_BINOPS` and `_UNARY`, and the others.
pub data BinaryOp : Type 0 where
  add sub mult div floor_div modulo pow other_binary : BinaryOp

pub data UnaryOp : Type 0 where
  plus minus other_unary : UnaryOp

mutual
  -- The body of the parsed expression. A constant is a number or another constant, and a call is of
  -- a name, with arguments and with or without keywords.
  pub data Expr (N : Type 0) : Type 0 where
    number : N → Expr N
    other_constant : Expr N
    binary : BinaryOp → Expr N → Expr N → Expr N
    unary : UnaryOp → Expr N → Expr N
    name : Text → Expr N
    call : Text → Args N → Bool → Expr N
    other_node : Expr N

  pub data Args (N : Type 0) : Type 0 where
    no_args : Args N
    more_args : Expr N → Args N → Args N

pub data Parsed (N : Type 0) : Type 0 where
  tree : Expr N → Parsed N
  syntax_error : Text → Parsed N
  other_error : Text → Parsed N

-- The numbers of Python, and its parser.
pub record Python : Type 1 where
  pub Num : Type 0
  pub apply_binary : BinaryOp → Num → Num → Outcome Num
  pub apply_unary : UnaryOp → Num → Outcome Num
  -- `abs(right) > 256`
  pub exceeds_256 : Num → Bool
  -- a function of `_FUNCS`
  pub apply_function : Text → List Num → Outcome Num
  -- a constant of `_NAMES`
  pub constant : Text → Num
  -- `int(value)` of a float that is a whole number
  pub settled : Num → Num
  pub to_str : Num → Outcome Text
  pub parse : Text → Parsed Num

abbrev known_binary : BinaryOp → Bool
known_binary BinaryOp.other_binary = false
known_binary _ = true

abbrev known_unary : UnaryOp → Bool
known_unary UnaryOp.other_unary = false
known_unary _ = true

abbrev is_pow : BinaryOp → Bool
is_pow BinaryOp.pow = true
is_pow _ = false

-- `_FUNCS` and `_NAMES`
abbrev function_names : List Text
function_names =
    codes "sqrt"
    ∷ codes "abs"
    ∷ codes "round"
    ∷ codes "min"
    ∷ codes "max"
    ∷ codes "floor"
    ∷ codes "ceil"
    ∷ codes "log"
    ∷ []

abbrev constant_names : List Text
constant_names = codes "pi" ∷ codes "e" ∷ []

pub is_one_of : Text → List Text → Bool
is_one_of s names = any (text_eq s) names

-- An expression that raises ends the evaluation.
abbrev and_then {ℓ κ} : {A : Type ℓ} {B : Type κ} → Outcome A → (A → Outcome B) → Outcome B
and_then (raised e) next = raised e
and_then (returned x) next = next x

abbrev unsupported {ℓ} : {A : Type ℓ} → Outcome A
unsupported = raised (codes "ToolError: unsupported expression")

module _ (python : Python) where
  open python use {
    Num, apply_binary, apply_unary, exceeds_256, apply_function, constant, settled, to_str, parse,
  }

  combine : BinaryOp → Num → Num → Outcome Num
  combine op left right =
      if is_pow op && exceeds_256 right
      then raised (codes "ToolError: exponent too large")
      else apply_binary op left right

  -- `_eval`, and the list of the arguments of a call.
  unfoldable mutual
    unfolding combine

    pub eval : Expr Num → Outcome Num
    eval (number n) = returned n
    eval other_constant = raised (codes "ToolError: only numeric constants are allowed")
    eval (binary op left right) =
        let l = eval left in
        let r = eval right in
        if known_binary op then and_then l (λ x. and_then r (combine op x)) else unsupported
    eval (unary op operand) =
        let x = eval operand in if known_unary op then and_then x (apply_unary op) else unsupported
    eval (name id) = if is_one_of id constant_names then returned (constant id) else unsupported
    eval (call func args has_keywords) =
        let xs = eval_args args in
        if is_one_of func function_names && not has_keywords
        then and_then xs (apply_function func)
        else unsupported
    eval other_node = unsupported

    pub eval_args : Args Num → Outcome (List Num)
    eval_args no_args = returned []
    eval_args (more_args e args) =
        let rest = eval_args args in
        and_then (eval e) (λ x. and_then rest (λ xs. returned (x ∷ xs)))

  eval_parsed : Parsed Num → Outcome Num
  eval_parsed (tree e) = eval e
  eval_parsed (syntax_error e) = raised (codes "ToolError: invalid expression: " ++ e)
  eval_parsed (other_error e) = raised e

  -- `CalculatorTool.run`
  run_expression : Text → Outcome Text
  unfolding eval_parsed
  run_expression expression =
      if null (strip expression)
      then raised (codes "ToolError: expression must be a non-empty string")
      else and_then (eval_parsed (parse expression)) (λ value. to_str (settled value))

  run_argument : Option Json → Outcome Text
  unfolding run_expression
  run_argument none = raised (
      codes "TypeError: CalculatorTool.run() missing 1 required positional argument: "
      ++ codes "'expression'")
  run_argument (some (str expression)) = run_expression expression
  run_argument (some _) = raised (codes "ToolError: expression must be a non-empty string")

  unfoldable pub calculator : Tool
  unfolding run_argument
  calculator = record {
    name = codes "calculator";
    description =
        codes "Evaluate a basic arithmetic expression, e.g. '12 * (3 + 4)' or 'sqrt(144)'. "
        ++ (codes "Supports + - * / // % **, parentheses and "
            ++ codes "sqrt/abs/round/min/max/floor/ceil/log.");
    parameters = obj (
        field (codes "type") (str (codes "object")) (
          field (codes "properties")
            (obj (
              field (codes "expression")
                (obj (
                  field (codes "type") (str (codes "string")) (
                    field (codes "description") (str (codes "Arithmetic expression to evaluate"))
                      end)))
                end))
            (field (codes "required") (arr (cons (str (codes "expression")) nil)) end)));
    run = λ fields. finished (run_argument (get_field (codes "expression") fields));
  }
