-- ===== src/Tools/Calculator/Safety.antt =====
-- What the calculator (backend/app/tools/calculator.py) evaluates: trees of allowed nodes only.
use agentic_execution.Prelude.{
  ◌≡◌, refl, inl, inr, Bool, true, false, not, ◌&&◌, [], ◌∷◌, arith, Bool-cases, codes,
}
use mathlib.Core.Bool.{false≢true}
use agentic_execution.Llm.{Outcome, returned, raised}
use agentic_execution.Tools.Calculator.{
  Expr, number, other_constant, binary, unary, name, call, other_node, Args, no_args, more_args,
  Python, known_binary, known_unary, function_names, is_one_of, and_then, combine, eval, eval_args,
}

-- The allowed trees, written without the evaluator: numbers, the listed operators, constants and
-- functions, and no keyword.
mutual
  pub is_allowed : {N : Type 0} → Expr N → Bool
  is_allowed (number n) = true
  is_allowed other_constant = false
  is_allowed (binary op left right) = known_binary op && is_allowed left && is_allowed right
  is_allowed (unary op operand) = known_unary op && is_allowed operand
  is_allowed (name id) = is_one_of id (codes "pi" ∷ codes "e" ∷ [])
  is_allowed (call func args has_keywords) =
      is_one_of func (
        codes "sqrt"
        ∷ codes "abs"
        ∷ codes "round"
        ∷ codes "min"
        ∷ codes "max"
        ∷ codes "floor"
        ∷ codes "ceil"
        ∷ codes "log"
        ∷ [])
      && not has_keywords
      && args_allowed args
  is_allowed other_node = false

  args_allowed : {N : Type 0} → Args N → Bool
  args_allowed no_args = true
  args_allowed (more_args e args) = is_allowed e && args_allowed args

abbrev is_returned {ℓ} : {A : Type ℓ} → Outcome A → Bool
is_returned (returned x) = true
is_returned (raised e) = false

and_then-returned :
    {A B : Type 0} (o : Outcome A) (next : A → Outcome B)
    → is_returned (and_then o next) ≡ true
    → is_returned o ≡ true
and_then-returned (returned x) next h = refl
and_then-returned (raised e) next h = h

and_then-both :
    {A B C : Type 0} (o : Outcome A) (p : Outcome B) (next : A → B → Outcome C)
    → is_returned (and_then o (λ x. and_then p (next x))) ≡ true
    → is_returned p ≡ true
and_then-both (returned x) p next h = and_then-returned p (next x) h
and_then-both (raised e) p next h = cc

module _ (python : Python) where
  mutual
    unfolding eval is_allowed

    eval-allowed : (e : Expr python.Num) → is_returned (eval python e) ≡ true → is_allowed e ≡ true
    eval-allowed (number n) h = refl
    eval-allowed other_constant h = h
    eval-allowed (binary op left right) h = elim (Bool-cases (known_binary op)) [
      | inr unknown ↦ absurd (false≢true (rw unknown at h))
      | inl known ↦
          let both = rw known at h in
          let l = eval-allowed left (and_then-returned (eval python left) _ both) in
          let r =
            eval-allowed right
              (and_then-both (eval python left) (eval python right) (combine python op) both) in
          ground (arith, known, l, r)
    ]
    eval-allowed (unary op operand) h = elim (Bool-cases (known_unary op)) [
      | inr unknown ↦ absurd (false≢true (rw unknown at h))
      | inl known ↦
          let x =
            eval-allowed operand (and_then-returned (eval python operand) _ (rw known at h)) in
          ground (arith, known, x)
    ]
    eval-allowed (name id) h = ground arith
    eval-allowed (call func args has_keywords) h =
        elim (Bool-cases (is_one_of func function_names && not has_keywords)) [
          | inr unknown ↦ absurd (false≢true (rw unknown at h))
          | inl known ↦
              let xs =
                eval_args-allowed args
                  (and_then-returned (eval_args python args) _ (rw known at h)) in
              ground (arith, known, xs)
        ]
    eval-allowed other_node h = h

    eval_args-allowed :
        (args : Args python.Num)
        → is_returned (eval_args python args) ≡ true
        → args_allowed args ≡ true
    eval_args-allowed no_args h = refl
    eval_args-allowed (more_args e args) h =
        let x = eval-allowed e (and_then-returned (eval python e) _ h) in
        let xs =
          eval_args-allowed args
            (and_then-both (eval python e) (eval_args python args) (λ y ys. returned (y ∷ ys)) h) in
        ground (arith, x, xs)

-- The calculator gives a value only for trees of numbers, the listed operators, constants and
-- functions, with no keyword: every other tree raises.
pub eval-is_allowed :
    (python : Python) (e : Expr python.Num) (value : python.Num)
    → eval python e ≡ returned value
    → is_allowed e ≡ true
eval-is_allowed python e value given = eval-allowed python e (rw given refl)
