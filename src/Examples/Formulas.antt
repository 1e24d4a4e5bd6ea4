-- ===== src/Examples/Formulas.antt =====
-- Runs of the theorems on formulas.
use func_sim_engine.Prelude.{◌≡◌, refl, Bool, true, false, [], ◌∷◌, Str, lit, str_eq, str_lt, All}
use func_sim_engine.StdMap.{Map, str_key, find, insert, emplace}
use func_sim_engine.Result.{Result, ok}
use func_sim_engine.Formula.{
  Solver, parse, get_cond, solve, value, logic_operations, get_operands, operands, is_operand,
  is_operator, add_unary_op, add_binary_op,
}
use func_sim_engine.Formula.Postfix.{
  Expr, operand, negation, conjunction, postfix, eval, IsPlain, solve-postfix,
}
use func_sim_engine.Formula.Text.{parse-get_cond}
use func_sim_engine.Formula.Failure.{solve-Verdict, first_short, Verdict}

abbrev word_a : Str
word_a = lit "a"

abbrev word_b : Str
word_b = lit "b"

-- `a` is true and `b` is false.
abbrev state : Map Str Bool
state = (word_a, true) ∷ (word_b, false) ∷ []

abbrev other_state : Map Str Bool
other_state = (word_a, true) ∷ []

abbrev read : Bool → Result Bool
read b = ok b

-- `a b ! &`
abbrev condition : Expr
condition = conjunction (operand word_a) (negation (operand word_b))

condition-IsPlain : IsPlain condition
unfolding is_operand is_operator logic_operations add_unary_op add_binary_op emplace find insert
    str_eq str_lt
condition-IsPlain = (refl, refl)

solve-postfix_example :
    solve logic_operations read state (record { s = postfix condition; default = true })
    ≡ eval read state condition
solve-postfix_example = solve-postfix read state condition true condition-IsPlain

parse-get_cond_example :
    parse (get_cond (parse (lit " a  b! & ") true)) true ≡ parse (lit " a  b! & ") true
parse-get_cond_example = parse-get_cond (lit " a  b! & ") true

-- `a !`
abbrev short_formula : Solver Bool
short_formula = record { s = word_a ∷ lit "!" ∷ []; default = true }

same_values :
    All (λ x. find x state ≡ find x other_state) (get_operands logic_operations short_formula)
unfolding get_operands operands is_operand is_operator logic_operations add_unary_op add_binary_op
    emplace find insert str_eq str_lt
same_values = (refl, tt)

-- `a &`, which lacks an argument.
abbrev bad_formula : Solver Bool
bad_formula = record { s = word_a ∷ lit "&" ∷ []; default = true }

have_values :
    All
      (λ x. (v : Bool) × (value logic_operations read state x ≡ ok v))
      (get_operands logic_operations bad_formula)
unfolding value get_operands operands is_operand is_operator logic_operations add_unary_op
    add_binary_op emplace find insert str_eq str_lt
have_values = ((true, refl), tt)

solve-Verdict_example :
    Verdict (first_short 0 0 bad_formula.s) (solve logic_operations read state bad_formula)
solve-Verdict_example = solve-Verdict read state bad_formula have_values
