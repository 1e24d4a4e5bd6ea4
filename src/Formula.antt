-- ===== src/Formula.antt =====
-- `formula_solver` of kernel/detail/std.hpp: formulas in postfix form over the variables of a map.
-- A stack is the list of its entries, the top in front.
pub mod Postfix
pub mod Text
pub mod Failure
use func_sim_engine.Prelude.{
  ℕ, zero, suc, ◌+◌, ◌≡◌, refl, Bool, true, false, not, ◌&&◌, ◌||◌, Option, none, some, List, [],
  ◌∷◌, ◌++◌, length, ◌==◌, leb, if◌then◌else◌, Str, lit, str_eq, str_lt, is_some,
}
use func_sim_engine.StdMap.{Map, Key, str_key, find, insert, emplace}
use func_sim_engine.Result.{
  Result, ok, throw, undefined, Exn, invalid_operation, invalid_args, out_of_range, ◌>>=◌,
}

-- `stack_func`: the result and the stack that is left.
abbrev pub StackFunc : Type 0 → Type 0
StackFunc T = List T → Result (T × List T)

-- `_ops`
abbrev pub Operations : Type 0 → Type 0
Operations T = Map Str (StackFunc T)

-- The constructor of `invalid_operation` leaves its field `operation` empty.
abbrev new_invalid_operation : Str → Exn
new_invalid_operation op = invalid_operation []

-- `op` and `position` are set by `solve`.
abbrev new_invalid_args : ℕ → ℕ → Exn
new_invalid_args presented expected = invalid_args presented expected [] 0

module _ {T : Type 0} where
  unfoldable pub unary : (T → T) → StackFunc T
  unary f [] = throw (new_invalid_args 0 1)
  unary f (v ∷ st) = ok (f v, f v ∷ st)

  unfoldable pub binary : (T → T → T) → StackFunc T
  binary f [] = throw (new_invalid_args 0 2)
  binary f (v ∷ []) = throw (new_invalid_args 1 2)
  binary f (v2 ∷ v1 ∷ st) = ok (f v1 v2, f v1 v2 ∷ st)

  unfoldable pub add_unary_op : Str → (T → T) → Operations T → Operations T
  add_unary_op op f ops = (emplace op (unary f) ops).0

  unfoldable pub add_binary_op : Str → (T → T → T) → Operations T → Operations T
  add_binary_op op f ops = (emplace op (binary f) ops).0

  -- `Operations::call`
  unfoldable pub call : Operations T → Str → StackFunc T
  call ops op st = elim (find op ops) [ none ↦ throw (new_invalid_operation op) | some f ↦ f st ]

  -- `Operations::is_operator`
  unfoldable pub is_operator : Operations T → Str → Bool
  is_operator ops str = is_some (find str ops)

  unfoldable pub is_operand : Operations T → Str → Bool
  unfolding is_operator
  is_operand ops str = not (is_operator ops str)

-- `LogicOperations`
unfoldable pub logic_operations : Operations Bool
unfolding add_unary_op add_binary_op unary binary call emplace find insert str_eq str_lt
logic_operations =
    add_unary_op (lit "!") not (add_binary_op (lit "|") ◌||◌ (add_binary_op (lit "&") ◌&&◌ []))

-- `std::isspace` in the classic locale.
unfoldable pub is_space : ℕ → Bool
is_space c = c == 32 || leb 9 c && leb c 13

abbrev flush : Str → List Str
flush [] = []
flush (c ∷ w) = (c ∷ w) ∷ []

-- The words that `std::istream_iterator< std::string >` reads; the first argument is the word read
-- so far.
unfoldable pub words : Str → Str → List Str
words w [] = flush w
words w (c ∷ s) =
    let next = words [] s in
    let same = words (w ++ c ∷ []) s in if is_space c then flush w ++ next else same

-- The loop of `get_cond`: each token and a space.
unfoldable pub print : List Str → Str
print [] = []
print (o ∷ os) = o ++ 32 ∷ print os

-- `StdFormulaSolver`: `_s`, `_default`.
pub record Solver (T : Type 0) : Type 0 where
  pub s : List Str
  pub default : T

module _ {T : Type 0} where
  -- The constructor from a text.
  unfoldable pub parse : Str → T → Solver T
  parse src d = record { s = words [] src; default = d }

  -- `get_cond`
  unfoldable pub get_cond : Solver T → Str
  unfolding print
  get_cond f = print f.s

  unfoldable pub operands : Operations T → List Str → List Str
  operands ops [] = []
  operands ops (w ∷ ws) = if is_operand ops w then w ∷ operands ops ws else operands ops ws

  unfoldable pub get_operands : Operations T → Solver T → List Str
  unfolding operands
  get_operands ops f = operands ops f.s

  -- The handler of `invalid_args` around a call.
  abbrev pub annotate : Str → ℕ → Result (T × List T) → Result (List T)
  annotate op pos (ok (t, st)) = ok st
  annotate op pos (throw (invalid_args pres exp _ _)) = throw (invalid_args pres exp op pos)
  annotate op pos (throw e) = throw e
  annotate op pos undefined = undefined

  -- `st.top()`
  abbrev pub top : List T → Result T
  top [] = undefined
  top (v ∷ st) = ok v

module _ {T P : Type 0} (ops : Operations T) (get : P → Result T) (m : Map Str P) where
  -- `ValueGetter< T >::get( m.at( name ) )`
  unfoldable pub value : Str → Result T
  value name = elim (find name m) [ none ↦ throw out_of_range | some p ↦ get p ]

  -- One round of the loop: the token at position `pos`.
  unfoldable pub token : ℕ → Str → List T → Result (List T)
  unfolding is_operand
  token pos w st =
      if is_operand ops w then (value w >>= λ v. ok (v ∷ st)) else annotate w pos (call ops w st)

  -- The loop, from position `pos` on.
  unfoldable pub tokens : ℕ → List Str → List T → Result (List T)
  tokens pos [] st = ok st
  tokens pos (w ∷ ws) st = token pos w st >>= λ st'. tokens (pos + 1) ws st'

  -- `solve`
  unfoldable pub solve : Solver T → Result T
  solve f = elim f.s [ [] ↦ ok f.default | w ∷ ws ↦ tokens 0 (w ∷ ws) [] >>= top ]
