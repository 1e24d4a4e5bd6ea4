-- ===== src/Param/Decimal.antt =====
-- `std::to_string` and `std::istringstream >>` at `int32_t` and `bool`, for whole texts.
-- A number below 2^32 has at most ten digits.
use func_sim_engine.Prelude.{
  ℕ, zero, suc, ◌+◌, ◌-◌, ◌*◌, ◌/◌, ◌%◌, ◌^◌, Bool, true, false, ◌&&◌, Option, none, some, [], ◌∷◌,
  ◌++◌, ltb, leb, ◌==◌, if◌then◌else◌, Str,
}
use func_sim_engine.Formula.{is_space}

-- The digits of `n`, at most as many as the fuel.
unfoldable pub print_nat : ℕ → ℕ → Str
print_nat zero n = []
print_nat (suc f) n =
    let front = print_nat f (n / 10) in
    if ltb n 10 then (48 + n) ∷ [] else front ++ (48 + n % 10) ∷ []

unfoldable pub print_int : ℕ → Str
unfolding print_nat
print_int n = if ltb n (2 ^ 31) then print_nat 10 n else b'-' ∷ print_nat 10 (2 ^ 32 - n)

unfoldable pub is_digit : ℕ → Bool
is_digit c = leb 48 c && leb c 57

-- All of a text as digits.
unfoldable pub parse_digits : ℕ → Str → Option ℕ
unfolding is_digit
parse_digits acc [] = some acc
parse_digits acc (c ∷ s) =
    let rest = parse_digits (acc * 10 + (c - 48)) s in if is_digit c then rest else none

unfoldable pub parse_nat : Str → Option ℕ
unfolding parse_digits
parse_nat [] = none
parse_nat (c ∷ s) = parse_digits 0 (c ∷ s)

-- A magnitude in range, as a bit pattern; out of range is a failure of the stream.
unfoldable pub positive : ℕ → Option ℕ
positive n = if ltb n (2 ^ 31) then some n else none

unfoldable pub negative : ℕ → Option ℕ
negative n = if leb n (2 ^ 31) then some ((2 ^ 32 - n) % 2 ^ 32) else none

-- What follows a conversion that did not fail.
abbrev pub bind : Option ℕ → (ℕ → Option ℕ) → Option ℕ
bind none f = none
bind (some n) f = f n

unfoldable pub parse_signed : Str → Option ℕ
unfolding parse_nat positive negative
parse_signed [] = none
parse_signed (c ∷ s) =
    if c == b'-'
    then bind (parse_nat s) negative
    else if c == b'+'
    then bind (parse_nat s) positive
    else bind (parse_nat (c ∷ s)) positive

-- White space in front is skipped.
unfoldable pub skip_space : Str → Str
unfolding is_space
skip_space [] = []
skip_space (c ∷ s) = if is_space c then skip_space s else c ∷ s

unfoldable pub parse_int : Str → Option ℕ
unfolding skip_space parse_signed
parse_int s = parse_signed (skip_space s)

-- At `bool` the stream reads a number and accepts 0 and 1.
unfoldable pub parse_bool : Str → Option Bool
unfolding parse_int
parse_bool s = elim (parse_int s) [
  | none ↦ none
  | some n ↦ if n == 0 then some false else if n == 1 then some true else none
]
