-- ===== src/Param/Strings.antt =====
-- The text of a value, and the value that it is read as.
use func_sim_engine.Prelude.{
  ℕ, zero, suc, ◌+◌, ◌-◌, ◌*◌, ◌/◌, ◌%◌, ◌^◌, ◌<◌, ◌≤◌, ◌≡◌, refl, ap, ◌∙◌, true, false, some, [],
  ◌∷◌, ◌++◌, arith, ltb, Str, Bool-cases, inl, inr, lt→ltb,
}
use native.Mathlib.Nat.{pow-suc}
use func_sim_engine.Param.Real.{Floats}
use func_sim_engine.Param.Decimal.{
  print_nat, print_int, is_digit, parse_digits, parse_signed, parse_int, parse_bool, bind, positive,
  negative,
}
use func_sim_engine.Param.Types.{
  SameType, InRange, Paired, SameType-Paired, booleans, integers, reals, texts,
}
use func_sim_engine.Param.{Value, real, Parameter, to_string, parse_value, from_string}

parse_digits-append :
    (acc : ℕ) (s : Str) (c : ℕ)
    → parse_digits acc (s ++ c ∷ []) ≡ bind (parse_digits acc s) (λ m. parse_digits m (c ∷ []))
unfolding parse_digits
parse_digits-append acc [] c = refl
parse_digits-append acc (b ∷ s) c = ground (arith, parse_digits-append (acc * 10 + (b - 48)) s c)

parse_digit : (m d : ℕ) → d < 10 → parse_digits m ((48 + d) ∷ []) ≡ some (m * 10 + d)
unfolding parse_digits
parse_digit m d h = ground arith

first_digit : (n : ℕ) → n < 10 → parse_digits 0 ((48 + n) ∷ []) ≡ some n
first_digit n h = parse_digit 0 n h ∙ ap some (omega arith)

-- One digit more is printed and read.
print_digit :
    (front : Str) (n : ℕ)
    → parse_digits 0 front ≡ some (n / 10)
    → parse_digits 0 (front ++ (48 + n % 10) ∷ []) ≡ some n
print_digit front n h =
    rw (parse_digits-append 0 front (48 + n % 10), h)
      (parse_digit (n / 10) (n % 10) (omega arith) ∙ ap some (omega arith))

parse_digits-print_nat : (f n : ℕ) → n < 10 ^ f * 10 → parse_digits 0 (print_nat (suc f) n) ≡ some n
unfolding print_nat
parse_digits-print_nat zero n h = rw (lt→ltb n 10 (omega arith)) (first_digit n (omega arith))
parse_digits-print_nat (suc f) n h = elim (Bool-cases (ltb n 10)) [
  | inl e ↦ rw e (first_digit n (ground arith))
  | inr e ↦ rw e (
      print_digit (print_nat (suc f) (n / 10)) n
        (parse_digits-print_nat f (n / 10) (omega (arith, pow-suc 10 f))))
]

-- What is printed begins with a digit.
abbrev BeginsWithDigit : Str → Type 0
BeginsWithDigit [] = ⊥
BeginsWithDigit (c ∷ s) = is_digit c ≡ true

append-BeginsWithDigit : (s t : Str) → BeginsWithDigit s → BeginsWithDigit (s ++ t)
append-BeginsWithDigit [] t h = absurd h
append-BeginsWithDigit (c ∷ s) t h = h

digit-BeginsWithDigit : (d : ℕ) → d < 10 → BeginsWithDigit ((48 + d) ∷ [])
unfolding is_digit
digit-BeginsWithDigit d h = ground arith

print_nat-BeginsWithDigit : (f n : ℕ) → BeginsWithDigit (print_nat (suc f) n)
unfolding print_nat
print_nat-BeginsWithDigit zero n = elim (Bool-cases (ltb n 10)) [
  | inl e ↦ rw e (digit-BeginsWithDigit n (ground arith))
  | inr e ↦ rw e (digit-BeginsWithDigit (n % 10) (omega arith))
]
print_nat-BeginsWithDigit (suc f) n = elim (Bool-cases (ltb n 10)) [
  | inl e ↦ rw e (digit-BeginsWithDigit n (ground arith))
  | inr e ↦
      rw e (
        append-BeginsWithDigit (print_nat (suc f) (n / 10)) _
          (print_nat-BeginsWithDigit f (n / 10)))
]

negative-complement : (n : ℕ) → 2 ^ 31 ≤ n → n < 2 ^ 32 → negative (2 ^ 32 - n) ≡ some n
unfolding negative
negative-complement n l h = ground arith

-- A text of digits is read as the number, with or without a sign in front.
parse_int-digits :
    (s : Str) (n : ℕ) → BeginsWithDigit s → parse_digits 0 s ≡ some n → parse_int s ≡ positive n
unfolding parse_int parse_signed is_digit
parse_int-digits [] n b h = absurd b
parse_int-digits (c ∷ s) n b h = ground arith

parse_int-minus :
    (s : Str) (n : ℕ)
    → BeginsWithDigit s
    → parse_digits 0 s ≡ some n
    → parse_int (b'-' ∷ s) ≡ negative n
unfolding parse_int parse_signed
parse_int-minus [] n b h = absurd b
parse_int-minus (c ∷ s) n b h = cc

parse_int-print_int : (n : ℕ) → n < 2 ^ 32 → parse_int (print_int n) ≡ some n
unfolding print_int
parse_int-print_int n h = elim (Bool-cases (ltb n (2 ^ 31))) [
  | inl e ↦ rw e (
      parse_int-digits (print_nat 10 n) n (print_nat-BeginsWithDigit 9 n)
        (parse_digits-print_nat 9 n (omega arith))
      ∙ unfold positive in rw e)
  | inr e ↦ rw e (
      parse_int-minus (print_nat 10 (2 ^ 32 - n)) (2 ^ 32 - n)
        (print_nat-BeginsWithDigit 9 (2 ^ 32 - n))
        (parse_digits-print_nat 9 (2 ^ 32 - n) (omega arith))
      ∙ negative-complement n (ground arith) h)
]

module _ {D : Type 0} ⦃fl : Floats D⦄ where
  -- The types whose text gives the value back: `std::to_string` of a `double` rounds.
  abbrev pub IsExact : Value D → Type 0
  IsExact (real d) = ⊥
  IsExact v = InRange v

  Paired-texts : {w v : Value D} → IsExact v → Paired w v → parse_value w (to_string v) ≡ some v
  unfolding parse_value to_string
  Paired-texts r (booleans a true) = unfold parse_bool in refl
  Paired-texts r (booleans a false) = unfold parse_bool in refl
  Paired-texts r (integers a n) = rw (parse_int-print_int n r)
  Paired-texts r (reals a d) = absurd r
  Paired-texts r (texts a t) = refl

  -- A holder that reads the text of a logical, integer or text value of its type takes on that
  -- value and keeps the rest.
  pub from_string-to_string :
      (p : Parameter D) (v : Value D)
      → SameType p.value v
      → IsExact v
      → from_string p (to_string v) ≡ (record p { value = v }, true)
  unfolding from_string
  from_string-to_string p v s r = rw (Paired-texts r (SameType-Paired p.value v s))

  -- A text that is refused leaves the parameter as it was.
  pub from_string_refused :
      (p : Parameter D) (src : Str) → (from_string p src).1 ≡ false → (from_string p src).0 ≡ p
  unfolding from_string
  from_string_refused p src h = ground arith
