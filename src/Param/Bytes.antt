-- ===== src/Param/Bytes.antt =====
-- The bytes of a value, and the value that they are read as.
use func_sim_engine.Prelude.{
  ◌||◌, is_some, ℕ, ◌+◌, ◌*◌, ◌/◌, ◌%◌, ◌^◌, ◌<◌, ◌≡◌, refl, ap, Bool, true, false, some, List, [],
  ◌∷◌, arith, length, ◌==◌,
}
use func_sim_engine.Param.Real.{Floats, HasBytes}
use func_sim_engine.Param.Types.{
  SameType, InRange, Paired, SameType-Paired, booleans, integers, reals, texts,
}
use func_sim_engine.Param.{
  Value, boolean, integer, real, text, Parameter, to_bytes, value_of_bytes, from_bytes,
}

integer_bytes :
    (n : ℕ)
    → n < 2 ^ 32
    → n % 256 + 256 * (n / 256 % 256) + 65536 * (n / 65536 % 256) + 16777216 * (n / 16777216 % 256)
      ≡ n
integer_bytes n h = omega arith

module _ {D : Type 0} ⦃fl : Floats D⦄ where
  Paired-bytes :
      {w v : Value D}
      → HasBytes fl
      → InRange v
      → Paired w v
      → value_of_bytes w (to_bytes v) ≡ some v
  unfolding value_of_bytes to_bytes
  Paired-bytes hb r (booleans a true) = refl
  Paired-bytes hb r (booleans a false) = refl
  Paired-bytes hb r (integers a n) = ap (λ k. some (integer k)) (integer_bytes n r)
  Paired-bytes hb r (reals a d) = rw (hb.eight d, hb.same d)
  Paired-bytes hb r (texts a t) = refl

  -- A holder that reads the bytes of a value of its type takes on that value and keeps the rest.
  pub from_bytes-to_bytes :
      (p : Parameter D) (v : Value D)
      → HasBytes fl
      → SameType p.value v
      → InRange v
      → from_bytes p (to_bytes v) ≡ (record p { value = v }, true)
  unfolding from_bytes
  from_bytes-to_bytes p v hb s r = rw (Paired-bytes hb r (SameType-Paired p.value v s))

  -- The lengths that a holder accepts, by its type.
  abbrev accepts : Value D → ℕ → Bool
  accepts (boolean b) n = n == 1 || n == 2
  accepts (integer k) n = n == 4
  accepts (real d) n = n == 8
  accepts (text s) n = true

  value_of_bytes-Accepts :
      (v : Value D) (src : List ℕ) → is_some (value_of_bytes v src) ≡ accepts v (length src)
  unfolding value_of_bytes
  value_of_bytes-Accepts (boolean b) [] = refl
  value_of_bytes-Accepts (boolean b) (x ∷ []) = refl
  value_of_bytes-Accepts (boolean b) (x ∷ y ∷ []) = refl
  value_of_bytes-Accepts (boolean b) (x ∷ y ∷ z ∷ s) = ground arith
  value_of_bytes-Accepts (integer k) [] = refl
  value_of_bytes-Accepts (integer k) (a ∷ []) = refl
  value_of_bytes-Accepts (integer k) (a ∷ b ∷ []) = refl
  value_of_bytes-Accepts (integer k) (a ∷ b ∷ c ∷ []) = refl
  value_of_bytes-Accepts (integer k) (a ∷ b ∷ c ∷ d ∷ []) = refl
  value_of_bytes-Accepts (integer k) (a ∷ b ∷ c ∷ d ∷ e ∷ s) = ground arith
  value_of_bytes-Accepts (real d) src = ground arith
  value_of_bytes-Accepts (text s) src = refl

  -- `from_bytes` accepts exactly the lengths of its type, and leaves the parameter as it was where
  -- it does not accept.
  pub from_bytes-accepts :
      (p : Parameter D) (src : List ℕ)
      → ((from_bytes p src).1 ≡ accepts p.value (length src))
        × ((from_bytes p src).1 ≡ false → (from_bytes p src).0 ≡ p)
  unfolding from_bytes
  from_bytes-accepts p src = ground (arith, value_of_bytes-Accepts p.value src)
