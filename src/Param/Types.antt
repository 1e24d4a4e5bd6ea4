-- ===== src/Param/Types.antt =====
-- The types of values. Two holders are of one class where their values are of one type.
use func_sim_engine.Prelude.{ℕ, ◌<◌, ◌^◌, Bool, Str}
use func_sim_engine.Param.{Value, boolean, integer, real, text}

module _ {D : Type 0} where
  abbrev pub SameType : Value D → Value D → Type 0
  SameType (boolean a) (boolean b) = Unit
  SameType (integer a) (integer b) = Unit
  SameType (real a) (real b) = Unit
  SameType (text a) (text b) = Unit
  SameType (boolean a) _ = ⊥
  SameType (integer a) _ = ⊥
  SameType (real a) _ = ⊥
  SameType (text a) _ = ⊥

  -- An integer is a pattern of 32 bits.
  abbrev pub InRange : Value D → Type 0
  InRange (integer n) = n < 2 ^ 32
  InRange _ = Unit

-- The four cases of two values of one type.
pub data Paired {D : Type 0} : Value D → Value D → Type 0 where
  booleans : (a b : Bool) → Paired (boolean a) (boolean b)
  integers : (a b : ℕ) → Paired (integer a) (integer b)
  reals : (a b : D) → Paired (real a) (real b)
  texts : (a b : Str) → Paired (text a) (text b)

pub SameType-Paired : {D : Type 0} (v w : Value D) → SameType v w → Paired v w
SameType-Paired (boolean a) (boolean b) s = booleans a b
SameType-Paired (integer a) (integer b) s = integers a b
SameType-Paired (real a) (real b) s = reals a b
SameType-Paired (text a) (text b) s = texts a b
SameType-Paired (boolean a) (integer n) s = absurd s
SameType-Paired (boolean a) (real n) s = absurd s
SameType-Paired (boolean a) (text n) s = absurd s
SameType-Paired (integer a) (boolean n) s = absurd s
SameType-Paired (integer a) (real n) s = absurd s
SameType-Paired (integer a) (text n) s = absurd s
SameType-Paired (real a) (boolean n) s = absurd s
SameType-Paired (real a) (integer n) s = absurd s
SameType-Paired (real a) (text n) s = absurd s
SameType-Paired (text a) (boolean n) s = absurd s
SameType-Paired (text a) (integer n) s = absurd s
SameType-Paired (text a) (real n) s = absurd s

pub Paired-SameType : {D : Type 0} {v w : Value D} → Paired v w → SameType v w
Paired-SameType (booleans a b) = tt
Paired-SameType (integers a b) = tt
Paired-SameType (reals a b) = tt
Paired-SameType (texts a b) = tt

pub Paired-trans : {D : Type 0} {u v w : Value D} → Paired u v → Paired v w → Paired u w
Paired-trans (booleans a b) (booleans c d) = booleans a d
Paired-trans (integers a b) (integers c d) = integers a d
Paired-trans (reals a b) (reals c d) = reals a d
Paired-trans (texts a b) (texts c d) = texts a d

pub Paired-sym : {D : Type 0} {v w : Value D} → Paired v w → Paired w v
Paired-sym (booleans a b) = booleans b a
Paired-sym (integers a b) = integers b a
Paired-sym (reals a b) = reals b a
Paired-sym (texts a b) = texts b a
