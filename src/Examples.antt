-- ===== src/Examples.antt =====
-- Concrete data for the runs of the theorems: a `double` of two values, a block, a message.
pub mod Parameters
pub mod Formulas
pub mod Scheduling
pub mod Blocks
pub mod Trees
pub mod Loading
pub mod Messages
pub mod Instructions
pub mod Callables
pub mod Steps
pub mod Documents
pub mod Tasks
pub mod Process
use func_sim_engine.Prelude.{
  ℕ, ◌≡◌, refl, Bool, true, false, not, ◌&&◌, ◌||◌, Option, none, some, List, [], ◌∷◌, Str, lit,
  str_eq, ◌==◌, if◌then◌else◌, length, replicate, arith,
}
use func_sim_engine.StdMap.{Map}
use func_sim_engine.Param.Real.{Floats, HasBytes}
use func_sim_engine.Param.{Parameter, Value, boolean, integer, real, text}
use func_sim_engine.Scheduler.Order.{IsOrder}
use func_sim_engine.Exchange.{VariableDesc, no_cond}
use func_sim_engine.Exchange.Udp.{UdpExchange, InetBuffer}

abbrev is_one : List ℕ → Bool
is_one [] = false
is_one (b ∷ bs) = b == 1

abbrev bit_of_text : Str → Option Bool
bit_of_text s =
    if str_eq s (lit "1") then some true else if str_eq s (lit "0") then some false else none

abbrev bit_bytes : Bool → List ℕ
bit_bytes b = (if b then 1 else 0) ∷ replicate 7 0

-- Reals that are 0 or 1.
instance abbrev pub bits : Floats Bool
bits = record {
  zero = false;
  one = true;
  add = λ a b. a || b;
  sub = λ a b. a && not b;
  eq = λ a b. if a then b else not b;
  lt = λ a b. not a && b;
  print = λ a. if a then lit "1" else lit "0";
  parse = bit_of_text;
  to_bytes = bit_bytes;
  of_bytes = is_one;
}

pub bits-HasBytes : HasBytes bits
bits-HasBytes = record { eight = eight; same = same }
  where
    eight : (d : Bool) → length (bits.to_bytes d) ≡ 8
    eight true = refl
    eight false = refl

    same : (d : Bool) → bits.of_bytes (bits.to_bytes d) ≡ d
    same true = refl
    same false = refl

pub bits-IsOrder : IsOrder bits.lt (λ d. bits.eq d d ≡ true)
bits-IsOrder = record { asym = λ a b h. ground arith; cotrans = λ a b c n h k. ground arith }

-- A logical and an integer variable.
abbrev pub flag : Bool → Parameter Bool
flag b = record { type = lit "лог"; desc = lit "a flag"; locked = false; value = boolean b }

abbrev pub number : ℕ → Parameter Bool
number n = record { type = lit "цел"; desc = []; locked = false; value = integer n }

abbrev pub name_a : Str
name_a = lit "a"

abbrev pub name_n : Str
name_n = lit "n"

-- The variables `a` and `n`.
abbrev pub variables : Bool → ℕ → Map Str (Parameter Bool)
variables b n = (name_a, flag b) ∷ (name_n, number n) ∷ []
