-- ===== src/Param/Real.antt =====
-- The type `double`: what the sources use of it, and what IEEE 754 and the C library say of that.
use func_sim_engine.Prelude.{ℕ, ◌≡◌, Bool, Option, List, length, Str}

pub record Floats (D : Type 0) : Type 0 where
  pub zero : D
  pub one : D
  pub add : D → D → D
  pub sub : D → D → D
  pub eq : D → D → Bool
  pub lt : D → D → Bool
  -- `std::to_string`, and `std::istringstream >>` that reads the whole text
  pub print : D → Str
  pub parse : Str → Option D
  -- the eight bytes of the object
  pub to_bytes : D → List ℕ
  pub of_bytes : List ℕ → D

-- The object representation is copied to and fro without loss.
pub record HasBytes {D : Type 0} (fl : Floats D) : Type 0 where
  pub eight : (d : D) → length (fl.to_bytes d) ≡ 8
  pub same : (d : D) → fl.of_bytes (fl.to_bytes d) ≡ d
