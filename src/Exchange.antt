-- ===== src/Exchange.antt =====
-- What the classes of blocks that exchange variables share: kernel/block_class/exchange_common.hpp.
pub mod Checksum
pub mod Udp
pub mod SharedMemory
use func_sim_engine.Prelude.{ℕ, Bool, true, false, List, [], Str}
use func_sim_engine.StdMap.{Map}
use func_sim_engine.Result.{Result}
use func_sim_engine.Formula.{Operations, Solver, solve, parse}

-- `variable_desc`
pub record VariableDesc : Type 0 where
  pub name : Str
  pub offset : ℕ
  pub size : ℕ
  pub read_cond : Solver Bool
  pub write_cond : Solver Bool

-- The default constructors: an empty formula gives `false`.
abbrev pub no_cond : Solver Bool
no_cond = record { s = []; default = false }

unfoldable pub variable_desc : VariableDesc
variable_desc = record {
  name = [];
  offset = 0;
  size = 0;
  read_cond = no_cond;
  write_cond = no_cond;
}

unfoldable pub set_read_cond : VariableDesc → Str → VariableDesc
set_read_cond v rs = record v { read_cond = parse rs true }

unfoldable pub set_write_cond : VariableDesc → Str → VariableDesc
set_write_cond v ws = record v { write_cond = parse ws true }

module _ {P : Type 0} (ops : Operations Bool) (get : P → Result Bool) (m : Map Str P) where
  unfoldable pub do_read : VariableDesc → Result Bool
  do_read v = solve ops get m v.read_cond

  unfoldable pub do_write : VariableDesc → Result Bool
  do_write v = solve ops get m v.write_cond
