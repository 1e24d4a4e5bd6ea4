-- ===== src/Tree/Calling/Errors.antt =====
-- Which exceptions leave a call of a block.
use func_sim_engine.Prelude.{In, none, ◌≡◌, Str, ◌⊎◌}
use func_sim_engine.StdMap.{Map, str_key, find}
use func_sim_engine.Result.{Result, Exn, out_of_range, bad_cast}
use func_sim_engine.Callable.{Callable}
use func_sim_engine.Subprogram.{Subprogram}
use func_sim_engine.Block.{Block}
use func_sim_engine.Tree.{Tree}
use func_sim_engine.Tree.Calling.{Vars}

-- The two exceptions of the standard library, where `M` says what the first of them comes from.
abbrev Escapes : Type 0 → Exn → Type 0
Escapes M e = ((e ≡ out_of_range) × M) ⊎ (e ≡ bad_cast)

-- A used variable that the block above has not.
abbrev pub Missing : {D : Type 0} → Vars D → Map Str Str → Type 0
Missing above vs = (x : Str × Str) × In x vs × (find x.1 above ≡ none)
