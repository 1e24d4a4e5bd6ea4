-- ===== src/Examples/Trees.antt =====
-- Runs of the theorems on trees of blocks.
use func_sim_engine.Prelude.{
  ℕ, ◌+◌, ◌≡◌, ◌≢◌, refl, Bool, true, false, none, some, [], ◌∷◌, Str, lit, str_eq,
}
use func_sim_engine.StdMap.{str_key, find}
use func_sim_engine.Result.{Result, ok}
use func_sim_engine.Param.{from_string}
use func_sim_engine.Callable.{Callable}
use func_sim_engine.Block.{Block, empty_block, return_vars}
use func_sim_engine.Block.Wiring.{IsBuilt-IsWired}
use func_sim_engine.Names.{extract_block_name}
use func_sim_engine.Command.{set_value, run}
use func_sim_engine.Command.Effects.{given, set_value_sets}
use func_sim_engine.Tree.{Tree, node, end, child, Site, site, new_site, get_variable}
use func_sim_engine.Tree.Calling.{Machine, Vars, call}
use func_sim_engine.Tree.Calling.Growth.{AllWired}
use func_sim_engine.Tree.Calling.Wired.{call-AllWired}
use func_sim_engine.Examples.{bits, flag, name_a, variables}
use func_sim_engine.Examples.Blocks.{built, built-IsBuilt}

-- A clock that goes on by one at each reading, no functions, and classes without errors.
abbrev pub machine : Machine Bool ℕ
machine = record {
  clock = record { universal_time = λ w. (w, w + 1); elapsed = λ t start. true };
  storage = [];
  has_errors = λ h w. false;
  get_error_msg = λ h w. ([], w);
}

abbrev site_of : Str → Block Bool → Site Bool
site_of name b = record (new_site 0 none [] name) { block = b }

-- A block over one child.
abbrev plant : Tree Bool
plant = node (site_of (lit "p") built) (
    child (lit "c") (node (site_of (lit "c") (record empty_block { vars = variables false 1 })) end)
      end)

plant-AllWired : AllWired plant
unfolding AllWired
plant-AllWired =
    (IsBuilt-IsWired built built-IsBuilt, ((record { returns = tt; uses = tt }, tt), tt))

call-AllWired_example :
    AllWired (call machine plant true [] [] 5).0.0
    × (res : Vars Bool) × (return_vars
          (site (call machine plant true [] [] 5).0.0).block.res_vars
          []
          (site (call machine plant true [] [] 5).0.0).block
        ≡ ok res)
call-AllWired_example = call-AllWired machine plant true [] [] 5 plant-AllWired

-- A block that uses a variable that is not there.
abbrev lost : Tree Bool
lost =
    node
      (site_of (lit "p")
        (record empty_block { vars = variables false 1; use_vars = (name_a, lit "x") ∷ [] }))
      end

abbrev child_a : Str
child_a = lit "c.a"

abbrev child_n : Str
child_n = lit "c.n"

paths_differ : child_a ≢ child_n
paths_differ = λ h. cc

there : get_variable plant child_a ≡ some (flag false)
unfolding get_variable extract_block_name find str_eq
there = refl

abbrev show : Bool → Str
show b = []

set_value_sets_example :
    (t' : Tree Bool) × (said : Str) × (run show set_value (given set_value child_a (lit "1")) plant
      ≡ ok (t', said))
    × (get_variable t' child_a ≡ some (from_string (flag false) (lit "1")).0)
    × (get_variable t' child_n ≡ get_variable plant child_n)
set_value_sets_example =
    set_value_sets show child_a (lit "1") plant (flag false) child_n there paths_differ
