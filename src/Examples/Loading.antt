-- ===== src/Examples/Loading.antt =====
-- Runs of the theorems on the loader and on classes of blocks.
use func_sim_engine.Prelude.{
  ℕ, ◌≡◌, ◌≢◌, refl, inr, Bool, true, false, Option, none, some, [], ◌∷◌, Str, lit, str_eq, str_lt,
  length, get_elem?, arith, replicate,
}
use func_sim_engine.StdMap.{Map, str_key, find, insert, emplace}
use func_sim_engine.Result.{Result, ok, throw, undefined, out_of_range}
use func_sim_engine.Formula.{words, parse, logic_operations, solve}
use func_sim_engine.Param.{Parameter, clone, copy_data, value_eq, parse_value, to_bytes}
use func_sim_engine.Param.Decimal.{parse_bool}
use func_sim_engine.Param.Types.{SameType}
use func_sim_engine.Subprogram.{Function, FunctionStorage}
use func_sim_engine.Block.{Block, empty_block, copy_use_vars}
use func_sim_engine.Tree.{Tree, node, end, child, Site, site, children, new_site, find_child}
use func_sim_engine.Loader.{
  ParameterDesc, BlockNode, Classes, Loading, loaded, refused, crashed, assemble, is_block_type,
}
use func_sim_engine.Loader.Assembly.Periodical.{assemble_periodical}
use func_sim_engine.Tree.Linked.{Linked}
use func_sim_engine.Loader.Assembly.{EachChild}
use func_sim_engine.Loader.Assembly.Uses.{Fresh, assemble_known}
use func_sim_engine.Exchange.{VariableDesc, no_cond, do_read, do_write}
use func_sim_engine.Exchange.SharedMemory.{Exchanged, process_var, shared_memory_io, vars_is_set}
use func_sim_engine.Exchange.SharedMemory.Areas.{shared_memory_io_frame}
use func_sim_engine.Exchange.SharedMemory.Passing.{written_read}
use func_sim_engine.Examples.{bits, bits-HasBytes, number, name_a, name_n, variables}

abbrev site_of : Str → Block Bool → Site Bool
site_of name b = record (new_site 0 none [] name) { block = b }

abbrev pump : Tree Bool
pump = node (site_of (lit "XXX") (record empty_block { vars = variables false 1 })) end

-- A variable `a` of the block, which its child uses.
abbrev shared_a : ParameterDesc
shared_a = record {
  desc = lit "a flag";
  type = lit "лог";
  value = lit "1";
  source_block = [];
  source_name = [];
  destination = record { destination_block = lit "c"; destination_name = [] } ∷ [];
}

abbrev plant_node : BlockNode Bool
plant_node = record {
  class = [];
  type = lit "периодический";
  period = true;
  priority = true;
  locked_in_stop = true;
  power = [];
  p_map = (name_a, shared_a) ∷ [];
  child_map = child (lit "c") pump end;
  subs_map = [];
  state_map = [];
}

-- No class has anything to join.
abbrev no_classes : Classes Bool
no_classes = record { create = λ name. none; join = λ c s. loaded s }

abbrev tree_or : Tree Bool → Loading (Tree Bool) → Tree Bool
tree_or d (loaded t) = t
tree_or d (refused e) = d
tree_or d crashed = d

abbrev plant : Tree Bool
plant = tree_or pump (assemble no_classes 0 plant_node)

plant_loaded : assemble no_classes 0 plant_node ≡ loaded plant
unfolding assemble str_eq find emplace insert find_child str_lt parse is_block_type parse_value
    parse_bool words
plant_loaded = refl

joins : (c : Option ℕ) (s s' : Site Bool) → no_classes.join c s ≡ loaded s' → s'.block ≡ s.block
joins c s s' h = cc

pumps_Fresh : EachChild Fresh plant_node.child_map
unfolding Linked
pumps_Fresh = (((record { returns = tt; uses = tt }, tt), tt), tt)

abbrev pump_of : Option (Tree Bool) → Tree Bool
pump_of none = pump
pump_of (some t) = t

abbrev loaded_pump : Tree Bool
loaded_pump = pump_of (find_child (lit "c") (children plant))

pump_there : find_child (lit "c") (children plant) ≡ some loaded_pump
unfolding assemble str_eq find emplace insert find_child str_lt parse is_block_type parse_value
    parse_bool words
pump_there = refl

periodical_kept :
    (c : Option ℕ) (s s' : Site Bool)
    → no_classes.join c s ≡ loaded s'
    → s'.is_periodical ≡ s.is_periodical
periodical_kept c s s' h = cc

assemble_periodical_example : (site plant).is_periodical ≡ true
assemble_periodical_example =
    assemble_periodical no_classes 0 plant_node plant periodical_kept plant_loaded

assemble_known_example :
    ((copy_use_vars
        (site plant).block.vars
        (site loaded_pump).block.use_vars
        (site loaded_pump).block).1
      ≢ throw out_of_range)
    × ((copy_use_vars
          (site plant).block.vars
          (site loaded_pump).block.use_vars
          (site loaded_pump).block).1
        ≢ undefined)
assemble_known_example =
    assemble_known no_classes 0 plant_node plant (lit "c") loaded_pump joins pumps_Fresh
      plant_loaded pump_there

-- An area of four bytes that is written, and the same that is read.
abbrev out_desc : VariableDesc
out_desc = record {
  name = name_n;
  offset = 2;
  size = 4;
  read_cond = no_cond;
  write_cond = parse [] true;
}

abbrev in_desc : VariableDesc
in_desc = record {
  name = lit "m";
  offset = 2;
  size = 4;
  read_cond = parse [] true;
  write_cond = no_cond;
}

abbrev writer : Exchanged Bool
writer = record { memory = replicate 8 0; vars = variables true 70000; res = []; errors = [] }

abbrev reader : Exchanged Bool
reader = record { memory = []; vars = (lit "m", number 0) ∷ []; res = []; errors = [] }

n_there : find name_n writer.vars ≡ some (number 70000)
unfolding find str_eq
n_there = refl

m_there : find (lit "m") reader.vars ≡ some (number 0)
unfolding find str_eq
m_there = refl

out_unread : do_read logic_operations vars_is_set writer.vars out_desc ≡ ok false
unfolding do_read solve
out_unread = refl

out_written : do_write logic_operations vars_is_set writer.vars out_desc ≡ ok true
unfolding do_write solve parse words
out_written = refl

in_read : do_read logic_operations vars_is_set reader.vars in_desc ≡ ok true
unfolding do_read solve parse words
in_read = refl

in_unwritten :
    (m : Map Str (Parameter Bool)) → do_write logic_operations vars_is_set m in_desc ≡ ok false
unfolding do_write solve
in_unwritten m = refl

four : length (to_bytes (number 70000).value) ≡ 4
unfolding to_bytes
four = refl

same_type : SameType (clone (number 0)).value (number 70000).value
unfolding clone copy_data value_eq
same_type = tt

written_read_example :
    (x' : Exchanged Bool) × (y' : Exchanged Bool) × (process_var out_desc writer ≡ ok x')
    × (process_var in_desc (record reader { memory = x'.memory }) ≡ ok y')
    × (find (lit "m") y'.res
        ≡ some (clone (record (clone (number 0)) { value = (number 70000).value })))
written_read_example =
    written_read out_desc in_desc writer reader (number 70000) (number 0) bits-HasBytes same_type
      (omega arith) (omega arith) (omega arith) four refl refl n_there m_there out_unread
      out_written in_read in_unwritten

abbrev exchanged_or : Exchanged Bool → Result (Exchanged Bool) → Exchanged Bool
exchanged_or d (ok x) = x
exchanged_or d (throw e) = d
exchanged_or d undefined = d

abbrev after_exchange : Exchanged Bool
after_exchange = exchanged_or writer (shared_memory_io (out_desc ∷ []) writer.memory [] writer.vars)

exchange_runs : shared_memory_io (out_desc ∷ []) writer.memory [] writer.vars ≡ ok after_exchange
unfolding shared_memory_io find str_eq solve parse words
exchange_runs = refl

shared_memory_io_frame_example :
    (length after_exchange.memory ≡ length writer.memory)
    × (get_elem? after_exchange.memory 7 ≡ get_elem? writer.memory 7)
shared_memory_io_frame_example =
    shared_memory_io_frame (out_desc ∷ []) writer.memory [] writer.vars 7 after_exchange
      (inr (omega arith), tt) exchange_runs

-- A function that gives no variables.
abbrev idle : Function Bool ℕ
idle time delta v u heap w = (w, ok (v, heap))

abbrev no_funcs : FunctionStorage Bool ℕ
no_funcs = []
