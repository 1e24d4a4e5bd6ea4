-- ===== src/Loader/Nodes/Blocks.antt =====
-- loader/yaml_block.hpp: `decode` of the node of a block, from the reading of the node to the block
-- that is made of it. The nodes of its children are read by the same function, on fuel: one unit for
-- a level of the task.
pub mod Linked
pub mod Enough
use func_sim_engine.Prelude.{
  ℕ, zero, suc, Bool, true, Option, none, some, List, [], ◌∷◌, ◌++◌, Str, lit, if◌then◌else◌,
}
use func_sim_engine.StdMap.{Map, str_key}
use func_sim_engine.Param.Real.{Floats}
use func_sim_engine.Subprogram.{FunctionStorage}
use func_sim_engine.Tree.{Tree, Forest, end, child}
use func_sim_engine.Loader.{
  ParameterDesc, StateD, BlockNode, Classes, Loading, loaded, refused, crashed, wrong_type, check,
  ◌>>=◌, is_block_type, assemble,
}
use func_sim_engine.Loader.Nodes.{
  Yaml, NodeType, scalar, map_node, read_n_validate, validate_map, decode_yes_no, decode_map,
  decode_state, decode_parameter, decode_subprogram, optional, as_text, as_number,
}

-- The map of the children that were read.
abbrev pub forest_of : {D : Type 0} → Map Str (Tree D) → Forest D
forest_of [] = end
forest_of ((k, t) ∷ m) = child k t (forest_of m)

module _ {N D : Type 0} (yaml : Yaml N D) where
  -- The class, the type, the period, the priority, the lock in a stop and the condition.
  unfoldable pub decode_head : N → Loading (BlockNode D)
  unfolding validate_map read_n_validate is_block_type decode_yes_no
  decode_head n = validate_map yaml n >>= λ u. yaml.entry n (lit "класс") >>= λ c.
      read_n_validate yaml c (lit "класс") scalar (as_text yaml) >>= λ class_s.
      yaml.entry n (lit "тип") >>= λ t.
      read_n_validate yaml t (lit "тип") scalar (as_text yaml) >>= λ s_type.
      check (is_block_type s_type) wrong_type >>= λ u. yaml.entry n (lit "период") >>= λ p.
      read_n_validate yaml p (lit "период") scalar (as_number yaml) >>= λ v_period.
      yaml.entry n (lit "приоритет") >>= λ q.
      read_n_validate yaml q (lit "приоритет") scalar (as_number yaml) >>= λ v_priority.
      yaml.entry n (lit "блокировкаВСтопе") >>= λ l.
      read_n_validate yaml l (lit "признак блокировки в стопе") scalar (decode_yes_no yaml)
      >>= λ s_locked_in_stop. yaml.entry n (lit "условиеРаботы") >>= λ w.
          optional yaml [] w (lit "условие работы") scalar (as_text yaml) >>= λ v_power.
          loaded (record {
            class = class_s;
            type = s_type;
            period = v_period;
            priority = v_priority;
            locked_in_stop = s_locked_in_stop;
            power = v_power;
            p_map = [];
            child_map = end;
            subs_map = [];
            state_map = [];
          })

  -- A map of the node that may be missing.
  unfoldable pub decode_part : {V : Type 0} → N → Str → Str → (N → Loading V) → Loading (Map Str V)
  unfolding read_n_validate decode_map
  decode_part n key desc conv =
      yaml.entry n key >>= λ m. optional yaml [] m desc map_node (decode_map yaml conv)

module _ {N D W : Type 0} ⦃fl : Floats D⦄ (yaml : Yaml N D) (classes : N → Classes D)
    (storage : FunctionStorage D W) (start : N → ℕ) where
  -- The maps of the node, with what reads the nodes of the children, and the block. What a class
  -- does depends on the node that it reads its configuration from; `start` is the reading of the
  -- clock when the node is read.
  unfoldable pub decode_parts : (N → Loading (Tree D)) → N → Loading (Tree D)
  unfolding decode_head decode_part decode_parameter decode_subprogram decode_state assemble
  decode_parts decode_child n = decode_head yaml n >>= λ h.
      decode_part yaml n (lit "переменные") (lit "массив переменных") (decode_parameter yaml)
      >>= λ p_map.
          decode_part yaml n (lit "блоки") (lit "массив блоков") decode_child >>= λ child_map.
          decode_part yaml n (lit "подпрограммы") (lit "массив подпрограмм")
            (decode_subprogram yaml storage (start n))
          >>= λ subs_map.
              decode_part yaml n (lit "исходное") (lit "исходное") (decode_state yaml)
              >>= λ state_map. assemble (classes n) (start n) (record h {
                p_map = p_map;
                child_map = forest_of child_map;
                subs_map = subs_map;
                state_map = state_map;
              })

  -- `convert< std::shared_ptr< Block > >::decode`; running out of fuel is a crash.
  unfoldable pub decode_block : ℕ → N → Loading (Tree D)
  unfolding decode_parts
  decode_block zero n = crashed
  decode_block (suc fuel) n = decode_parts (decode_block fuel) n
