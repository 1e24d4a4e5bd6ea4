-- ===== src/Tree/Power.antt =====
-- kernel/block.hpp: `touch`, `power_off_children` and the power edges of a block in its parent.
use func_sim_engine.Prelude.{Bool, false, [], ◌∷◌, Str}
use func_sim_engine.StdMap.{Map}
use func_sim_engine.Result.{Result, ok, throw, undefined, and_then}
use func_sim_engine.Param.Real.{Floats}
use func_sim_engine.Param.{Parameter}
use func_sim_engine.Callable.{SystemClock, start_call}
use func_sim_engine.Subprogram.{Subprogram}
use func_sim_engine.Block.{Block, write_variables, write_poweroff_vars}
use func_sim_engine.Tree.{Tree, Forest, node, end, child, Site, site}

-- The block of a tree with other fields of its own.
abbrev pub set_site : {D : Type 0} → Site D → Tree D → Tree D
set_site s (node s' f) = node s f

-- The block of a tree with other variables.
abbrev pub set_block : {D : Type 0} → Block D → Tree D → Tree D
set_block b (node s f) = node (record s { block = b }) f

-- `set_prev_power`
abbrev pub set_prev_power : {D : Type 0} → Bool → Tree D → Tree D
set_prev_power power t = set_block (record (site t).block { power_prev_step = power }) t

module _ {D W : Type 0} ⦃fl : Floats D⦄ (clock : SystemClock D W) where
  unfoldable pub touch_subprogs : Map Str (Subprogram D) → W → Map Str (Subprogram D) × W
  unfolding start_call
  touch_subprogs [] w = ([], w)
  touch_subprogs ((k, s) ∷ m) w =
      let (c, w1) = start_call clock s.callable w in
      let (m', w2) = touch_subprogs m w1 in ((k, record s { callable = c }) ∷ m', w2)

  -- `touch`: the subprograms, the children, the block itself.
  unfoldable mutual
    unfolding touch_subprogs start_call

    pub touch_tree : Tree D → W → Tree D × W
    touch_tree (node s f) w =
        let (subs, w1) = touch_subprogs s.subprogs w in
        let (f', w2) = touch_forest f w1 in
        let (c, w3) = start_call clock s.callable w2 in
        (node (record s { subprogs = subs; callable = c; lastcall_plan = c.lastcall_time }) f', w3)

    pub touch_forest : Forest D → W → Forest D × W
    touch_forest end w = (end, w)
    touch_forest (child k t f) w =
        let (t', w1) = touch_tree t w in let (f', w2) = touch_forest f w1 in (child k t' f', w2)

-- `power_off_children`; on forests, with the block that the children stand in.
unfoldable mutual
  unfolding write_variables write_poweroff_vars

  pub power_off_children :
      {D : Type 0} → Floats D → Tree D → Tree D × Result (Map Str (Parameter D))
  power_off_children fl (node s f) =
      let (f', b, r) = power_off_forest fl f s.block in
      let (b', r') = and_then (b, r) (λ u c. write_poweroff_vars ⦃fl = fl⦄ c) in
      let t = node (record s { block = b' }) f' in
      and_then (t, r') (λ vm t'. (set_prev_power false t', ok vm))

  pub power_off_forest :
      {D : Type 0} → Floats D → Forest D → Block D → Forest D × Block D × Result {0} Unit
  power_off_forest fl end b = (end, b, ok tt)
  power_off_forest fl (child k t f) b =
      let (t', r) = power_off_children fl t in
      let (b', r') = and_then (b, r) (λ vm c. write_variables ⦃fl = fl⦄ c.vset_names vm c) in
      elim r' [
        | ok names ↦ let (f', b'', r'') = power_off_forest fl f b' in (child k t' f', b'', r'')
        | throw e ↦ (child k t' f, b', throw e)
        | undefined ↦ (child k t' f, b', undefined)
      ]
