-- ===== src/Tree/Calling/Wired.antt =====
-- The blocks of a tree stay wired through a call of it.
use func_sim_engine.Prelude.{◌≡◌, [], Str}
use func_sim_engine.StdMap.{Map, str_key}
use func_sim_engine.Param.{Parameter}
use func_sim_engine.Result.{ok}
use func_sim_engine.Param.Real.{Floats}
use func_sim_engine.Block.{return_vars}
use func_sim_engine.Block.Wiring.{wired_returns}
use func_sim_engine.Tree.{Tree, Forest, node, end, child, site}
use func_sim_engine.Tree.Calling.{Vars, Machine, call}
use func_sim_engine.Tree.Calling.Growth.{AllWired, AllWiredIn, site-IsWired}
use func_sim_engine.Tree.Linked.{Linked, LinkedIn, any, Linked-AllWired}
use func_sim_engine.Tree.Linked.Calls.{call-Fits}

mutual
  unfolding Linked LinkedIn AllWired AllWiredIn

  AllWired-any : {D : Type 0} → (t : Tree D) → AllWired t → Linked any t
  AllWired-any (node s f) h = (h.0, AllWiredIn-any s.block.vars f h.1)

  AllWiredIn-any :
      {D : Type 0} → (m : Map Str (Parameter D)) (f : Forest D) → AllWiredIn f → LinkedIn any m f
  AllWiredIn-any m end h = tt
  AllWiredIn-any m (child k t f) h = ((AllWired-any t h.0, tt), AllWiredIn-any m f h.1)

module _ {D W : Type 0} ⦃fl : Floats D⦄ (m : Machine D W) where
  -- A call keeps every block of the tree wired, whatever it calls, throws or switches on and off.
  -- So the block that was called still has every variable that it returns: the gathering of the
  -- returned values, which dereferences a pointer for each, gives a map.
  pub call-AllWired :
      (t : Tree D) (time : D) (vars upper : Vars D) (w : W)
      → AllWired t
      → AllWired (call m t time vars upper w).0.0
        × (res : Vars D) × (return_vars
              (site (call m t time vars upper w).0.0).block.res_vars
              []
              (site (call m t time vars upper w).0.0).block
            ≡ ok res)
  call-AllWired t time vars upper w h =
      let t' = (call m t time vars upper w).0.0 in
      let h' = Linked-AllWired any t' (call-Fits any m t time vars upper w (AllWired-any t h)).0 in
      let (res, e) = wired_returns (site t').block (site-IsWired t' h') in (h', res, e)
