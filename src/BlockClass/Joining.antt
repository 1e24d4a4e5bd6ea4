-- ===== src/BlockClass/Joining.antt =====
-- What the joining of a class with its block leaves.
use func_sim_engine.Prelude.{◌≡◌, ◌⊎◌, Bool, true, false, Option, none, some, Str}
use func_sim_engine.StdMap
use func_sim_engine.StdMap.{str_key, find}
use func_sim_engine.Param.Real.{Floats}
use func_sim_engine.Subprogram.{FunctionStorage, Subprogram, is_func_set}
use func_sim_engine.Tree.{Tree, site}
use func_sim_engine.BlockClass.{BlockClass, Opening, escaped}

module _ {D W : Type 0} ⦃fl : Floats D⦄ where
  -- The joining was made, or was refused with a message.
  abbrev pub Joined : Tree D → Str → (Tree D × BlockClass D × FunctionStorage D W) × Bool → Type 0
  Joined bl name x =
      ((x.1 ≡ true)
        × ((s : Subprogram D) × (find name (site x.0.0).subprogs ≡ some s)
            × (is_func_set x.0.2 s ≡ true)
            × ((site x.0.0).block ≡ (site bl).block)))
      ⊎ ((x.1 ≡ false) × (x.0.1.has_err ≡ true) × (x.0.0 ≡ bl))

  -- An exception leaves the joining only where the opening lets it, once the variables are known.
  abbrev pub JoinedOr :
      Bool
      → Opening
      → Tree D
      → Str
      → Option ((Tree D × BlockClass D × FunctionStorage D W) × Bool)
      → Type 0
  JoinedOr known opening bl name none = (known ≡ true) × (opening ≡ escaped)
  JoinedOr known opening bl name (some x) = Joined bl name x
