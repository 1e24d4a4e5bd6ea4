-- ===== src/Tree/Calling/Growth.antt =====
-- Trees of wired blocks, and what a call adds to one block and never takes from it.
use func_sim_engine.Prelude.{refl, Bool, List, [], ◌∷◌, Str, Option-cases, inl, inr}
use func_sim_engine.StdMap.{Map, str_key, find}
use func_sim_engine.Result.{Result, ok, throw, undefined, and_then_keeps, Result-cases}
use func_sim_engine.Param.Real.{Floats}
use func_sim_engine.Param.{Parameter, copy_data}
use func_sim_engine.Block.{
  Block, Names, Event, write_variables, write_edge_vars, write_poweron_vars, write_poweroff_vars,
  copy_use_vars,
}
use func_sim_engine.Block.Wiring.{
  IsWired, Grows, Grows-refl, Grows-trans, more_vars, write_from-Grows, Has-insert,
}
use func_sim_engine.Tree.{Tree, Forest, node, end, child, site}
use func_sim_engine.Tree.Messages.{message}
use func_sim_engine.Callable.{Callable}
use func_sim_engine.Tree.Calling.{Vars, handle, take_values}

-- Every block of a tree is wired.
unfoldable mutual
  pub AllWired : {D : Type 0} → Tree D → Type 0
  AllWired (node s f) = IsWired s.block × AllWiredIn f

  pub AllWiredIn : {D : Type 0} → Forest D → Type 0
  AllWiredIn end = Unit
  AllWiredIn (child k t f) = AllWired t × AllWiredIn f

module _ {D : Type 0} where
  pub site-IsWired : (t : Tree D) → AllWired t → IsWired (site t).block
  unfolding AllWired
  site-IsWired (node s f) h = h.0

  -- What a block is linked by is only the variables, the SET names and the accordances.
  pub kept-Grows :
      (b : Block D) (power : Bool) (errs : Names) (errors : List Str) (log : List Event)
      → Grows b
          (record b { power_prev_step = power; err_blocks = errs; errors = errors; log = log })
  kept-Grows b power errs errors log = record {
    vars = λ k x. x;
    names = λ k x. x;
    res_vars = refl;
    use_vars = refl;
  }

module _ {D : Type 0} ⦃fl : Floats D⦄ where
  pub write_variables-Grows :
      (names : Names) (val : Map Str (Parameter D)) (b : Block D)
      → Grows b (write_variables names val b).0
  unfolding write_variables
  write_variables-Grows names val b = write_from-Grows val [] b

  pub write_poweron_vars-Grows : (b : Block D) → Grows b (write_poweron_vars b).0
  unfolding write_poweron_vars write_edge_vars
  write_poweron_vars-Grows b = write_variables-Grows b.vset_names _ b

  pub write_poweroff_vars-Grows : (b : Block D) → Grows b (write_poweroff_vars b).0
  unfolding write_poweroff_vars write_edge_vars
  write_poweroff_vars-Grows b = write_variables-Grows b.vset_names _ b

  pub copy_use_vars-Grows :
      (above : Vars D) (vs : Map Str Str) (b : Block D) → Grows b (copy_use_vars above vs b).0
  unfolding copy_use_vars
  copy_use_vars-Grows above [] b = Grows-refl b
  copy_use_vars-Grows above ((dst, src) ∷ vs) b = elim (Option-cases (find src above)) [
    | inl e ↦ rw (e, copy_use_vars) (Grows-refl b)
    | inr (p, e) ↦ elim (Option-cases (find dst b.vars)) [
      | inl e' ↦ rw (e, e', copy_use_vars) (Grows-refl b)
      | inr (v, e') ↦ elim (Result-cases (copy_data v p)) [
        | inl (r, c) ↦
            rw (e, e', c, copy_use_vars)
              (Grows-trans (more_vars b _ _ (λ k h. Has-insert dst k r.0 b.vars h))
                (copy_use_vars-Grows above vs _))
        | inr (inl (x, c)) ↦ rw (e, e', c, copy_use_vars) (Grows-refl b)
        | inr (inr c) ↦ rw (e, e', c, copy_use_vars) (Grows-refl b)
      ]
    ]
  ]

module _ {D : Type 0} ⦃fl : Floats D⦄ where
  pub handle-Grows : (c : Callable D) (r : Result (Vars D)) (b : Block D) → Grows b (handle c r b).0
  unfolding handle
  handle-Grows c (ok vm) b = Grows-refl b
  handle-Grows c undefined b = Grows-refl b
  handle-Grows c (throw e) b = elim (Result-cases (message c e)) [
    | inl (text, x) ↦ rw (x, handle) (kept-Grows b b.power_prev_step _ _ b.log)
    | inr (inl (y, x)) ↦ rw (x, handle) (Grows-refl b)
    | inr (inr x) ↦ rw (x, handle) (Grows-refl b)
  ]

  pub take_values-Grows :
      (c : Callable D) (r : Result (Vars D)) (b : Block D) → Grows b (take_values c r b).0
  unfolding take_values
  take_values-Grows c r b =
      and_then_keeps (Grows b) (handle c r b) _ (handle-Grows c r b)
        (λ vm b' g. Grows-trans g (write_variables-Grows b'.vset_names vm b'))
