-- ===== src/Tree/Linked/Children.antt =====
-- What stays linked while the children of a block are called: one call of a child, and its return.
use func_sim_engine.Prelude.{
  refl, sym, ◌∙◌, subst, Bool, true, false, [], Str, Bool-cases, inl, inr,
}
use func_sim_engine.StdMap.{Map, str_key}
use func_sim_engine.Result.{Result, ok, and_then, and_then_keeps}
use func_sim_engine.Param.Real.{Floats}
use func_sim_engine.Subprogram.{Subprogram}
use func_sim_engine.Scheduler.{CallablePtr, block, subprogram}
use func_sim_engine.Block.{Block, write_poweron_vars}
use func_sim_engine.Block.Wiring.{Grows, Grows-trans}
use func_sim_engine.Tree.{Tree, site}
use func_sim_engine.Tree.Power.{set_block, set_prev_power}
use func_sim_engine.Tree.Calling.{
  Vars, Machine, Entry, Progress, powered, edge, run_child, replace_child,
}
use func_sim_engine.Tree.Calling.Growth.{kept-Grows, write_poweron_vars-Grows}
use func_sim_engine.Tree.Linked.{
  Link, Linked, LinkedIn, Fits, LinkedIn-mono, set_block-Fits, set_prev_power-Fits,
  replace_child-LinkedIn, touch_tree-Fits, power_off_children-Fits,
}

-- What a block uses of the block above it.
abbrev pub uses : {D : Type 0} → Tree D → Map Str Str
uses t = (site t).block.use_vars

module _ {D : Type 0} (L : Link D) where
  module _ {W : Type 0} where
    abbrev pub First : Map Str Str → Tree D × W → Type 0
    First u s = Fits L u s.0

    -- The state of the loop: the block has grown, and knows its children.
    abbrev pub Good : Block D → Progress D W → Type 0
    Good b p = Grows b p.site.block × LinkedIn L p.site.block.vars p.children

    -- A child whose tree is linked, which the block knows, and which goes on so in its call.
    abbrev pub Kept : Block D → Entry D W → Type 0
    Kept b e =
        Linked L e.1
        × L.knows b.vars (uses e.1)
        × ((time : D) (vars upper : Vars D) (w : W) → First (uses e.1) (e.2 time vars upper w).0)

    abbrev pub KeptPtr : Block D → CallablePtr (Entry D W) (Str × Subprogram D) → Type 0
    KeptPtr b (block e) = Kept b e
    KeptPtr b (subprogram s) = Unit

  -- A child that has been called stands in its place again, with its errors taken, once the block
  -- has grown.
  module _ {W : Type 0} where
    pub replaced-Good :
        (b0 c : Block D) (e : Entry D W) (t : Tree D) (p : Progress D W)
        → Kept b0 e
        → Fits L (uses e.1) t
        → Good b0 p
        → Grows p.site.block c
        → Good b0 (record p {
          site = record p.site { block = c };
          children =
              replace_child e.0
                (set_block (record (site t).block { err_blocks = [] }) t)
                p.children;
        })
    replaced-Good b0 c e t p h ht g grown =
        let all : Grows b0 c = Grows-trans g.0 grown in
        let t' = set_block (record (site t).block { err_blocks = [] }) t in
        let (ht', same) : Fits L (uses e.1) t' =
          set_block-Fits L (uses e.1) _ t (kept-Grows (site t).block _ [] _ _) ht in
        let known : L.knows c.vars (uses t') =
          subst (λ u. L.knows c.vars u) (sym same) (L.more b0 c all (uses e.1) h.1) in
        (
          all,
          replace_child-LinkedIn L c.vars e.0 t' p.children (ht', known)
              (LinkedIn-mono L p.site.block c p.children grown g.1),
        )

  module _ {W : Type 0} ⦃fl : Floats D⦄ (m : Machine D W) (time : D) (vars : Vars D) where
    edge-First :
        (pow : Bool) (b b0 : Block D) (e : Entry D W) (w : W)
        → Kept b0 e
        → First (uses e.1) (edge m time vars pow b e w).0
    unfolding edge
    edge-First true b b0 (k, t, runner) w h = elim (Bool-cases (site t).block.power_prev_step) [
      | inl p ↦ rw (p, edge) (h.2 time b.vars vars w)
      | inr p ↦
          rw (p, edge)
            (and_then_keeps (First (uses t))
              ((set_block (write_poweron_vars (site t).block).0 t, w), _) _
              (set_block-Fits L (uses t) _ t (write_poweron_vars-Grows (site t).block) (h.0, refl))
              (λ vm s g. let (d, e) = touch_tree-Fits L m.clock s.0 s.1 g.0 in (d, e ∙ g.1)))
    ]
    edge-First false b b0 (k, t, runner) w h = elim (Bool-cases (site t).block.power_prev_step) [
      | inl p ↦ rw (p, edge) (power_off_children-Fits L fl t h.0)
      | inr p ↦ rw (p, edge) (h.0, refl)
    ]

    pub run_child-First :
        (b b0 : Block D) (e : Entry D W) (w : W)
        → Kept b0 e
        → First (uses e.1) (run_child m time vars b e w).0
    unfolding run_child
    run_child-First b b0 e w h =
        let settle : Bool → Vars D → Tree D × W → (Tree D × W) × Result (Vars D) =
          λ pow vm s. ((set_prev_power pow s.0, s.1), ok vm) in
        let u = uses e.1 in
        and_then_keeps (First u) ((e.1, w), powered (site e.1).callable b)
          (λ pow s. and_then (edge m time vars pow b e s.1) (settle pow)) (h.0, refl)
          (λ pow s g.
            and_then_keeps (First u) (edge m time vars pow b e s.1) (settle pow)
              (edge-First pow b b0 e s.1 h) (λ vm s' g'. set_prev_power-Fits L u pow s'.0 g'))
