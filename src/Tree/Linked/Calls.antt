-- ===== src/Tree/Linked/Calls.antt =====
-- The blocks of a tree stay linked with their children through a call of it.
use func_sim_engine.Prelude.{
  List, [], ◌∷◌, Str, Bool-cases, Option-cases, inl, inr, In, All, All-In, In-All,
}
use func_sim_engine.StdMap.{str_key}
use func_sim_engine.Result.{and_then_keeps}
use func_sim_engine.Param.Real.{Floats}
use func_sim_engine.Callable.{start_call}
use func_sim_engine.Subprogram.{Subprogram}
use func_sim_engine.Scheduler.{CallablePtr, block, subprogram, get_nextcall_objs}
use func_sim_engine.Scheduler.Selection.{called_iff}
use func_sim_engine.Block.{Block, write_variables, get_subblocks_with_errors, copy_use_vars}
use func_sim_engine.Block.Wiring.{Grows, Grows-refl, Grows-trans, Grows-IsWired}
use func_sim_engine.Tree.{Tree, Forest, node, end, child, Site, site}
use func_sim_engine.Tree.Calling.{
  Vars, Machine, Entry, Progress, queries, handle, take_values, run_child, run_subprog, step_child,
  step_subprog, run_objects, class_errors, call_objects, call_block, call, calls, add_errors,
}
use func_sim_engine.Tree.Calling.Growth.{
  handle-Grows, take_values-Grows, kept-Grows, copy_use_vars-Grows, write_variables-Grows,
}
use func_sim_engine.Tree.Linked.{Link, Linked, LinkedIn, Fits, LinkedIn-mono}
use func_sim_engine.Tree.Linked.Children.{
  uses, First, Good, Kept, KeptPtr, run_child-First, replaced-Good,
}

module _ {D : Type 0} (L : Link D) where
  module _ {W : Type 0} ⦃fl : Floats D⦄ (m : Machine D W) (time : D) (vars : Vars D) where
    step_child-Good :
        (b0 : Block D) (e : Entry D W) (p : Progress D W)
        → Kept L b0 e
        → Good L b0 p
        → Good L b0 (step_child m time vars e p).0
    unfolding step_child get_subblocks_with_errors
    step_child-Good b0 e p h g =
        let x = run_child m time vars p.site.block e p.world in
        let t = x.0.0 in
        let ht : Fits L (uses e.1) t = run_child-First L m time vars p.site.block b0 e p.world h in
        let y = handle (site t).callable x.1 p.site.block in
        let hy = handle-Grows (site t).callable x.1 p.site.block in
        let start : Progress D W = record p {
          site = record p.site { block = y.0 };
          world = x.0.1;
        } in
        and_then_keeps (Good L b0) (start, y.1) _
          (Grows-trans g.0 hy, LinkedIn-mono L p.site.block y.0 p.children hy g.1)
          (λ vm q gq.
            let b2 : Block D = record q.site.block {
              err_blocks =
                  add_errors (site t).callable.name (site t).block.err_blocks
                    q.site.block.err_blocks;
            } in
            let z = write_variables b2.vset_names vm b2 in
            let grown : Grows q.site.block z.0 =
              Grows-trans (kept-Grows q.site.block _ _ _ _)
                (write_variables-Grows b2.vset_names vm b2) in
            and_then_keeps (Good L b0) (_, z.1) _ (replaced-Good L b0 z.0 e t q h ht gq grown)
              (λ names q g. g))

    step_subprog-Good :
        (b0 : Block D) (s : Str × Subprogram D) (p : Progress D W)
        → Good L b0 p
        → Good L b0 (step_subprog m time vars s p).0
    unfolding step_subprog
    step_subprog-Good b0 (k, s) p g =
        let x = run_subprog m time vars p.site.block s p.world in
        let y = take_values x.0.0.callable x.1 p.site.block in
        let hy = take_values-Grows x.0.0.callable x.1 p.site.block in
        and_then_keeps (Good L b0) (_, y.1) _
          (Grows-trans g.0 hy, LinkedIn-mono L p.site.block y.0 p.children hy g.1) (λ names q g. g)

    run_objects-Good :
        (b0 : Block D) (cs : List (CallablePtr (Entry D W) (Str × Subprogram D))) (p : Progress D W)
        → All (KeptPtr L b0) cs
        → Good L b0 p
        → Good L b0 (run_objects m time vars cs p).0
    unfolding run_objects
    run_objects-Good b0 [] p h g = g
    run_objects-Good b0 (block e ∷ cs) p h g =
        and_then_keeps (Good L b0) (step_child m time vars e p) _ (step_child-Good b0 e p h.0 g)
          (λ u q gq. run_objects-Good b0 cs q h.1 gq)
    run_objects-Good b0 (subprogram s ∷ cs) p h g =
        and_then_keeps (Good L b0) (step_subprog m time vars s p) _ (step_subprog-Good b0 s p g)
          (λ u q gq. run_objects-Good b0 cs q h.1 gq)

    class_errors-Good :
        (b0 : Block D) (p : Progress D W) → Good L b0 p → Good L b0 (class_errors m time vars p)
    unfolding class_errors
    class_errors-Good b0 p g = elim (Option-cases p.site.class) [
      | inl e ↦ rw (e, class_errors) g
      | inr (c, e) ↦ elim (Bool-cases (m.has_errors c p.world)) [
        | inl h ↦ rw (e, h, class_errors) (Grows-trans g.0 (kept-Grows p.site.block _ _ _ _), g.1)
        | inr h ↦ rw (e, h, class_errors) g
      ]
    ]

    called-Kept :
        (b0 : Block D) (entries : List (Entry D W)) (subprogs : List (Str × Subprogram D))
        → All (Kept L b0) entries
        → All (KeptPtr L b0) (get_nextcall_objs fl queries time entries subprogs)
    called-Kept b0 entries subprogs h =
        let cs : List (CallablePtr (Entry D W) (Str × Subprogram D)) =
          get_nextcall_objs fl queries time entries subprogs in
        All-In (KeptPtr L b0) cs (λ c. elim c as (λ c. In c cs → KeptPtr L b0 c) [
          | block e ↦ λ i.
              In-All (Kept L b0) e entries ((called_iff fl queries time e entries subprogs).0 i).0 h
          | subprogram s ↦ λ i. tt
        ])

    call_objects-Good :
        (b0 : Block D) (entries : List (Entry D W)) (p : Progress D W)
        → All (Kept L b0) entries
        → Good L b0 p
        → Good L b0 (call_objects m time vars entries p).0
    unfolding call_objects
    call_objects-Good b0 entries p h g =
        let x = copy_use_vars vars p.site.block.use_vars p.site.block in
        let hx = copy_use_vars-Grows vars p.site.block.use_vars p.site.block in
        let s = record p.site {
          lastcall_plan = fl.add p.site.lastcall_plan p.site.period;
          block = x.0;
        } in
        and_then_keeps (Good L b0) (record p { site = s }, x.1) _
          (Grows-trans g.0 hx, LinkedIn-mono L p.site.block x.0 p.children hx g.1)
          (λ u q gq.
            and_then_keeps (Good L b0)
              (run_objects m time vars (get_nextcall_objs fl queries time entries q.site.subprogs)
                q)
              _ (run_objects-Good b0 _ q (called-Kept b0 entries q.site.subprogs h) gq)
              (λ u q' gq'. class_errors-Good b0 q' gq'))

    call_block-First :
        (entries : List (Entry D W)) (s : Site D) (f : Forest D) (w : W)
        → All (Kept L s.block) entries
        → Linked L (node s f)
        → First L s.block.use_vars (call_block m time vars entries s f w).0
    unfolding call_block Linked
    call_block-First entries s f w h g =
        let (c, w') = start_call m.clock s.callable w in
        let started : Progress D W = record {
          site = record s { callable = c };
          children = f;
          world = w';
        } in
        let (grown, deep) = call_objects-Good s.block entries started h (Grows-refl s.block, g.1) in
        ((Grows-IsWired grown g.0, deep), grown.use_vars)

  module _ {W : Type 0} ⦃fl : Floats D⦄ (m : Machine D W) where
    mutual
      unfolding call calls Linked LinkedIn

      called-Fits :
          (t : Tree D)
          → Linked L t
          → (time : D) (vars upper : Vars D) (w : W)
          → Fits L (site t).block.use_vars (call m t time vars upper w).0.0
      called-Fits (node s f) h time vars upper w =
          call_block-First m time vars (calls m f) s f w (calls-Kept s.block f h.1) h

      calls-Kept : (b : Block D) (f : Forest D) → LinkedIn L b.vars f → All (Kept L b) (calls m f)
      calls-Kept b end h = tt
      calls-Kept b (child k t f) h = ((h.0.0, h.0.1, called-Fits t h.0.0), calls-Kept b f h.1)

    -- A call keeps every block of a tree linked with its children, and leaves what the block uses,
    -- whatever it calls, throws or switches on and off.
    pub call-Fits :
        (t : Tree D) (time : D) (vars upper : Vars D) (w : W)
        → Linked L t
        → Fits L (site t).block.use_vars (call m t time vars upper w).0.0
    call-Fits t time vars upper w h = called-Fits t h time vars upper w
