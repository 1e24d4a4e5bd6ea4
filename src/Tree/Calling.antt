-- ===== src/Tree/Calling.antt =====
-- kernel/block.hpp: `call`. A child is called through its `Runner`, so that the calls of a whole tree
-- are one recursion over it; the scheduler names a child at most once in a call of its parent.
pub mod Growth
pub mod Wired
pub mod Errors
use func_sim_engine.Prelude.{
  ℕ, Bool, true, false, not, ◌&&◌, Option, none, some, List, [], ◌∷◌, ◌++◌, map, Str, str_eq,
  if◌then◌else◌,
}
use func_sim_engine.StdMap.{Map, Key, str_key, insert}
use func_sim_engine.Names.{compose_block_name}
use func_sim_engine.Result.{Result, ok, throw, undefined, Exn, and_then}
use func_sim_engine.Param.Real.{Floats}
use func_sim_engine.Param.{Parameter, is_set}
use func_sim_engine.Callable.{Callable, SystemClock, start_call, end_call, is_powered}
use func_sim_engine.Subprogram.{Subprogram, FunctionStorage, call_subprogram, finished}
use func_sim_engine.Scheduler.{CallablePtr, block, subprogram, Queries, get_nextcall_objs}
use func_sim_engine.Block.{
  Block, Names, write_variables, write_poweron_vars, get_subblocks_with_errors, copy_use_vars,
  return_vars,
}
use func_sim_engine.Tree.{Tree, Forest, node, end, child, Site, site, children, find_child}
use func_sim_engine.Tree.Messages.{message}
use func_sim_engine.Tree.Power.{set_block, set_prev_power, touch_tree, power_off_children}

-- What a call uses of the world: the clock, the stored functions, and the objects of block classes.
pub record Machine (D W : Type 0) : Type 0 where
  pub clock : SystemClock D W
  pub storage : FunctionStorage D W
  pub has_errors : ℕ → W → Bool
  pub get_error_msg : ℕ → W → Str × W

abbrev pub Vars : Type 0 → Type 0
Vars D = Map Str (Parameter D)

-- `operator()` of a block: at a time, with the variables of the block above and of the one above it.
abbrev pub Runner : Type 0 → Type 0 → Type 0
Runner D W = D → Vars D → Vars D → W → (Tree D × W) × Result (Vars D)

-- A child with its name and its `operator()`.
abbrev pub Entry : Type 0 → Type 0 → Type 0
Entry D W = Str × Tree D × Runner D W

-- What the loop of `call` changes.
pub record Progress (D W : Type 0) : Type 0 where
  pub site : Site D
  pub children : Forest D
  pub world : W

abbrev pub set_variables_of : {D W : Type 0} → Block D → Progress D W → Progress D W
set_variables_of b p = record p { site = record p.site { block = b } }

unfoldable pub replace_child : {D : Type 0} → Str → Tree D → Forest D → Forest D
replace_child name t' end = end
replace_child name t' (child k t f) =
    let rest = replace_child name t' f in if str_eq k name then child k t' f else child k t rest

unfoldable pub replace_subprog :
    {D : Type 0} → Str → Subprogram D → Map Str (Subprogram D) → Map Str (Subprogram D)
replace_subprog name s' [] = []
replace_subprog name s' ((k, s) ∷ m) =
    let rest = replace_subprog name s' m in if str_eq k name then (k, s') ∷ m else (k, s) ∷ rest

-- `is_powered` over the variables of the block, each by its `is_set`.
abbrev pub powered : {D : Type 0} ⦃fl : Floats D⦄ → Callable D → Block D → Result Bool
powered c b = is_powered (λ p. ok (is_set p)) b.vars c

-- What the scheduler asks of the values of the two maps.
abbrev pub queries : {D W : Type 0} → Queries D (Entry D W) (Str × Subprogram D)
queries = record {
  is_blocked = λ e. (site e.1).callable.is_blocked;
  get_priority = λ e. (site e.1).callable.priority;
  get_lastcall_time_plan = λ e. (site e.1).lastcall_plan;
  subprog_is_blocked = λ s. s.1.callable.is_blocked;
  subprog_get_priority = λ s. s.1.callable.priority;
}

-- The errors of a called block, by their names below it.
unfoldable pub add_errors : Str → Names → Names → Names
unfolding compose_block_name
add_errors name [] errs = errs
add_errors name ((e, u) ∷ es) errs = add_errors name es (insert (compose_block_name name e) tt errs)

module _ {D : Type 0} ⦃fl : Floats D⦄ where
  -- The handlers: every exception becomes a message, and no variable is returned.
  unfoldable pub handle : Callable D → Result (Vars D) → Block D → Block D × Result (Vars D)
  unfolding message
  handle c (ok vm) b = (b, ok vm)
  handle c undefined b = (b, undefined)
  handle c (throw e) b = elim (message c e) [
    | ok text ↦ (
      record b { errors = b.errors ++ text ∷ []; err_blocks = insert c.name tt b.err_blocks },
      ok [],
    )
    | throw e' ↦ (b, throw e')
    | undefined ↦ (b, undefined)
  ]

  -- The values that a called object gave are written, after its exception was handled.
  unfoldable pub take_values : Callable D → Result (Vars D) → Block D → Block D × Result Names
  unfolding handle write_variables
  take_values c r b = and_then (handle c r b) (λ vm b'. write_variables b'.vset_names vm b')

module _ {D W : Type 0} ⦃fl : Floats D⦄ (m : Machine D W) (time : D) (vars : Vars D) where
  -- A child whose power was found: it works on, starts, stops, or is left.
  unfoldable pub edge : Bool → Block D → Entry D W → W → (Tree D × W) × Result (Vars D)
  unfolding write_poweron_vars touch_tree power_off_children
  edge true b (k, t, runner) w =
      if (site t).block.power_prev_step
      then runner time b.vars vars w
      else (let (c, r) = write_poweron_vars (site t).block in
          and_then ((set_block c t, w), r) (λ vm s. (touch_tree m.clock s.0 s.1, ok vm)))
  edge false b (k, t, runner) w =
      if (site t).block.power_prev_step
      then (let (t', r) = power_off_children fl t in ((t', w), r))
      else ((t, w), ok [])

  -- The part of the loop that may throw, for a child.
  unfoldable pub run_child : Block D → Entry D W → W → (Tree D × W) × Result (Vars D)
  unfolding edge is_powered
  run_child b e w =
      and_then ((e.1, w), powered (site e.1).callable b)
        (λ pow s. and_then (edge pow b e s.1) (λ vm s'. ((set_prev_power pow s'.0, s'.1), ok vm)))

  -- The same for a subprogram.
  unfoldable pub run_subprog : Block D → Subprogram D → W → (Subprogram D × W) × Result (Vars D)
  unfolding call_subprogram is_powered
  run_subprog b s w =
      and_then ((s, w), powered s.callable b)
        (λ pow x.
          if pow
          then (let (s', w', r) = call_subprogram m.clock m.storage time b.vars vars s w in
              ((s', w'), r))
          else ((s, w), ok []))

  -- The loop body for a block: its errors below are taken before its values are written.
  unfoldable pub step_child : Entry D W → Progress D W → Progress D W × Result {0} Unit
  unfolding run_child handle get_subblocks_with_errors add_errors write_variables
  step_child e p =
      let b = p.site.block in
      let ((t, w), r) = run_child b e p.world in
      let (b1, r1) = handle (site t).callable r b in
      and_then (record p { site = record p.site { block = b1 }; world = w }, r1)
        (λ vm q.
          let (c, errs) = get_subblocks_with_errors (site t).block in
          let b2 = record q.site.block {
            err_blocks = add_errors (site t).callable.name errs q.site.block.err_blocks;
          } in
          let (b3, r3) = write_variables b2.vset_names vm b2 in
          and_then
            (
              record q {
                site = record q.site { block = b3 };
                children = replace_child e.0 (set_block c t) q.children;
              },
              r3,
            )
            (λ names q'. (q', ok tt)))

  -- The loop body for a subprogram.
  unfoldable pub step_subprog : Str × Subprogram D → Progress D W → Progress D W × Result {0} Unit
  unfolding run_subprog take_values replace_subprog
  step_subprog (k, s) p =
      let ((s', w), r) = run_subprog p.site.block s p.world in
      let (b, r') = take_values s'.callable r p.site.block in
      let site' = record p.site { block = b; subprogs = replace_subprog k s' p.site.subprogs } in
      and_then (record p { site = site'; world = w }, r') (λ names q. (q, ok tt))

  -- The loop over what the scheduler chose.
  unfoldable pub run_objects :
      List (CallablePtr (Entry D W) (Str × Subprogram D))
      → Progress D W
      → Progress D W × Result {0} Unit
  unfolding step_child step_subprog
  run_objects [] p = (p, ok tt)
  run_objects (block e ∷ cs) p = and_then (step_child e p) (λ u q. run_objects cs q)
  run_objects (subprogram s ∷ cs) p = and_then (step_subprog s p) (λ u q. run_objects cs q)

  -- The errors of the object of the block's class.
  unfoldable pub class_errors : Progress D W → Progress D W
  class_errors p = elim p.site.class [
    | none ↦ p
    | some h ↦
        if m.has_errors h p.world
        then (let (text, w) = m.get_error_msg h p.world in
            let b = p.site.block in
            let b' = record b {
              err_blocks = insert p.site.classname tt b.err_blocks;
              errors = b.errors ++ text ∷ [];
            } in
            record p { site = record p.site { block = b' }; world = w })
        else p
  ]

  -- `call`, with the children and what their calls are.
  unfoldable pub call_objects : List (Entry D W) → Progress D W → Progress D W × Result (Vars D)
  unfolding copy_use_vars get_nextcall_objs run_objects class_errors return_vars
  call_objects entries p =
      let s = record p.site { lastcall_plan = fl.add p.site.lastcall_plan p.site.period } in
      let (b, r) = copy_use_vars vars s.block.use_vars s.block in
      and_then (record p { site = record s { block = b } }, r)
        (λ u q.
          and_then (run_objects (get_nextcall_objs fl queries time entries q.site.subprogs) q)
            (λ u q'.
              let q'' = class_errors q' in
              (q'', return_vars q''.site.block.res_vars [] q''.site.block)))

  -- `operator()`, at a reading of the clock before and after.
  unfoldable pub call_block :
      List (Entry D W) → Site D → Forest D → W → (Tree D × W) × Result (Vars D)
  unfolding call_objects start_call end_call
  call_block entries s f w =
      let (c, w') = start_call m.clock s.callable w in
      let started : Progress D W = record {
        site = record s { callable = c };
        children = f;
        world = w';
      } in
      let (p, r) = call_objects entries started in
      let (c', w'', r') = finished m.clock p.site.callable (p.world, r) in
      ((node (record p.site { callable = c' }) p.children, w''), r')

module _ {D W : Type 0} ⦃fl : Floats D⦄ (m : Machine D W) where
  -- `operator()` of a block with all that is below it.
  unfoldable mutual
    unfolding call_block

    pub call : Tree D → Runner D W
    call (node s f) time vars upper w = call_block m time vars (calls f) s f w

    pub calls : Forest D → List (Entry D W)
    calls end = []
    calls (child k t f) = (k, t, call t) ∷ calls f

  -- `call_child` and `call_child_by_name`: a child is called outside the schedule, with nothing
  -- above the block.
  unfoldable pub call_child_by_name : Str → D → Tree D → W → (Tree D × W) × Result {0} Unit
  unfolding call find_child replace_child write_variables
  call_child_by_name name time (node s f) w = elim (find_child name f) [
    | none ↦ ((node s f, w), ok tt)
    | some t ↦
        let ((t', w'), r) = call t time s.block.vars [] w in
        let f' = replace_child name t' f in
        let (b, r') = and_then (s.block, r) (λ ret b. write_variables b.vset_names ret b) in
        and_then ((node (record s { block = b }) f', w'), r') (λ names x. (x, ok tt))
  ]
