-- ===== src/Command/Linked.antt =====
-- Whatever an operator orders, the blocks of a tree stay linked with their children.
use func_sim_engine.Prelude.{
  sym, All, ◌≡◌, refl, subst, Bool, true, false, Option, none, some, [], ◌∷◌, Str, str_eq,
  Bool-cases, Option-cases, inl, inr, leb, length, drop, if◌then◌else◌,
}
use func_sim_engine.StdMap.{Map, str_key, find, insert}
use func_sim_engine.Result.{ok, Returns, Returns-bind, Returns-any, ◌>>=◌}
use func_sim_engine.Names.{extract_block_name}
use func_sim_engine.Param.Real.{Floats}
use func_sim_engine.Param.{Parameter, from_string}
use func_sim_engine.Control.{ControlFunc}
use func_sim_engine.Subprogram.{Subprogram}
use func_sim_engine.Block.{get_next_errors}
use func_sim_engine.Block.Wiring.{Has, Grows, Grows-refl, Grows-IsWired, more_vars, Has-insert}
use func_sim_engine.Tree.{
  Tree, Forest, node, end, child, Site, site, get_variable, get_subprog, get_child, modify,
  modify_in, adjust_variable, adjust_subprog, change_variable, change_subprog, change_child,
  change_child_in,
}
use func_sim_engine.Tree.Linked.{
  Linked, LinkedIn, known, Deep, DeepIn, Fits, LinkedIn-mono, set_block-Fits,
}
use func_sim_engine.Tree.Calling.Growth.{kept-Grows}
use func_sim_engine.Command.{
  Command, get_value, set_value, lock_param, var_list, lock_block, show_class_errors, lock_subprog,
  subp_list, lock_word, lock_variable, lock_callable, lock_tree, errors_shown, run, run_get_value,
  run_set_value, run_lock_param, run_var_list, run_lock_block, run_show_class_errors,
  run_lock_subprog, run_subp_list, param_text,
}

module _ {D : Type 0} where
  -- What stands in place of a child and uses as much is known to the block above as well.
  in_place :
      (m : Map Str (Parameter D)) (t t' : Tree D)
      → All (λ e. Has m e.1) (site t).block.use_vars
      → Fits known (site t).block.use_vars t'
      → Deep t' × All (λ e. Has m e.1) (site t').block.use_vars
  in_place m t t' h k = (k.0, subst (λ u. All (λ e. Has m e.1) u) (sym k.1) h)

  -- A change of a site that takes nothing from its block.
  module _ (change : Str → Site D → Site D)
      (keeps : (n : Str) (s : Site D) → Grows s.block (change n s).block) where
    mutual
      unfolding modify Linked LinkedIn

      modify-Fits :
          (t : Tree D) (p : Str) → Deep t → Fits known (site t).block.use_vars (modify change t p)
      modify-Fits (node s f) p h =
          let g = keeps p s in
          elim (extract_block_name p).1
            as (λ r. Fits known s.block.use_vars (elim r as (λ r. Tree D) [
              | [] ↦ node (change p s) f
              | c ∷ cs ↦
                  node s (modify_in change f (extract_block_name p).0 (extract_block_name p).1)
            ])) [
              | [] ↦ (
                (Grows-IsWired g h.0, LinkedIn-mono known s.block (change p s).block f g h.1),
                g.use_vars,
              )
              | c ∷ cs ↦ (
                (
                  h.0,
                  modify_in-DeepIn f s.block.vars (extract_block_name p).0 (extract_block_name p).1
                      h.1,
                ),
                refl,
              )
            ]

      modify_in-DeepIn :
          (f : Forest D) (m : Map Str (Parameter D)) (first rest : Str)
          → DeepIn m f
          → DeepIn m (modify_in change f first rest)
      modify_in-DeepIn end m first rest h = tt
      modify_in-DeepIn (child k t f) m first rest h = elim (Bool-cases (str_eq k first)) [
        | inl e ↦
            let t' = modify change t rest in
            rw e (in_place m t t' h.0.1 (modify-Fits t rest h.0.0), h.1)
        | inr e ↦ rw e (h.0, modify_in-DeepIn f m first rest h.1)
      ]

  -- A change of a tree that keeps it linked and leaves what its block uses.
  module _ (g : Tree D → Tree D)
      (keeps : (t : Tree D) → Deep t → Fits known (site t).block.use_vars (g t)) where
    mutual
      unfolding change_child Linked LinkedIn

      change_child-Fits :
          (t : Tree D) (p : Str) → Deep t → Fits known (site t).block.use_vars (change_child g t p)
      change_child-Fits (node s f) p h = (
        (
          h.0,
          change_child_in-DeepIn f s.block.vars (extract_block_name p).0 (extract_block_name p).1
              h.1,
        ),
        refl,
      )

      change_child_in-DeepIn :
          (f : Forest D) (m : Map Str (Parameter D)) (first rest : Str)
          → DeepIn m f
          → DeepIn m (change_child_in g f first rest)
      change_child_in-DeepIn end m first rest h = tt
      change_child_in-DeepIn (child k t f) m first rest h = elim (Bool-cases (str_eq k first)) [
        | inl e ↦
            let below = change_child-Fits t rest h.0.0 in
            let changed : Str → Tree D =
              λ r. elim r as (λ r. Tree D) [ [] ↦ g t | c ∷ cs ↦ change_child g t rest ] in
            let fits : Fits known (site t).block.use_vars (changed rest) =
              elim rest as (λ r. Fits known (site t).block.use_vars (changed r)) [
                | [] ↦ keeps t h.0.0
                | c ∷ cs ↦ below
              ] in
            rw e (in_place m t (changed rest) h.0.1 fits, h.1)
        | inr e ↦ rw e (h.0, change_child_in-DeepIn f m first rest h.1)
      ]

  adjust_variable-Grows :
      (g : Parameter D → Parameter D) (n : Str) (s : Site D)
      → Grows s.block (adjust_variable g n s).block
  adjust_variable-Grows g n s =
      let b = s.block in
      let vars : Option (Parameter D) → Map Str (Parameter D) =
        λ o. elim o [ none ↦ b.vars | some v ↦ insert n (g v) b.vars ] in
      elim (find n b.vars) as (λ o. Grows b (record b { vars = vars o })) [
        | none ↦ Grows-refl b
        | some v ↦ more_vars b _ b.log (λ k x. Has-insert n k (g v) b.vars x)
      ]

  change_variable-Deep :
      (g : Parameter D → Parameter D) (t : Tree D) (p : Str) → Deep t → Deep (change_variable g t p)
  unfolding change_variable
  change_variable-Deep g t p h = (modify-Fits (adjust_variable g) (adjust_variable-Grows g) t p h).0

  change_subprog-Deep :
      (g : Subprogram D → Subprogram D) (t : Tree D) (p : Str)
      → Deep t
      → Deep (change_subprog g t p)
  unfolding change_subprog
  change_subprog-Deep g t p h = (modify-Fits (adjust_subprog g) (λ n s. Grows-refl s.block) t p h).0

  lock_tree-Fits :
      ⦃fl : Floats D⦄
      → (lock : Bool) (t : Tree D) → Deep t
      → Fits known (site t).block.use_vars (lock_tree lock t)
  unfolding Linked
  lock_tree-Fits lock (node s f) h = (h, refl)

  errors_shown-Fits :
      ⦃fl : Floats D⦄ → (t : Tree D) → Deep t → Fits known (site t).block.use_vars (errors_shown t)
  unfolding get_next_errors
  errors_shown-Fits t h =
      let b = (site t).block in
      let c : Grows b (get_next_errors 10 b).0 = elim (Bool-cases (leb (length b.errors) 10)) [
        | inl e ↦ rw (e, get_next_errors) (kept-Grows b b.power_prev_step b.err_blocks [] b.log)
        | inr e ↦
            rw (e, get_next_errors)
              (kept-Grows b b.power_prev_step b.err_blocks (drop 10 b.errors) b.log)
      ] in
      set_block-Fits known b.use_vars (get_next_errors 10 b).0 t c (h, refl)

module _ {D : Type 0} ⦃fl : Floats D⦄ where
  run_set_value-Deep : (name val : Str) (t : Tree D) → Deep t → Deep (run_set_value name val t).0
  unfolding run_set_value
  run_set_value-Deep name val t h = elim (Option-cases (get_variable t name)) [
    | inl e ↦ rw (e, run_set_value) h
    | inr (p, e) ↦
        let set = change_variable-Deep (λ p. (from_string p val).0) t name h in
        elim (Bool-cases (from_string p val).1) [
          | inl a ↦ rw (e, run_set_value) (rw a set)
          | inr a ↦ rw (e, run_set_value) (rw a set)
        ]
  ]

  run_lock_param-Deep :
      (name word : Str) (t : Tree D) → Deep t → Deep (run_lock_param name word t).0
  unfolding run_lock_param
  run_lock_param-Deep name word t h = elim (Option-cases (get_variable t name)) [
    | inl e ↦ rw (e, run_lock_param) h
    | inr (p, e) ↦
        let lock = (lock_word word).0 in
        let changed : Bool = if p.locked then (if lock then false else true) else lock in
        let set = change_variable-Deep (lock_variable lock) t name h in
        elim (Bool-cases changed) [
          | inl a ↦ rw (e, run_lock_param) (rw a set)
          | inr a ↦ rw (e, run_lock_param) (rw a h)
        ]
  ]

  run_lock_block-Deep :
      (name word : Str) (t : Tree D) → Deep t → Deep (run_lock_block name word t).0
  unfolding run_lock_block
  run_lock_block-Deep name word t h = elim (Option-cases (get_child t name)) [
    | inl e ↦ rw (e, run_lock_block) h
    | inr (b, e) ↦
        let lock = (lock_word word).0 in
        rw (e, run_lock_block) (change_child-Fits (lock_tree lock) (lock_tree-Fits lock) t name h).0
  ]

  run_show_class_errors-Deep :
      (name : Str) (t : Tree D) → Deep t → Deep (run_show_class_errors name t).0
  unfolding run_show_class_errors
  run_show_class_errors-Deep name t h = elim (Option-cases (get_child t name)) [
    | inl e ↦ rw (e, run_show_class_errors) h
    | inr (b, e) ↦
        rw (e, run_show_class_errors) (change_child-Fits errors_shown errors_shown-Fits t name h).0
  ]

  run_lock_subprog-Deep :
      (name word : Str) (t : Tree D) → Deep t → Deep (run_lock_subprog name word t).0
  unfolding run_lock_subprog
  run_lock_subprog-Deep name word t h = elim (Option-cases (get_subprog t name)) [
    | inl e ↦ rw (e, run_lock_subprog) h
    | inr (s, e) ↦
        rw (e, run_lock_subprog) (change_subprog-Deep (lock_callable (lock_word word).0) t name h)
  ]

  run_get_value_same : (name : Str) (t : Tree D) → t ≡ (run_get_value name t).0
  unfolding run_get_value
  run_get_value_same name t = elim (Option-cases (get_variable t name)) [
    | inl e ↦ rw (e, run_get_value) refl
    | inr (p, e) ↦ rw (e, run_get_value) refl
  ]

  run_var_list_same : (name : Str) (t : Tree D) → t ≡ (run_var_list name t).0
  unfolding run_var_list
  run_var_list_same name t = elim (Option-cases (get_child t name)) [
    | inl e ↦ rw (e, run_var_list) refl
    | inr (p, e) ↦ rw (e, run_var_list) refl
  ]

  run_subp_list_same :
      (show : D → Str) (name : Str) (t : Tree D) → t ≡ (run_subp_list show name t).0
  unfolding run_subp_list
  run_subp_list_same show name t = elim (Option-cases (get_child t name)) [
    | inl e ↦ rw (e, run_subp_list) refl
    | inr (p, e) ↦ rw (e, run_subp_list) refl
  ]

  abbrev pub AnswersDeep : Tree D × Str → Type 0
  AnswersDeep x = Deep x.0

  with_text-Deep :
      (f : ControlFunc D) (k : Str → Tree D × Str)
      → ((name : Str) → Deep (k name).0)
      → Returns AnswersDeep (param_text 0 f >>= λ name. ok (k name))
  with_text-Deep f k h =
      Returns-bind (λ name. Unit {0}) AnswersDeep (param_text 0 f) _
        (Returns-any (λ name. Unit) (param_text 0 f) (λ name. tt)) (λ name u. h name)

  with_texts-Deep :
      (f : ControlFunc D) (k : Str → Str → Tree D × Str)
      → ((name word : Str) → Deep (k name word).0)
      → Returns AnswersDeep (param_text 0 f >>= λ name. param_text 1 f >>= λ word. ok (k name word))
  with_texts-Deep f k h =
      Returns-bind (λ name. Unit {0}) AnswersDeep (param_text 0 f) _
        (Returns-any (λ name. Unit) (param_text 0 f) (λ name. tt))
        (λ name u.
          Returns-bind (λ word. Unit {0}) AnswersDeep (param_text 1 f) _
            (Returns-any (λ word. Unit) (param_text 1 f) (λ word. tt)) (λ word v. h name word))

  -- Whatever control function is run, with whatever parameters, and whether it finds what it names
  -- or not, it leaves every block of a linked tree wired and with every variable its children use.
  pub run-Deep :
      (show : D → Str) (c : Command) (f : ControlFunc D) (t : Tree D)
      → Deep t
      → Returns AnswersDeep (run show c f t)
  unfolding run
  run-Deep show get_value f t h =
      with_text-Deep f (λ name. run_get_value name t)
        (λ name. subst Deep (run_get_value_same name t) h)
  run-Deep show set_value f t h =
      with_texts-Deep f (λ name val. run_set_value name val t)
        (λ name val. run_set_value-Deep name val t h)
  run-Deep show lock_param f t h =
      with_texts-Deep f (λ name word. run_lock_param name word t)
        (λ name word. run_lock_param-Deep name word t h)
  run-Deep show var_list f t h =
      with_texts-Deep f (λ block filter. run_var_list block t)
        (λ block filter. subst Deep (run_var_list_same block t) h)
  run-Deep show lock_block f t h =
      with_texts-Deep f (λ name word. run_lock_block name word t)
        (λ name word. run_lock_block-Deep name word t h)
  run-Deep show show_class_errors f t h =
      with_text-Deep f (λ name. run_show_class_errors name t)
        (λ name. run_show_class_errors-Deep name t h)
  run-Deep show lock_subprog f t h =
      with_texts-Deep f (λ name word. run_lock_subprog name word t)
        (λ name word. run_lock_subprog-Deep name word t h)
  run-Deep show subp_list f t h =
      with_texts-Deep f (λ block filter. run_subp_list show block t)
        (λ block filter. subst Deep (run_subp_list_same show block t) h)
