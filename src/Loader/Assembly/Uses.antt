-- ===== src/Loader/Assembly/Uses.antt =====
-- A block that the loader makes has every variable that its children use.
use func_sim_engine.Prelude.{
  ◌≡◌, ◌≢◌, refl, sym, subst, ◌∙◌, Bool, true, false, Option, some, List, [], ◌∷◌, Str, lit, str_eq,
  str_eq_refl, Bool-cases, Option-cases, inl, inr, arith, All, is_some, ℕ,
}
use func_sim_engine.StdMap.{Map, str_key, find, emplace, find-emplace}
use func_sim_engine.Param.Real.{Floats}
use func_sim_engine.Param.{Parameter, create, copy_data, value_eq}
use func_sim_engine.Result.{throw, undefined, out_of_range}
use func_sim_engine.Callable.{get_power_vars}
use func_sim_engine.Subprogram.{Subprogram}
use func_sim_engine.Block.{
  Block, empty_block, add_made_variable, add_return_param, add_use_param, copy_use_vars,
}
use func_sim_engine.Block.Wiring.{
  copy_use_vars_defined, Has, IsWired, Grows-IsWired, add_made_variable-Grows,
  add_return_param-IsWired, add_use_param-IsWired,
}
use func_sim_engine.Tree.{
  Tree, Forest, node, end, child, Site, site, children, find_child, insert_child, add_child,
  get_variable, add_subprog, new_site, make_periodical, set_period,
}
use func_sim_engine.Tree.Power.{set_site, set_block}
use func_sim_engine.Tree.Calling.{replace_child}
use func_sim_engine.Loader.{
  ParameterDesc, DestinationDesk, StateD, BlockNode, Classes, Loading, loaded, refused, crashed,
  check, name_or, child_refused, subprog_refused, var_setup_poweron, var_setup_poweroff,
  block_type_periodical, is_block_type, ◌>>=◌, make_variable, link, described, add_parameters,
  add_children, add_subprogs, make_setup, add_states, set_name, first_site, assemble,
}
use func_sim_engine.Tree.Linked.{Linked, known, Linked-IsWired}
use func_sim_engine.Loader.Assembly.{
  Gives-mono, add_return_param_vars, add_use_param_vars, Gives, Gives-bind, Gives-check,
  Gives-find_or, EachChild, Child, EachChild-find, EachChild-replace, Child-mono, EachChild-DeepIn,
  EachChild-insert, add_return_param_uses, add_use_param_uses, set_block-Child, Gives-any,
  set_site-Child, Gives-check_then,
}

emplace_there : {V : Type 0} (k : Str) (v : V) (m : Map Str V) → Has (emplace k v m).0 k
emplace_there k v m = ground (arith, find-emplace k k v m, str_eq_refl k)

module _ {D : Type 0} ⦃fl : Floats D⦄ where
  copy_use_vars_known :
      (above : Map Str (Parameter D)) (vs : Map Str Str) (b : Block D)
      → All (λ e. Has above e.1) vs
      → (copy_use_vars above vs b).1 ≢ throw out_of_range
  unfolding copy_use_vars
  copy_use_vars_known above [] b h = λ x. cc
  copy_use_vars_known above ((dst, src) ∷ vs) b h = elim (Option-cases (find src above)) [
    | inl e ↦ absurd (ground (arith, h.0, e))
    | inr (p, e) ↦ elim (Option-cases (find dst b.vars)) [
      | inl e' ↦ rw (e, e', copy_use_vars) (λ x. cc)
      | inr (v, e') ↦ elim (Option-cases (value_eq v.value p.value)) [
        | inl q ↦ rw (e, e', copy_use_vars, copy_data, q) (λ x. cc)
        | inr (true, q) ↦
            rw (e, e', copy_use_vars, copy_data, q) (copy_use_vars_known above vs _ h.1)
        | inr (false, q) ↦
            rw (e, e', copy_use_vars, copy_data, q) (copy_use_vars_known above vs _ h.1)
      ]
    ]
  ]

  make_variable-Child :
      (P : Str → Type 0) (name : Str) (d : ParameterDesc) (f : Forest D)
      → EachChild (Child P) f
      → Gives (λ x. EachChild (Child P) x.1) (make_variable name d f)
  unfolding make_variable
  make_variable-Child P name d f h =
      elim d.source_block
        as (λ b.
          Gives (λ x. EachChild (Child P) x.1)
            (make_variable name (record d { source_block = b }) f)) [
              | [] ↦ Gives-find_or _ (create d.type) _ _ (λ p e. h)
              | c ∷ cs ↦ Gives-find_or _ (find_child (c ∷ cs) f) _ _ (λ t e.
                  let p_name = name_or d.source_name name in
                  Gives-find_or _ (get_variable t p_name) _ _ (λ v e'.
                    let x = add_return_param p_name name (site t).block in
                    let was = EachChild-find (Child P) (c ∷ cs) f t h e in
                    let uses =
                      subst (λ u. All (λ e. P e.1) u)
                        (sym (add_return_param_uses p_name name (site t).block)) was.1 in
                    let wired =
                      add_return_param-IsWired p_name name (site t).block
                        (Linked-IsWired known t was.0) in
                    Gives-check _ x.1 _ _ (
                      EachChild-replace (Child P) (c ∷ cs) (set_block x.0 t) f
                        (set_block-Child P x.0 t was.0
                          (add_return_param_vars p_name name (site t).block) wired uses)
                        h)))
            ]

  link-Child :
      (P : Str → Type 0) (name : Str) (p : Parameter D) (ds : List DestinationDesk) (f : Forest D)
      → P name
      → EachChild (Child P) f
      → Gives (EachChild (Child P)) (link name p ds f)
  unfolding link
  link-Child P name p [] f k h = h
  link-Child P name p (d ∷ ds) f k h =
      Gives-find_or _ (find_child d.destination_block f) _ _ (λ t e.
        let p_name = name_or d.destination_name name in
        Gives-find_or _ (get_variable t p_name) _ _ (λ v e'.
          let x = add_use_param name p_name (site t).block in
          let was = EachChild-find (Child P) d.destination_block f t h e in
          let uses = add_use_param_uses P name p_name (site t).block k was.1 in
          let wired =
            add_use_param-IsWired name p_name (site t).block (Linked-IsWired known t was.0) in
          Gives-check _ (str_eq v.type p.type) _ _ (
            Gives-check _ x.1 _ _ (
              link-Child P name p ds (replace_child d.destination_block (set_block x.0 t) f) k (
                EachChild-replace (Child P) d.destination_block (set_block x.0 t) f
                  (set_block-Child P x.0 t was.0 (add_use_param_vars name p_name (site t).block)
                    wired uses)
                  h)))))

  made_variable_there :
      (name : Str) (p : Parameter D) (b : Block D) → Has (add_made_variable name p b).0.vars name
  unfolding add_made_variable
  made_variable_there name p b = elim (Bool-cases (emplace name p b.vars).1) [
    | inl x ↦ rw x (emplace_there name p b.vars)
    | inr x ↦ rw x (emplace_there name p b.vars)
  ]

  -- A block that uses nothing yet, with the children that it knows the used variables of.
  abbrev Parent : Block D → Forest D → Type 0
  Parent b f = IsWired b × EachChild (Child (Has b.vars)) f × All (λ e. ⊥) b.use_vars

  add_parameters-Parent :
      (ds : Map Str ParameterDesc) (b : Block D) (f : Forest D)
      → Parent b f
      → Gives (λ x. Parent x.0 x.1) (add_parameters ds b f)
  unfolding add_parameters
  add_parameters-Parent [] b f h = h
  add_parameters-Parent ((name, d) ∷ ds) b f h =
      Gives-bind (λ x. EachChild (Child (Has b.vars)) x.1) (λ x. Parent x.0 x.1)
        (make_variable name d f) _ (make_variable-Child (Has b.vars) name d f h.1)
        (λ made g.
          let p = described d.desc made.0 in
          let b' = (add_made_variable name p b).0 in
          let more = add_made_variable-Grows name p b in
          Gives-bind (EachChild (Child (Has b'.vars))) (λ x. Parent x.0 x.1)
            (link name made.0 d.destination made.1) _
            (link-Child (Has b'.vars) name made.0 d.destination made.1
              (made_variable_there name p b)
              (Child-mono (Has b.vars) (Has b'.vars) made.1 more.vars g))
            (λ f' g'. Gives-check _ (add_made_variable name p b).1 _ _ (
              add_parameters-Parent ds b' f'
                (Grows-IsWired more h.0, g', subst (All (λ e. ⊥)) (sym more.use_vars) h.2))))

  -- The same of a tree.
  abbrev IsParent : Tree D → Type 0
  IsParent t = Parent (site t).block (children t)

  add_children-IsParent :
      (p_map : Map Str ParameterDesc) (f : Forest D) (s : Site D) (g : Forest D)
      → Parent s.block g
      → EachChild (Child (Has s.block.vars)) f
      → Gives (λ t. IsParent t × ((site t).block ≡ s.block)) (add_children p_map f (node s g))
  unfolding add_children add_child
  add_children-IsParent p_map end s g h k = (h, refl)
  add_children-IsParent p_map (child name t f) s g h k =
      let t' = set_site (record (site t) { callable = set_name name (site t).callable }) t in
      let was : Child (Has s.block.vars) t' =
        set_site-Child (Has s.block.vars) (set_name name (site t).callable) t k.0 in
      let Q : Tree D → Type 0 = λ t. IsParent t × ((site t).block ≡ s.block) in
      let body : Loading (Tree D) =
        check (add_child name t' (node s g)).1 (child_refused name) >>= λ u.
        add_children p_map f (add_child name t' (node s g)).0 in
      let added : Gives Q body = elim (Bool-cases (is_some (find_child name g))) [
        | inl x ↦ rw x tt
        | inr x ↦ rw x (
            add_children-IsParent p_map f s (insert_child name t' g)
              (h.0, EachChild-insert (Child (Has s.block.vars)) name t' g was h.1, h.2) k.1)
      ] in
      Gives-check_then Q p_map name (get_power_vars (site t).callable) (λ u. body) added

  add_subprogs_block :
      (p_map : Map Str ParameterDesc) (subs : Map Str (Subprogram D)) (s : Site D)
      → Gives (λ s'. s'.block ≡ s.block) (add_subprogs p_map subs s)
  unfolding add_subprogs add_subprog
  add_subprogs_block p_map [] s = refl
  add_subprogs_block p_map ((name, sub) ∷ subs) s =
      let Q : Site D → Type 0 = λ s'. s'.block ≡ s.block in
      let sub' = record sub { callable = set_name name sub.callable } in
      let added : Site D × Bool = add_subprog name sub' s in
      let body : Loading (Site D) =
        check added.1 (subprog_refused name) >>= λ u. add_subprogs p_map subs added.0 in
      Gives-check_then Q p_map name (get_power_vars sub.callable) (λ u. body)
        (Gives-check Q added.1 (subprog_refused name) (λ u. add_subprogs p_map subs added.0)
          (add_subprogs_block p_map subs added.0))

  with_edges :
      (b : Block D) (on off : Map Str (Parameter D)) (f : Forest D)
      → Parent b f
      → Parent (record b { poweron_vars = on; poweroff_vars = off }) f
  with_edges b on off f h = (record { returns = h.0.returns; uses = h.0.uses }, h.1, h.2)

  add_states-IsParent :
      (p_map : Map Str ParameterDesc) (ss : Map Str StateD) (t : Tree D)
      → IsParent t
      → Gives IsParent (add_states p_map ss t)
  unfolding add_states
  add_states-IsParent p_map [] t h = h
  add_states-IsParent p_map ((name, st) ∷ ss) (node s f) h =
      elim (Bool-cases (str_eq name var_setup_poweron)) [
        | inl x ↦
            rw (x, add_states)
              (Gives-bind (λ m. Unit) IsParent (make_setup p_map name st.vars (node s f) []) _
                (Gives-any _)
                (λ setup u.
                  add_states-IsParent p_map ss
                    (node (record s { block = record s.block { poweron_vars = setup } }) f)
                    (with_edges s.block setup s.block.poweroff_vars f h)))
        | inr x ↦
            rw (x, add_states)
              (Gives-check IsParent (str_eq name var_setup_poweroff) _ _ (
                Gives-bind (λ m. Unit) IsParent (make_setup p_map name st.vars (node s f) []) _
                  (Gives-any _)
                  (λ setup u.
                    add_states-IsParent p_map ss
                      (node (record s { block = record s.block { poweroff_vars = setup } }) f)
                      (with_edges s.block s.block.poweron_vars setup f h))))
      ]

  -- A deeply linked tree whose block uses nothing of a block above.
  abbrev pub Fresh : Tree D → Type 0
  Fresh t = Child (λ s. ⊥) t

  IsParent-Fresh : (t : Tree D) → IsParent t → Fresh t
  unfolding Linked
  IsParent-Fresh (node s f) h = ((h.0, EachChild-DeepIn s.block.vars f h.1), h.2)

  start_Parent : (f : Forest D) → EachChild Fresh f → Parent empty_block f
  start_Parent f h =
      (record { returns = tt; uses = tt }, Child-mono (λ s. ⊥) (Has []) f (λ s x. absurd x) h, tt)

  make_periodical_block : (s : Site D) → (make_periodical s).0.block ≡ s.block
  unfolding make_periodical
  make_periodical_block s = elim (Bool-cases s.is_periodical) [
    | inl e ↦ rw e refl
    | inr e ↦ rw e refl
  ]

  set_period_block : (p : D) (s : Site D) → (set_period p s).0.block ≡ s.block
  unfolding set_period
  set_period_block p s = elim (Bool-cases (fl.eq s.period p)) [
    | inl e ↦ rw e refl
    | inr e ↦ rw e refl
  ]

  first_site_block :
      (classes : Classes D) (start : ℕ) (n : BlockNode D)
      → (first_site classes start n).block ≡ empty_block
  unfolding first_site new_site
  first_site_block classes start n =
      let s0 = new_site start (classes.create n.class) n.class (lit "XXX") in
      elim (Bool-cases (str_eq n.type block_type_periodical)) [
        | inl e ↦
            rw (e, first_site)
              (set_period_block n.period (make_periodical s0).0 ∙ make_periodical_block s0)
        | inr e ↦ rw (e, first_site) (set_period_block n.period s0)
      ]

  set_site-IsParent :
      (s : Site D) (t : Tree D) → s.block ≡ (site t).block → IsParent t → IsParent (set_site s t)
  set_site-IsParent s (node s' f) e h = subst (λ b. Parent b f) (sym e) h

module _ {D : Type 0} ⦃fl : Floats D⦄ (classes : Classes D) (start : ℕ) where
  joined :
      (t : Tree D) (m : Loading (Site D))
      → ((s' : Site D) → m ≡ loaded s' → s'.block ≡ (site t).block)
      → IsParent t
      → Gives IsParent (m >>= λ s'. loaded (set_site s' t))
  joined t (loaded s') k h = set_site-IsParent s' t (k s' refl) h
  joined t (refused e) k h = tt
  joined t crashed k h = tt

  assemble-IsParent :
      (n : BlockNode D)
      → ((c : Option ℕ) (s s' : Site D) → classes.join c s ≡ loaded s' → s'.block ≡ s.block)
      → EachChild Fresh n.child_map
      → Gives IsParent (assemble classes start n)
  unfolding assemble
  assemble-IsParent n keeps h =
      let s = first_site classes start n in
      let first : Parent s.block n.child_map =
        subst (λ b. Parent b n.child_map) (sym (first_site_block classes start n))
          (start_Parent n.child_map h) in
      Gives-check IsParent (is_block_type n.type) _ _ (
        Gives-bind (λ x. Parent x.0 x.1) IsParent (add_parameters n.p_map s.block n.child_map) _
          (add_parameters-Parent n.p_map s.block n.child_map first)
          (λ made g.
            let bare = record s { block = made.0 } in
            Gives-bind (λ t. IsParent t × ((site t).block ≡ made.0)) IsParent
              (add_children n.p_map made.1 (node bare end)) _
              (add_children-IsParent n.p_map made.1 bare end (g.0, tt, g.2) g.1)
              (λ bl h1.
                Gives-bind (λ s'. s'.block ≡ (site bl).block) IsParent
                  (add_subprogs n.p_map n.subs_map (site bl)) _
                  (add_subprogs_block n.p_map n.subs_map (site bl))
                  (λ s' e.
                    Gives-bind IsParent IsParent (add_states n.p_map n.state_map (set_site s' bl)) _
                      (add_states-IsParent n.p_map n.state_map (set_site s' bl)
                        (set_site-IsParent s' bl e h1.0))
                      (λ bl' h2.
                        elim n.class
                          as (λ x. Gives IsParent (elim x [
                            | [] ↦ loaded bl'
                            | c ∷ cs ↦ classes.join (site bl').class (site bl') >>= λ s''.
                                loaded (set_site s'' bl')
                          ])) [
                            | [] ↦ h2
                            | c ∷ cs ↦
                                joined bl' (classes.join (site bl').class (site bl')) (keeps _ _) h2
                          ])))))

  -- If the children that were read are deeply linked and use nothing yet, and the joining of a class
  -- leaves the variables of a block alone, then a block that is loaded is deeply linked, uses nothing
  -- yet itself, and has every variable that one of its children uses.
  pub assemble_linked :
      (n : BlockNode D) (t : Tree D)
      → ((c : Option ℕ) (s s' : Site D) → classes.join c s ≡ loaded s' → s'.block ≡ s.block)
      → EachChild Fresh n.child_map
      → assemble classes start n ≡ loaded t
      → Fresh t × EachChild (Child (Has (site t).block.vars)) (children t)
  assemble_linked n t keeps h e =
      let linked = subst (Gives IsParent) e (assemble-IsParent n keeps h) in
      (IsParent-Fresh t linked, linked.1)

  -- So the first loop of a call of such a child, over the variables of the loaded block, never meets
  -- a variable that is not there, of either block.
  pub assemble_known :
      (n : BlockNode D) (t : Tree D) (name : Str) (u : Tree D)
      → ((c : Option ℕ) (s s' : Site D) → classes.join c s ≡ loaded s' → s'.block ≡ s.block)
      → EachChild Fresh n.child_map
      → assemble classes start n ≡ loaded t
      → find_child name (children t) ≡ some u
      → ((copy_use_vars (site t).block.vars (site u).block.use_vars (site u).block).1
          ≢ throw out_of_range)
        × ((copy_use_vars (site t).block.vars (site u).block.use_vars (site u).block).1 ≢ undefined)
  assemble_known n t name u keeps h e f =
      let (fresh, linked) = assemble_linked n t keeps h e in
      let c = EachChild-find (Child (Has (site t).block.vars)) name (children t) u linked f in
      let b = (site u).block in
      (
        copy_use_vars_known (site t).block.vars b.use_vars b c.1,
        copy_use_vars_defined (site t).block.vars b.use_vars b (Linked-IsWired known u c.0).uses,
      )

  pub assemble-Fresh :
      (n : BlockNode D)
      → ((c : Option ℕ) (s s' : Site D) → classes.join c s ≡ loaded s' → s'.block ≡ s.block)
      → EachChild Fresh n.child_map
      → Gives Fresh (assemble classes start n)
  assemble-Fresh n keeps h =
      Gives-mono IsParent Fresh (assemble classes start n) IsParent-Fresh
        (assemble-IsParent n keeps h)
