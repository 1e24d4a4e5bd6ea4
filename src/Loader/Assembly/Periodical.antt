-- ===== src/Loader/Assembly/Periodical.antt =====
-- The words for the two types of blocks are the same, so every block that is loaded is periodical.
use func_sim_engine.Prelude.{
  ℕ, ◌≡◌, refl, ◌∙◌, Bool, true, Option, [], ◌∷◌, Str, lit, str_eq, is_some, Bool-cases, inl, inr,
  arith, subst,
}
use func_sim_engine.StdMap.{Map, str_key}
use func_sim_engine.Param.Real.{Floats}
use func_sim_engine.Callable.{get_power_vars}
use func_sim_engine.Subprogram.{Subprogram}
use func_sim_engine.Tree.{
  Tree, Forest, node, end, child, Site, site, find_child, add_child, add_subprog, new_site,
  make_periodical, set_period,
}
use func_sim_engine.Tree.Power.{set_site}
use func_sim_engine.Loader.{
  ParameterDesc, StateD, BlockNode, Classes, Loading, loaded, refused, crashed, child_refused,
  subprog_refused, block_type_periodical, is_block_type, var_setup_poweron, var_setup_poweroff,
  ◌>>=◌, add_parameters, add_children, add_subprogs, make_setup, add_states, first_site, set_name,
  assemble,
}
use func_sim_engine.Loader.Assembly.{Gives, Gives-bind, Gives-any, Gives-check, Gives-check_then}

same_word : (s : Str) → is_block_type s ≡ true → str_eq s block_type_periodical ≡ true
unfolding is_block_type
same_word s h = ground arith

module _ {D : Type 0} ⦃fl : Floats D⦄ where
  make_periodical_made : (s : Site D) → (make_periodical s).0.is_periodical ≡ true
  unfolding make_periodical
  make_periodical_made s = elim (Bool-cases s.is_periodical) [
    | inl e ↦ rw (e, make_periodical) refl
    | inr e ↦ rw (e, make_periodical) refl
  ]

  set_period_same : (p : D) (s : Site D) → (set_period p s).0.is_periodical ≡ s.is_periodical
  unfolding set_period
  set_period_same p s = elim (Bool-cases (fl.eq s.period p)) [
    | inl e ↦ rw (e, set_period) refl
    | inr e ↦ rw (e, set_period) refl
  ]

  first_site_periodical :
      (classes : Classes D) (start : ℕ) (n : BlockNode D)
      → str_eq n.type block_type_periodical ≡ true
      → (first_site classes start n).is_periodical ≡ true
  unfolding first_site
  first_site_periodical classes start n e =
      let s0 = new_site start (classes.create n.class) n.class (lit "XXX") in
      rw (e, first_site) (set_period_same n.period (make_periodical s0).0 ∙ make_periodical_made s0)

  abbrev IsPeriodical : Tree D → Type 0
  IsPeriodical t = (site t).is_periodical ≡ true

  add_child-IsPeriodical :
      (name : Str) (u t : Tree D) → IsPeriodical t → IsPeriodical (add_child name u t).0
  unfolding add_child
  add_child-IsPeriodical name u (node s f) h = elim (Bool-cases (is_some (find_child name f))) [
    | inl e ↦ rw (e, add_child) h
    | inr e ↦ rw (e, add_child) h
  ]

  add_children-IsPeriodical :
      (p_map : Map Str ParameterDesc) (f : Forest D) (t : Tree D)
      → IsPeriodical t
      → Gives IsPeriodical (add_children p_map f t)
  unfolding add_children
  add_children-IsPeriodical p_map end t h = h
  add_children-IsPeriodical p_map (child name u f) t h =
      let u' = set_site (record (site u) { callable = set_name name (site u).callable }) u in
      Gives-check_then IsPeriodical p_map name (get_power_vars (site u).callable) _ (
        Gives-check IsPeriodical (add_child name u' t).1 (child_refused name) _ (
          add_children-IsPeriodical p_map f (add_child name u' t).0
            (add_child-IsPeriodical name u' t h)))

  add_subprogs_periodical :
      (p_map : Map Str ParameterDesc) (subs : Map Str (Subprogram D)) (s : Site D)
      → s.is_periodical ≡ true
      → Gives (λ s'. s'.is_periodical ≡ true) (add_subprogs p_map subs s)
  unfolding add_subprogs add_subprog
  add_subprogs_periodical p_map [] s h = h
  add_subprogs_periodical p_map ((name, sub) ∷ subs) s h =
      let Q : Site D → Type 0 = λ s'. s'.is_periodical ≡ true in
      let sub' = record sub { callable = set_name name sub.callable } in
      let added : Site D × Bool = add_subprog name sub' s in
      Gives-check_then Q p_map name (get_power_vars sub.callable) _ (
        Gives-check Q added.1 (subprog_refused name) _
          (add_subprogs_periodical p_map subs added.0 h))

  set_site-IsPeriodical :
      (s : Site D) (t : Tree D) → s.is_periodical ≡ true → IsPeriodical (set_site s t)
  set_site-IsPeriodical s (node s' f) h = h

  add_states-IsPeriodical :
      (p_map : Map Str ParameterDesc) (ss : Map Str StateD) (t : Tree D)
      → IsPeriodical t
      → Gives IsPeriodical (add_states p_map ss t)
  unfolding add_states
  add_states-IsPeriodical p_map [] t h = h
  add_states-IsPeriodical p_map ((name, st) ∷ ss) (node s f) h =
      let made = make_setup p_map name st.vars (node s f) [] in
      elim (Bool-cases (str_eq name var_setup_poweron)) [
        | inl x ↦
            rw (x, add_states)
              (Gives-bind (λ m. Unit {0}) IsPeriodical made _ (Gives-any _)
                (λ setup u.
                  add_states-IsPeriodical p_map ss
                    (node (record s { block = record s.block { poweron_vars = setup } }) f) h))
        | inr x ↦
            rw (x, add_states)
              (Gives-check IsPeriodical (str_eq name var_setup_poweroff) _ _ (
                Gives-bind (λ m. Unit {0}) IsPeriodical made _ (Gives-any _)
                  (λ setup u.
                    add_states-IsPeriodical p_map ss
                      (node (record s { block = record s.block { poweroff_vars = setup } }) f) h)))
      ]

  joined-IsPeriodical :
      (t : Tree D) (m : Loading (Site D))
      → ((s' : Site D) → m ≡ loaded s' → s'.is_periodical ≡ true)
      → Gives IsPeriodical (m >>= λ s'. loaded (set_site s' t))
  joined-IsPeriodical t (loaded s') k = set_site-IsPeriodical s' t (k s' refl)
  joined-IsPeriodical t (refused e) k = tt
  joined-IsPeriodical t crashed k = tt

module _ {D : Type 0} ⦃fl : Floats D⦄ (classes : Classes D) (start : ℕ) where
  assemble-IsPeriodical :
      (n : BlockNode D)
      → ((c : Option ℕ) (s s' : Site D)
          → classes.join c s ≡ loaded s'
          → s'.is_periodical ≡ s.is_periodical)
      → Gives IsPeriodical (assemble classes start n)
  unfolding assemble
  assemble-IsPeriodical n keeps = elim (Bool-cases (is_block_type n.type)) [
    | inr e ↦ rw (e, assemble) tt
    | inl e ↦
        let s = first_site classes start n in
        let first : s.is_periodical ≡ true =
          first_site_periodical classes start n (same_word n.type e) in
        rw (e, assemble)
          (Gives-bind (λ x. Unit {0}) IsPeriodical (add_parameters n.p_map s.block n.child_map) _
            (Gives-any _)
            (λ made u.
              Gives-bind IsPeriodical IsPeriodical
                (add_children n.p_map made.1 (node (record s { block = made.0 }) end)) _
                (add_children-IsPeriodical n.p_map made.1 (node (record s { block = made.0 }) end)
                  first)
                (λ bl h.
                  Gives-bind (λ s'. s'.is_periodical ≡ true) IsPeriodical
                    (add_subprogs n.p_map n.subs_map (site bl)) _
                    (add_subprogs_periodical n.p_map n.subs_map (site bl) h)
                    (λ s' h'.
                      Gives-bind IsPeriodical IsPeriodical
                        (add_states n.p_map n.state_map (set_site s' bl)) _
                        (add_states-IsPeriodical n.p_map n.state_map (set_site s' bl)
                          (set_site-IsPeriodical s' bl h'))
                        (λ bl' h''.
                          elim n.class
                            as (λ x. Gives IsPeriodical (elim x [
                              | [] ↦ loaded bl'
                              | c ∷ cs ↦ classes.join (site bl').class (site bl') >>= λ s''.
                                  loaded (set_site s'' bl')
                            ])) [
                              | [] ↦ h''
                              | c ∷ cs ↦
                                  joined-IsPeriodical bl' (classes.join (site bl').class (site bl'))
                                    (λ s'' j. keeps _ _ _ j ∙ h'')
                            ])))))
  ]

  -- If the joining of a class leaves the type of a block alone, a block that is loaded is periodical,
  -- whatever its node says.
  pub assemble_periodical :
      (n : BlockNode D) (t : Tree D)
      → ((c : Option ℕ) (s s' : Site D)
          → classes.join c s ≡ loaded s'
          → s'.is_periodical ≡ s.is_periodical)
      → assemble classes start n ≡ loaded t
      → (site t).is_periodical ≡ true
  assemble_periodical n t keeps e = subst (Gives IsPeriodical) e (assemble-IsPeriodical n keeps)
