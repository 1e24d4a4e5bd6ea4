-- ===== src/Tree/Linked.antt =====
-- Trees whose blocks are wired and know their children, and what the power edges keep of them.
pub mod Children
pub mod Calls
use func_sim_engine.Prelude.{
  ◌≡◌, refl, sym, ◌∙◌, subst, Bool, false, List, [], ◌∷◌, Str, str_eq, Bool-cases, inl, inr, All,
}
use func_sim_engine.StdMap.{Map, str_key}
use func_sim_engine.Result.{Result, ok, throw, undefined, and_then, and_then_keeps}
use func_sim_engine.Param.Real.{Floats}
use func_sim_engine.Param.{Parameter}
use func_sim_engine.Callable.{SystemClock}
use func_sim_engine.Block.{
  Block, Names, write_variables, write_edge_vars, write_poweron_vars, write_poweroff_vars,
}
use func_sim_engine.Block.Wiring.{
  Has, IsWired, Grows, Grows-refl, Grows-trans, Grows-IsWired, All-mono, write_from-Grows,
}
use func_sim_engine.Tree.{Tree, Forest, node, end, child, site, children}
use func_sim_engine.Tree.Power.{
  set_block, set_prev_power, touch_tree, touch_forest, power_off_children, power_off_forest,
}
use func_sim_engine.Tree.Calling.{replace_child}
use func_sim_engine.Tree.Calling.Growth.{
  AllWired, AllWiredIn, write_variables-Grows, write_poweron_vars-Grows, write_poweroff_vars-Grows,
}

-- What a block must know of a child, by its variables and the accordances of what the child uses,
-- and goes on to know when it grows.
pub record Link (D : Type 0) : Type 1 where
  knows : Map Str (Parameter D) → Map Str Str → Type 0
  more : (b c : Block D) → Grows b c → (u : Map Str Str) → knows b.vars u → knows c.vars u

-- Every block of a tree is wired, and knows each of its children.
unfoldable mutual
  pub Linked : {D : Type 0} → Link D → Tree D → Type 0
  Linked L (node s f) = IsWired s.block × LinkedIn L s.block.vars f

  pub LinkedIn : {D : Type 0} → Link D → Map Str (Parameter D) → Forest D → Type 0
  LinkedIn L m end = Unit
  LinkedIn L m (child k t f) = (Linked L t × L.knows m (site t).block.use_vars) × LinkedIn L m f

-- A block that has every variable that a child uses, and one that need not have any.
abbrev pub known : {D : Type 0} → Link D
known = record {
  knows = λ m u. All (λ e. Has m e.1) u;
  more = λ b c g u h. All-mono _ _ u (λ e x. g.vars e.1 x) h;
}

abbrev pub any : {D : Type 0} → Link D
any = record { knows = λ m u. Unit; more = λ b c g u h. tt }

-- Every block of a tree is wired, and has every variable that one of its children uses.
abbrev pub Deep : {D : Type 0} → Tree D → Type 0
Deep t = Linked known t

abbrev pub DeepIn : {D : Type 0} → Map Str (Parameter D) → Forest D → Type 0
DeepIn m f = LinkedIn known m f

module _ {D : Type 0} (L : Link D) where
  pub Linked-IsWired : (t : Tree D) → Linked L t → IsWired (site t).block
  unfolding Linked
  Linked-IsWired (node s f) h = h.0

  mutual
    unfolding Linked LinkedIn AllWired AllWiredIn

    pub Linked-AllWired : (t : Tree D) → Linked L t → AllWired t
    Linked-AllWired (node s f) h = (h.0, LinkedIn-AllWiredIn s.block.vars f h.1)

    LinkedIn-AllWiredIn : (m : Map Str (Parameter D)) (f : Forest D) → LinkedIn L m f → AllWiredIn f
    LinkedIn-AllWiredIn m end h = tt
    LinkedIn-AllWiredIn m (child k t f) h = (Linked-AllWired t h.0.0, LinkedIn-AllWiredIn m f h.1)

  -- A deeply linked tree whose block uses what is given.
  abbrev pub Fits : Map Str Str → Tree D → Type 0
  Fits u t = Linked L t × ((site t).block.use_vars ≡ u)

  pub LinkedIn-mono :
      (b c : Block D) (f : Forest D) → Grows b c → LinkedIn L b.vars f → LinkedIn L c.vars f
  unfolding LinkedIn
  LinkedIn-mono b c end g h = tt
  LinkedIn-mono b c (child k t f) g h = ((h.0.0, L.more b c g _ h.0.1), LinkedIn-mono b c f g h.1)

  -- A block that grows leaves a tree linked.
  pub set_block-Fits :
      (u : Map Str Str) (c : Block D) (t : Tree D)
      → Grows (site t).block c
      → Fits u t
      → Fits u (set_block c t)
  unfolding Linked
  set_block-Fits u c (node s f) g h =
      ((Grows-IsWired g h.0.0, LinkedIn-mono s.block c f g h.0.1), g.use_vars ∙ h.1)

  pub set_prev_power-Fits :
      (u : Map Str Str) (power : Bool) (t : Tree D) → Fits u t → Fits u (set_prev_power power t)
  set_prev_power-Fits u power t h =
      set_block-Fits u (record (site t).block { power_prev_step = power }) t
        (record { vars = λ k x. x; names = λ k x. x; res_vars = refl; use_vars = refl }) h

  pub replace_child-LinkedIn :
      (m : Map Str (Parameter D)) (k : Str) (t : Tree D) (f : Forest D)
      → Linked L t × L.knows m (site t).block.use_vars
      → LinkedIn L m f
      → LinkedIn L m (replace_child k t f)
  unfolding LinkedIn replace_child
  replace_child-LinkedIn m k t end w h = h
  replace_child-LinkedIn m k t (child j u f) w h = elim (Bool-cases (str_eq j k)) [
    | inl e ↦ rw (e, replace_child) (w, h.1)
    | inr e ↦ rw (e, replace_child) (h.0, replace_child-LinkedIn m k t f w h.1)
  ]

  module _ {W : Type 0} ⦃fl : Floats D⦄ (clock : SystemClock D W) where
    mutual
      unfolding touch_tree touch_forest Linked LinkedIn

      pub touch_tree-Fits :
          (t : Tree D) (w : W) → Linked L t → Fits (site t).block.use_vars (touch_tree clock t w).0
      touch_tree-Fits (node s f) w h = ((h.0, touch_forest-LinkedIn f s.block.vars _ h.1), refl)

      touch_forest-LinkedIn :
          (f : Forest D) (m : Map Str (Parameter D)) (w : W)
          → LinkedIn L m f
          → LinkedIn L m (touch_forest clock f w).0
      touch_forest-LinkedIn end m w h = tt
      touch_forest-LinkedIn (child k t f) m w h =
          let (d, e) = touch_tree-Fits t w h.0.0 in
          ((d, subst (λ u. L.knows m u) (sym e) h.0.1), touch_forest-LinkedIn f m _ h.1)

  -- A forest in a block that has grown.
  abbrev GrownIn : Block D → Forest D → Block D → Type 0
  GrownIn b f c = Grows b c × LinkedIn L c.vars f

  module _ (fl : Floats D) where
    mutual
      unfolding power_off_children power_off_forest Linked LinkedIn

      pub power_off_children-Fits :
          (t : Tree D) → Linked L t → Fits (site t).block.use_vars (power_off_children fl t).0
      power_off_children-Fits (node s f) h =
          let x = power_off_forest fl f s.block in
          let b' : Block D × Result (Map Str (Parameter D)) =
            and_then (x.1, x.2) (λ u c. write_poweroff_vars ⦃fl = fl⦄ c) in
          let t' : Tree D = node (record s { block = b'.0 }) x.0 in
          let (g, d) = power_off_forest-GrownIn f s.block h.1 in
          let g' : Grows s.block b'.0 =
            and_then_keeps (Grows s.block) _ _ g
              (λ u c k. Grows-trans k (write_poweroff_vars-Grows ⦃fl = fl⦄ c)) in
          let g'' : Grows x.1 b'.0 =
            and_then_keeps (Grows x.1) _ _ (Grows-refl x.1)
              (λ u c k. Grows-trans k (write_poweroff_vars-Grows ⦃fl = fl⦄ c)) in
          let fit : Fits s.block.use_vars t' =
            ((Grows-IsWired g' h.0, LinkedIn-mono x.1 b'.0 x.0 g'' d), g'.use_vars) in
          and_then_keeps (Fits s.block.use_vars) (t', b'.1) _ fit
            (λ vm t k. set_prev_power-Fits s.block.use_vars false t k)

      power_off_forest-GrownIn :
          (f : Forest D) (b : Block D)
          → LinkedIn L b.vars f
          → GrownIn b (power_off_forest fl f b).0 (power_off_forest fl f b).1
      power_off_forest-GrownIn end b h = (Grows-refl b, tt)
      power_off_forest-GrownIn (child k t f) b h =
          let t' = (power_off_children fl t).0 in
          let x : Block D × Result Names =
            and_then (b, (power_off_children fl t).1)
              (λ vm c. write_variables ⦃fl = fl⦄ c.vset_names vm c) in
          let (d, e) = power_off_children-Fits t h.0.0 in
          let g : Grows b x.0 =
            and_then_keeps (Grows b) (b, (power_off_children fl t).1) _ (Grows-refl b)
              (λ vm c k. Grows-trans k (write_variables-Grows ⦃fl = fl⦄ c.vset_names vm c)) in
          let rest : LinkedIn L x.0.vars f = LinkedIn-mono b x.0 f g h.1 in
          let there : (c : Block D)
              → Grows b c
              → Linked L t' × L.knows c.vars (site t').block.use_vars =
            λ c i. (d, subst (λ u. L.knows c.vars u) (sym e) (L.more b c i _ h.0.1)) in
          let body : Result Names → Forest D × Block D × Result {0} Unit = λ r. elim r [
            | ok names ↦ let (f', b'', r'') = power_off_forest fl f x.0 in (child k t' f', b'', r'')
            | throw e ↦ (child k t' f, x.0, throw e)
            | undefined ↦ (child k t' f, x.0, undefined)
          ] in
          elim x.1 as (λ r. GrownIn b (body r).0 (body r).1) [
            | ok names ↦
                let (i, j) = power_off_forest-GrownIn f x.0 rest in
                (Grows-trans g i, (there _ (Grows-trans g i), j))
            | throw y ↦ (g, (there x.0 g, rest))
            | undefined ↦ (g, (there x.0 g, rest))
          ]
