-- ===== src/Loader.antt =====
-- loader/yaml_block.hpp: how a block is made of what its node says, once the node is read. What is
-- printed on `serr` is a `LoadError`; reading the nodes is the work of the YAML library.
pub mod Assembly
pub mod Nodes
pub mod Task
pub mod Config
use func_sim_engine.Prelude.{
  ℕ, Bool, true, false, not, Option, none, some, List, [], ◌∷◌, ◌++◌, Str, lit, str_eq, is_some,
  if◌then◌else◌,
}
use func_sim_engine.StdMap.{Map, Key, str_key, find, emplace}
use func_sim_engine.Param.Real.{Floats}
use func_sim_engine.Param.{Parameter, clone, create, from_string}
use func_sim_engine.Callable.{Callable, set_priority, set_power_cond, get_power_vars}
use func_sim_engine.Subprogram.{Subprogram}
use func_sim_engine.Block.{
  Block, Names, add_made_variable, add_return_param, add_use_param, set_poweron_vars,
  set_poweroff_vars,
}
use func_sim_engine.Tree.{
  Tree, Forest, node, end, child, Site, site, new_site, set_blocked_in_stop, make_periodical,
  set_period, add_subprog, add_child, find_child, get_variable,
}
use func_sim_engine.Tree.Power.{set_site, set_block}
use func_sim_engine.Tree.Calling.{replace_child}

-- `destination_desk`, `parameter_desc` and `tStateD`.
pub record DestinationDesk : Type 0 where
  pub destination_block : Str
  pub destination_name : Str

pub record ParameterDesc : Type 0 where
  pub desc : Str
  pub type : Str
  pub value : Str
  pub source_block : Str
  pub source_name : Str
  pub destination : List DestinationDesk

pub record StateD : Type 0 where
  pub desc : Str
  pub vars : Map Str Str

-- The complaints of the loader.
pub data LoadError : Type 0 where
  says : Str → LoadError
  wrong_type bad_conversion : LoadError
  no_variable_type : Str → LoadError
  no_source_block no_destination_block : Str → Str → LoadError
  no_such_variable : Str → Str → LoadError
  source_refused destination_refused : Str → Str → Str → LoadError
  types_differ : Str → Str → Str → LoadError
  variable_refused : Str → LoadError
  no_power_variable : Str → Str → LoadError
  child_refused subprog_refused : Str → LoadError
  wrong_state : Str → LoadError
  no_state_variable : Str → Str → LoadError
  wrong_state_value : Str → Str → LoadError
  no_class class_config_wrong class_refused : Str → LoadError

-- What loading gives: a value, a complaint, or a null pointer that is followed.
pub data Loading {ℓ} (A : Type ℓ) : Type ℓ where
  loaded : A → Loading A
  refused : LoadError → Loading A
  crashed : Loading A

infixl 5 ◌>>=◌
abbrev pub ◌>>=◌ {ℓ κ} : {A : Type ℓ} {B : Type κ} → Loading A → (A → Loading B) → Loading B
loaded a >>= f = f a
refused e >>= f = refused e
crashed >>= f = crashed

-- A part that an error ends.
abbrev pub check : Bool → LoadError → Loading {0} Unit
check true e = loaded tt
check false e = refused e

abbrev pub find_or {ℓ} : {A : Type ℓ} → Option A → LoadError → Loading A
find_or none e = refused e
find_or (some a) e = loaded a

-- An empty name stands for another.
abbrev pub name_or : Str → Str → Str
name_or [] other = other
name_or (c ∷ cs) other = c ∷ cs

-- `block_type_periodical`, `block_type_nonperiodical`, `var_setup_poweron`, `var_setup_poweroff`.
abbrev pub block_type_periodical : Str
block_type_periodical = lit "периодический"

abbrev pub block_type_nonperiodical : Str
block_type_nonperiodical = lit "периодический"

abbrev pub var_setup_poweron : Str
var_setup_poweron = lit "вкл"

abbrev pub var_setup_poweroff : Str
var_setup_poweroff = lit "выкл"

-- What `decode` has read of a node before it makes the block.
pub record BlockNode (D : Type 0) : Type 0 where
  pub class : Str
  pub type : Str
  pub period : D
  pub priority : D
  pub locked_in_stop : Bool
  pub power : Str
  pub p_map : Map Str ParameterDesc
  pub child_map : Forest D
  pub subs_map : Map Str (Subprogram D)
  pub state_map : Map Str StateD

-- The test of the type, which stands before the rest is read.
unfoldable pub is_block_type : Str → Bool
is_block_type s = if str_eq s block_type_periodical then true else str_eq s block_type_nonperiodical

module _ {D : Type 0} ⦃fl : Floats D⦄ where
  -- The variable of a description, and the children after it was taken from one.
  unfoldable pub make_variable : Str → ParameterDesc → Forest D → Loading (Parameter D × Forest D)
  unfolding create from_string find_child get_variable clone add_return_param replace_child
  make_variable name d children = elim d.source_block [
    | [] ↦ find_or (create d.type) (no_variable_type d.type) >>= λ p.
        loaded ((from_string p d.value).0, children)
    | c ∷ cs ↦ find_or (find_child (c ∷ cs) children) (no_source_block (c ∷ cs) name) >>= λ t.
        let p_name = name_or d.source_name name in
        find_or (get_variable t p_name) (no_such_variable (c ∷ cs) p_name) >>= λ v.
        let (b, taken) = add_return_param p_name name (site t).block in
        check taken (source_refused (c ∷ cs) p_name name) >>= λ u.
        loaded (clone v, replace_child (c ∷ cs) (set_block b t) children)
  ]

  -- The loop over the destinations of a variable.
  unfoldable pub link : Str → Parameter D → List DestinationDesk → Forest D → Loading (Forest D)
  unfolding find_child get_variable add_use_param replace_child
  link name p [] children = loaded children
  link name p (d ∷ ds) children =
      find_or (find_child d.destination_block children)
        (no_destination_block d.destination_block name)
      >>= λ t.
          let p_name = name_or d.destination_name name in
          find_or (get_variable t p_name) (no_such_variable d.destination_block p_name) >>= λ v.
          check (str_eq v.type p.type) (types_differ d.destination_block p_name name) >>= λ u.
          let (b, used) = add_use_param name p_name (site t).block in
          check used (destination_refused d.destination_block p_name name) >>= λ u.
          link name p ds (replace_child d.destination_block (set_block b t) children)

  -- `set_desc` of a description that is not empty.
  abbrev pub described : Str → Parameter D → Parameter D
  described desc p = record p { desc = name_or desc p.desc }

  -- The loop over the descriptions: the block's variables, and its children after it.
  unfoldable pub add_parameters :
      Map Str ParameterDesc → Block D → Forest D → Loading (Block D × Forest D)
  unfolding make_variable link add_made_variable
  add_parameters [] b children = loaded (b, children)
  add_parameters ((name, d) ∷ ds) b children = make_variable name d children >>= λ made.
      link name made.0 d.destination made.1 >>= λ children'.
      let (b', fresh) = add_made_variable name (described d.desc made.0) b in
      check fresh (variable_refused name) >>= λ u. add_parameters ds b' children'

  -- `set_name`
  unfoldable pub set_name : Str → Callable D → Callable D
  set_name name c = record c { name = name }

-- The loop over the variables of a condition, among the descriptions of the block.
unfoldable pub check_power_vars : Map Str ParameterDesc → Str → List Str → Loading {0} Unit
check_power_vars p_map name [] = loaded tt
check_power_vars p_map name (v ∷ vs) =
    check (is_some (find v p_map)) (no_power_variable v name) >>= λ u.
    check_power_vars p_map name vs

module _ {D : Type 0} ⦃fl : Floats D⦄ (p_map : Map Str ParameterDesc) where
  -- The loop over the children.
  unfoldable pub add_children : Forest D → Tree D → Loading (Tree D)
  unfolding set_name get_power_vars check_power_vars add_child
  add_children end bl = loaded bl
  add_children (child name t f) bl =
      let t' = set_site (record (site t) { callable = set_name name (site t).callable }) t in
      check_power_vars p_map name (get_power_vars (site t).callable) >>= λ u.
      let (bl', fresh) = add_child name t' bl in
      check fresh (child_refused name) >>= λ u. add_children f bl'

  -- The loop over the subprograms.
  unfoldable pub add_subprogs : Map Str (Subprogram D) → Site D → Loading (Site D)
  unfolding set_name get_power_vars check_power_vars add_subprog
  add_subprogs [] s = loaded s
  add_subprogs ((name, sub) ∷ subs) s =
      let sub' = record sub { callable = set_name name sub.callable } in
      check_power_vars p_map name (get_power_vars sub.callable) >>= λ u.
      let (s', fresh) = add_subprog name sub' s in
      check fresh (subprog_refused name) >>= λ u. add_subprogs subs s'

  -- The loop over the values of a state: the variables that are written by it.
  unfoldable pub make_setup :
      Str → Map Str Str → Tree D → Map Str (Parameter D) → Loading (Map Str (Parameter D))
  unfolding get_variable clone from_string emplace
  make_setup state [] bl setup = loaded setup
  make_setup state ((name, src) ∷ vs) bl setup =
      check (is_some (find name p_map)) (no_state_variable state name) >>= λ u.
      elim (get_variable bl name) [
        | none ↦ crashed
        | some v ↦
            let (p, accepted) = from_string (clone v) src in
            check accepted (wrong_state_value name src) >>= λ u.
            make_setup state vs bl (emplace name p setup).0
      ]

  -- The loop over the states.
  unfoldable pub add_states : Map Str StateD → Tree D → Loading (Tree D)
  unfolding make_setup
  add_states [] bl = loaded bl
  add_states ((name, st) ∷ ss) bl =
      let on = str_eq name var_setup_poweron in
      check (if on then true else str_eq name var_setup_poweroff) (wrong_state name) >>= λ u.
      make_setup name st.vars bl [] >>= λ setup.
      let b = (site bl).block in
      let b' : Block D = if on then set_poweron_vars setup b else set_poweroff_vars setup b in
      add_states ss (set_block b' bl)

-- What the classes of blocks do: `create` of their factory, and the end of `decode` for a block of
-- a class, where the class reads its own part of the node and joins with the block.
pub record Classes (D : Type 0) : Type 0 where
  pub create : Str → Option ℕ
  pub join : Option ℕ → Site D → Loading (Site D)

module _ {D : Type 0} ⦃fl : Floats D⦄ (classes : Classes D) (start : ℕ) where
  -- The block as it is made first.
  unfoldable pub first_site : BlockNode D → Site D
  unfolding new_site make_periodical set_period set_priority set_power_cond
  first_site n =
      let s0 = new_site start (classes.create n.class) n.class (lit "XXX") in
      let s1 = if str_eq n.type block_type_periodical then (make_periodical s0).0 else s0 in
      let s2 = (set_period n.period s1).0 in
      let c = set_power_cond n.power (set_priority n.priority s2.callable).0 in
      set_blocked_in_stop n.locked_in_stop (record s2 { callable = c })

  -- The block of what was read.
  unfoldable pub assemble : BlockNode D → Loading (Tree D)
  unfolding first_site add_parameters add_children add_subprogs add_states
  assemble n = check (is_block_type n.type) wrong_type >>= λ u.
      let s = first_site n in
      add_parameters n.p_map s.block n.child_map >>= λ made.
      add_children n.p_map made.1 (node (record s { block = made.0 }) end) >>= λ bl.
      add_subprogs n.p_map n.subs_map (site bl) >>= λ s'.
      add_states n.p_map n.state_map (set_site s' bl) >>= λ bl'. elim n.class [
        | [] ↦ loaded bl'
        | c ∷ cs ↦ classes.join (site bl').class (site bl') >>= λ s''. loaded (set_site s'' bl')
      ]
