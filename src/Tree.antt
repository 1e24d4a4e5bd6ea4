-- ===== src/Tree.antt =====
-- kernel/block.hpp: the tree of blocks. A block is a `Site`, the fields that are its own, with its
-- children in the order of their names. What a pointer into the tree is used to change is changed in
-- place. What lookups tell the logger is left out.
pub mod Paths
pub mod Messages
pub mod Power
pub mod Calling
pub mod Linked
use func_sim_engine.Prelude.{
  ℕ, Bool, true, false, Option, none, some, List, [], ◌∷◌, ◌++◌, Str, str_eq, str_lt, if◌then◌else◌,
  is_some,
}
use mathlib.Core.Option
use func_sim_engine.StdMap.{Map, Key, str_key, find, insert, emplace}
use func_sim_engine.Names.{extract_block_name, compose_block_name}
use func_sim_engine.Param.Real.{Floats}
use func_sim_engine.Param.{Parameter}
use func_sim_engine.Callable.{Callable, callable}
use func_sim_engine.Subprogram.{Subprogram}
use func_sim_engine.Block.{Block, Names, empty_block}

-- The fields of `Block`: those of `Callable`, `_classname`, `_is_blocked_in_stop`, `_isperiodical`,
-- `_period`, `_lastcall_plan`, `_class` as a handle, the variables with what belongs to them, and
-- `_subprog`.
pub record Site (D : Type 0) : Type 0 where
  pub callable : Callable D
  pub classname : Str
  pub is_blocked_in_stop : Bool
  pub is_periodical : Bool
  pub period : D
  pub lastcall_plan : D
  pub class : Option ℕ
  pub block : Block D
  pub subprogs : Map Str (Subprogram D)

-- A block with its children: `_children` is the forest.
mutual
  pub data Tree (D : Type 0) : Type 0 where
    node : Site D → Forest D → Tree D

  pub data Forest (D : Type 0) : Type 0 where
    end : Forest D
    child : Str → Tree D → Forest D → Forest D

abbrev pub site : {D : Type 0} → Tree D → Site D
site (node s f) = s

abbrev pub children : {D : Type 0} → Tree D → Forest D
children (node s f) = f

-- What `set_period`, `make_periodical` and `make_nonperiodical` tell the logger.
pub data PeriodNotice (D : Type 0) : Type 0 where
  notify_period_change : Str → D → PeriodNotice D
  notify_made_periodical notify_made_nonperiodical : Str → PeriodNotice D

module _ {D : Type 0} ⦃fl : Floats D⦄ where
  -- The constructor, at a reading of the clock and with what the factory of classes made.
  unfoldable pub new_site : ℕ → Option ℕ → Str → Str → Site D
  unfolding callable
  new_site start class classname name = record {
    callable = callable start name fl.one false;
    classname = classname;
    is_blocked_in_stop = true;
    is_periodical = false;
    period = fl.one;
    lastcall_plan = fl.zero;
    class = class;
    block = empty_block;
    subprogs = [];
  }

  -- `set_period`
  unfoldable pub set_period : D → Site D → Site D × List (PeriodNotice D)
  set_period period s =
      if fl.eq s.period period
      then (s, [])
      else (record s { period = period }, notify_period_change s.callable.name period ∷ [])

module _ {D : Type 0} where
  -- `make_periodical`, `make_nonperiodical`
  unfoldable pub make_periodical : Site D → Site D × List (PeriodNotice D)
  make_periodical s =
      if s.is_periodical
      then (s, [])
      else (record s { is_periodical = true }, notify_made_periodical s.callable.name ∷ [])

  unfoldable pub make_nonperiodical : Site D → Site D × List (PeriodNotice D)
  make_nonperiodical s =
      if s.is_periodical
      then (record s { is_periodical = false }, notify_made_nonperiodical s.callable.name ∷ [])
      else (s, [])

  -- `set_blocked_in_stop`
  abbrev pub set_blocked_in_stop : Bool → Site D → Site D
  set_blocked_in_stop bl s = record s { is_blocked_in_stop = bl }

  -- `add_subprog`
  unfoldable pub add_subprog : Str → Subprogram D → Site D → Site D × Bool
  add_subprog id sub s =
      let (subprogs, fresh) = emplace id sub s.subprogs in (record s { subprogs = subprogs }, fresh)

  -- `_children.find`
  unfoldable pub find_child : Str → Forest D → Option (Tree D)
  find_child name end = none
  find_child name (child k t f) =
      let rest = find_child name f in if str_eq k name then some t else rest

  -- `_children.emplace` of a name that is not there, in the order of the names.
  unfoldable pub insert_child : Str → Tree D → Forest D → Forest D
  insert_child name b end = child name b end
  insert_child name b (child k t f) =
      let rest = insert_child name b f in
      if str_lt name k then child name b (child k t f) else child k t rest

  -- `add_child`
  unfoldable pub add_child : Str → Tree D → Tree D → Tree D × Bool
  unfolding find_child insert_child
  add_child name b (node s f) =
      if is_some (find_child name f)
      then (node s f, false)
      else (node s (insert_child name b f), true)

-- What a path leads to: without a block in front it names what `own` finds in this block, else the
-- first name is that of the child that is asked for the rest.
module _ {D A : Type 0} (own : Site D → Str → Option A) where
  unfoldable mutual
    unfolding extract_block_name

    pub look : Tree D → Str → Option A
    look (node s f) name =
        let (first, rest) = extract_block_name name in
        let deeper = look_in f first rest in elim rest [ [] ↦ own s name | c ∷ cs ↦ deeper ]

    pub look_in : Forest D → Str → Str → Option A
    look_in end first rest = none
    look_in (child k t f) first rest =
        let there = look t rest in
        let other = look_in f first rest in if str_eq k first then there else other

module _ {D : Type 0} where
  abbrev own_variable : Site D → Str → Option (Parameter D)
  own_variable s name = find name s.block.vars

  -- `get_variable`
  unfoldable pub get_variable : Tree D → Str → Option (Parameter D)
  unfolding look
  get_variable = look own_variable

  abbrev own_subprog : Site D → Str → Option (Subprogram D)
  own_subprog s name = find name s.subprogs

  -- `get_subprog`
  unfoldable pub get_subprog : Tree D → Str → Option (Subprogram D)
  unfolding look
  get_subprog = look own_subprog

  -- `get_child`
  unfoldable mutual
    unfolding extract_block_name

    pub get_child : Tree D → Str → Option (Tree D)
    get_child (node s f) name = let (first, rest) = extract_block_name name in child_in f first rest

    pub child_in : Forest D → Str → Str → Option (Tree D)
    child_in end first rest = none
    child_in (child k t f) first rest =
        let there = get_child t rest in
        let other = child_in f first rest in
        if str_eq k first then (elim rest [ [] ↦ some t | c ∷ cs ↦ there ]) else other

-- A change of the block that a path of `look` leads to, with the last name.
module _ {D : Type 0} (change : Str → Site D → Site D) where
  unfoldable mutual
    unfolding extract_block_name

    pub modify : Tree D → Str → Tree D
    modify (node s f) name =
        let (first, rest) = extract_block_name name in
        let deeper = node s (modify_in f first rest) in
        elim rest [ [] ↦ node (change name s) f | c ∷ cs ↦ deeper ]

    pub modify_in : Forest D → Str → Str → Forest D
    modify_in end first rest = end
    modify_in (child k t f) first rest =
        let there = child k (modify t rest) f in
        let other = child k t (modify_in f first rest) in if str_eq k first then there else other

-- A change of the value at a key that is there.
abbrev pub adjust : {V : Type 0} → (V → V) → Str → Map Str V → Map Str V
adjust g k m = elim (find k m) [ none ↦ m | some v ↦ insert k (g v) m ]

module _ {D : Type 0} where
  abbrev pub adjust_variable : (Parameter D → Parameter D) → Str → Site D → Site D
  adjust_variable g name s = record s {
    block = record s.block { vars = adjust g name s.block.vars };
  }

  -- What is done through the pointer of `get_variable`.
  unfoldable pub change_variable : (Parameter D → Parameter D) → Tree D → Str → Tree D
  unfolding modify
  change_variable g = modify (adjust_variable g)

  abbrev pub adjust_subprog : (Subprogram D → Subprogram D) → Str → Site D → Site D
  adjust_subprog g name s = record s { subprogs = adjust g name s.subprogs }

  -- What is done through the pointer of `get_subprog`.
  unfoldable pub change_subprog : (Subprogram D → Subprogram D) → Tree D → Str → Tree D
  unfolding modify
  change_subprog g = modify (adjust_subprog g)

-- What is done through the pointer of `get_child`.
module _ {D : Type 0} (g : Tree D → Tree D) where
  unfoldable mutual
    unfolding extract_block_name

    pub change_child : Tree D → Str → Tree D
    change_child (node s f) name =
        let (first, rest) = extract_block_name name in node s (change_child_in f first rest)

    pub change_child_in : Forest D → Str → Str → Forest D
    change_child_in end first rest = end
    change_child_in (child k t f) first rest =
        let there = change_child t rest in
        let other = child k t (change_child_in f first rest) in
        if str_eq k first then child k (elim rest [ [] ↦ g t | c ∷ cs ↦ there ]) f else other

abbrev names_of : {V : Type 0} → Map Str V → Names → Names
names_of [] res = res
names_of ((k, v) ∷ m) res = names_of m (insert k tt res)

unfoldable pub add_prefixed : Str → Names → Names → Names
unfolding compose_block_name
add_prefixed name [] res = res
add_prefixed name ((v, u) ∷ vs) res =
    add_prefixed name vs (insert (compose_block_name name v) tt res)

-- `get_var_list` and `get_subp_list`, by the names that are the block's own: with `show_locals`
-- only the children are asked, which then ask only theirs.
module _ {D : Type 0} (own : Site D → Names) where
  unfoldable mutual
    unfolding add_prefixed

    pub list_names : Tree D → Bool → Names
    list_names (node s f) show_locals =
        let locals = list_locals f [] in if show_locals then locals else own s

    pub list_locals : Forest D → Names → Names
    list_locals end res = res
    list_locals (child k t f) res = list_locals f (add_prefixed k (list_names t true) res)

module _ {D : Type 0} where
  unfoldable pub get_var_list : Tree D → Bool → Names
  unfolding list_names
  get_var_list = list_names (λ s. names_of s.block.vars [])

  unfoldable pub get_subp_list : Tree D → Bool → Names
  unfolding list_names
  get_subp_list = list_names (λ s. names_of s.subprogs [])
