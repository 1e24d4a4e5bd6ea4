-- ===== src/BlockClass.antt =====
-- kernel/block_class.hpp: the base of the classes of blocks, their factory, and the joining of an
-- exchange class (udp_exchange.hpp, shared_memory_io.hpp) with its block.
pub mod Joining
use func_sim_engine.Prelude.{
  ℕ, Bool, true, false, Option, none, some, List, [], ◌∷◌, ◌++◌, Str, lit, if◌then◌else◌,
}
use func_sim_engine.StdMap.{Map, Key, str_key, find, emplace}
use func_sim_engine.Remap.{RemappableMap}
use func_sim_engine.Param.Real.{Floats}
use func_sim_engine.Param.{Parameter, clone}
use func_sim_engine.Callable.{callable}
use func_sim_engine.Subprogram.{Function, FunctionStorage, Subprogram, add_func}
use func_sim_engine.Tree.{Tree, Site, site, get_variable, add_subprog}
use func_sim_engine.Tree.Power.{set_site}

-- `_subprog_name`, `_err_msg`, `_has_err`, `_vars`.
pub record BlockClass (D : Type 0) : Type 0 where
  pub subprog_name : Str
  pub err_msg : Str
  pub has_err : Bool
  pub vars : Map Str (Parameter D)

module _ {D : Type 0} where
  -- The constructor.
  abbrev pub block_class : Str → BlockClass D
  block_class name = record { subprog_name = name; err_msg = []; has_err = false; vars = [] }

  -- `set_error_msg`, `add_error_msg`
  unfoldable pub set_error_msg : Str → BlockClass D → BlockClass D
  set_error_msg s c = record c { err_msg = s; has_err = true }

  unfoldable pub add_error_msg : Str → BlockClass D → BlockClass D
  add_error_msg s c = elim c.err_msg [
    | [] ↦ record c { err_msg = s; has_err = true }
    | x ∷ xs ↦ record c { err_msg = s ++ (lit "\n" ++ (x ∷ xs)); has_err = true }
  ]

  -- `get_error_msg`
  unfoldable pub get_error_msg : BlockClass D → BlockClass D × Str
  get_error_msg c = (record c { err_msg = []; has_err = false }, c.err_msg)

-- The factory's `create` and `add_block_class`, with what a class makes of itself by `clone`.
unfoldable pub create : {C : Type 0} → Str → Map Str C → Option C
create classname blcl = find classname blcl

unfoldable pub add_block_class : {C : Type 0} → Str → C → Map Str C → Map Str C × Bool
add_block_class classname c blcl = emplace classname c blcl

-- `func_name` of `construct_subprog`
abbrev pub func_name_of : Str → Str → Str
func_name_of name [] = name
func_name_of name (x ∷ xs) = name ++ (lit "_" ++ (x ∷ xs))

-- The suffix of `join_with_block`, or the address of the block.
abbrev pub suffix_or : Str → Str → Str
suffix_or [] address = address
suffix_or (x ∷ xs) address = x ∷ xs

module _ {D : Type 0} ⦃fl : Floats D⦄ where
  -- `validate_n_add_var`
  unfoldable pub validate_n_add_var : Tree D → Str → BlockClass D → BlockClass D × Bool
  unfolding get_variable add_error_msg clone
  validate_n_add_var bl name c = elim (get_variable bl name) [
    | none ↦
        (add_error_msg (lit "Переменная \"" ++ (name ++ lit "\" отсутствует в блоке")) c, false)
    | some p ↦ (record c { vars = (emplace name (clone p) c.vars).0 }, true)
  ]

  -- `validate_with_block`, for the names of the variables of a class.
  unfoldable pub validate_with_block : Tree D → List Str → BlockClass D → BlockClass D × Bool
  unfolding validate_n_add_var
  validate_with_block bl [] c = (c, true)
  validate_with_block bl (name ∷ names) c =
      let (c', known) = validate_n_add_var bl name c in
      let rest = validate_with_block bl names c' in if known then rest else (c', false)

  -- A new subprogram: its clock starts, and no key is renamed.
  abbrev pub new_subprog : ℕ → Str → Str → D → Subprogram D
  new_subprog start name func_name priority = record {
    callable = callable start name priority false;
    func_name = func_name;
    remapped = record { p_map = 0; has_remap = false; remap = [] };
  }

-- How the opening of the connection or of the memory of an exchange class ends: with an exception, it
-- is caught, and gives a message, or leaves the joining.
pub data Opening : Type 0 where
  opened : Opening
  caught : Str → Opening
  escaped : Opening

module _ {D W : Type 0} ⦃fl : Floats D⦄ where
  -- `construct_subprog`; `none` is the null pointer.
  unfoldable pub construct_subprog :
      ℕ
      → Function D W
      → Str
      → D
      → BlockClass D × FunctionStorage D W
      → (BlockClass D × FunctionStorage D W) × Option (Subprogram D)
  unfolding add_func add_error_msg callable
  construct_subprog start f suffix priority (c, storage) =
      let func_name = func_name_of c.subprog_name suffix in
      let (storage', fresh) = add_func func_name f storage in
      if fresh
      then ((c, storage'), some (new_subprog start c.subprog_name func_name priority))
      else (
        (
          add_error_msg
              (lit "Ошибка при добавлении функции с именем \""
                ++ (c.subprog_name ++ lit "\". Вероятно, такая функция уже есть"))
              c,
          storage',
        ),
        none,
      )

  -- The end of `BlockClass::join_with_block`, with what `get_subprog` made.
  unfoldable pub join_made :
      Tree D
      → (BlockClass D × FunctionStorage D W) × Option (Subprogram D)
      → (Tree D × BlockClass D × FunctionStorage D W) × Bool
  unfolding add_subprog add_error_msg
  join_made bl ((c, storage), none) =
      ((bl, add_error_msg (lit "Ошибка при создании подпрограммы") c, storage), false)
  join_made bl ((c, storage), some s) =
      let (s', fresh) = add_subprog c.subprog_name s (site bl) in
      if fresh
      then ((set_site s' bl, c, storage), true)
      else ((bl, add_error_msg (lit "Не удалось добавить подпрограмму в блок") c, storage), false)

  -- `BlockClass::join_with_block`. An empty suffix is the address of the block, an argument.
  unfoldable pub join_base :
      ℕ
      → Function D W
      → D
      → Str
      → Str
      → Tree D × BlockClass D × FunctionStorage D W
      → (Tree D × BlockClass D × FunctionStorage D W) × Bool
  unfolding construct_subprog join_made
  join_base start f priority address suffix (bl, c, storage) =
      join_made bl (construct_subprog start f (suffix_or suffix address) priority (c, storage))

  -- `join_with_block` of an exchange class: the variables are checked, then the connection or the
  -- memory is opened, then the base joins. `none` is an exception of the opening that is not caught.
  unfoldable pub join_with_block :
      List Str
      → Opening
      → ℕ
      → Function D W
      → D
      → Str
      → Str
      → Tree D × BlockClass D × FunctionStorage D W
      → Option ((Tree D × BlockClass D × FunctionStorage D W) × Bool)
  unfolding validate_with_block join_base add_error_msg
  join_with_block names opening start f priority address suffix (bl, c, storage) =
      let (c', known) = validate_with_block bl names c in
      let joined = join_base start f priority address suffix (bl, c', storage) in
      let done : Option ((Tree D × BlockClass D × FunctionStorage D W) × Bool) = elim opening [
        | opened ↦ some joined
        | caught text ↦ some ((bl, add_error_msg text c', storage), false)
        | escaped ↦ none
      ] in
      if known
      then done
      else some (
        (bl, add_error_msg (lit "Ошибка при проверке соответствия переменных") c', storage),
        false,
      )
