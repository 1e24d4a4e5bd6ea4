-- ===== src/Exchange/SharedMemory/Settings.antt =====
-- The settings of `SharedMemoryIO` of kernel/block_class/shared_memory_io.hpp, its joining with a
-- block, and the memory that is opened there: the constructor and the destructor of `BoostShmObject`
-- of boost_shm_object.cpp on the memories of the system.
use func_sim_engine.Prelude.{
  none, some, ℕ, Bool, true, false, Option, List, [], ◌∷◌, ◌++◌, map, replicate, Str, is_some,
  if◌then◌else◌,
}
use func_sim_engine.StdMap.{Map, str_key, find, insert, erase}
use func_sim_engine.Param.Real.{Floats}
use func_sim_engine.Subprogram.{Function, FunctionStorage}
use func_sim_engine.Tree.{Tree}
use func_sim_engine.BlockClass.{BlockClass, Opening, opened, caught, join_with_block}
use func_sim_engine.Exchange.{VariableDesc}

-- `create_or_open_t`
pub data CreateOrOpen : Type 0 where
  create_only open_only open_or_create : CreateOrOpen

-- `_m_name`, `_l_name`, `_m_size`, `_is_writable`, `_create_or_open`, `_priority`,
-- `_protocol_fname`, `_m_var_offset`.
pub record ShmSettings (D : Type 0) : Type 0 where
  pub m_name : Str
  pub l_name : Str
  pub m_size : ℕ
  pub is_writable : Bool
  pub create_or_open : CreateOrOpen
  pub priority : D
  pub protocol_fname : Str
  pub m_var_offset : List VariableDesc

-- The constructor.
unfoldable pub shared_memory : {D : Type 0} ⦃fl : Floats D⦄ → ShmSettings D
shared_memory ⦃fl⦄ = record {
  m_name = [];
  l_name = [];
  m_size = 0;
  is_writable = false;
  create_or_open = open_only;
  priority = fl.zero;
  protocol_fname = [];
  m_var_offset = [];
}

module _ {D : Type 0} where
  unfoldable pub set_memory_name : Str → ShmSettings D → ShmSettings D
  set_memory_name name s = record s { m_name = name }

  unfoldable pub set_locker_name : Str → ShmSettings D → ShmSettings D
  set_locker_name name s = record s { l_name = name }

  unfoldable pub set_memory_size : ℕ → ShmSettings D → ShmSettings D
  set_memory_size size s = record s { m_size = size }

  unfoldable pub set_writable_flag : Bool → ShmSettings D → ShmSettings D
  set_writable_flag w s = record s { is_writable = w }

  unfoldable pub set_creation_policy : CreateOrOpen → ShmSettings D → ShmSettings D
  set_creation_policy p s = record s { create_or_open = p }

  unfoldable pub set_memory_priority : D → ShmSettings D → ShmSettings D
  set_memory_priority priority s = record s { priority = priority }

  unfoldable pub set_protocol_fname : Str → ShmSettings D → ShmSettings D
  set_protocol_fname name s = record s { protocol_fname = name }

  unfoldable pub add_variable_desc : VariableDesc → ShmSettings D → ShmSettings D × Bool
  add_variable_desc d s = (record s { m_var_offset = s.m_var_offset ++ d ∷ [] }, true)

-- The shared memories of the system, by their names: the bytes.
abbrev pub Memories : Type 0
Memories = Map Str (List ℕ)

-- `BoostShmObject`: `_shm_name`, `_l_name`, `_b_open`, `_size`.
pub record ShmObject : Type 0 where
  pub shm_name : Str
  pub l_name : Str
  pub b_open : Bool
  pub size : ℕ

-- The constructor: the memory is made or opened, gets its size, and is cleared.
unfoldable pub shm_object : Str → Str → ℕ → Memories → ShmObject × Memories
unfolding insert
shm_object memory_id locker_id size memories = (
  record {
    shm_name = memory_id;
    l_name = locker_id;
    b_open = is_some (find memory_id memories);
    size = size;
  },
  insert memory_id (replicate size 0) memories,
)

-- The destructor: the memory is removed if it was made by this object.
unfoldable pub drop_shm_object : ShmObject → Memories → Memories
unfolding erase
drop_shm_object o memories = if o.b_open then memories else erase o.shm_name memories

-- The creation of the memory; `trouble` is what its exception says, which is caught.
abbrev pub opening_of : Option Str → Opening
opening_of none = opened
opening_of (some text) = caught text

module _ {D W : Type 0} ⦃fl : Floats D⦄ where
  -- `join_with_block`
  unfoldable pub join_shared_memory :
      ShmSettings D
      → Option Str
      → ℕ
      → Function D W
      → Str
      → Str
      → Tree D × BlockClass D × FunctionStorage D W
      → Option ((Tree D × BlockClass D × FunctionStorage D W) × Bool)
  unfolding join_with_block
  join_shared_memory s trouble start io address suffix =
      join_with_block (map (λ v. v.name) s.m_var_offset) (opening_of trouble) start io s.priority
        address suffix
