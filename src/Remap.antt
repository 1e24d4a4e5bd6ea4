-- ===== src/Remap.antt =====
-- kernel/detail/remappable_map.hpp: a map behind a shared pointer, with names for its keys.
-- The maps that the pointers lead to stand in a heap, so that `use_data` shares and a copy does not.
pub mod Aliasing
use func_sim_engine.Prelude.{
  ℕ, ◌≡◌, refl, Bool, true, false, Option, none, some, List, [], ◌∷◌, ◌++◌, arith, length,
  get_elem?, set, if◌then◌else◌, Str,
}
use func_sim_engine.StdMap
use func_sim_engine.StdMap.{Map, Key, str_key}

-- `_p_map`, `_has_remap`, `_remap`. A key of `_remap` is a new name, its value the key in the map.
pub record RemappableMap : Type 0 where
  pub p_map : ℕ
  pub has_remap : Bool
  pub remap : Map Str Str

-- What the shared pointers lead to: address `i` is entry `i`.
abbrev pub Heap : Type 0 → Type 0
Heap V = List (Map Str V)

abbrev or_empty : {V : Type 0} → Option (Map Str V) → Map Str V
or_empty none = []
or_empty (some d) = d

abbrev pub deref : {V : Type 0} → Heap V → ℕ → Map Str V
deref h p = or_empty (get_elem? h p)

-- `_get_map_key`
unfoldable pub get_map_key : RemappableMap → Str → Str
get_map_key m k =
    if m.has_remap then (elim (StdMap.find k m.remap) [ none ↦ k | some e ↦ e ]) else k

-- `set_key_remap`
unfoldable pub set_key_remap : Str → Str → RemappableMap → RemappableMap × Bool
set_key_remap existed remapped m =
    let (r, fresh) = StdMap.emplace remapped existed m.remap in
    if fresh then (record m { has_remap = true; remap = r }, true) else (m, false)

module _ {V : Type 0} where
  -- The default constructor: `new map_t`.
  unfoldable pub create : Heap V → RemappableMap × Heap V
  create h = (record { p_map = length h; has_remap = false; remap = [] }, h ++ [] ∷ [])

  -- The copy constructor.
  unfoldable pub copy : RemappableMap → Heap V → RemappableMap × Heap V
  copy other h = (record other { p_map = length h }, h ++ deref h other.p_map ∷ [])

  -- `operator=` to another object than itself.
  unfoldable pub assign : RemappableMap → RemappableMap → Heap V → RemappableMap × Heap V
  assign m other h = (
    record { p_map = length h; has_remap = other.has_remap; remap = other.remap },
    h ++ deref h other.p_map ∷ [],
  )

  -- `find`, and `at`, which throws where this is `none`.
  unfoldable pub find : Str → RemappableMap → Heap V → Option V
  find k m h = StdMap.find (get_map_key m k) (deref h m.p_map)

  -- `emplace`
  unfoldable pub emplace : Str → V → RemappableMap → Heap V → Heap V × Bool
  emplace k v m h =
      let (d, fresh) = StdMap.emplace (get_map_key m k) v (deref h m.p_map) in
      (set h m.p_map d, fresh)

  -- `m[ k ] = v`
  unfoldable pub assign_at : Str → V → RemappableMap → Heap V → Heap V
  assign_at k v m h = set h m.p_map (StdMap.insert (get_map_key m k) v (deref h m.p_map))

  -- `erase` at an iterator, which holds a key of the map itself.
  unfoldable pub erase : Str → RemappableMap → Heap V → Heap V
  erase position m h = set h m.p_map (StdMap.erase position (deref h m.p_map))

  unfoldable pub clear : RemappableMap → Heap V → Heap V
  clear m h = set h m.p_map []

-- `use_data`
unfoldable pub use_data : RemappableMap → RemappableMap → RemappableMap
use_data other m = record m { p_map = other.p_map }
