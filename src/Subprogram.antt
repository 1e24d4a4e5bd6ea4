-- ===== src/Subprogram.antt =====
-- kernel/function_storage.hpp and kernel/subprog.hpp: the functions of subprograms, and a call of one.
-- A function is code of a loaded library or of a block class: it reads the maps of variables, may
-- change the world, and gives a map or throws.
use func_sim_engine.Prelude.{ℕ, Bool, false, Option, none, some, [], ◌∷◌, Str, is_some}
use func_sim_engine.StdMap
use func_sim_engine.StdMap.{Map, Key, str_key}
use func_sim_engine.Result.{Result, ok, throw, undefined}
use func_sim_engine.Remap.{
  RemappableMap, Heap, use_data, set_key_remap, find, emplace, erase, get_map_key, deref,
}
use func_sim_engine.Param.Real.{Floats}
use func_sim_engine.Param.{Parameter}
use func_sim_engine.Callable.{Callable, SystemClock, start_call, end_call}

-- `function_t`: the time, the time since the last call, the variables of the block and of the block
-- above.
abbrev pub Function : Type 0 → Type 0 → Type 0
Function D W =
    D
    → D
    → RemappableMap
    → RemappableMap
    → Heap (Parameter D)
    → W
    → W × Result (RemappableMap × Heap (Parameter D))

-- `FunctionStorage`: `_storage`.
abbrev pub FunctionStorage : Type 0 → Type 0 → Type 0
FunctionStorage D W = Map Str (Function D W)

module _ {D W : Type 0} where
  -- `get`; `none` is the null pointer.
  unfoldable pub get : Str → FunctionStorage D W → Option (Function D W)
  get name storage = StdMap.find name storage

  -- `add_func`
  unfoldable pub add_func : Str → Function D W → FunctionStorage D W → FunctionStorage D W × Bool
  add_func name f storage = StdMap.emplace name f storage

-- `Subprogram`: the fields of `Callable`, `_func_name`, `_remapped`.
pub record Subprogram (D : Type 0) : Type 0 where
  pub callable : Callable D
  pub func_name : Str
  pub remapped : RemappableMap

-- `Subprogram::set_key_remap`
unfoldable pub remap_key : {D : Type 0} → Str → Str → Subprogram D → Subprogram D × Bool
remap_key target renamed s =
    let (m, fresh) = set_key_remap target renamed s.remapped in (record s { remapped = m }, fresh)

-- `is_func_set`
unfoldable pub is_func_set : {D W : Type 0} → FunctionStorage D W → Subprogram D → Bool
unfolding get
is_func_set storage s = is_some (get s.func_name storage)

-- The loop of `call` over the renamed keys: what came back under a new name is put under the key of
-- the block, unless there is a value already, and taken away from the new name.
unfoldable pub restore_keys : {V : Type 0} → Map Str Str → RemappableMap → Heap V → Heap V
unfolding find emplace erase
restore_keys [] res h = h
restore_keys ((renamed, key) ∷ ks) res h = elim (find renamed res h) [
  | none ↦ restore_keys ks res h
  | some v ↦ restore_keys ks res (erase (get_map_key res renamed) res (emplace key v res h).0)
]

-- A map without other names at an address.
abbrev plain : ℕ → RemappableMap
plain p = record { p_map = p; has_remap = false; remap = [] }

module _ {D W : Type 0} ⦃fl : Floats D⦄ (storage : FunctionStorage D W) where
  -- What comes back from a function, with the keys of the block again.
  abbrev restored :
      Map Str Str → Result (RemappableMap × Heap (Parameter D)) → Result (Map Str (Parameter D))
  restored keys (ok (res, h)) = ok (deref (restore_keys keys res h) res.p_map)
  restored keys (throw e) = throw e
  restored keys undefined = undefined

  -- `call`, on a heap that holds the variables of the block and of the block above.
  unfoldable pub call_function :
      D
      → Map Str (Parameter D)
      → Map Str (Parameter D)
      → Subprogram D
      → W
      → W × Result (Map Str (Parameter D))
  unfolding get use_data restore_keys
  call_function time v u s w = elim (get s.func_name storage) [
    | none ↦ (w, ok [])
    | some f ↦
        let (w', r) =
          f time s.callable.delta_time (use_data (plain 0) s.remapped) (plain 1) (v ∷ u ∷ []) w in
        (w', restored s.remapped.remap r)
  ]

-- What an object does once its call has begun, with the end of the call if it returns.
abbrev pub finished :
    {D W A : Type 0} ⦃fl : Floats D⦄
    → SystemClock D W
    → Callable D
    → W × Result A
    → Callable D × W × Result A
finished clock c (w, ok a) = let (c', w') = end_call clock c w in (c', w', ok a)
finished clock c (w, throw e) = (c, w, throw e)
finished clock c (w, undefined) = (c, w, undefined)

-- `operator()` of a subprogram.
unfoldable pub call_subprogram :
    {D W : Type 0} ⦃fl : Floats D⦄
    → SystemClock D W
    → FunctionStorage D W
    → D
    → Map Str (Parameter D)
    → Map Str (Parameter D)
    → Subprogram D
    → W
    → Subprogram D × W × Result (Map Str (Parameter D))
unfolding start_call end_call call_function
call_subprogram clock storage time v u s w =
    let (c, w1) = start_call clock s.callable w in
    let started = record s { callable = c } in
    let (c', w2, r) = finished clock c (call_function storage time v u started w1) in
    (record s { callable = c' }, w2, r)
