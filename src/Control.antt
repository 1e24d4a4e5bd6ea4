-- ===== src/Control.antt =====
-- kernel/control_func.hpp: the parameters of a control function and the storage of functions.
-- What the logger is told is a list, the newest in front.
pub mod Values
use func_sim_engine.Prelude.{
  ℕ, zero, suc, ◌+◌, ◌-◌, Bool, true, false, ◌&&◌, Option, none, some, List, [], ◌∷◌, ◌++◌, length,
  get_elem?, ltb, ◌==◌, if◌then◌else◌, Str,
}
use func_sim_engine.StdMap.{Map, Key, str_key, find, emplace}
use func_sim_engine.Param.Real.{Floats}
use func_sim_engine.Param.{Parameter, create, from_string}

-- What a control function and the storage tell the logger.
pub data Warning : Type 0 where
  error_invalid_type : Str → Warning
  warning_invalid_variable_count : ℕ → Warning
  warning_invalid_variable_type : ℕ → Warning
  error_invalid_control_func : Str → Warning

abbrev pub warn_all : List ℕ → List Warning → List Warning
warn_all [] log = log
warn_all (i ∷ is) log = warn_all is (warning_invalid_variable_type i ∷ log)

-- `ControlFunc`: `_params`.
pub record ControlFunc (D : Type 0) : Type 0 where
  pub params : List (Parameter D)
  pub log : List Warning

module _ {D : Type 0} ⦃fl : Floats D⦄ where
  abbrev warn : Warning → ControlFunc D → ControlFunc D
  warn w f = record f { log = w ∷ f.log }

  -- `add_param`: the number of the parameter, or `none` for -1.
  unfoldable pub add_param : Str → ControlFunc D → ControlFunc D × Option ℕ
  add_param type f = elim (create type) [
    | none ↦ (warn (error_invalid_type type) f, none)
    | some p ↦ (record f { params = f.params ++ p ∷ [] }, some (length f.params))
  ]

  -- `get_param`; `none` is the null pointer.
  unfoldable pub get_param : ℕ → ControlFunc D → Option (Parameter D)
  get_param num f = if ltb num (length f.params) then get_elem? f.params num else none

  -- The loop of `set_parameter_values` from parameter `i` on: the parameters, whether all values
  -- were accepted, and the numbers of those that were not.
  unfoldable pub set_from : ℕ → List (Parameter D) → List Str → List (Parameter D) × Bool × List ℕ
  set_from i [] values = ([], true, [])
  set_from i (p ∷ ps) [] = (p ∷ ps, true, [])
  set_from i (p ∷ ps) (v ∷ vs) =
      let (p', accepted) = from_string p v in
      let (ps', result, refused) = set_from (i + 1) ps vs in
      (p' ∷ ps', accepted && result, if accepted then refused else i ∷ refused)

  -- `set_parameter_values`
  unfoldable pub set_parameter_values : List Str → ControlFunc D → ControlFunc D × Bool
  unfolding set_from
  set_parameter_values values f =
      let (params, result, refused) = set_from 0 f.params values in
      if length values == length f.params
      then (record { params = params; log = warn_all refused f.log }, result)
      else (warn (warning_invalid_variable_count (length f.params)) f, false)

  -- `get_parameter_count`
  unfoldable pub get_parameter_count : ControlFunc D → ℕ
  get_parameter_count f = length f.params

-- `ControlFuncStorage::add_func`, with the new function: the storage and what the logger is told.
unfoldable pub add_func : {F : Type 0} → Str → F → Map Str F → Map Str F × Option Warning
add_func name f funcs =
    let (funcs', fresh) = emplace name f funcs in
    (funcs', if fresh then none else some (error_invalid_control_func name))

-- `ControlFuncStorage::get`
unfoldable pub get_func : {F : Type 0} → Str → Map Str F → Option F × Option Warning
get_func name funcs = elim (find name funcs) [
  | none ↦ (none, some (error_invalid_control_func name))
  | some f ↦ (some f, none)
]
