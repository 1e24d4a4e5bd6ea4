-- ===== src/Block.antt =====
-- kernel/block.hpp: the variables of a block, the accordances with the block above, the power edges
-- and the queue of errors. A variable is the value that its pointer leads to; an operation that may
-- throw gives the state that it leaves beside its result.
pub mod Writing
pub mod Wiring
pub mod Typing
use func_sim_engine.Prelude.{
  ℕ, zero, suc, ◌-◌, Bool, true, false, Option, none, some, List, [], ◌∷◌, length, take, drop, leb,
  if◌then◌else◌, Str, is_some,
}
use func_sim_engine.StdMap.{Map, Key, str_key, find, insert, emplace}
use func_sim_engine.Result.{Result, ok, throw, undefined, Exn, out_of_range, ◌>>=◌}
use func_sim_engine.Param.Real.{Floats}
use func_sim_engine.Param.{Value, Parameter, clone, copy_data, to_string, create}

-- `std::set< std::string >`
abbrev pub Names : Type 0
Names = Map Str Unit

-- What the block tells the logger.
pub data Event : Type 0 where
  error_invalid_type : Str → Event
  error_invalid_variable : Str → Event
  notify_variable_change : Str → Str → Event

-- `_vars`, `_vset_names`, `_res_vars`, `_use_vars`, `_power_prev_step`, `_poweron_vars`,
-- `_poweroff_vars`, `_err_blocks`, `_errors`, and what went to the logger, the newest in front.
pub record Block (D : Type 0) : Type 0 where
  pub vars : Map Str (Parameter D)
  pub vset_names : Names
  pub res_vars : Map Str Str
  pub use_vars : Map Str Str
  pub power_prev_step : Bool
  pub poweron_vars : Map Str (Parameter D)
  pub poweroff_vars : Map Str (Parameter D)
  pub err_blocks : Names
  pub errors : List Str
  pub log : List Event

module _ {D : Type 0} where
  -- The block that the constructor makes.
  abbrev pub empty_block : Block D
  empty_block = record {
    vars = [];
    vset_names = [];
    res_vars = [];
    use_vars = [];
    power_prev_step = false;
    poweron_vars = [];
    poweroff_vars = [];
    err_blocks = [];
    errors = [];
    log = [];
  }

  abbrev pub tell : Event → Block D → Block D
  tell e b = record b { log = e ∷ b.log }

  -- `add_variable` with a variable that is made already.
  unfoldable pub add_made_variable : Str → Parameter D → Block D → Block D × Bool
  add_made_variable name p b =
      let (vars, fresh) = emplace name p b.vars in
      let b' = record b { vars = vars } in
      (if fresh then b' else tell (error_invalid_variable name) b', fresh)

  -- `set_names_set`
  unfoldable pub set_names_set : List Str → Block D → Block D
  set_names_set [] b = b
  set_names_set (name ∷ names) b =
      set_names_set names (record b { vset_names = insert name tt b.vset_names })

  -- `add_param_accordiance`, on either map: the map, and whether the key is new.
  unfoldable pub add_param_accordiance :
      Map Str Str → Str → Str → Block D → Block D × Map Str Str × Bool
  add_param_accordiance acc_map key value b =
      let (acc_map', fresh) = emplace key value acc_map in
      (if fresh then b else tell (error_invalid_variable key) b, acc_map', fresh)

  -- `add_return_param`
  unfoldable pub add_return_param : Str → Str → Block D → Block D × Bool
  unfolding add_param_accordiance
  add_return_param src_name dst_name b = elim (find src_name b.vars) [
    | none ↦ (tell (error_invalid_variable src_name) b, false)
    | some _ ↦
        let (b', acc, fresh) = add_param_accordiance b.res_vars dst_name src_name b in
        if fresh
        then (record b' { res_vars = acc; vset_names = insert src_name tt b'.vset_names }, true)
        else (record b' { res_vars = acc }, false)
  ]

  -- `add_use_param`
  unfoldable pub add_use_param : Str → Str → Block D → Block D × Bool
  unfolding add_param_accordiance
  add_use_param src_name dst_name b = elim (find dst_name b.vars) [
    | none ↦ (tell (error_invalid_variable dst_name) b, false)
    | some _ ↦
        let (b', acc, fresh) = add_param_accordiance b.use_vars dst_name src_name b in
        (record b' { use_vars = acc }, fresh)
  ]

  -- `get_next_errors`: the messages, how many are left, and the block without them.
  unfoldable pub get_next_errors : ℕ → Block D → Block D × List Str × ℕ
  get_next_errors max b =
      if leb (length b.errors) max
      then (record b { errors = [] }, b.errors, 0)
      else (let rest = drop max b.errors in
          (record b { errors = rest }, take max b.errors, length rest))

  -- `get_subblocks_with_errors`
  unfoldable pub get_subblocks_with_errors : Block D → Block D × Names
  get_subblocks_with_errors b = (record b { err_blocks = [] }, b.err_blocks)

  -- `set_poweron_vars`, `set_poweroff_vars`
  abbrev pub set_poweron_vars : Map Str (Parameter D) → Block D → Block D
  set_poweron_vars p b = record b { poweron_vars = p }

  abbrev pub set_poweroff_vars : Map Str (Parameter D) → Block D → Block D
  set_poweroff_vars p b = record b { poweroff_vars = p }

module _ {D : Type 0} ⦃fl : Floats D⦄ where
  -- `add_variable` by the name of a type.
  unfoldable pub add_variable : Str → Str → Block D → Block D × Bool
  unfolding add_made_variable
  add_variable name type b = elim (create type) [
    | none ↦ (tell (error_invalid_type type) b, false)
    | some p ↦ add_made_variable name p b
  ]

  -- The block after a variable has been given a value.
  abbrev pub written : Str → Parameter D → Bool → Parameter D → Block D → Block D
  written name v changed p b =
      let b' = record b { vars = insert name v b.vars } in
      if changed then tell (notify_variable_change name (to_string p.value)) b' else b'

  -- The loop of `write_variables`: the names written so far are `res`.
  unfoldable pub write_from : Map Str (Parameter D) → Names → Block D → Block D × Result Names
  unfolding copy_data
  write_from [] res b = (b, ok res)
  write_from ((name, p) ∷ val) res b = elim (find name b.vars) [
    | none ↦ write_from val res (tell (error_invalid_variable name) b)
    | some v ↦ elim v.locked [
      | true ↦ write_from val res b
      | false ↦ elim (copy_data v p) [
        | ok r ↦ write_from val (insert name tt res) (written name r.0 r.1 p b)
        | throw e ↦ (b, throw e)
        | undefined ↦ (b, undefined)
      ]
    ]
  ]

  -- `write_variables`; nothing in it reads `allowed`.
  unfoldable pub write_variables : Names → Map Str (Parameter D) → Block D → Block D × Result Names
  unfolding write_from
  write_variables allowed val b = write_from val [] b

  -- The loop that gathers what `write_poweron_vars` and `write_poweroff_vars` return.
  unfoldable pub returned :
      Map Str (Parameter D)
      → Names
      → Map Str Str
      → Map Str (Parameter D)
      → Result (Map Str (Parameter D))
  returned from s [] res = ok res
  returned from s ((dst, src) ∷ vs) res = elim (find src s) [
    | none ↦ returned from s vs res
    | some _ ↦ elim (find src from) [
      | none ↦ undefined
      | some p ↦ returned from s vs (insert dst (clone p) res)
    ]
  ]

  -- `write_poweron_vars`, `write_poweroff_vars`: the same on another map.
  unfoldable pub write_edge_vars :
      Map Str (Parameter D) → Block D → Block D × Result (Map Str (Parameter D))
  unfolding write_variables returned
  write_edge_vars edge b =
      let (b', s) = write_variables b.vset_names edge b in
      (b', s >>= λ names. returned edge names b'.res_vars [])

  unfoldable pub write_poweron_vars : Block D → Block D × Result (Map Str (Parameter D))
  unfolding write_edge_vars
  write_poweron_vars b = write_edge_vars b.poweron_vars b

  unfoldable pub write_poweroff_vars : Block D → Block D × Result (Map Str (Parameter D))
  unfolding write_edge_vars
  write_poweroff_vars b = write_edge_vars b.poweroff_vars b

  -- The first loop of `call`: a name that the block above has not is `out_of_range`, a variable that
  -- the block has not is a null pointer.
  unfoldable pub copy_use_vars :
      Map Str (Parameter D) → Map Str Str → Block D → Block D × Result {0} Unit
  unfolding copy_data
  copy_use_vars above [] b = (b, ok tt)
  copy_use_vars above ((dst, src) ∷ vs) b = elim (find src above) [
    | none ↦ (b, throw out_of_range)
    | some p ↦ elim (find dst b.vars) [
      | none ↦ (b, undefined)
      | some v ↦ elim (copy_data v p) [
        | ok r ↦ copy_use_vars above vs (record b { vars = insert dst r.0 b.vars })
        | throw e ↦ (b, throw e)
        | undefined ↦ (b, undefined)
      ]
    ]
  ]

  -- The last loop of `call`: what the block returns.
  unfoldable pub return_vars :
      Map Str Str → Map Str (Parameter D) → Block D → Result (Map Str (Parameter D))
  return_vars [] res b = ok res
  return_vars ((dst, src) ∷ vs) res b = elim (find src b.vars) [
    | none ↦ undefined
    | some p ↦ return_vars vs (insert dst (clone p) res) b
  ]
