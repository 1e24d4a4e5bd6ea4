-- ===== src/Exchange/SharedMemory.antt =====
-- `SharedMemoryIO` of kernel/block_class/shared_memory_io.hpp on a region that is mapped and locked,
-- and `get_chars` of boost_shm_object.cpp. The protocol file is left out, and of an error message
-- what it is about is kept, the newest in front.
pub mod Settings
pub mod Areas
pub mod Passing
use func_sim_engine.Prelude.{
  ℕ, ◌+◌, ◌%◌, ◌^◌, Bool, true, false, Option, none, some, List, [], ◌∷◌, ◌++◌, length, take, drop,
  replicate, leb, ltb, if◌then◌else◌, Str,
}
use func_sim_engine.StdMap.{Map, Key, str_key, find, insert}
use func_sim_engine.Result.{
  Result, ok, throw, undefined, Exn, invalid_operation, invalid_args, invalid_var_name,
  invalid_type, out_of_range, bad_cast, user_exception, ◌>>=◌,
}
use func_sim_engine.Formula.{logic_operations}
use func_sim_engine.Param.Real.{Floats}
use func_sim_engine.Param.{Parameter, clone, to_bytes, from_bytes, is_set}
use func_sim_engine.Exchange.{VariableDesc, do_read, do_write}

pub data Problem : Type 0 where
  no_variable bad_processing small_buffer : Str → Problem

-- What the loop of `shared_memory_io` changes: the memory, `_v`, `res`, and the class's errors.
pub record Exchanged (D : Type 0) : Type 0 where
  pub memory : List ℕ
  pub vars : Map Str (Parameter D)
  pub res : Map Str (Parameter D)
  pub errors : List Problem

-- `get_chars`: `none` is `BoostMRegionInvalidAddress`. The sum of the two `size_t` may wrap round.
unfoldable pub get_chars : List ℕ → ℕ → ℕ → Result (Option (List ℕ))
get_chars memory offset size =
    if leb (length memory) ((offset + size) % 2 ^ 64)
    then ok none
    else if leb (offset + size) (length memory)
    then ok (some (take size (drop offset memory)))
    else undefined

-- `memset`, `memcpy` at an offset of the region.
unfoldable pub put_chars : List ℕ → ℕ → List ℕ → List ℕ
put_chars bytes offset memory = take offset memory ++ (bytes ++ drop (offset + length bytes) memory)

-- The handlers: those of `std::out_of_range`, then those of `std::exception`.
unfoldable pub problem_of : Str → Exn → Problem
problem_of name (invalid_operation operation) = no_variable name
problem_of name (invalid_args presented expected op position) = no_variable name
problem_of name (invalid_var_name var) = no_variable name
problem_of name out_of_range = no_variable name
problem_of name (invalid_type var) = bad_processing name
problem_of name bad_cast = bad_processing name
problem_of name (user_exception data_ desc) = bad_processing name

module _ {D : Type 0} where
  abbrev pub complain : Problem → Exchanged D → Exchanged D
  complain e x = record x { errors = e ∷ x.errors }

  -- A condition whose exceptions are handled.
  abbrev pub if_holds :
      Str → Result Bool → Exchanged D → (Bool → Result (Exchanged D)) → Result (Exchanged D)
  if_holds name (ok b) x k = k b
  if_holds name (throw e) x k = ok (complain (problem_of name e) x)
  if_holds name undefined x k = undefined

module _ {D : Type 0} ⦃fl : Floats D⦄ where
  -- `p->from_bytes( bytes, var.size() )` on a clone; whether it was accepted is not asked.
  abbrev pub read_value : Parameter D → List ℕ → Parameter D
  read_value par bytes = (from_bytes (clone par) bytes).0

  -- The reading of a variable.
  unfoldable pub read_var : Str → List ℕ → Parameter D → Exchanged D → Parameter D × Exchanged D
  unfolding from_bytes clone
  read_var name bytes par x =
      let p = clone (read_value par bytes) in
      (p, record x { res = insert name p x.res; vars = insert name p x.vars })

  -- The writing of a variable: the area is cleared even if the value does not fit.
  unfoldable pub write_var : VariableDesc → Parameter D → Exchanged D → Exchanged D
  unfolding put_chars to_bytes
  write_var d par x =
      let cleared = put_chars (replicate d.size 0) d.offset x.memory in
      let out_buffer = to_bytes par.value in
      if ltb d.size (length out_buffer)
      then complain (small_buffer d.name) (record x { memory = cleared })
      else record x { memory = put_chars out_buffer d.offset cleared }

  abbrev pub vars_is_set : Parameter D → Result Bool
  vars_is_set p = ok (is_set p)

  -- The writing under its condition.
  unfoldable pub write_if : VariableDesc → Parameter D → Exchanged D → Result (Exchanged D)
  unfolding do_write write_var problem_of
  write_if d par x =
      if_holds d.name (do_write logic_operations vars_is_set x.vars d) x
        (λ write. if write then ok (write_var d par x) else ok x)

  -- The reading under its condition, and what follows it.
  unfoldable pub read_write :
      VariableDesc → List ℕ → Parameter D → Exchanged D → Result (Exchanged D)
  unfolding do_read read_var write_if problem_of
  read_write d bytes par x =
      if_holds d.name (do_read logic_operations vars_is_set x.vars d) x (λ read.
        let (par', x') = read_var d.name bytes par x in
        if read then write_if d par' x' else write_if d par x)

  -- The body of the loop.
  unfoldable pub process_var : VariableDesc → Exchanged D → Result (Exchanged D)
  unfolding get_chars read_write
  process_var d x = get_chars x.memory d.offset d.size >>= λ area. (elim area [
    | none ↦ ok (complain (bad_processing d.name) x)
    | some bytes ↦ elim (find d.name x.vars) [
      | none ↦ ok (complain (no_variable d.name) x)
      | some par ↦ read_write d bytes par x
    ]
  ])

  unfoldable pub process_vars : List VariableDesc → Exchanged D → Result (Exchanged D)
  unfolding process_var
  process_vars [] x = ok x
  process_vars (d ∷ ds) x = process_var d x >>= λ x'. process_vars ds x'

  -- `shared_memory_io`: the memory, the errors and the variables that are returned.
  unfoldable pub shared_memory_io :
      List VariableDesc → List ℕ → List Problem → Map Str (Parameter D) → Result (Exchanged D)
  unfolding process_vars
  shared_memory_io ds memory errors v =
      process_vars ds (record { memory = memory; vars = v; res = []; errors = errors })
