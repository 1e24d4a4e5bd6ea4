-- ===== src/Exchange/SharedMemory/Passing.antt =====
-- What one program reads of what another has written to the shared memory.
use func_sim_engine.Prelude.{
  ℕ, ◌+◌, ◌^◌, ◌<◌, ◌≤◌, ◌≡◌, refl, ap, ◌∙◌, true, false, some, List, length, take, drop, replicate,
  ltb, Str, arith, length-replicate, ge→ltb, subst,
}
use func_sim_engine.StdMap.{Map, str_key, find, find-insert_self}
use func_sim_engine.Result.{ok}
use func_sim_engine.Formula.{logic_operations}
use func_sim_engine.Param.Real.{Floats, HasBytes}
use func_sim_engine.Param.Types.{SameType, InRange}
use func_sim_engine.Param.Bytes.{from_bytes-to_bytes}
use func_sim_engine.Param.{Parameter, clone, to_bytes}
use func_sim_engine.Exchange.{VariableDesc, do_read, do_write}
use func_sim_engine.Exchange.SharedMemory.{
  Exchanged, get_chars, put_chars, read_var, write_var, vars_is_set, process_var, write_if,
  read_write,
}
use func_sim_engine.Exchange.SharedMemory.Areas.{
  length-put_chars, drop-put_chars, get_chars_area, process_var_found,
}

module _ {D : Type 0} ⦃fl : Floats D⦄ where
  -- What a variable writes that only writes.
  written :
      (d : VariableDesc) (x : Exchanged D) (par : Parameter D) (bytes : List ℕ)
      → get_chars x.memory d.offset d.size ≡ ok (some bytes)
      → find d.name x.vars ≡ some par
      → do_read logic_operations vars_is_set x.vars d ≡ ok false
      → do_write logic_operations vars_is_set x.vars d ≡ ok true
      → process_var d x ≡ ok (write_var d par x)
  unfolding read_write write_if
  written d x par bytes g f r w =
      process_var_found d x bytes par g f ∙ rw (read_write, r) (rw (write_if, w) refl)

  -- What a variable reads that only reads.
  was_read :
      (e : VariableDesc) (y : Exchanged D) (q : Parameter D) (bytes : List ℕ)
      → get_chars y.memory e.offset e.size ≡ ok (some bytes)
      → find e.name y.vars ≡ some q
      → do_read logic_operations vars_is_set y.vars e ≡ ok true
      → ((m : Map Str (Parameter D)) → do_write logic_operations vars_is_set m e ≡ ok false)
      → process_var e y ≡ ok (read_var e.name bytes q y).1
  unfolding read_write write_if
  was_read e y q bytes g f r w =
      process_var_found e y bytes q g f
      ∙ rw (read_write, r) (rw (write_if, w (read_var e.name bytes q y).1.vars) refl)

  write_var_fits :
      (d : VariableDesc) (par : Parameter D) (x : Exchanged D)
      → length (to_bytes par.value) ≡ d.size
      → (write_var d par x).memory
        ≡ put_chars (to_bytes par.value) d.offset (put_chars (replicate d.size 0) d.offset x.memory)
  unfolding write_var
  write_var_fits d par x s =
      let fits : ltb d.size (length (to_bytes par.value)) ≡ false =
        ge→ltb d.size (length (to_bytes par.value)) (omega (arith, s)) in
      rw (write_var, fits) refl

  written_area :
      (d : VariableDesc) (par : Parameter D) (x : Exchanged D)
      → d.offset + d.size < length x.memory
      → length x.memory < 2 ^ 64
      → length (to_bytes par.value) ≡ d.size
      → get_chars (write_var d par x).memory d.offset d.size ≡ ok (some (to_bytes par.value))
  written_area d par x h b s =
      let out = to_bytes par.value in
      let zeros : List ℕ = replicate d.size 0 in
      let z : length zeros ≡ d.size = length-replicate d.size 0 in
      let cleared = put_chars zeros d.offset x.memory in
      let l : length cleared ≡ length x.memory =
        length-put_chars zeros d.offset x.memory (omega (arith, z, h)) in
      let within : d.offset + length out ≤ length cleared = omega (arith, l, s, h) in
      let l' = length-put_chars out d.offset cleared within in
      let new = put_chars out d.offset cleared in
      let area : take d.size (drop d.offset new) ≡ out =
        subst (λ n. take n (drop d.offset new) ≡ out) s
          (drop-put_chars out d.offset cleared within) in
      rw (write_var_fits d par x s) (
        get_chars_area new d.offset d.size (omega (arith, l, l', h)) (omega (arith, l, l', b))
        ∙ ap (λ a. ok (some a)) area)

  -- One program writes a variable to its area of the shared memory; another then reads a variable
  -- of the same type from that area, of its own name. If the area is as long as the bytes of the
  -- value and ends before the last byte of the memory, both calls return, and the variable that the
  -- other program gets has the value that was written.
  pub written_read :
      (d e : VariableDesc) (x y : Exchanged D) (par q : Parameter D)
      → HasBytes fl
      → SameType (clone q).value par.value
      → InRange par.value
      → d.offset + d.size < length x.memory
      → length x.memory < 2 ^ 64
      → length (to_bytes par.value) ≡ d.size
      → e.offset ≡ d.offset
      → e.size ≡ d.size
      → find d.name x.vars ≡ some par
      → find e.name y.vars ≡ some q
      → do_read logic_operations vars_is_set x.vars d ≡ ok false
      → do_write logic_operations vars_is_set x.vars d ≡ ok true
      → do_read logic_operations vars_is_set y.vars e ≡ ok true
      → ((m : Map Str (Parameter D)) → do_write logic_operations vars_is_set m e ≡ ok false)
      → (x' : Exchanged D) × (y' : Exchanged D) × (process_var d x ≡ ok x')
        × (process_var e (record y { memory = x'.memory }) ≡ ok y')
        × (find e.name y'.res ≡ some (clone (record (clone q) { value = par.value })))
  unfolding read_var
  written_read d e x y par q hb same range h b s eo es f f' r w r' w' =
      let x' = write_var d par x in
      let y0 : Exchanged D = record y { memory = x'.memory } in
      let y' = (read_var e.name (to_bytes par.value) q y0).1 in
      let area : get_chars x'.memory e.offset e.size ≡ ok (some (to_bytes par.value)) =
        rw (eo, es) (written_area d par x h b s) in
      let value = from_bytes-to_bytes (clone q) par.value hb same range in
      (
        x',
        y',
        written d x par _ (get_chars_area x.memory d.offset d.size h b) f r w,
        was_read e y0 q (to_bytes par.value) area f' r' w',
        find-insert_self e.name _ y0.res ∙ ap (λ r. some (clone r.0)) value,
      )
