-- ===== src/Exchange/Udp.antt =====
-- `UdpExchange` of kernel/block_class/udp_exchange.hpp: messages from and to variables.
-- The text of an error message is left out: `errors` has what it says, the newest in front.
pub mod Settings
pub mod Input
pub mod Sealing
pub mod Output
use func_sim_engine.Prelude.{
  ℕ, zero, suc, ◌+◌, ◌*◌, ◌/◌, ◌%◌, ◌^◌, Bool, true, false, not, ◌&&◌, ◌||◌, Option, none, some,
  List, [], ◌∷◌, ◌++◌, length, get_elem?, set, take, drop, replicate, leb, ltb, ◌==◌, if◌then◌else◌,
  Str, is_some,
}
use func_sim_engine.StdMap.{Map, Key, str_key, nat_key, find, insert, emplace}
use func_sim_engine.Result.{Result, ok, throw, undefined, Exn, ◌>>=◌}
use func_sim_engine.Param.Real.{Floats}
use func_sim_engine.Param.{Parameter, clone, copy_data, to_bytes, from_bytes}
use func_sim_engine.Exchange.{VariableDesc}
use func_sim_engine.Exchange.Checksum.{calc_control_sum}

-- `InetBuffer`
pub record InetBuffer : Type 0 where
  pub size : ℕ
  pub vars : List VariableDesc

pub data Problem : Type 0 where
  bad_identifier : ℕ → Problem
  bad_size : ℕ → ℕ → Problem
  repeated_message : Problem
  bad_control_sum : ℕ → ℕ → Problem
  not_in_class : Str → Problem
  bad_value : Str → List ℕ → Problem
  not_in_block : Str → Problem
  not_in_subprogram : Str → Problem
  bad_variable_size : Str → Problem
  not_validated : Problem
  no_server : Problem

-- The fields that the exchange works with: `_buf`, `_i_counter`, `_o_counter`, the `_vars` of the
-- class and its messages of errors.
pub record UdpExchange (D : Type 0) : Type 0 where
  pub buf : Map ℕ InetBuffer
  pub i_counter : ℕ
  pub o_counter : ℕ
  pub vars : Map Str (Parameter D)
  pub errors : List Problem

module _ {D : Type 0} where
  -- `add_error_msg`
  unfoldable pub add_error_msg : Problem → UdpExchange D → UdpExchange D
  add_error_msg e u = record u { errors = e ∷ u.errors }

-- `msg_buffer v_data( v_begin, v_begin + v.size() )`, undefined past the end of the message.
unfoldable pub slice : List ℕ → VariableDesc → Result (List ℕ)
slice m v =
    if leb (v.offset + v.size) (length m) then ok (take v.size (drop v.offset m)) else undefined

-- `* reinterpret_cast< const uint16_t * >` at a position of the message.
unfoldable pub word_at : List ℕ → ℕ → Result ℕ
word_at m i = elim (get_elem? m i) [
  | none ↦ undefined
  | some low ↦ elim (get_elem? m (i + 1)) [ none ↦ undefined | some high ↦ ok (low + 256 * high) ]
]

-- `std::copy( lres.begin(), lres.end(), res.begin() + offset )`
unfoldable pub write_at : List ℕ → ℕ → List ℕ → Result (List ℕ)
write_at bytes offset res =
    if leb (offset + length bytes) (length res)
    then ok (take offset res ++ (bytes ++ drop (offset + length bytes) res))
    else undefined

-- The number and the control sum are put into a message; below four bytes that is undefined.
unfoldable pub seal : List ℕ → ℕ → Result (List ℕ)
seal res counter =
    if ltb (length res) 4
    then undefined
    else (let numbered = set res 1 (counter % 256) in
        (word_at numbered 0 >>= λ fw.
        (let cs = calc_control_sum (drop 4 numbered) fw in
          ok (set (set numbered 2 (cs % 256)) 3 (cs / 256 % 256)))))

-- A message under construction: `res`, `isChanged`, `noError`.
pub record Filling (D : Type 0) : Type 0 where
  pub exchange : UdpExchange D
  pub res : List ℕ
  pub is_changed : Bool
  pub no_error : Bool

module _ {D : Type 0} ⦃fl : Floats D⦄ where
  -- The loop over the variables of an accepted message: the variables read so far are `res`.
  unfoldable pub read_vars :
      List ℕ
      → List VariableDesc
      → UdpExchange D × Map Str (Parameter D)
      → Result (UdpExchange D × Map Str (Parameter D))
  unfolding slice
  read_vars m [] (u, res) = ok (u, res)
  read_vars m (v ∷ vs) (u, res) = slice m v >>= λ v_data. (elim (find v.name u.vars) [
    | none ↦ read_vars m vs (add_error_msg (not_in_class v.name) u, res)
    | some p ↦
        let (tmp, accepted) = from_bytes (clone p) v_data in
        let rest = read_vars m vs (u, insert v.name (clone tmp) res) in
        if accepted then rest else ok (add_error_msg (bad_value v.name v_data) u, res)
  ])

  -- The control sum of a message, and the variables if it is right. Below four bytes
  -- `m.size()-4` wraps round.
  unfoldable pub read_checked :
      List ℕ
      → InetBuffer
      → UdpExchange D × Map Str (Parameter D)
      → Result (UdpExchange D × Map Str (Parameter D))
  unfolding word_at
  read_checked m desc (u, res) =
      if ltb (length m) 4
      then undefined
      else (word_at m 2 >>= λ cs. word_at m 0 >>= λ fw.
          (let expected = calc_control_sum (drop 4 m) fw in
            if expected == cs
            then read_vars m desc.vars (u, res)
            else ok (add_error_msg (bad_control_sum expected cs) u, res)))

  -- The number of a message: only a repeated one is refused.
  unfoldable pub read_counted :
      List ℕ
      → InetBuffer
      → UdpExchange D × Map Str (Parameter D)
      → Result (UdpExchange D × Map Str (Parameter D))
  unfolding read_checked
  read_counted m desc (u, res) = elim (get_elem? m 1) [
    | none ↦ undefined
    | some number ↦
        if u.i_counter % 256 == number
        then ok (add_error_msg repeated_message u, res)
        else read_checked m desc (record u { i_counter = number }, res)
  ]

  -- One message.
  unfoldable pub read_message :
      List ℕ
      → UdpExchange D × Map Str (Parameter D)
      → Result (UdpExchange D × Map Str (Parameter D))
  unfolding read_counted
  read_message m (u, res) = elim (get_elem? m 0) [
    | none ↦ undefined
    | some number ↦ elim (find number u.buf) [
      | none ↦ ok (add_error_msg (bad_identifier number) u, res)
      | some desc ↦
          if length m == desc.size
          then read_counted m desc (u, res)
          else ok (add_error_msg (bad_size number (length m)) u, res)
    ]
  ]

  unfoldable pub read_messages :
      List (List ℕ)
      → UdpExchange D × Map Str (Parameter D)
      → Result (UdpExchange D × Map Str (Parameter D))
  unfolding read_message
  read_messages [] s = ok s
  read_messages (m ∷ ms) s = read_message m s >>= λ s'. read_messages ms s'

  -- `input_vars`, given what `get_messages` returned.
  unfoldable pub input_vars :
      List (List ℕ) → UdpExchange D → Result (UdpExchange D × Map Str (Parameter D))
  unfolding read_messages
  input_vars ms u = read_messages ms (u, [])

  abbrev pub failed : Problem → Filling D → Filling D
  failed e f = record f { exchange = add_error_msg e f.exchange; no_error = false }

  -- `isChanged = isChanged || copy_data( * u->second, * v->second )`: the right side is evaluated
  -- only as long as nothing has changed.
  unfoldable pub update_var : Bool → Parameter D → Parameter D → Result (Parameter D × Bool)
  update_var true pu pv = ok (pv, true)
  update_var false pu pv = copy_data pv pu

  -- The loop over the variables of a buffer.
  unfoldable pub fill_vars :
      Map Str (Parameter D) → List VariableDesc → Filling D → Result (Filling D)
  unfolding write_at update_var
  fill_vars u_vars [] f = ok f
  fill_vars u_vars (var ∷ rest) f = elim (find var.name u_vars) [
    | none ↦ ok (failed (not_in_block var.name) f)
    | some pu ↦ elim (find var.name f.exchange.vars) [
      | none ↦ ok (failed (not_in_subprogram var.name) f)
      | some pv ↦ update_var f.is_changed pu pv >>= λ r.
          (let (pv', changed) = r in
            let lres = to_bytes pv'.value in
            let exchange' = record f.exchange { vars = insert var.name pv' f.exchange.vars } in
            let f' = record f { exchange = exchange'; is_changed = changed } in
            let next = write_at lres var.offset f.res >>= λ res'.
            fill_vars u_vars rest (record f' { res = res' }) in
            if length lres == var.size then next else ok (failed (bad_variable_size var.name) f'))
    ]
  ]

  -- What is done with a filled message: sent are the messages of the second component.
  unfoldable pub finish : Filling D → List (List ℕ) → Result (UdpExchange D × List (List ℕ))
  unfolding seal
  finish f sent =
      if f.no_error && f.is_changed
      then (let counter = (f.exchange.o_counter + 1) % 2 ^ 64 in
          (seal f.res counter >>= λ m.
          ok (record f.exchange { o_counter = counter }, sent ++ m ∷ [])))
      else ok (f.exchange, sent)

  -- One buffer; `res[0]` of an empty buffer is undefined.
  unfoldable pub output_buffer :
      Map Str (Parameter D)
      → ℕ × InetBuffer
      → UdpExchange D × List (List ℕ)
      → Result (UdpExchange D × List (List ℕ))
  unfolding fill_vars finish
  output_buffer u_vars (number, desc) (u, sent) =
      if desc.size == 0
      then undefined
      else (fill_vars u_vars desc.vars (record {
        exchange = u;
        res = set (replicate desc.size 0) 0 (number % 256);
        is_changed = false;
        no_error = true;
      })
          >>= λ f. finish f sent)

  unfoldable pub output_buffers :
      Map Str (Parameter D)
      → List (ℕ × InetBuffer)
      → UdpExchange D × List (List ℕ)
      → Result (UdpExchange D × List (List ℕ))
  unfolding output_buffer
  output_buffers u_vars [] s = ok s
  output_buffers u_vars (b ∷ bs) s = output_buffer u_vars b s >>= λ s'. output_buffers u_vars bs s'

  -- `output_vars`: the new state and the messages that were sent, in order.
  unfoldable pub output_vars :
      Map Str (Parameter D) → UdpExchange D → Result (UdpExchange D × List (List ℕ))
  unfolding output_buffers
  output_vars u_vars u = output_buffers u_vars u.buf (u, [])
