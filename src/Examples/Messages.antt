-- ===== src/Examples/Messages.antt =====
-- Runs of the theorems on messages: a buffer of ten bytes with one integer variable.
use func_sim_engine.Prelude.{
  drop, ℕ, ◌+◌, ◌%◌, ◌≡◌, refl, Bool, true, false, some, List, [], ◌∷◌, Str, arith,
}
use func_sim_engine.StdMap.{Map, str_key, nat_key, find}
use func_sim_engine.Result.{ok, Returns}
use func_sim_engine.Param.{Parameter}
use func_sim_engine.Exchange.{VariableDesc, no_cond}
use func_sim_engine.Exchange.Checksum.{words, calc_control_sum}
use func_sim_engine.Exchange.Checksum.Laws.{total, residue, calc_control_sum-residue}
use func_sim_engine.Exchange.Udp.{
  seal, UdpExchange, InetBuffer, Filling, read_vars, read_counted, read_message, input_vars,
  fill_vars, output_vars, add_error_msg, repeated_message,
}
use func_sim_engine.Exchange.Udp.Sealing.{read_message-seal}
use func_sim_engine.Exchange.Udp.Input.{Reads, input_vars-Reads, same_number_refused}
use func_sim_engine.Exchange.Udp.Output.{Stays, Numbered, fill_vars_stale, output_vars-Numbered}
use func_sim_engine.Examples.{bits, name_n, variables}

abbrev desc_n : VariableDesc
desc_n = record { name = name_n; offset = 4; size = 4; read_cond = no_cond; write_cond = no_cond }

abbrev buffer : InetBuffer
buffer = record { size = 10; vars = desc_n ∷ [] }

abbrev exchange : UdpExchange Bool
exchange = record {
  buf = (3, buffer) ∷ [];
  i_counter = 0;
  o_counter = 0;
  vars = variables false 0;
  errors = [];
}

-- A message of buffer 3 with the number 1 and a wrong control sum.
abbrev message : List ℕ
message = 3 ∷ 1 ∷ 0 ∷ 0 ∷ 7 ∷ 0 ∷ 0 ∷ 0 ∷ 0 ∷ 0 ∷ []

input_vars-Reads_example : (c : ℕ) × Reads exchange c (input_vars (message ∷ []) exchange)
input_vars-Reads_example =
    input_vars-Reads (message ∷ []) exchange ((omega arith, (omega arith, tt)), tt)
      (omega arith, tt)

same_number_refused_example :
    (u' : UdpExchange Bool) × (res' : Map Str (Parameter Bool)) × (read_counted message buffer
        (exchange, [])
      ≡ ok (u', res'))
    × (read_counted message buffer (u', res') ≡ ok (add_error_msg repeated_message u', res'))
same_number_refused_example =
    same_number_refused message message 1 buffer exchange [] (omega arith, (omega arith, tt)) refl
      (omega arith) refl refl

known_buffer : find 3 exchange.buf ≡ some buffer
unfolding find
known_buffer = refl

read_message-seal_example :
    (m : List ℕ) × (seal message 300 ≡ ok m)
    × (drop 4 m ≡ drop 4 message)
    × (read_message m (exchange, [])
        ≡ read_vars m buffer.vars (record exchange { i_counter = 300 % 256 }, []))
read_message-seal_example =
    read_message-seal exchange [] message 3 300 buffer (omega arith) refl (omega arith) known_buffer
      refl (λ e. omega arith)

-- A message under construction in which a variable has changed.
abbrev filling : Filling Bool
filling = record { exchange = exchange; res = message; is_changed = true; no_error = true }

fill_vars_stale_example :
    Returns (Stays exchange.vars) (fill_vars (variables true 9) (desc_n ∷ []) filling)
fill_vars_stale_example = fill_vars_stale (variables true 9) (desc_n ∷ []) filling refl

output_vars-Numbered_example : Returns (Numbered exchange) (output_vars (variables true 9) exchange)
output_vars-Numbered_example = output_vars-Numbered (variables true 9) exchange (omega arith)

calc_control_sum-residue_example :
    calc_control_sum (7 ∷ 1 ∷ 255 ∷ 255 ∷ []) 259
    ≡ residue (259 + total (words (7 ∷ 1 ∷ 255 ∷ 255 ∷ [])))
calc_control_sum-residue_example =
    calc_control_sum-residue (7 ∷ 1 ∷ 255 ∷ 255 ∷ []) 259 (omega arith) (omega arith)
      (omega arith, (omega arith, (omega arith, (omega arith, tt))))
