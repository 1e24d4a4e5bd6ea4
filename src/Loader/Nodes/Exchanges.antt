-- ===== src/Loader/Nodes/Exchanges.antt =====
-- loader/yaml_inet_address.hpp, yaml_block_class_udp_exchange.hpp and
-- yaml_block_class_shared_memory_io.hpp: the descriptions that are read of the nodes of the classes
-- that exchange variables.
pub mod Udp
pub mod SharedMemory
use func_sim_engine.Prelude.{ℕ, Option, none, some, List, ◌++◌, Str, lit}
use func_sim_engine.Exchange.{VariableDesc, variable_desc, set_read_cond, set_write_cond}
use func_sim_engine.Exchange.Udp.{InetBuffer}
use func_sim_engine.Exchange.Udp.Settings.{InetAddress}
use func_sim_engine.Loader.{bad_conversion, Loading, loaded, find_or, ◌>>=◌}
use func_sim_engine.Loader.Nodes.{
  Yaml, scalar, sequence, read_n_validate, validate_map, as_text, as_count, each,
}

module _ {N D : Type 0} (yaml : Yaml N D) where
  -- A condition that may be missing.
  abbrev decode_cond :
      (VariableDesc → Str → VariableDesc) → Option N → Str → VariableDesc → Loading VariableDesc
  decode_cond set_cond none desc d = loaded d
  decode_cond set_cond (some n) desc d =
      read_n_validate yaml (some n) desc scalar (as_text yaml) >>= λ cond. loaded (set_cond d cond)

  -- `convert< variable_desc >::decode`
  unfoldable pub decode_variable_desc : N → Loading VariableDesc
  unfolding validate_map read_n_validate variable_desc set_read_cond set_write_cond
  decode_variable_desc node = validate_map yaml node >>= λ u. yaml.entry node (lit "имя") >>= λ n.
      read_n_validate yaml n (lit "имя") scalar (as_text yaml) >>= λ name.
      yaml.entry node (lit "смещение") >>= λ o.
      read_n_validate yaml o (lit "смещение") scalar (as_count yaml) >>= λ offset.
      yaml.entry node (lit "размер") >>= λ s.
      read_n_validate yaml s (lit "размер") scalar (as_count yaml) >>= λ size.
      yaml.entry node (lit "чтение") >>= λ read.
      decode_cond set_read_cond read (lit "условие чтения")
        (record variable_desc { name = name; offset = offset; size = size })
      >>= λ d. yaml.entry node (lit "запись") >>= λ write.
          decode_cond set_write_cond write (lit "условие записи") d

  -- A sequence of descriptions.
  unfoldable pub decode_variable_list : Option N → Str → Loading (List VariableDesc)
  unfolding read_n_validate decode_variable_desc
  decode_variable_list n desc =
      read_n_validate yaml n desc sequence (λ n. each decode_variable_desc (yaml.elements n))

  -- `convert< InetAddress >::decode`
  unfoldable pub decode_inet_address : N → Loading InetAddress
  unfolding validate_map read_n_validate
  decode_inet_address node = validate_map yaml node >>= λ u. yaml.entry node (lit "ip") >>= λ i.
      read_n_validate yaml i (lit "IP-адрес") scalar (as_text yaml) >>= λ ip.
      yaml.entry node (lit "порт") >>= λ p.
      read_n_validate yaml p (lit "порт") scalar (λ n. find_or (yaml.as_port n) bad_conversion)
      >>= λ port. loaded (record { ip = ip; port = port })

  -- `convert< InetBuffer >::decode`
  unfoldable pub decode_inet_buffer : N → Loading InetBuffer
  unfolding validate_map read_n_validate decode_variable_list
  decode_inet_buffer node = validate_map yaml node >>= λ u. yaml.entry node (lit "размер") >>= λ s.
      read_n_validate yaml s (lit "размер") scalar (as_count yaml) >>= λ size.
      yaml.entry node (lit "переменные") >>= λ v.
      decode_variable_list v (lit "переменные") >>= λ vars.
      loaded (record { size = size; vars = vars })
