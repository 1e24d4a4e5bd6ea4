-- ===== src/Loader/Nodes/Exchanges/Udp.antt =====
-- loader/yaml_block_class_udp_exchange.hpp: the settings of `UdpExchange`. A class that complains
-- ends the loading, so what was set before the complaint is left out.
use func_sim_engine.Prelude.{ℕ, Option, ◌++◌, Str, lit, str_eq, if◌then◌else◌}
use func_sim_engine.StdMap.{Map}
use func_sim_engine.Exchange.Udp.{InetBuffer}
use func_sim_engine.Exchange.Udp.Settings.{
  UdpSettings, set_address, set_direction_input, set_direction_output, set_buffers,
  set_exchange_priority,
}
use func_sim_engine.Loader.{says, Loading, loaded, refused, find_or, ◌>>=◌}
use func_sim_engine.Loader.Nodes.{
  Yaml, scalar, map_node, read_n_validate, validate_map, as_text, as_number, caught,
}
use func_sim_engine.Loader.Nodes.Exchanges.{decode_inet_address, decode_inet_buffer}

-- The two directions.
unfoldable pub set_direction : {D : Type 0} → Str → UdpSettings D → Loading (UdpSettings D)
unfolding set_direction_input set_direction_output
set_direction dir u =
    if str_eq dir (lit "прием")
    then loaded (set_direction_input u)
    else if str_eq dir (lit "передача")
    then loaded (set_direction_output u)
    else refused
        (says (lit "Значение \"" ++ (dir ++ lit "\" не подходит для параметра \"направление\"")))

-- `as_buffers` is the conversion of a map with numbers for keys, which is the library's.
module _ {N D : Type 0} (yaml : Yaml N D)
    (as_buffers : (N → Loading InetBuffer) → N → Loading (Map ℕ InetBuffer)) where
  -- An entry inside `try`, whose handler has a message of its own.
  abbrev tried : N → Str → Loading (Option N)
  tried n key = caught (yaml.entry n key) (says (lit "Ошибка в описании параметров обмена"))

  -- The body of `try`.
  unfoldable pub decode_exchange_params : N → UdpSettings D → Loading (UdpSettings D)
  unfolding validate_map read_n_validate set_direction set_exchange_priority set_buffers
      decode_inet_buffer
  decode_exchange_params node d = tried node (lit "обмен") >>= λ params.
      find_or params (says (lit "Неверная структура данных")) >>= λ p. validate_map yaml p >>= λ u.
      tried p (lit "направление") >>= λ k.
      read_n_validate yaml k (lit "направление") scalar (as_text yaml) >>= λ dir.
      set_direction dir d >>= λ d'. tried p (lit "приоритет") >>= λ q.
      read_n_validate yaml q (lit "приоритет") scalar (as_number yaml) >>= λ priority.
      tried p (lit "буферы") >>= λ b.
      read_n_validate yaml b (lit "буферы") map_node (as_buffers (decode_inet_buffer yaml))
      >>= λ buf. loaded (set_buffers buf (set_exchange_priority priority d'))

  -- `convert< UdpExchange >::decode`
  unfoldable pub decode_udp_exchange : N → UdpSettings D → Loading (UdpSettings D)
  unfolding validate_map read_n_validate decode_inet_address set_address decode_exchange_params
  decode_udp_exchange node d = validate_map yaml node >>= λ u.
      yaml.entry node (lit "адрес") >>= λ a.
      read_n_validate yaml a (lit "адрес") map_node (decode_inet_address yaml) >>= λ addr.
      decode_exchange_params node (set_address addr d)
