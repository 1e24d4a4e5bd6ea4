-- ===== src/Loader/Nodes/Exchanges/SharedMemory.antt =====
-- loader/yaml_block_class_shared_memory_io.hpp: the settings of `SharedMemoryIO`. A class that
-- complains ends the loading, so what was set before the complaint is left out.
use func_sim_engine.Prelude.{none, some, List, [], ◌∷◌, ◌++◌, lit}
use func_sim_engine.Exchange.{VariableDesc}
use func_sim_engine.Exchange.SharedMemory.Settings.{
  ShmSettings, set_memory_name, set_locker_name, set_memory_size, set_memory_priority,
  set_protocol_fname, add_variable_desc,
}
use func_sim_engine.Loader.{says, Loading, loaded, check, find_or, ◌>>=◌}
use func_sim_engine.Loader.Nodes.{
  Yaml, scalar, map_node, is_type, read_n_validate, validate_map, as_text, as_number, as_count,
}
use func_sim_engine.Loader.Nodes.Exchanges.{decode_variable_list}

-- The loop over the descriptions.
unfoldable pub add_variable_descs :
    {D : Type 0} → List VariableDesc → ShmSettings D → Loading (ShmSettings D)
unfolding add_variable_desc
add_variable_descs [] d = loaded d
add_variable_descs (v ∷ vs) d =
    let (d', added) = add_variable_desc v d in
    check added (says (lit "Ошибка при добавлении переменной \"" ++ (v.name ++ lit "\""))) >>= λ u.
    add_variable_descs vs d'

module _ {N D : Type 0} (yaml : Yaml N D) where
  -- The priority, and the file of the protocol, which may be missing.
  unfoldable pub decode_options : N → ShmSettings D → Loading (ShmSettings D)
  unfolding read_n_validate set_memory_priority set_protocol_fname
  decode_options node d = yaml.entry node (lit "приоритетПп") >>= λ n_priority.
      (elim n_priority as (λ o. Loading (ShmSettings D)) [
        | none ↦ loaded d
        | some n ↦
            read_n_validate yaml (some n) (lit "приоритет подпрограммы класса") scalar
              (as_number yaml)
            >>= λ priority. loaded (set_memory_priority priority d)
      ])
      >>= λ d'. yaml.entry node (lit "протокол") >>= λ n_protocol.
          (elim n_protocol as (λ o. Loading (ShmSettings D)) [
            | none ↦ loaded d'
            | some n ↦
                read_n_validate yaml (some n) (lit "протокол обмена подпрограммы класса") scalar
                  (as_text yaml)
                >>= λ name. loaded (set_protocol_fname name d')
          ])

  -- `convert< SharedMemoryIO >::decode`
  unfoldable pub decode_shared_memory_io : N → ShmSettings D → Loading (ShmSettings D)
  unfolding validate_map read_n_validate set_memory_name set_locker_name decode_options
      set_memory_size decode_variable_list add_variable_descs
  decode_shared_memory_io node d =
      let no_desc = says (lit "Пропущено или неверно указано описание структуры памяти") in
      validate_map yaml node >>= λ u. yaml.entry node (lit "имяПамяти") >>= λ m.
      read_n_validate yaml m (lit "имя блока общей памяти") scalar (as_text yaml) >>= λ memory_name.
      yaml.entry node (lit "имяМьютекса") >>= λ l.
      read_n_validate yaml l (lit "имя объекта синхронизации") scalar (as_text yaml)
      >>= λ locker_name.
          decode_options node (set_locker_name locker_name (set_memory_name memory_name d))
          >>= λ d'. yaml.entry node (lit "память") >>= λ o. find_or o no_desc >>= λ memory_desc.
              check (is_type yaml map_node memory_desc) no_desc >>= λ u.
              yaml.entry memory_desc (lit "размер") >>= λ s.
              read_n_validate yaml s (lit "размер блока общей памяти") scalar (as_count yaml)
              >>= λ memory_size. yaml.entry memory_desc (lit "переменные") >>= λ v.
                  decode_variable_list yaml v (lit "список переменных") >>= λ v_desk.
                  add_variable_descs v_desk (set_memory_size memory_size d')
