-- ===== src/Loader/Nodes.antt =====
-- loader/yaml_parameter.hpp, yaml_detail.hpp and yaml_subpr.hpp: what is read of the nodes of a
-- variable, a state and a subprogram. The YAML library is the interface `Yaml`.
pub mod Blocks
pub mod Exchanges
use func_sim_engine.Prelude.{
  ℕ, Bool, true, false, Option, none, some, List, [], ◌∷◌, ◌++◌, Str, lit, str_eq, is_some,
  if◌then◌else◌,
}
use func_sim_engine.StdMap.{Map, str_key, insert}
use func_sim_engine.Param.Real.{Floats}
use func_sim_engine.Callable.{callable, set_power_cond}
use func_sim_engine.Subprogram.{FunctionStorage, Subprogram, is_func_set, remap_key}
use func_sim_engine.Loader.{
  LoadError, DestinationDesk, ParameterDesc, StateD, says, bad_conversion, Loading, loaded, refused,
  crashed, check, find_or, ◌>>=◌,
}

-- `NodeType`
pub data NodeType : Type 0 where
  null_node scalar sequence map_node : NodeType

-- Nodes: `operator[]`, where `none` is an undefined node and a refusal an exception; the type; `as`,
-- where `none` is an exception, of a string, a `double`, a
-- `size_t` and a `uint16_t`; the elements and the entries; the tag.
pub record Yaml (N D : Type 0) : Type 0 where
  pub entry : N → Str → Loading (Option N)
  pub node_type : N → NodeType
  pub as_string : N → Option Str
  pub as_double : N → Option D
  pub as_size : N → Option ℕ
  pub as_port : N → Option ℕ
  pub elements : N → List N
  pub entries : N → List (Option Str × N)
  pub tag : N → Str

abbrev pub same_type : NodeType → NodeType → Bool
same_type null_node null_node = true
same_type scalar scalar = true
same_type sequence sequence = true
same_type map_node map_node = true
same_type _ _ = false

abbrev pub or_empty : Option Str → Str
or_empty none = []
or_empty (some s) = s

abbrev pub each {ℓ} : {A B : Type ℓ} → (A → Loading B) → List A → Loading (List B)
each f [] = loaded []
each f (x ∷ xs) = f x >>= λ y. each f xs >>= λ ys. loaded (y ∷ ys)

-- A conversion inside `try`: an exception gives way to a message.
abbrev pub caught {ℓ} : {A : Type ℓ} → Loading A → LoadError → Loading A
caught (loaded a) e = loaded a
caught (refused e') e = refused e
caught crashed e = crashed

module _ {N D : Type 0} (yaml : Yaml N D) where
  -- `as` of a string, of a double.
  abbrev pub as_text : N → Loading Str
  as_text n = find_or (yaml.as_string n) bad_conversion

  abbrev pub as_number : N → Loading D
  as_number n = find_or (yaml.as_double n) bad_conversion

  abbrev pub as_count : N → Loading ℕ
  as_count n = find_or (yaml.as_size n) bad_conversion

  abbrev pub is_type : NodeType → N → Bool
  is_type t n = same_type (yaml.node_type n) t

  -- `read_n_validate`, with what `as` makes of the node.
  unfoldable pub read_n_validate :
      {A : Type 0} → Option N → Str → NodeType → (N → Loading A) → Loading A
  read_n_validate none desc t conv =
      refused (says (lit "Пропущен или неверно указан параметр \"" ++ (desc ++ lit "\"")))
  read_n_validate (some n) desc t conv =
      check (is_type t n)
        (says (lit "Пропущен или неверно указан параметр \"" ++ (desc ++ lit "\"")))
      >>= λ u. caught (conv n) (says (lit "Неверно указан параметр \"" ++ (desc ++ lit "\"")))

  -- `validate_map`
  unfoldable pub validate_map : N → Loading {0} Unit
  validate_map n = check (is_type map_node n) (says (lit "Неверная структура данных"))

  -- `convert< YesNo >::decode`; the message shows the value from before, which is `false`.
  unfoldable pub decode_yes_no : N → Loading Bool
  unfolding read_n_validate
  decode_yes_no n = check (is_type scalar n) (says (lit "Неверная структура данных")) >>= λ u.
      read_n_validate (some n) (lit "да/нет") scalar as_text >>= λ data_.
      if str_eq data_ (lit "да")
      then loaded true
      else if str_eq data_ (lit "нет")
      then loaded false
      else refused (says (lit "Неверное значение \"0\" ожидается \"да\" или \"нет\""))

  -- The loop of `convert< std::map >::decode`.
  unfoldable pub decode_entries :
      {V : Type 0} → (N → Loading V) → List (Option Str × N) → Map Str V → Loading (Map Str V)
  decode_entries conv [] m = loaded m
  decode_entries conv ((k, n) ∷ es) m = find_or k (says (lit "Неверно указано имя")) >>= λ key.
      caught (conv n)
        (says (lit "Ошибка при преобразовании элемента массива \"" ++ (key ++ lit "\"")))
      >>= λ v. decode_entries conv es (insert key v m)

  unfoldable pub decode_map : {V : Type 0} → (N → Loading V) → N → Loading (Map Str V)
  unfolding decode_entries validate_map
  decode_map conv n = validate_map n >>= λ u. decode_entries conv (yaml.entries n) []

  -- `convert< tStateD >::decode`
  unfoldable pub decode_state : N → Loading StateD
  unfolding validate_map read_n_validate decode_map
  decode_state n = validate_map n >>= λ u. yaml.entry n (lit "описание") >>= λ d.
      read_n_validate d (lit "описание") scalar as_text >>= λ desc.
      yaml.entry n (lit "значения") >>= λ v.
      read_n_validate v (lit "значения") map_node (decode_map as_text) >>= λ vars.
      loaded (record { desc = desc; vars = vars })

  -- `convert< destination_desk >::decode`
  unfoldable pub decode_destination : N → Loading DestinationDesk
  decode_destination n =
      check (is_type map_node n) (says (lit "Неверное назначение переменной ")) >>= λ u.
      yaml.entry n (lit "переменная") >>= λ dst_name. yaml.entry n (lit "блок") >>= λ dst_block.
      let name = elim dst_name as (λ o. Str) [ none ↦ [] | some x ↦ or_empty (yaml.as_string x) ] in
      find_or dst_block (says (lit "Укажите имя блока назначения для переменной")) >>= λ b.
      find_or (yaml.as_string b) (says (lit "Неверно указано имя блока назначения")) >>= λ block.
      loaded (record { destination_block = block; destination_name = name })

  -- The destinations of a variable: none, one, or a sequence.
  unfoldable pub decode_destinations : Option N → Loading (List DestinationDesk)
  unfolding decode_destination
  decode_destinations none = loaded []
  decode_destinations (some n) =
      let wrong = says (lit "Ошибка при чтении назначения переменной") in
      let one = caught (decode_destination n) wrong in
      let many = caught (each decode_destination (yaml.elements n)) wrong in
      elim (yaml.node_type n) [
        | sequence ↦ many
        | map_node ↦ one >>= λ d. loaded (d ∷ [])
        | scalar ↦ refused (says (lit "Неверно указано назначение переменной"))
        | null_node ↦ refused (says (lit "Неверно указано назначение переменной"))
      ]

  -- A scalar that must be there, with what is said of it.
  abbrev pub scalar_text : Option N → Str → Str → Loading Str
  scalar_text o absent wrong = find_or o (says absent) >>= λ n.
      check (is_type scalar n) (says absent) >>= λ u. find_or (yaml.as_string n) (says wrong)

  -- A description that may be missing.
  abbrev pub optional_desc : Option N → Loading Str
  optional_desc none = loaded []
  optional_desc (some n) =
      scalar_text (some n) (lit "Неверно указано описание") (lit "Неверно указано описание")

  -- The part of `convert< parameter_desc >::decode` for a variable of a child.
  unfoldable pub decode_source : N → Option N → Loading ParameterDesc
  decode_source source desc = yaml.entry source (lit "переменная") >>= λ src_name.
      yaml.entry source (lit "блок") >>= λ src_block.
      (elim src_name as (λ o. Loading Str) [
        | none ↦ loaded []
        | some x ↦
            find_or (yaml.as_string x) (says (lit "Неверно указано имя переменной-источника"))
            >>= λ name.
                check (is_some src_block) (says (lit "Укажите имя блока, порождающего переменную"))
                >>= λ u. loaded name
      ])
      >>= λ name.
          let wrong = says (lit "Неверно указано имя порождающего переменную блока") in
          find_or src_block wrong >>= λ b. find_or (yaml.as_string b) wrong >>= λ block.
          optional_desc desc >>= λ d. loaded (record {
            desc = d;
            type = [];
            value = [];
            source_block = block;
            source_name = name;
            destination = [];
          })

  -- The part for a variable with a type and a value.
  unfoldable pub decode_own : N → Option N → Option N → Loading ParameterDesc
  decode_own n value desc =
      let no_type = says (lit "Пропущен или неверно указан тип") in
      yaml.entry n (lit "тип") >>= λ type. find_or type no_type >>= λ t.
      check (is_type scalar t) no_type >>= λ u.
      scalar_text value (lit "Пропущено или неверно указано значение")
        (lit "Неверно указано значение")
      >>= λ v.
          scalar_text desc (lit "Пропущено или неверно указано описание")
            (lit "Неверно указано описание")
          >>= λ d. loaded (record {
            desc = d;
            type = or_empty (yaml.as_string t);
            value = v;
            source_block = [];
            source_name = [];
            destination = [];
          })

  -- `convert< parameter_desc >::decode`
  unfoldable pub decode_parameter : N → Loading ParameterDesc
  unfolding decode_source decode_own decode_destinations
  decode_parameter n = yaml.entry n (lit "значение") >>= λ value.
      yaml.entry n (lit "описание") >>= λ desc. yaml.entry n (lit "источник") >>= λ source.
      yaml.entry n (lit "назначение") >>= λ destination.
      (elim source as (λ o. Loading ParameterDesc) [
        | none ↦ decode_own n value desc
        | some s ↦ decode_source s desc
      ])
      >>= λ m. decode_destinations destination >>= λ ds. loaded (record m { destination = ds })

  -- The loop over the renamings of a subprogram.
  unfoldable pub remap_all : Map Str Str → Subprogram D → Loading (Subprogram D)
  unfolding remap_key
  remap_all [] s = loaded s
  remap_all ((renamed, target) ∷ vs) s =
      let (s', fresh) = remap_key target renamed s in
      check fresh (
        says (
          lit "Ошибка при добавлении отображения переменной \""
          ++ (target ++ (lit "->" ++ (renamed ++ lit "\"")))))
      >>= λ u. remap_all vs s'

  -- A node that may be missing.
  abbrev pub optional : {A : Type 0} → A → Option N → Str → NodeType → (N → Loading A) → Loading A
  optional d none desc t conv = loaded d
  optional d (some n) desc t conv = read_n_validate (some n) desc t conv

  -- `convert< Subprogram >::decode`
  unfoldable pub decode_subprogram :
      {W : Type 0} ⦃fl : Floats D⦄ → FunctionStorage D W → ℕ → N → Loading (Subprogram D)
  unfolding validate_map read_n_validate decode_map remap_all is_func_set set_power_cond callable
  decode_subprogram storage start n = validate_map n >>= λ u. yaml.entry n (lit "класс") >>= λ c.
      read_n_validate c (lit "имя функции") scalar as_text >>= λ s_func.
      yaml.entry n (lit "приоритет") >>= λ p.
      read_n_validate p (lit "приоритет") scalar as_number >>= λ s_priority.
      yaml.entry n (lit "условиеРаботы") >>= λ w.
      optional [] w (lit "условие работы") scalar as_text >>= λ v_power.
      yaml.entry n (lit "параметры") >>= λ v.
      optional [] v (lit "параметры") map_node (decode_map as_text) >>= λ var_map.
      let s : Subprogram D = record {
        callable = callable start (yaml.tag n) s_priority false;
        func_name = s_func;
        remapped = record { p_map = 0; has_remap = false; remap = [] };
      } in
      check (is_func_set storage s) (says (lit "Функция \"" ++ (s_func ++ lit "\" не определена")))
      >>= λ u. remap_all var_map (record s { callable = set_power_cond v_power s.callable })
