-- ===== src/Loader/Task.antt =====
-- loader/yaml_lib.hpp, load_lib.hpp and task.hpp: a task is loaded from its file. The libraries of
-- subprograms change what the loader and the kernel know, the world `W`: the types, the functions,
-- the classes of blocks, the control functions.
use func_sim_engine.Prelude.{
  ℕ, Bool, true, false, Option, none, some, List, [], ◌∷◌, Str, lit, if◌then◌else◌,
}
use func_sim_engine.Param.Real.{Floats}
use func_sim_engine.Subprogram.{FunctionStorage}
use func_sim_engine.Tree.{Tree, site}
use func_sim_engine.Tree.Power.{set_site}
use func_sim_engine.Loader.{Classes, Loading, loaded, refused, crashed, says, set_name, ◌>>=◌}
use func_sim_engine.Loader.Nodes.{
  Yaml, scalar, sequence, map_node, read_n_validate, validate_map, as_text, each,
}
use func_sim_engine.Loader.Nodes.Blocks.{decode_block}

-- `library_data`
pub record LibraryData : Type 0 where
  pub path : Str
  pub init_func : Str

-- What the system gives: `dlopen`, where `none` is `NULL`; `dlsym`, where `none` is an error; the
-- call of a function for initialisation; the file of a path in a directory; `LoadFile`, where `none`
-- is an exception that is caught.
pub record System (N F H W : Type 0) : Type 0 where
  pub dlopen : Str → W → Option H × W
  pub dlsym : H → Str → Option F
  pub init : F → W → W
  pub file_in : Str → Str → Str
  pub load_file : Str → Option N

-- What the kernel knows in a world: the standard classes are added to it, and it has functions and
-- classes. `start` is the reading of the clock when a node is read.
pub record Kernel (N D V W : Type 0) : Type 0 where
  pub add_std_block_classes : W → W
  pub classes : W → N → Classes D
  pub storage : W → FunctionStorage D V
  pub start : W → N → ℕ

-- `_path`, `_description`, `_port`, `_sigcount`, `_main_block`.
pub record Task (D : Type 0) : Type 0 where
  pub path : Str
  pub description : Str
  pub port : ℕ
  pub sigcount : ℕ
  pub main_block : Option (Tree D)

-- The constructor.
unfoldable pub task : {D : Type 0} → Str → ℕ → ℕ → Str → Task D
task path port sigcount description = record {
  path = path;
  description = description;
  port = port;
  sigcount = sigcount;
  main_block = none;
}

-- An exception that no handler of `load` is for.
abbrev pub escapes {ℓ} : {A : Type ℓ} → Loading A → Loading A
escapes (loaded a) = loaded a
escapes (refused e) = crashed
escapes crashed = crashed

module _ {N F H W : Type 0} (sys : System N F H W) where
  -- The function for initialisation, if one is named.
  unfoldable pub run_init : H → Str → W → Bool × W
  run_init lib [] w = (true, w)
  run_init lib (c ∷ cs) w = elim (sys.dlsym lib (c ∷ cs)) [
    | none ↦ (false, w)
    | some f ↦ (true, sys.init f w)
  ]

  -- `load_library`
  unfoldable pub load_library : LibraryData → W → Bool × W
  unfolding run_init
  load_library l w =
      let (lib, w') = sys.dlopen l.path w in
      elim lib [ none ↦ (false, w') | some h ↦ run_init h l.init_func w' ]

  -- The loop over the libraries: the first that fails ends it.
  unfoldable pub load_libraries : List LibraryData → W → Bool × W
  unfolding load_library
  load_libraries [] w = (true, w)
  load_libraries (l ∷ ls) w =
      let (ok, w') = load_library l w in
      let rest = load_libraries ls w' in if ok then rest else (false, w')

module _ {N D : Type 0} (yaml : Yaml N D) where
  -- `convert< library_data >::decode`
  unfoldable pub decode_library : N → Loading LibraryData
  unfolding validate_map read_n_validate
  decode_library node = validate_map yaml node >>= λ u. yaml.entry node (lit "путь") >>= λ p.
      read_n_validate yaml p (lit "путь") scalar (as_text yaml) >>= λ path.
      yaml.entry node (lit "ф_инициализации") >>= λ f.
      read_n_validate yaml f (lit "функция инициализации") scalar (as_text yaml) >>= λ init_func.
      loaded (record { path = path; init_func = init_func })

  -- The sequence of the libraries.
  unfoldable pub decode_libraries : N → Loading (List LibraryData)
  unfolding read_n_validate decode_library
  decode_libraries config = escapes (yaml.entry config (lit "библиотеки")) >>= λ l.
      read_n_validate yaml l (lit "библиотеки") sequence
        (λ n. each decode_library (yaml.elements n))

module _ {N D V W : Type 0} ⦃fl : Floats D⦄ (yaml : Yaml N D) (kernel : Kernel N D V W)
    (fuel : ℕ) where
  -- The main block, with its name.
  unfoldable pub load_main_block : N → W → Loading (Tree D)
  unfolding read_n_validate decode_block set_name
  load_main_block config w = escapes (yaml.entry config (lit "задача")) >>= λ n.
      read_n_validate yaml n (lit "задача") map_node
        (decode_block yaml (kernel.classes w) (kernel.storage w) (kernel.start w) fuel)
      >>= λ t.
          let s = site t in
          loaded (set_site (record s { callable = set_name (lit "задача") s.callable }) t)

  -- What follows the libraries.
  unfoldable pub load_structure : N → Task D → Bool × W → Loading (Task D) × W
  unfolding load_main_block
  load_structure config t (false, w) = (refused (says (lit "Ошибка при загрузке библиотеки")), w)
  load_structure config t (true, w) =
      (load_main_block config w >>= λ b. loaded (record t { main_block = some b }), w)

  -- The file, once it is read.
  unfoldable pub load_config :
      {F H : Type 0} → System N F H W → N → Task D → W → Loading (Task D) × W
  unfolding decode_libraries load_libraries load_structure
  load_config sys config t w = elim (decode_libraries yaml config) [
    | loaded ls ↦ load_structure config t (load_libraries sys ls w)
    | refused e ↦ (refused e, w)
    | crashed ↦ (crashed, w)
  ]

  -- `load`; the world changes though the loading fails later.
  unfoldable pub load : {F H : Type 0} → System N F H W → Task D → W → Loading (Task D) × W
  unfolding load_config
  load sys t w = elim (sys.load_file (sys.file_in t.path (lit "config.yml"))) [
    | none ↦ (refused (says (lit "Ошибка")), w)
    | some config ↦ load_config sys config t (kernel.add_std_block_classes w)
  ]
