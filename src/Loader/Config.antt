-- ===== src/Loader/Config.antt =====
-- loader/config.hpp and main.cpp: from the command line to a task that is ready to run. The options
-- library and the file system are arguments; what is printed is left out.
pub mod Ready
pub mod Reached
use func_sim_engine.Prelude.{
  ℕ, Bool, true, false, Option, none, some, List, [], ◌∷◌, Str, lit, if◌then◌else◌,
}
use func_sim_engine.Param.Real.{Floats}
use func_sim_engine.Tree.{Tree}
use func_sim_engine.Loader.{Loading, loaded, refused, crashed}
use func_sim_engine.Loader.Nodes.{Yaml}
use func_sim_engine.Loader.Task.{System, Kernel, Task, task, load}

-- `stage`
pub data Stage : Type 0 where
  constructed main_config_loaded task_path_loaded task_config_loaded ready : Stage

-- `_taskname`, `_search_paths`, `_task`, `_stage`.
pub record Config (D : Type 0) : Type 0 where
  pub taskname : Str
  pub search_paths : List Str
  pub task : Option (Task D)
  pub stage : Stage

-- What the command line says: the task and the paths.
pub record CommandLine : Type 0 where
  pub taskname : Str
  pub search_paths : List Str

-- The options of a task in a configuration file. A missing path is empty; a missing port is 8001 and
-- a missing count of signals is 2.
pub record TaskOptions : Type 0 where
  pub path : Str
  pub description : Str
  pub port : Option ℕ
  pub sigcount : Option ℕ

-- The files: `is_directory` and `is_regular_file`, where `none` is an exception, a path in a
-- directory, `absolute`; the options of a task in a file, where `none` is an exception.
pub record Files : Type 0 where
  pub is_directory : Str → Option Bool
  pub is_regular_file : Str → Option Bool
  pub path_in : Str → Str → Str
  pub absolute : Str → Str
  pub task_options : Str → Str → Option TaskOptions

abbrev pub default_port : Option ℕ → ℕ
default_port none = 8001
default_port (some p) = p

abbrev pub default_sigcount : Option ℕ → ℕ
default_sigcount none = 2
default_sigcount (some n) = n

module _ {D : Type 0} where
  -- What the constructor starts from.
  abbrev pub new_config : Config D
  new_config = record { taskname = []; search_paths = []; task = none; stage = constructed }

  -- `parse_cmdline`, once the options are described; `none` is an exception of the library.
  unfoldable pub parse_cmdline : Option CommandLine → Config D → Config D × Bool
  parse_cmdline none c = (c, false)
  parse_cmdline (some l) c =
      let c' : Config D = record c { taskname = l.taskname; search_paths = l.search_paths } in
      elim l.taskname [
        | [] ↦ (c', false)
        | x ∷ xs ↦ (record c' { stage = main_config_loaded }, true)
      ]

  -- `get_task`; `none` is `no_task`.
  unfoldable pub get_task : Config D → Option (Task D)
  get_task c = c.task

  -- The end of `load_task_config`, with the options of the task: the task is made before its
  -- directory is looked for. `none` is an exception of the file system, which is not caught.
  unfoldable pub make_task : TaskOptions → Option Bool → Config D → Option (Config D × Bool)
  unfolding task
  make_task o dir c = elim o.path [
    | [] ↦ some (c, false)
    | x ∷ xs ↦
        let t = task o.path (default_port o.port) (default_sigcount o.sigcount) o.description in
        let c' : Config D = record c { task = some t } in
        elim dir [
          | none ↦ none
          | some false ↦ some (c', false)
          | some true ↦ some (record c' { stage = task_config_loaded }, true)
        ]
  ]

-- `find_conf_file`: `none` is the empty name.
unfoldable pub find_conf_file : Files → List Str → Option Str
find_conf_file fs [] = none
find_conf_file fs (d ∷ ds) =
    let rest = find_conf_file fs ds in
    let p = fs.path_in d (lit ".kmsconfig") in
    elim (fs.is_directory d) [
      | some true ↦ elim (fs.is_regular_file p) [
        | some true ↦ some (fs.absolute p)
        | some false ↦ rest
        | none ↦ rest
      ]
      | some false ↦ rest
      | none ↦ rest
    ]

module _ {D : Type 0} (fs : Files) where
  -- `load_task_config`
  unfoldable pub load_task_config : Str → Config D → Option (Config D × Bool)
  unfolding make_task
  load_task_config filename c = elim (fs.task_options filename c.taskname) [
    | none ↦ some (c, false)
    | some o ↦ make_task o (fs.is_directory o.path) c
  ]

module _ {N D V F H W : Type 0} ⦃fl : Floats D⦄ (fs : Files) (yaml : Yaml N D)
    (kernel : Kernel N D V W) (sys : System N F H W) (fuel : ℕ) where
  -- The loading of the task that was made.
  unfoldable pub load_task : Config D → W → Option (Config D) × W
  unfolding load
  load_task c w = elim c.task [
    | none ↦ (none, w)
    | some t ↦
        let (r, w') = load yaml kernel fuel sys t w in
        elim r [
          | loaded t' ↦ (some (record c { task = some t'; stage = ready }), w')
          | refused e ↦ (some c, w')
          | crashed ↦ (none, w')
        ]
  ]

  -- What follows the search for the file.
  unfoldable pub configure_from : Option Str → Config D → W → Option (Config D) × W
  unfolding load_task_config load_task
  configure_from none c w = (some c, w)
  configure_from (some conf_file) c w =
      elim (load_task_config fs conf_file (record c { stage = task_path_loaded })) [
        | none ↦ (none, w)
        | some (c', false) ↦ (some c', w)
        | some (c', true) ↦ load_task c' w
      ]

  -- The constructor: `none` is an exception that escapes, or a crash.
  unfoldable pub config : Option CommandLine → W → Option (Config D) × W
  unfolding parse_cmdline find_conf_file configure_from
  config line w =
      let (c, parsed) = parse_cmdline line new_config in
      let paths = lit "." ∷ c.search_paths in
      let found = configure_from (find_conf_file fs paths) (record c { search_paths = paths }) w in
      if parsed then found else (some c, w)

-- `main`: the task whose main block, port and count of signals the dispatcher is made of; `none` is
-- the end with 1.
unfoldable pub task_to_run : {D : Type 0} → Config D → Option (Task D)
unfolding get_task
task_to_run c = elim c.stage [
  | ready ↦ get_task c
  | constructed ↦ none
  | main_config_loaded ↦ none
  | task_path_loaded ↦ none
  | task_config_loaded ↦ none
]
