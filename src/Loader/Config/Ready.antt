-- ===== src/Loader/Config/Ready.antt =====
-- What a run of the program starts from: a task whose main block is whole.
use func_sim_engine.Prelude.{
  ℕ, ◌≡◌, refl, subst, Bool, true, false, Option, none, some, [], ◌∷◌, Str, lit, arith,
  Option-cases, inl, inr,
}
use func_sim_engine.Param.Real.{Floats}
use func_sim_engine.Tree.{Tree, Site, site}
use func_sim_engine.Loader.{Loading, loaded, refused, crashed, set_name}
use func_sim_engine.Loader.Assembly.{Gives, Gives-bind, set_site-Child}
use func_sim_engine.Loader.Assembly.Uses.{Fresh}
use func_sim_engine.Loader.Nodes.{Yaml, map_node, read_n_validate}
use func_sim_engine.Loader.Nodes.Blocks.{decode_block}
use func_sim_engine.Loader.Nodes.Blocks.Linked.{Gives-skip, read_option-Gives, decode_block-Fresh}
use func_sim_engine.Loader.Task.{
  System, Kernel, Task, task, escapes, load_libraries, decode_libraries, load_main_block,
  load_structure, load_config, load,
}
use func_sim_engine.Loader.Config.{
  Config, CommandLine, Files, TaskOptions, Stage, constructed, main_config_loaded, task_path_loaded,
  task_config_loaded, ready, parse_cmdline, find_conf_file, make_task, load_task_config, load_task,
  configure_from, config, get_task, task_to_run,
}

module _ {D : Type 0} ⦃fl : Floats D⦄ where
  -- A task with a main block that is linked at every depth.
  abbrev pub IsWhole : Task D → Type 0
  IsWhole t = (b : Tree D) × (t.main_block ≡ some b) × Fresh b

  -- A task, if there is one, that has no main block yet.
  abbrev pub IsEmpty : Option (Task D) → Type 0
  IsEmpty none = Unit
  IsEmpty (some t) = t.main_block ≡ none

  -- What holds at a stage.
  abbrev pub Holds : Stage → Option (Task D) → Type 0
  Holds ready none = ⊥
  Holds ready (some t) = IsWhole t
  Holds constructed o = o ≡ none
  Holds main_config_loaded o = o ≡ none
  Holds task_path_loaded o = IsEmpty o
  Holds task_config_loaded none = ⊥
  Holds task_config_loaded (some t) = t.main_block ≡ none

  abbrev pub HoldsFor : Option (Config D) → Type 0
  HoldsFor none = Unit
  HoldsFor (some c) = Holds c.stage c.task

  ready_task :
      (s : Stage) (o : Option (Task D)) (t : Task D)
      → Holds s o
      → (elim s as (λ s. Option (Task D)) [
        | ready ↦ o
        | constructed ↦ none
        | main_config_loaded ↦ none
        | task_path_loaded ↦ none
        | task_config_loaded ↦ none
      ])
        ≡ some t
      → IsWhole t
  ready_task ready none t h e = absurd h
  ready_task ready (some u) t h e = let same : u ≡ t = cc in subst IsWhole same h
  ready_task constructed o t h e = absurd (ground (arith, e))
  ready_task main_config_loaded o t h e = absurd (ground (arith, e))
  ready_task task_path_loaded o t h e = absurd (ground (arith, e))
  ready_task task_config_loaded o t h e = absurd (ground (arith, e))

  -- The same of what `load_task_config` leaves.
  abbrev MadeHolds : Option (Config D × Bool) → Type 0
  MadeHolds none = Unit
  MadeHolds (some x) = Holds x.0.stage x.0.task

  make_task-Holds :
      (o : TaskOptions) (dir : Option Bool) (c : Config D)
      → c.task ≡ none
      → c.stage ≡ task_path_loaded
      → MadeHolds (make_task o dir c)
  unfolding make_task task
  make_task-Holds o dir c e s =
      elim o.path as (λ p. MadeHolds (make_task (record o { path = p }) dir c)) [
        | [] ↦ rw (s, e) tt
        | x ∷ xs ↦ elim dir as (λ d. MadeHolds (make_task (record o { path = x ∷ xs }) d c)) [
          | none ↦ tt
          | some false ↦ rw s refl
          | some true ↦ refl
        ]
      ]

  load_task_config-Holds :
      (fs : Files) (file : Str) (c : Config D)
      → c.task ≡ none
      → c.stage ≡ task_path_loaded
      → MadeHolds (load_task_config fs file c)
  unfolding load_task_config
  load_task_config-Holds fs file c e s = elim (Option-cases (fs.task_options file c.taskname)) [
    | inl n ↦ rw (n, load_task_config) (rw (s, e) tt)
    | inr (o, n) ↦ rw (n, load_task_config) (make_task-Holds o (fs.is_directory o.path) c e s)
  ]

module _ {N D V W : Type 0} ⦃fl : Floats D⦄ (yaml : Yaml N D) (kernel : Kernel N D V W) (fuel : ℕ)
    (keeps : (v : W) (n : N) (c : Option ℕ) (s s' : Site D)
      → (kernel.classes v n).join c s ≡ loaded s'
      → s'.block ≡ s.block) where
  load_main_block-Fresh : (root : N) (w : W) → Gives Fresh (load_main_block yaml kernel fuel root w)
  unfolding load_main_block read_n_validate
  load_main_block-Fresh root w = Gives-skip Fresh (escapes (yaml.entry root (lit "задача"))) _ (λ o.
      Gives-bind Fresh Fresh
        (read_n_validate yaml o (lit "задача") map_node
          (decode_block yaml (kernel.classes w) (kernel.storage w) (kernel.start w) fuel))
        _
        (read_option-Gives yaml Fresh o (lit "задача") map_node _ (
          decode_block-Fresh yaml (kernel.classes w) (kernel.storage w) (kernel.start w) (keeps w)
            fuel))
        (λ t h. set_site-Child (λ s. ⊥) (set_name (lit "задача") (site t).callable) t h))

  load_structure-IsWhole :
      (root : N) (t : Task D) (r : Bool × W)
      → Gives IsWhole (load_structure yaml kernel fuel root t r).0
  unfolding load_structure
  load_structure-IsWhole root t (false, w) = tt
  load_structure-IsWhole root t (true, w) =
      Gives-bind Fresh IsWhole (load_main_block yaml kernel fuel root w) _
        (load_main_block-Fresh root w) (λ b h. (b, refl, h))

  module _ {F H : Type 0} (sys : System N F H W) where
    load_config-IsWhole :
        (root : N) (t : Task D) (w : W)
        → Gives IsWhole (load_config yaml kernel fuel sys root t w).0
    unfolding load_config
    load_config-IsWhole root t w =
        elim (decode_libraries yaml root)
          as (λ r.
            Gives IsWhole
              (elim r as (λ r. Loading (Task D) × W) [
                | loaded ls ↦ load_structure yaml kernel fuel root t (load_libraries sys ls w)
                | refused e ↦ (refused e, w)
                | crashed ↦ (crashed, w)
              ]).0) [
                | loaded ls ↦ load_structure-IsWhole root t (load_libraries sys ls w)
                | refused e ↦ tt
                | crashed ↦ tt
              ]

    load-IsWhole : (t : Task D) (w : W) → Gives IsWhole (load yaml kernel fuel sys t w).0
    unfolding load
    load-IsWhole t w = elim (Option-cases (sys.load_file (sys.file_in t.path (lit "config.yml")))) [
      | inl e ↦ rw (e, load) tt
      | inr (n, e) ↦ rw (e, load) (load_config-IsWhole n t (kernel.add_std_block_classes w))
    ]

    loaded_task :
        (c : Config D) (r : Loading (Task D)) (w : W)
        → Gives IsWhole r
        → Holds c.stage c.task
        → HoldsFor
            (elim r as (λ r. Option (Config D) × W) [
              | loaded t' ↦ (some (record c { task = some t'; stage = ready }), w)
              | refused e ↦ (some c, w)
              | crashed ↦ (none, w)
            ]).0
    loaded_task c (loaded t') w h k = h
    loaded_task c (refused e) w h k = k
    loaded_task c crashed w h k = tt

    load_task-Holds :
        (fs : Files) (o : Option (Task D)) (c : Config D) (w : W)
        → c.task ≡ o
        → Holds c.stage c.task
        → HoldsFor (load_task fs yaml kernel sys fuel c w).0
    unfolding load_task
    load_task-Holds fs none c w e h = rw (e, load_task) tt
    load_task-Holds fs (some t) c w e h =
        rw (e, load_task)
          (loaded_task c (load yaml kernel fuel sys t w).0 (load yaml kernel fuel sys t w).1
            (load-IsWhole t w) h)

    configured :
        (fs : Files) (r : Option (Config D × Bool)) (w : W)
        → MadeHolds r
        → HoldsFor
            (elim r as (λ r. Option (Config D) × W) [
              | none ↦ (none, w)
              | some (c', false) ↦ (some c', w)
              | some (c', true) ↦ load_task fs yaml kernel sys fuel c' w
            ]).0
    configured fs none w h = tt
    configured fs (some (c', false)) w h = h
    configured fs (some (c', true)) w h = load_task-Holds fs c'.task c' w refl h

    configure_from-Holds :
        (fs : Files) (o : Option Str) (c : Config D) (w : W)
        → c.task ≡ none
        → c.stage ≡ main_config_loaded
        → HoldsFor (configure_from fs yaml kernel sys fuel o c w).0
    unfolding configure_from
    configure_from-Holds fs none c w e s = rw (s, e) refl
    configure_from-Holds fs (some file) c w e s =
        configured fs (load_task_config fs file (record c { stage = task_path_loaded })) w
          (load_task_config-Holds fs file (record c { stage = task_path_loaded }) e refl)

    -- If the joining of a class leaves the variables of a block alone, then whatever the command line,
    -- the files and the libraries hold, where the constructor ends without an exception: at the stage
    -- `ready` there is a task whose main block is loaded and linked with its children at every depth,
    -- after the load of the options a task with no main block, and before that no task at all, or one
    -- with no main block.
    pub config-Holds :
        (fs : Files) (line : Option CommandLine) (w : W)
        → HoldsFor (config fs yaml kernel sys fuel line w).0
    unfolding config parse_cmdline
    config-Holds fs none w = refl
    config-Holds fs (some l) w =
        elim l.taskname
          as (λ n.
            HoldsFor (config fs yaml kernel sys fuel (some (record l { taskname = n })) w).0) [
              | [] ↦ refl
              | x ∷ xs ↦
                  let paths = lit "." ∷ l.search_paths in
                  let c : Config D = record {
                    taskname = x ∷ xs;
                    search_paths = paths;
                    task = none;
                    stage = main_config_loaded;
                  } in
                  configure_from-Holds fs (find_conf_file fs paths) c w refl refl
            ]

    -- So what `main` hands to the dispatcher, if anything, is a task with such a main block.
    pub task_to_run-IsWhole :
        (fs : Files) (line : Option CommandLine) (w : W) (c : Config D) (t : Task D)
        → (config fs yaml kernel sys fuel line w).0 ≡ some c
        → task_to_run c ≡ some t
        → IsWhole t
    unfolding task_to_run get_task
    task_to_run-IsWhole fs line w c t e r =
        let h = subst HoldsFor e (config-Holds fs line w) in ready_task c.stage c.task t h r
