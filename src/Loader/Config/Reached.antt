-- ===== src/Loader/Config/Reached.antt =====
-- What the command line and the files have to hold for a task to be ready.
use func_sim_engine.Prelude.{
  ◌↔◌, ap, Option-cases, ℕ, ◌≡◌, ◌≢◌, ◌⊎◌, inl, inr, refl, ◌∙◌, Bool, true, false, Option, none,
  some, List, [], ◌∷◌, ◌++◌, Str, lit, All,
}
use func_sim_engine.Param.Real.{Floats}
use func_sim_engine.Loader.{Loading, loaded, refused, crashed}
use func_sim_engine.Loader.Nodes.{Yaml}
use func_sim_engine.Loader.Task.{System, Kernel, Task, task, load}
use func_sim_engine.Loader.Config.{
  Config, TaskOptions, task_path_loaded, task_config_loaded, task_to_run, get_task, Files,
  default_port, default_sigcount, ready, parse_cmdline, find_conf_file, make_task, load_task_config,
  load_task, configure_from, config,
}

-- A directory with no configuration file.
abbrev pub IsBarren : Files → Str → Type 0
IsBarren fs d =
    (fs.is_directory d ≢ some true)
    ⊎ (fs.is_regular_file (fs.path_in d (lit ".kmsconfig")) ≢ some true)

skip_barren :
    (dir file : Option Bool) (found rest : Option Str)
    → (dir ≢ some true) ⊎ (file ≢ some true)
    → (elim dir as (λ x. Option Str) [
      | some true ↦ elim file as (λ x. Option Str) [
        | some true ↦ found
        | some false ↦ rest
        | none ↦ rest
      ]
      | some false ↦ rest
      | none ↦ rest
    ])
      ≡ rest
skip_barren none file found rest h = refl
skip_barren (some false) file found rest h = refl
skip_barren (some true) none found rest h = refl
skip_barren (some true) (some false) found rest h = refl
skip_barren (some true) (some true) found rest (inl n) = absurd (n refl)
skip_barren (some true) (some true) found rest (inr n) = absurd (n refl)

-- A configuration file is that of the first path which is a directory with one, whatever is asked of
-- the others throws.
pub find_conf_file_first :
    (fs : Files) (before : List Str) (d : Str) (after : List Str)
    → All (IsBarren fs) before
    → fs.is_directory d ≡ some true
    → fs.is_regular_file (fs.path_in d (lit ".kmsconfig")) ≡ some true
    → find_conf_file fs (before ++ d ∷ after) ≡ some (fs.absolute (fs.path_in d (lit ".kmsconfig")))
unfolding find_conf_file
find_conf_file_first fs [] d after h i r = rw (i, find_conf_file) (rw r refl)
find_conf_file_first fs (b ∷ bs) d after h i r =
    skip_barren (fs.is_directory b) (fs.is_regular_file (fs.path_in b (lit ".kmsconfig")))
      (some (fs.absolute (fs.path_in b (lit ".kmsconfig")))) (find_conf_file fs (bs ++ d ∷ after))
      h.0
    ∙ find_conf_file_first fs bs d after h.1 i r

not_some : {A : Type 0} (a : A) → ¬ (none ≡ some a)
not_some a h = cc

-- The task that `main` runs after the constructor.
abbrev pub to_run : {D W : Type 0} → Option (Config D) × W → Option (Task D)
to_run (none, w) = none
to_run (some c, w) = task_to_run c

module _ {N D V F H W : Type 0} ⦃fl : Floats D⦄ (fs : Files) (yaml : Yaml N D)
    (kernel : Kernel N D V W) (sys : System N F H W) (fuel : ℕ) where
  abbrev load_it : Str → ℕ → ℕ → Str → W → Loading (Task D)
  load_it path port sigcount description w =
      (load yaml kernel fuel sys (task path port sigcount description) w).0

  -- The task is named, a configuration file is found and has options for it, their path is that of a
  -- directory, and the task that is made of them is loaded.
  abbrev pub IsSetUp : Str → List Str → W → Task D → Type 0
  IsSetUp name paths w t =
      (file : Str) × (o : TaskOptions) × (name ≢ [])
      × (find_conf_file fs (lit "." ∷ paths) ≡ some file)
      × (fs.task_options file name ≡ some o)
      × (o.path ≢ [])
      × (fs.is_directory o.path ≡ some true)
      × (load_it o.path (default_port o.port) (default_sigcount o.sigcount) o.description w
          ≡ loaded t)

  abbrev pub run_of : Str → List Str → W → Option (Task D)
  run_of name paths w =
      to_run
        (config fs yaml kernel sys fuel (some (record { taskname = name; search_paths = paths })) w)

  set_up_runs :
      (name path : Str) (paths : List Str) (file description : Str) (port sigcount : Option ℕ)
      (w : W) (t : Task D)
      → name ≢ []
      → find_conf_file fs (lit "." ∷ paths) ≡ some file
      → fs.task_options file name
        ≡ some (record { path = path; description = description; port = port; sigcount = sigcount })
      → path ≢ []
      → fs.is_directory path ≡ some true
      → load_it path (default_port port) (default_sigcount sigcount) description w ≡ loaded t
      → run_of name paths w ≡ some t
  unfolding config parse_cmdline configure_from load_task_config make_task load_task task_to_run
      get_task
  set_up_runs [] path paths file description port sigcount w t n f e m d l = absurd (n refl)
  set_up_runs (c ∷ cs) [] paths file description port sigcount w t n f e m d l = absurd (m refl)
  set_up_runs (c ∷ cs) (p ∷ ps) paths file description port sigcount w t n f e m d l =
      rw (f, configure_from) (rw (e, load_task_config) (rw (d, make_task) (rw (l, load_task) refl)))

  -- A loading that is run was done.
  loaded_runs :
      (r : Loading (Task D)) (name : Str) (paths : List Str) (t0 t : Task D) (w : W)
      → task_to_run {D = D} (record {
        taskname = name;
        search_paths = paths;
        task = some t0;
        stage = task_config_loaded;
      })
        ≡ none
      → to_run (elim r as (λ r. Option (Config D) × W) [
        | loaded t' ↦ (
          some (record { taskname = name; search_paths = paths; task = some t'; stage = ready }),
          w,
        )
        | refused e ↦ (
          some (record {
            taskname = name;
            search_paths = paths;
            task = some t0;
            stage = task_config_loaded;
          }),
          w,
        )
        | crashed ↦ (none, w)
      ])
        ≡ some t
      → r ≡ loaded t
  unfolding task_to_run get_task
  loaded_runs (loaded t') name paths t0 t w n h = let same : t' ≡ t = cc in ap loaded same
  loaded_runs (refused e) name paths t0 t w n h = absurd cc
  loaded_runs crashed name paths t0 t w n h = absurd cc

  -- What follows the options of a task, once a file is found.
  abbrev after_options : Str → List Str → TaskOptions → W → Option (Config D) × W
  after_options name paths o w =
      let c : Config D = record {
        taskname = name;
        search_paths = paths;
        task = none;
        stage = task_path_loaded;
      } in
      elim (make_task o (fs.is_directory o.path) c) as (λ x. Option (Config D) × W) [
        | none ↦ (none, w)
        | some (c', false) ↦ (some c', w)
        | some (c', true) ↦ load_task fs yaml kernel sys fuel c' w
      ]

  options_found :
      (path description : Str) (port sigcount : Option ℕ) (name : Str) (paths : List Str) (w : W)
      (t : Task D)
      → to_run (
          after_options name paths
            (record { path = path; description = description; port = port; sigcount = sigcount })
            w)
        ≡ some t
      → (path ≢ [])
        × (fs.is_directory path ≡ some true)
        × (load_it path (default_port port) (default_sigcount sigcount) description w ≡ loaded t)
  unfolding make_task load_task task_to_run get_task
  options_found [] description port sigcount name paths w t h = absurd cc
  options_found (p ∷ ps) description port sigcount name paths w t h =
      elim (Option-cases (fs.is_directory (p ∷ ps))) [
        | inl d ↦ absurd (not_some t (rw (d, to_run, after_options, make_task) at h))
        | inr (false, d) ↦ absurd (not_some t (rw (d, to_run, after_options, make_task) at h))
        | inr (true, d) ↦ (
          λ e. cc,
          d,
          loaded_runs _ name paths
              (task (p ∷ ps) (default_port port) (default_sigcount sigcount) description) t
              (load yaml kernel fuel sys
                (task (p ∷ ps) (default_port port) (default_sigcount sigcount) description) w).1
              refl (rw (d, to_run, after_options, make_task) at h),
        )
      ]

  run_of-IsSetUp :
      (name : Str) (paths : List Str) (w : W) (t : Task D)
      → run_of name paths w ≡ some t
      → IsSetUp name paths w t
  unfolding config parse_cmdline configure_from load_task_config make_task load_task task_to_run
      get_task
  run_of-IsSetUp [] paths w t h = absurd cc
  run_of-IsSetUp (c ∷ cs) paths w t h = elim (Option-cases (find_conf_file fs (lit "." ∷ paths))) [
    | inl f ↦ absurd (not_some t (rw (f, configure_from) at h))
    | inr (file, f) ↦ elim (Option-cases (fs.task_options file (c ∷ cs))) [
      | inl e ↦ absurd (not_some t (rw (e, load_task_config) at (rw (f, configure_from) at h)))
      | inr (o, e) ↦
          let h' : to_run (after_options (c ∷ cs) (lit "." ∷ paths) o w) ≡ some t =
            rw (e, load_task_config) at (rw (f, configure_from) at h) in
          let (m, d, l) =
            options_found o.path o.description o.port o.sigcount (c ∷ cs) (lit "." ∷ paths) w t
              h' in
          (file, o, (λ x. cc), f, e, m, d, l)
    ]
  ]

  -- `main` runs a task exactly if the task is set up: named on the command line, with a configuration
  -- file that is found and has options for it, whose path is that of a directory, and loaded. Then it
  -- is the loaded task that is run.
  pub task_to_run_iff :
      (name : Str) (paths : List Str) (w : W) (t : Task D)
      → (run_of name paths w ≡ some t) ↔ IsSetUp name paths w t
  task_to_run_iff name paths w t = (
    run_of-IsSetUp name paths w t,
    λ (file, o, n, f, e, m, d, l).
        set_up_runs name o.path paths file o.description o.port o.sigcount w t n f e m d l,
  )
