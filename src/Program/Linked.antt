-- ===== src/Program/Linked.antt =====
-- From the command line to any step of the run, the blocks of the main block stay linked.
use func_sim_engine.Prelude.{
  ℕ, ◌≡◌, refl, subst, Option, some, List, [], ◌∷◌, Str, Option-cases, inl, inr, arith,
}
use func_sim_engine.StdMap.{str_key, find}
use func_sim_engine.Result.{Result, ok, throw, undefined, Returns}
use func_sim_engine.Param.Real.{Floats}
use func_sim_engine.Command
use func_sim_engine.Command.Linked.{AnswersDeep, run-Deep}
use func_sim_engine.Block.{get_subblocks_with_errors}
use func_sim_engine.Tree.{Tree, Site, site}
use func_sim_engine.Tree.Linked.{known, Deep, set_block-Fits}
use func_sim_engine.Tree.Linked.Calls.{call-Fits}
use func_sim_engine.Tree.Calling.Growth.{kept-Grows}
use func_sim_engine.Dispatcher.{Dispatcher, run_steps}
use func_sim_engine.Dispatcher.Keeping.{IsKept, run_steps_keeps}
use func_sim_engine.Loader.{loaded}
use func_sim_engine.Loader.Nodes.{Yaml}
use func_sim_engine.Loader.Task.{System, Kernel, Task}
use func_sim_engine.Loader.Config.{Config, CommandLine, Files, config, task_to_run}
use func_sim_engine.Loader.Config.Ready.{IsWhole, task_to_run-IsWhole}
use func_sim_engine.Program.{
  World, Parts, set_values, answered, run_control, call_main, take_errors, wait, take_instructions,
  environment, new_dispatcher, dispatcher_of,
}

module _ {D W : Type 0} where
  -- The main block of a world is linked with the blocks below it, at every depth.
  abbrev pub IsSound : World D W → Type 0
  IsSound w = Deep w.main_block

module _ {D W : Type 0} ⦃fl : Floats D⦄ (p : Parts D W) where
  set_values-IsSound :
      (name : Str) (ps : List Str) (w : World D W) → IsSound w → IsSound (set_values p name ps w).1
  unfolding set_values
  set_values-IsSound name ps w h = elim (Option-cases (find name w.funcs)) [
    | inl e ↦ rw (e, set_values) h
    | inr ((c, f), e) ↦ rw (e, set_values) h
  ]

  answered-IsSound :
      (r : Result (Tree D × Str)) (w : World D W)
      → IsSound w
      → Returns AnswersDeep r
      → IsSound (answered p r w).0
  unfolding answered
  answered-IsSound (ok (t, said)) w h k = k
  answered-IsSound (throw e) w h k = h
  answered-IsSound undefined w h k = h

  run_control-IsSound : (name : Str) (w : World D W) → IsSound w → IsSound (run_control p name w).0
  unfolding run_control
  run_control-IsSound name w h = elim (Option-cases (find name w.funcs)) [
    | inl e ↦ rw (e, run_control) h
    | inr ((c, f), e) ↦
        rw (e, run_control)
          (answered-IsSound (Command.run p.show c f w.main_block) w h
            (run-Deep p.show c f w.main_block h))
  ]

  call_main-IsSound : (time : D) (w : World D W) → IsSound w → IsSound (call_main p time w).0
  unfolding call_main
  call_main-IsSound time w h = (call-Fits known p.machine w.main_block time [] [] w.system h).0

  take_errors-IsSound : (w : World D W) → IsSound w → IsSound (take_errors p w).1
  unfolding take_errors get_subblocks_with_errors
  take_errors-IsSound w h =
      let b = (site w.main_block).block in
      (set_block-Fits known b.use_vars (record b { err_blocks = [] }) w.main_block
        (kept-Grows b b.power_prev_step [] b.errors b.log) (h, refl)).0

  take_instructions-IsSound :
      (inbox : List (List Str)) (w : World D W)
      → IsSound w
      → IsSound (take_instructions p inbox w).1
  unfolding take_instructions
  take_instructions-IsSound [] w h = h
  take_instructions-IsSound (ss ∷ rest) w h = h

  environment-IsKept : IsKept (environment p) IsSound
  unfolding environment wait
  environment-IsKept = record {
    instructions = λ w h. take_instructions-IsSound w.inbox w h;
    parameters = λ s ps w h. set_values-IsSound s ps w h;
    functions = λ s w h. run_control-IsSound s w h;
    calls = λ time w h. call_main-IsSound time w h;
    errors = λ w h. take_errors-IsSound w h;
    waits = λ w h. h;
  }

  -- Any number of steps of the dispatcher, whatever instructions come and whatever is called, leaves
  -- a linked main block linked.
  pub run_steps-IsSound :
      (n : ℕ) (d : Dispatcher D (World D W))
      → IsSound d.world
      → IsSound (run_steps (environment p) n d).0.world
  run_steps-IsSound = run_steps_keeps (environment p) IsSound environment-IsKept

  -- The run starts from a linked main block.
  dispatcher-IsSound :
      (micros : D → ℕ) (c : Config D) (inbox : List (List Str)) (w : W)
      (d : Dispatcher D (World D W))
      → ((t : Task D) → task_to_run c ≡ some t → IsWhole t)
      → dispatcher_of p micros c inbox w ≡ some d
      → IsSound d.world
  unfolding dispatcher_of new_dispatcher
  dispatcher-IsSound micros c inbox w d whole e = elim (Option-cases (task_to_run c)) [
    | inl n ↦ absurd (ground (arith, rw (n, dispatcher_of) at e))
    | inr (t, n) ↦
        let (b, m, fresh) = whole t n in
        let same : some (new_dispatcher p b (micros (site b).period) t.sigcount inbox w) ≡ some d =
          rw m at (rw (n, dispatcher_of) at e) in
        let same' : new_dispatcher p b (micros (site b).period) t.sigcount inbox w ≡ d = cc in
        subst (λ x. IsSound x.world) same' fresh.0
  ]

  module _ {N V F H U : Type 0} (files : Files) (yaml : Yaml N D) (kernel : Kernel N D V U)
      (sys : System N F H U) (fuel : ℕ)
      (keeps : (v : U) (n : N) (c : Option ℕ) (s s' : Site D)
        → (kernel.classes v n).join c s ≡ loaded s'
        → s'.block ≡ s.block) where
    -- If the joining of a class leaves the variables of a block alone, then for whatever command
    -- line, files and libraries the program starts its run, in any number of steps, whatever
    -- instructions come, whatever the functions do and whether an exception ends the steps or not, the
    -- main block and every block below it is wired and has every variable that one of its children uses.
    pub program-Deep :
        (line : Option CommandLine) (u : U) (c : Config D) (micros : D → ℕ)
        (inbox : List (List Str)) (w : W) (d : Dispatcher D (World D W)) (n : ℕ)
        → (config files yaml kernel sys fuel line u).0 ≡ some c
        → dispatcher_of p micros c inbox w ≡ some d
        → IsSound (run_steps (environment p) n d).0.world
    program-Deep line u c micros inbox w d n e f = run_steps-IsSound n d (
        dispatcher-IsSound micros c inbox w d
          (λ t g. task_to_run-IsWhole yaml kernel fuel keeps sys files line u c t e g) f)
