-- ===== src/Program.antt =====
-- main.cpp and process/dispatcher.hpp: the whole program, the dispatcher over the clock, the queue of
-- instructions, the control functions and the main block of a task. Control functions of libraries
-- are left out.
pub mod Linked
use func_sim_engine.Prelude.{
  ℕ, Bool, true, false, Option, none, some, List, [], ◌∷◌, Str, is_some, map, if◌then◌else◌,
}
use func_sim_engine.StdMap.{Map, str_key, find, insert}
use func_sim_engine.Result.{Result, ok, throw, undefined, ◌>>=◌}
use func_sim_engine.Param.Real.{Floats}
use func_sim_engine.Clock
use func_sim_engine.Clock.{BoostClock, Span, boost_clock}
use func_sim_engine.Control.{ControlFunc}
use func_sim_engine.Control
use func_sim_engine.Command.{Command, construct, standard_funcs}
use func_sim_engine.Command
use func_sim_engine.Instruction.{ParseResult}
use func_sim_engine.Block.{get_subblocks_with_errors}
use func_sim_engine.Tree.{Tree, site}
use func_sim_engine.Tree.Power.{set_block}
use func_sim_engine.Tree.Calling.{Machine, call}
use func_sim_engine.Dispatcher.{Environment, Dispatcher, run}
use func_sim_engine.Loader.Task.{Task}
use func_sim_engine.Loader.Config.{Config, task_to_run}

-- `_main_block`, the storage of control functions, `_clock`, what `_ir` gives at each step, in turn,
-- and the world of functions and classes.
pub record World (D W : Type 0) : Type 0 where
  pub main_block : Tree D
  pub funcs : Map Str (Command × ControlFunc D)
  pub clock : BoostClock
  pub inbox : List (List Str)
  pub system : W

abbrev names : Map Str Unit → List Str
names m = map (λ e. e.0) m

-- What the program is given: the text of a priority, seconds of a duration, the machine that calls
-- blocks, and the parser of instructions.
pub record Parts (D W : Type 0) : Type 0 where
  pub show : D → Str
  pub seconds : Span → D
  pub machine : Machine D W
  pub parse : Str → ParseResult

module _ {D W : Type 0} ⦃fl : Floats D⦄ (p : Parts D W) where
  abbrev now : W → ℕ
  now w = (p.machine.clock.universal_time w).0

  -- `set_parameter_values` of the function of a name.
  unfoldable pub set_values : Str → List Str → World D W → Bool × World D W
  set_values name ps w = elim (find name w.funcs) [
    | none ↦ (false, w)
    | some (c, f) ↦
        let (f', accepted) = Control.set_parameter_values ps f in
        (accepted, record w { funcs = insert name (c, f') w.funcs })
  ]

  -- What a control function leaves.
  unfoldable pub answered : Result (Tree D × Str) → World D W → World D W × Result Str
  answered (ok (t, said)) w = (record w { main_block = t }, ok said)
  answered (throw e) w = (w, throw e)
  answered undefined w = (w, undefined)

  -- `func_p->run( _main_block )`
  unfoldable pub run_control : Str → World D W → World D W × Result Str
  unfolding answered
  run_control name w = elim (find name w.funcs) [
    | none ↦ (w, ok [])
    | some (c, f) ↦ answered (Command.run p.show c f w.main_block) w
  ]

  -- `( *_main_block )( time )`; what it returns is not used.
  unfoldable pub call_main : D → World D W → World D W × Result {0} Unit
  unfolding call
  call_main time w =
      let ((t, system), r) = call p.machine w.main_block time [] [] w.system in
      (record w { main_block = t; system = system }, r >>= λ res. ok tt)

  -- `_main_block->get_subblocks_with_errors()`
  unfoldable pub take_errors : World D W → List Str × World D W
  unfolding get_subblocks_with_errors
  take_errors w =
      let (b, es) = get_subblocks_with_errors (site w.main_block).block in
      (names es, record w { main_block = set_block b w.main_block })

  -- `_clock.wait_interval()`
  unfoldable pub wait : World D W → World D W
  wait w =
      let (t, system) = p.machine.clock.universal_time w.system in
      record w { clock = (Clock.wait_interval w.clock t).0; system = system }

  -- `_ir.get_instructions()`
  unfoldable pub take_instructions : List (List Str) → World D W → List Str × World D W
  take_instructions [] w = ([], w)
  take_instructions (ss ∷ rest) w = (ss, record w { inbox = rest })

  -- The parts of the dispatcher.
  unfoldable pub environment : Environment D (World D W)
  unfolding set_values run_control call_main take_errors wait take_instructions
  environment = record {
    get_time = λ w. p.seconds (Clock.get_time w.clock (now w.system));
    get_process_time = λ w. p.seconds (Clock.get_process_time w.clock);
    get_instructions = λ w. take_instructions w.inbox w;
    parse = p.parse;
    has_control_func = λ name. is_some (find name standard_funcs);
    set_parameter_values = λ name ps w. set_values name ps w;
    get_parameter_count = λ name w. elim (find name w.funcs) [
      | none ↦ 0
      | some (c, f) ↦ Control.get_parameter_count f
    ];
    run_func = λ name w. run_control name w;
    call_main_block = λ time w. call_main time w;
    get_subblocks_with_errors = λ w. take_errors w;
    wait_interval = λ w. wait w;
  }

  -- The standard control functions, with no values for their parameters.
  abbrev new_funcs : Map Str Command → Map Str (Command × ControlFunc D)
  new_funcs [] = []
  new_funcs ((name, c) ∷ m) = (name, (c, construct c)) ∷ new_funcs m

  -- The constructor of the dispatcher, for a main block and its period in microseconds.
  unfoldable pub new_dispatcher : Tree D → ℕ → ℕ → List (List Str) → W → Dispatcher D (World D W)
  unfolding boost_clock standard_funcs construct
  new_dispatcher b period sigcount inbox w = record {
    running = false;
    steps_total = 0;
    sig_count = sigcount;
    errors = [];
    replies = [];
    printed_errors = [];
    world = record {
      main_block = b;
      funcs = new_funcs standard_funcs;
      clock = boost_clock period (now w);
      inbox = inbox;
      system = w;
    };
  }

  -- `main`, with a period of the main block in microseconds: `none` is the end with 1.
  unfoldable pub dispatcher_of :
      (D → ℕ) → Config D → List (List Str) → W → Option (Dispatcher D (World D W))
  unfolding task_to_run new_dispatcher
  dispatcher_of micros c inbox w = elim (task_to_run c) [
    | none ↦ none
    | some t ↦ elim t.main_block [
      | none ↦ none
      | some b ↦ some (new_dispatcher b (micros (site b).period) t.sigcount inbox w)
    ]
  ]
