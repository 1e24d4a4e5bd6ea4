-- ===== src/Examples/Steps.antt =====
-- Runs of the theorems on the dispatcher: a world that gives the same instructions and the same
-- errors in every step, counts the calls of its main block, and throws in the fourth of them.
use func_sim_engine.Prelude.{
  ltb, if◌then◌else◌, ℕ, suc, ◌≡◌, refl, true, some, List, [], ◌∷◌, Str, lit, str_eq,
}
use func_sim_engine.StdMap.{str_key, find}
use func_sim_engine.Instruction.{no_error}
use func_sim_engine.Result.{ok, throw, out_of_range}
use func_sim_engine.Dispatcher.{Environment, Dispatcher, is_stop, run_steps, run_once, run}
use func_sim_engine.Dispatcher.Stopping.{has_stop, run-stop}
use func_sim_engine.Dispatcher.Printing.{IsPrinted, Told}
use func_sim_engine.Dispatcher.Steps.{reports, run_steps-IsPrinted}

abbrev environment : List Str → Environment ℕ ℕ
environment instr = record {
  get_time = λ w. w;
  get_process_time = λ w. w;
  get_instructions = λ w. (instr, w);
  parse = λ s. record { name = s; param = []; error_code = no_error };
  has_control_func = λ s. true;
  set_parameter_values = λ s ps w. (true, w);
  get_parameter_count = λ s w. 0;
  run_func = λ s w. (w, ok s);
  call_main_block = λ t w. (suc w, if ltb t 3 then ok tt else throw out_of_range);
  get_subblocks_with_errors = λ w. (lit "pump" ∷ lit "valve" ∷ lit "pump" ∷ [], w);
  wait_interval = λ w. w;
}

-- The dispatcher before its first step.
abbrev start : Dispatcher ℕ ℕ
start = record {
  running = true;
  steps_total = 0;
  sig_count = 3;
  errors = [];
  replies = [];
  printed_errors = [];
  world = 0;
}

start-IsPrinted : IsPrinted start
unfolding find
start-IsPrinted = record { same = λ k. refl; distinct = tt }

run_steps-IsPrinted_example :
    Told
      (reports (environment (lit "get" ∷ [])) 5 start)
      start
      (run_steps (environment (lit "get" ∷ [])) 5 start).0
run_steps-IsPrinted_example =
    run_steps-IsPrinted (environment (lit "get" ∷ [])) 5 start start-IsPrinted

halted : has_stop (lit "get" ∷ lit "halt" ∷ []) ≡ true
unfolding is_stop str_eq
halted = refl

run-stop_example :
    run (environment (lit "get" ∷ lit "halt" ∷ [])) 2 start
    ≡ some (run_once (environment (lit "get" ∷ lit "halt" ∷ [])) (record start { running = true }))
run-stop_example = run-stop (environment (lit "get" ∷ lit "halt" ∷ [])) 0 start halted
