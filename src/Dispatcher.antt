-- ===== src/Dispatcher.antt =====
-- process/dispatcher.hpp: the loop that reads instructions and calls the main block.
-- The clock, the reader, the control functions and the main block are an interface on a world; of
-- what is printed, the replies to instructions and the names of blocks with errors are kept. A
-- control function and the main block may throw; the exception leaves the step, and the run with it.
pub mod Printing
pub mod Steps
pub mod Stopping
pub mod Keeping
use func_sim_engine.Prelude.{
  ℕ, zero, suc, ◌+◌, ◌-◌, ◌%◌, ◌^◌, Bool, true, false, not, ◌||◌, Option, none, some, List, [], ◌∷◌,
  ◌++◌, length, ltb, if◌then◌else◌, Str, lit, str_eq,
}
use func_sim_engine.StdMap.{Map, Key, str_key, find, emplace}
use func_sim_engine.Result.{Result, ok, throw, undefined, and_then}
use func_sim_engine.Instruction.{ParseResult}

-- What the dispatcher calls; a control function is known by its name.
pub record Environment (D W : Type 0) : Type 0 where
  pub get_time : W → D
  pub get_process_time : W → D
  pub get_instructions : W → List Str × W
  pub parse : Str → ParseResult
  pub has_control_func : Str → Bool
  pub set_parameter_values : Str → List Str → W → Bool × W
  pub get_parameter_count : Str → W → ℕ
  pub run_func : Str → W → W × Result Str
  pub call_main_block : D → W → W × Result {0} Unit
  pub get_subblocks_with_errors : W → List Str × W
  pub wait_interval : W → W

-- The replies to instructions.
pub data Reply (D : Type 0) : Type 0 where
  stopping : Reply D
  times : D → ℕ → Reply D
  no_control_func : Str → Reply D
  wrong_parameter_count : Str → ℕ → ℕ → Reply D
  result_of : Str → Str → Reply D

-- `_running`, `_steps_total`, `_sig_count`, `_errors`, what was printed, in order, and the world. A
-- count of signals below zero is not told from zero.
pub record Dispatcher (D W : Type 0) : Type 0 where
  pub running : Bool
  pub steps_total : ℕ
  pub sig_count : ℕ
  pub errors : Map Str Unit
  pub replies : List (Reply D)
  pub printed_errors : List Str
  pub world : W

-- The two instructions that end the run.
unfoldable pub is_stop : Str → Bool
is_stop s = str_eq s (lit "краб") || str_eq s (lit "halt")

module _ {D W : Type 0} where
  abbrev pub reply : Reply D → Dispatcher D W → Dispatcher D W
  reply r d = record d { replies = d.replies ++ r ∷ [] }

  -- The loop over the blocks with errors: a name is printed when it is new.
  unfoldable pub print_errors : List Str → Dispatcher D W → Dispatcher D W
  print_errors [] d = d
  print_errors (e ∷ es) d =
      let (errors, fresh) = emplace e tt d.errors in
      print_errors es (record d {
        errors = errors;
        printed_errors = if fresh then d.printed_errors ++ e ∷ [] else d.printed_errors;
      })

  -- `handle_SIGINT_SIGTERM`
  unfoldable pub handle_signal : Dispatcher D W → Dispatcher D W
  handle_signal d =
      let count = d.sig_count - 1 in
      record d { sig_count = count; running = if ltb 0 count then d.running else false }

  unfoldable pub handle_signals : ℕ → Dispatcher D W → Dispatcher D W
  unfolding handle_signal
  handle_signals zero d = d
  handle_signals (suc n) d = handle_signals n (handle_signal d)

module _ {D W : Type 0} where
  -- What a control function leaves: its output is the reply.
  unfoldable pub ran : Str → Result Str → Dispatcher D W → Dispatcher D W × Result {0} Unit
  ran name (ok output) d = (reply (result_of name output) d, ok tt)
  ran name (throw e) d = (d, throw e)
  ran name undefined d = (d, undefined)

module _ {D W : Type 0} (env : Environment D W) where
  -- The last branch: a control function with its parameters.
  unfoldable pub run_control_func : ParseResult → Dispatcher D W → Dispatcher D W × Result {0} Unit
  unfolding ran
  run_control_func res d =
      let (accepted, w) = env.set_parameter_values res.name res.param d.world in
      let (w', output) = env.run_func res.name w in
      if env.has_control_func res.name
      then (if accepted then ran res.name output (record d { world = w' }) else (
        reply
            (wrong_parameter_count res.name (length res.param) (env.get_parameter_count res.name w))
            (record d { world = w }),
        ok tt,
      ))
      else (reply (no_control_func res.name) d, ok tt)

  -- One instruction.
  unfoldable pub execute : Str → Dispatcher D W → Dispatcher D W × Result {0} Unit
  unfolding is_stop run_control_func
  execute s d =
      if is_stop s
      then (reply stopping (record d { running = false }), ok tt)
      else if str_eq s (lit "инфраб")
      then (reply (times (env.get_process_time d.world) d.steps_total) d, ok tt)
      else run_control_func (env.parse s) d

  unfoldable pub execute_all : List Str → Dispatcher D W → Dispatcher D W × Result {0} Unit
  unfolding execute
  execute_all [] d = (d, ok tt)
  execute_all (s ∷ ss) d = and_then (execute s d) (λ u d'. execute_all ss d')

  -- `( *_main_block )( time )`
  abbrev pub call_block : D → Dispatcher D W → Dispatcher D W × Result {0} Unit
  call_block time d = let (w, r) = env.call_main_block time d.world in (record d { world = w }, r)

  -- `make_step` up to the call of the main block.
  unfoldable pub work : Dispatcher D W → Dispatcher D W × Result {0} Unit
  unfolding execute_all
  work d =
      let time = env.get_time d.world in
      let (instr, w) = env.get_instructions d.world in
      and_then (execute_all instr (record d { world = w })) (λ u d1. call_block time d1)

  -- `make_step` after the call of the main block.
  unfoldable pub finish_step : Dispatcher D W → Dispatcher D W
  unfolding print_errors
  finish_step d =
      let (es, w) = env.get_subblocks_with_errors d.world in
      let d' = print_errors es (record d { world = w }) in
      record d' { steps_total = (d'.steps_total + 1) % 2 ^ 32 }

  -- `make_step`
  unfoldable pub make_step : Dispatcher D W → Dispatcher D W × Result {0} Unit
  unfolding work finish_step
  make_step d = and_then (work d) (λ u d'. (finish_step d', ok tt))

  -- `run_once`
  unfoldable pub run_once : Dispatcher D W → Dispatcher D W × Result {0} Unit
  unfolding make_step
  run_once d =
      and_then (make_step d) (λ u d'. (record d' { world = env.wait_interval d'.world }, ok tt))

  -- `run_steps`
  unfoldable pub run_steps : ℕ → Dispatcher D W → Dispatcher D W × Result {0} Unit
  unfolding run_once
  run_steps zero d = (d, ok tt)
  run_steps (suc n) d = and_then (run_once d) (λ u d'. run_steps n d')

  -- An exception ends the loop of `run`.
  abbrev pub go_on :
      (Dispatcher D W → Option (Dispatcher D W × Result {0} Unit))
      → Dispatcher D W × Result {0} Unit
      → Option (Dispatcher D W × Result {0} Unit)
  go_on k (d, ok u) = k d
  go_on k (d, throw e) = some (d, throw e)
  go_on k (d, undefined) = some (d, undefined)

  -- The loop of `run`, on fuel: `none` if it is still running.
  unfoldable pub run_loop : ℕ → Dispatcher D W → Option (Dispatcher D W × Result {0} Unit)
  unfolding run_once
  run_loop zero d = none
  run_loop (suc n) d = elim d.running [
    | false ↦ some (d, ok tt)
    | true ↦ go_on (λ d'. run_loop n d') (run_once d)
  ]

  -- `run`
  unfoldable pub run : ℕ → Dispatcher D W → Option (Dispatcher D W × Result {0} Unit)
  unfolding run_loop
  run fuel d = run_loop fuel (record d { running = true })
