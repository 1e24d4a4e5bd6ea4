-- ===== src/Dispatcher/Stopping.antt =====
-- What ends the run.
use func_sim_engine.Prelude.{
  ℕ, zero, suc, ◌<◌, ◌≡◌, refl, ap, ◌∙◌, Bool, true, false, not, ◌&&◌, ◌||◌, some, List, [], ◌∷◌,
  arith, ltb, Str,
}
use func_sim_engine.Result.{Result, ok, throw, undefined, and_then, Done, Done-mono, and_then-Done}
use func_sim_engine.Dispatcher.{
  Environment, Dispatcher, handle_signal, handle_signals, is_stop, execute, execute_all,
  run_control_func, ran, print_errors, work, finish_step, make_step, run_once, go_on, run_loop, run,
}

abbrev pub has_stop : List Str → Bool
has_stop [] = false
has_stop (s ∷ ss) = is_stop s || has_stop ss

module _ {D W : Type 0} where
  handle_signals-stopped :
      (n : ℕ) (d : Dispatcher D W) → d.running ≡ false → (handle_signals n d).running ≡ false
  unfolding handle_signals handle_signal
  handle_signals-stopped zero d h = h
  handle_signals-stopped (suc n) d h = handle_signals-stopped n (handle_signal d) (ground arith)

  -- Of `n` signals, one at least, the run goes on through all of them exactly if they are fewer
  -- than the count that the dispatcher was made with; the last one of that count ends it.
  pub handle_signals-running :
      (n : ℕ) (d : Dispatcher D W)
      → 0 < n
      → (handle_signals n d).running ≡ (ltb n d.sig_count && d.running)
  unfolding handle_signals handle_signal
  handle_signals-running zero d h = absurd (omega arith)
  handle_signals-running (suc zero) d h = ground arith
  handle_signals-running (suc (suc n)) d h =
      ground (arith, handle_signals-running (suc n) (handle_signal d) (omega arith))

  print_errors-running :
      (es : List Str) (d : Dispatcher D W) → (print_errors es d).running ≡ d.running
  unfolding print_errors
  print_errors-running [] d = refl
  print_errors-running (e ∷ es) d = print_errors-running es _

  ran-running :
      (name : Str) (r : Result Str) (d : Dispatcher D W) → (ran name r d).0.running ≡ d.running
  unfolding ran
  ran-running name (ok output) d = refl
  ran-running name (throw e) d = refl
  ran-running name undefined d = refl

module _ {D W : Type 0} (env : Environment D W) where
  execute-running :
      (s : Str) (d : Dispatcher D W) → (execute env s d).0.running ≡ (d.running && not (is_stop s))
  unfolding execute run_control_func
  execute-running s d =
      let res = env.parse s in
      let set = env.set_parameter_values res.name res.param d.world in
      let (w', output) = env.run_func res.name set.1 in
      ground (arith, ran-running res.name output (record d { world = w' }))

  -- Whether the run goes on after the instructions `ss`, if they return.
  abbrev GoesOn : List Str → Dispatcher D W → Dispatcher D W → Type 0
  GoesOn ss d d' = d'.running ≡ (d.running && not (has_stop ss))

  execute_all-running :
      (ss : List Str) (d : Dispatcher D W) → Done (GoesOn ss d) (execute_all env ss d)
  unfolding execute_all
  execute_all-running [] d = ground arith
  execute_all-running (s ∷ ss) d =
      after (execute env s d) (execute-running s d) (λ d'. execute_all-running ss d')
    where
      after :
          (x : Dispatcher D W × Result {0} Unit)
          → x.0.running ≡ (d.running && not (is_stop s))
          → ((d' : Dispatcher D W) → Done (GoesOn ss d') (execute_all env ss d'))
          → Done (GoesOn (s ∷ ss) d) (and_then x (λ u d'. execute_all env ss d'))
      after (d', ok u) h rest =
          Done-mono (GoesOn ss d') (GoesOn (s ∷ ss) d) (execute_all env ss d') (λ e k. ground arith)
            (rest d')
      after (d', throw e) h rest = tt
      after (d', undefined) h rest = tt

  -- A step that returns leaves the dispatcher running exactly if it was running and no instruction
  -- of the step is one of the two that end the run.
  pub run_once-running :
      (d : Dispatcher D W) → Done (GoesOn (env.get_instructions d.world).0 d) (run_once env d)
  unfolding run_once make_step work finish_step
  run_once-running d =
      let (instr, w) = env.get_instructions d.world in
      let P : Dispatcher D W → Type 0 = GoesOn instr d in
      and_then-Done P P (make_step env d) _
        (and_then-Done P P (work env d) _
          (and_then-Done P P (execute_all env instr (record d { world = w })) _
            (execute_all-running instr (record d { world = w }))
            (λ u d1 h.
              called (env.call_main_block (env.get_time d.world) d1.world) d1 P h (λ w' k. k)))
          (λ u d2 h.
            let (es, w') = env.get_subblocks_with_errors d2.world in
            print_errors-running es (record d2 { world = w' }) ∙ h))
        (λ u d3 h. h)
    where
      called :
          (x : W × Result {0} Unit) (d1 : Dispatcher D W) (P : Dispatcher D W → Type 0)
          → P d1
          → ((w' : W) → P d1 → P (record d1 { world = w' }))
          → Done P (record d1 { world = x.0 }, x.1)
      called (w', ok u) d1 P h k = k w' h
      called (w', throw e) d1 P h k = tt
      called (w', undefined) d1 P h k = tt

  run_loop-stopped :
      (fuel : ℕ) (d : Dispatcher D W)
      → d.running ≡ false
      → run_loop env (suc fuel) d ≡ some (d, ok tt)
  unfolding run_loop
  run_loop-stopped fuel d h =
      ap
        (λ b. elim b [
          | false ↦ some (d, ok tt)
          | true ↦ go_on env (λ d'. run_loop env fuel d') (run_once env d)
        ])
        h

  goes_no_further :
      (fuel : ℕ) (x : Dispatcher D W × Result {0} Unit)
      → Done (λ d'. d'.running ≡ false) x
      → go_on env (λ d'. run_loop env (suc fuel) d') x ≡ some x
  goes_no_further fuel (d, ok tt) h = run_loop-stopped fuel d h
  goes_no_further fuel (d, throw e) h = refl
  goes_no_further fuel (d, undefined) h = refl

  -- When the first instructions hold one that ends the run, `run` ends with what one step gives:
  -- with the state after the whole step, if it returns, or else with the exception that leaves it.
  pub run-stop :
      (fuel : ℕ) (d : Dispatcher D W)
      → has_stop (env.get_instructions d.world).0 ≡ true
      → run env (suc (suc fuel)) d ≡ some (run_once env (record d { running = true }))
  unfolding run run_loop
  run-stop fuel d h =
      let d0 : Dispatcher D W = record d { running = true } in
      goes_no_further fuel (run_once env d0) (
        Done-mono (GoesOn (env.get_instructions d.world).0 d0) _ (run_once env d0)
          (λ d' k. k ∙ ap not h) (run_once-running d0))
