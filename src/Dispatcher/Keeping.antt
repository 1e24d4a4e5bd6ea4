-- ===== src/Dispatcher/Keeping.antt =====
-- What every call of the dispatcher keeps, every number of its steps keeps.
use func_sim_engine.Prelude.{
  ℕ, zero, suc, ◌≡◌, refl, subst, lit, List, [], ◌∷◌, Str, str_eq, Bool-cases, inl, inr,
}
use func_sim_engine.Result.{Result, ok, throw, undefined, and_then_keeps}
use func_sim_engine.Dispatcher.{
  Environment, Dispatcher, execute, execute_all, run_control_func, ran, print_errors, work,
  finish_step, make_step, run_once, run_steps, is_stop,
}

-- What holds of the world, whatever is called.
pub record IsKept {D W : Type 0} (env : Environment D W) (P : W → Type 0) : Type 0 where
  pub instructions : (w : W) → P w → P (env.get_instructions w).1
  pub parameters : (s : Str) (ps : List Str) (w : W) → P w → P (env.set_parameter_values s ps w).1
  pub functions : (s : Str) (w : W) → P w → P (env.run_func s w).0
  pub calls : (time : D) (w : W) → P w → P (env.call_main_block time w).0
  pub errors : (w : W) → P w → P (env.get_subblocks_with_errors w).1
  pub waits : (w : W) → P w → P (env.wait_interval w)

ran_world :
    {D W : Type 0} (name : Str) (r : Result Str) (d : Dispatcher D W)
    → d.world ≡ (ran name r d).0.world
unfolding ran
ran_world name (ok output) d = refl
ran_world name (throw e) d = refl
ran_world name undefined d = refl

module _ {D W : Type 0} (env : Environment D W) (P : W → Type 0) (kept : IsKept env P) where
  -- What holds of the world of a dispatcher.
  abbrev Q : Dispatcher D W → Type 0
  Q d = P d.world

  run_control_func_keeps :
      (s : Str) (d : Dispatcher D W) → Q d → Q (run_control_func env (env.parse s) d).0
  unfolding run_control_func
  run_control_func_keeps s d h =
      let res = env.parse s in
      let (accepted, w) = env.set_parameter_values res.name res.param d.world in
      let (w', output) = env.run_func res.name w in
      let set = kept.parameters res.name res.param d.world h in
      elim (Bool-cases (env.has_control_func res.name)) [
        | inl e ↦ elim (Bool-cases accepted) [
          | inl a ↦
              let done =
                subst P (ran_world res.name output (record d { world = w' }))
                  (kept.functions res.name w set) in
              rw (e, run_control_func) (rw a done)
          | inr a ↦ rw (e, run_control_func) (rw a set)
        ]
        | inr e ↦ rw (e, run_control_func) h
      ]

  execute_keeps : (s : Str) (d : Dispatcher D W) → Q d → Q (execute env s d).0
  unfolding execute
  execute_keeps s d h = elim (Bool-cases (is_stop s)) [
    | inl e ↦ rw (e, execute) h
    | inr e ↦ elim (Bool-cases (str_eq s (lit "инфраб"))) [
      | inl i ↦ rw (e, execute) (rw i h)
      | inr i ↦ rw (e, execute) (rw i (run_control_func_keeps s d h))
    ]
  ]

  execute_all_keeps : (ss : List Str) (d : Dispatcher D W) → Q d → Q (execute_all env ss d).0
  unfolding execute_all
  execute_all_keeps [] d h = h
  execute_all_keeps (s ∷ ss) d h =
      and_then_keeps Q (execute env s d) _ (execute_keeps s d h)
        (λ u d' k. execute_all_keeps ss d' k)

  print_errors_world : (es : List Str) (d : Dispatcher D W) → d.world ≡ (print_errors es d).world
  unfolding print_errors
  print_errors_world [] d = refl
  print_errors_world (e ∷ es) d = print_errors_world es _

  finish_step_keeps : (d : Dispatcher D W) → Q d → Q (finish_step env d)
  unfolding finish_step
  finish_step_keeps d h =
      let (es, w) = env.get_subblocks_with_errors d.world in
      subst P (print_errors_world es (record d { world = w })) (kept.errors d.world h)

  run_once_keeps : (d : Dispatcher D W) → Q d → Q (run_once env d).0
  unfolding run_once make_step work
  run_once_keeps d h =
      let (instr, w) = env.get_instructions d.world in
      and_then_keeps Q (make_step env d) _
        (and_then_keeps Q (work env d) _
          (and_then_keeps Q (execute_all env instr (record d { world = w })) _
            (execute_all_keeps instr (record d { world = w }) (kept.instructions d.world h))
            (λ u d1 k. kept.calls (env.get_time d.world) d1.world k))
          (λ u d2 k. finish_step_keeps d2 k))
        (λ u d3 k. kept.waits d3.world k)

  -- What each call of the dispatcher keeps of the world, any number of its steps keeps, and an
  -- exception that leaves one of them finds.
  pub run_steps_keeps : (n : ℕ) (d : Dispatcher D W) → P d.world → P (run_steps env n d).0.world
  unfolding run_steps
  run_steps_keeps zero d h = h
  run_steps_keeps (suc n) d h =
      and_then_keeps Q (run_once env d) _ (run_once_keeps d h) (λ u d' k. run_steps_keeps n d' k)
