-- ===== src/Dispatcher/Steps.antt =====
-- What every step keeps: the count of steps, and the names of blocks with errors.
use func_sim_engine.Prelude.{
  lit, Bool-cases, append-nil, ℕ, zero, suc, ◌+◌, ◌%◌, ◌^◌, ◌<◌, ◌≡◌, refl, ap, sym, subst, ◌∙◌,
  List, [], ◌∷◌, ◌++◌, arith, Str, str_eq, is_some, inl, inr,
}
use func_sim_engine.StdMap.{str_key, find}
use func_sim_engine.Result.{Result, ok, throw, undefined, and_then, and_then_keeps}
use func_sim_engine.Dispatcher.{
  Environment, Dispatcher, is_stop, execute, execute_all, ran, run_control_func, work, finish_step,
  make_step, run_once, run_steps,
}
use func_sim_engine.Dispatcher.Printing.{
  contains, IsDistinct, IsPrinted, Told, Told-trans, print_errors-Told,
}

module _ {D W : Type 0} where
  -- What a step may not touch before the errors are printed.
  abbrev Kept : Dispatcher D W → Dispatcher D W → Type 0
  Kept d d' =
      (d'.steps_total ≡ d.steps_total)
      × (d'.errors ≡ d.errors)
      × (d'.printed_errors ≡ d.printed_errors)

  ran-Kept : (name : Str) (r : Result Str) (d : Dispatcher D W) → Kept d (ran name r d).0
  unfolding ran
  ran-Kept name (ok output) d = (refl, refl, refl)
  ran-Kept name (throw e) d = (refl, refl, refl)
  ran-Kept name undefined d = (refl, refl, refl)

  Kept-trans : (d d1 d2 : Dispatcher D W) → Kept d d1 → Kept d1 d2 → Kept d d2
  Kept-trans d d1 d2 (a, b, c) (a', b', c') = (a' ∙ a, b' ∙ b, c' ∙ c)

  Kept-Told : (d d' : Dispatcher D W) → Kept d d' → IsPrinted d → Told [] d d'
  Kept-Told d d' k p = (
    record {
      same = λ j. ap (λ m. is_some (find j m)) k.1 ∙ p.same j ∙ ap (contains j) (sym k.2);
      distinct = subst IsDistinct (sym k.2) p.distinct;
    },
    λ j. ground (arith, k.2),
  )

  -- The count after up to `n` steps: all of them, or fewer than `n` if an exception leaves one.
  abbrev pub Counted : ℕ → Dispatcher D W → Dispatcher D W × Result {0} Unit → Type 0
  Counted n d (d', ok u) = d'.steps_total ≡ (d.steps_total + n) % 2 ^ 32
  Counted n d (d', throw e) = (k : ℕ) × (k < n) × (d'.steps_total ≡ (d.steps_total + k) % 2 ^ 32)
  Counted n d (d', undefined) = (k : ℕ) × (k < n) × (d'.steps_total ≡ (d.steps_total + k) % 2 ^ 32)

module _ {D W : Type 0} (env : Environment D W) where
  run_control_func-Kept :
      (s : Str) (d : Dispatcher D W) → Kept d (run_control_func env (env.parse s) d).0
  unfolding run_control_func
  run_control_func-Kept s d =
      let res = env.parse s in
      let set = env.set_parameter_values res.name res.param d.world in
      let (w', output) = env.run_func res.name set.1 in
      elim (Bool-cases (env.has_control_func res.name)) [
        | inl e ↦ elim (Bool-cases set.0) [
          | inl a ↦
              rw (e, run_control_func) (rw a (ran-Kept res.name output (record d { world = w' })))
          | inr a ↦ rw (e, run_control_func) (rw a (refl, refl, refl))
        ]
        | inr e ↦ rw (e, run_control_func) (refl, refl, refl)
      ]

  execute-Kept : (s : Str) (d : Dispatcher D W) → Kept d (execute env s d).0
  unfolding execute
  execute-Kept s d = elim (Bool-cases (is_stop s)) [
    | inl e ↦ rw (e, execute) (refl, refl, refl)
    | inr e ↦ elim (Bool-cases (str_eq s (lit "инфраб"))) [
      | inl i ↦ rw (e, execute) (rw i (refl, refl, refl))
      | inr i ↦ rw (e, execute) (rw i (run_control_func-Kept s d))
    ]
  ]

  execute_all-Kept : (ss : List Str) (d : Dispatcher D W) → Kept d (execute_all env ss d).0
  unfolding execute_all
  execute_all-Kept [] d = (refl, refl, refl)
  execute_all-Kept (s ∷ ss) d =
      and_then_keeps (Kept d) (execute env s d) _ (execute-Kept s d)
        (λ u d' k. Kept-trans d d' (execute_all env ss d').0 k (execute_all-Kept ss d'))

  work-Kept : (d : Dispatcher D W) → Kept d (work env d).0
  unfolding work
  work-Kept d =
      let (instr, w) = env.get_instructions d.world in
      and_then_keeps (Kept d) (execute_all env instr (record d { world = w })) _
        (execute_all-Kept instr (record d { world = w })) (λ u d1 k. k)

  -- What the main block reports in a step; nothing where an exception leaves the step before.
  abbrev names_after : Dispatcher D W × Result {0} Unit → List Str
  names_after (d, ok u) = (env.get_subblocks_with_errors d.world).0
  names_after (d, throw e) = []
  names_after (d, undefined) = []

  abbrev pub step_reports : Dispatcher D W → List Str
  step_reports d = names_after (work env d)

  abbrev reports_after : (Dispatcher D W → List Str) → Dispatcher D W × Result {0} Unit → List Str
  reports_after k (d, ok u) = k d
  reports_after k (d, throw e) = []
  reports_after k (d, undefined) = []

  -- What it reports in `n` steps, as far as they are made.
  abbrev pub reports : ℕ → Dispatcher D W → List Str
  reports zero d = []
  reports (suc n) d = step_reports d ++ reports_after (λ d'. reports n d') (run_once env d)

  -- `run_once` after the call of the main block.
  abbrev rest_of_step : Dispatcher D W × Result {0} Unit → Dispatcher D W × Result {0} Unit
  rest_of_step x =
      let finished : Dispatcher D W × Result {0} Unit =
        and_then x (λ u d'. (finish_step env d', ok tt)) in
      and_then finished (λ u d'. (record d' { world = env.wait_interval d'.world }, ok tt))

  -- What one step makes of the count: it is counted if the step returns.
  abbrev Once : Dispatcher D W → Dispatcher D W × Result {0} Unit → Type 0
  Once d (d', ok u) = d'.steps_total ≡ (d.steps_total + 1) % 2 ^ 32
  Once d (d', throw e) = d'.steps_total ≡ d.steps_total
  Once d (d', undefined) = d'.steps_total ≡ d.steps_total

  finish_step-Told :
      (d : Dispatcher D W)
      → IsPrinted d
      → Told (env.get_subblocks_with_errors d.world).0 d (finish_step env d)
  unfolding finish_step
  finish_step-Told d p =
      let (es, w) = env.get_subblocks_with_errors d.world in
      let start : IsPrinted (record d { world = w }) = record {
        same = p.same;
        distinct = p.distinct;
      } in
      let (q, names) = print_errors-Told es (record d { world = w }) start in
      (record { same = q.same; distinct = q.distinct }, names)

  run_once-Told : (d : Dispatcher D W) → IsPrinted d → Told (step_reports d) d (run_once env d).0
  unfolding run_once make_step
  run_once-Told d p = after (work env d) (Kept-Told d (work env d).0 (work-Kept d) p)
    where
      after :
          (x : Dispatcher D W × Result {0} Unit)
          → Told [] d x.0
          → Told (names_after x) d (rest_of_step x).0
      after (d', ok u) t =
          let (q, names) = Told-trans [] _ d d' (finish_step env d') t (finish_step-Told d' t.0) in
          (record { same = q.same; distinct = q.distinct }, names)
      after (d', throw e) t = t
      after (d', undefined) t = t

  -- Over any number of steps, the names that are printed are those that were printed before and
  -- those that the main block reports in these steps, and each of them is printed once; they stay
  -- those of the set. An exception ends the steps, and what was printed before it stays so.
  pub run_steps-IsPrinted :
      (n : ℕ) (d : Dispatcher D W) → IsPrinted d → Told (reports n d) d (run_steps env n d).0
  unfolding run_steps
  run_steps-IsPrinted zero d p = (p, λ k. ground arith)
  run_steps-IsPrinted (suc n) d p =
      after (run_once env d) (run_once-Told d p) (λ d' q. run_steps-IsPrinted n d' q)
    where
      after :
          (x : Dispatcher D W × Result {0} Unit)
          → Told (step_reports d) d x.0
          → ((d' : Dispatcher D W) → IsPrinted d' → Told (reports n d') d' (run_steps env n d').0)
          → Told
              (step_reports d ++ reports_after (λ d'. reports n d') x)
              d
              (and_then x (λ u d'. run_steps env n d')).0
      after (d', ok u) t rest = Told-trans (step_reports d) (reports n d') d d' _ t (rest d' t.0)
      after (d', throw e) t rest = rw append-nil t
      after (d', undefined) t rest = rw append-nil t
