-- ===== src/Command/Effects.antt =====
-- What the control functions do to the tree of blocks.
use func_sim_engine.Prelude.{
  ◌≡◌, ◌≢◌, refl, ◌∙◌, ap, Bool, true, false, some, [], ◌∷◌, Str, lit, str_eq, str_lt, Bool-cases,
  inl, inr,
}
use mathlib.Core.Option
use func_sim_engine.StdMap.{str_key}
use func_sim_engine.Result.{ok}
use func_sim_engine.Param.Real.{Floats}
use func_sim_engine.Param.{Parameter, from_string, parse_value, to_string, create}
use func_sim_engine.Callable.{Callable, set_lock}
use func_sim_engine.Subprogram.{Subprogram}
use func_sim_engine.Control.{ControlFunc, set_parameter_values, set_from, get_param}
use func_sim_engine.Tree.{
  Tree, site, get_variable, change_variable, get_subprog, change_subprog, get_child, change_child,
}
use func_sim_engine.Tree.Paths.{
  get_variable-change_variable, get_subprog-change_subprog, get_child-change_child,
}
use func_sim_engine.Tree.Power.{set_site}
use func_sim_engine.Command.{
  Command, set_value, lock_param, lock_block, lock_subprog, construct, param_text, run,
  run_set_value, run_lock_param, run_lock_block, run_lock_subprog, lock_word, lock_variable,
  lock_tree, lock_callable,
}

lock_word_value : (word : Str) → (lock_word word).0 ≡ str_eq word (lit "вкл")
unfolding lock_word
lock_word_value word = elim (Bool-cases (str_eq word (lit "вкл"))) [
  | inl e ↦ rw (e, lock_word) refl
  | inr e ↦
      rw (e, lock_word)
        (elim (Bool-cases (str_eq word (lit "выкл"))) [ inl x ↦ rw x refl | inr x ↦ rw x refl ])
]

module _ {D : Type 0} ⦃fl : Floats D⦄ where
  -- The function of a class, once it was given two texts.
  abbrev pub given : Command → Str → Str → ControlFunc D
  given c a b = (set_parameter_values (a ∷ b ∷ []) (construct c)).0

  set_lock_value :
      (lock : Bool) (c : Callable D) → (set_lock lock c).0 ≡ record c { is_blocked = lock }
  unfolding set_lock
  set_lock_value true c = elim (Bool-cases c.is_blocked) [ inl e ↦ rw e refl | inr e ↦ rw e refl ]
  set_lock_value false c = elim (Bool-cases c.is_blocked) [ inl e ↦ rw e refl | inr e ↦ rw e refl ]

module _ {D : Type 0} ⦃fl : Floats D⦄ (show : D → Str) (a b : Str) (t : Tree D) where
  -- The functions with two texts run on these.
  runs :
      (run show set_value (given set_value a b) t ≡ ok (run_set_value a b t))
      × (run show lock_param (given lock_param a b) t ≡ ok (run_lock_param a b t))
      × (run show lock_block (given lock_block a b) t ≡ ok (run_lock_block a b t))
      × (run show lock_subprog (given lock_subprog a b) t ≡ ok (run_lock_subprog a b t))
  unfolding run construct set_parameter_values set_from from_string parse_value param_text get_param
      create str_lt to_string
  runs = (refl, refl, refl, refl)

  set_value_reply :
      (p : Parameter D)
      → get_variable t a ≡ some p
      → (said : Str) × (run_set_value a b t
          ≡ (change_variable (λ p. (from_string p b).0) t a, said))
  unfolding run_set_value
  set_value_reply p e = elim (Bool-cases (from_string p b).1) [
    | inl x ↦ rw (e, run_set_value, x) (_, refl)
    | inr x ↦ rw (e, run_set_value, x) (_, refl)
  ]

  -- `устп`, given the path of a variable and a text, gives it the value that the text says, if it
  -- says one of its type, and no other path finds another variable than before.
  pub set_value_sets :
      (p : Parameter D) (q : Str)
      → get_variable t a ≡ some p
      → a ≢ q
      → (t' : Tree D) × (said : Str) × (run show set_value (given set_value a b) t ≡ ok (t', said))
        × (get_variable t' a ≡ some (from_string p b).0)
        × (get_variable t' q ≡ get_variable t q)
  set_value_sets p q e n =
      let (same, other) = get_variable-change_variable (λ p. (from_string p b).0) t a q n in
      let (said, x) = set_value_reply p e in
      (_, said, runs.0 ∙ ap ok x, same ∙ ap (Option.map (λ p. (from_string p b).0)) e, other)

  lock_param_reply :
      (p : Parameter D) (q : Str)
      → get_variable t a ≡ some p
      → a ≢ q
      → (t' : Tree D) × (said : Str) × (run_lock_param a b t ≡ (t', said))
        × (get_variable t' a ≡ some (lock_variable (lock_word b).0 p))
        × (get_variable t' q ≡ get_variable t q)
  unfolding run_lock_param
  lock_param_reply p q e n =
      let lock : Bool = (lock_word b).0 in
      let (same, other) = get_variable-change_variable (lock_variable lock) t a q n in
      let found = same ∙ ap (Option.map (lock_variable lock)) e in
      elim (Bool-cases lock) [
        | inl l ↦ elim (Bool-cases p.locked) [
          | inl x ↦
              (t, (lock_word b).1, rw (e, run_lock_param, x, l) refl, e ∙ rw (l, x) refl, refl)
          | inr x ↦ (
            change_variable (lock_variable lock) t a,
            (run_lock_param a b t).1,
            rw (e, run_lock_param, x, l) refl,
            found,
            other,
          )
        ]
        | inr l ↦ elim (Bool-cases p.locked) [
          | inl x ↦ (
            change_variable (lock_variable lock) t a,
            (run_lock_param a b t).1,
            rw (e, run_lock_param, x, l) refl,
            found,
            other,
          )
          | inr x ↦
              (t, (lock_word b).1, rw (e, run_lock_param, x, l) refl, e ∙ rw (l, x) refl, refl)
        ]
      ]

  -- `блп`, given the path of a variable and a word, locks the variable if the word is `вкл` and
  -- takes its lock away for any other word; no other path finds another variable than before.
  pub lock_param_locks :
      (p : Parameter D) (q : Str)
      → get_variable t a ≡ some p
      → a ≢ q
      → (t' : Tree D) × (said : Str) × (run show lock_param (given lock_param a b) t
          ≡ ok (t', said))
        × (get_variable t' a ≡ some (record p { locked = str_eq b (lit "вкл") }))
        × (get_variable t' q ≡ get_variable t q)
  lock_param_locks p q e n =
      let (t', said, r, found, other) = lock_param_reply p q e n in
      (
        t',
        said,
        runs.1 ∙ ap ok r,
        found ∙ ap (λ x. some (lock_variable x p)) (lock_word_value b),
        other,
      )

  -- `блпп` does the same to the lock of a subprogram.
  pub lock_subprog_locks :
      (s : Subprogram D) (q : Str)
      → get_subprog t a ≡ some s
      → a ≢ q
      → (t' : Tree D) × (said : Str) × (run show lock_subprog (given lock_subprog a b) t
          ≡ ok (t', said))
        × (get_subprog t' a
            ≡ some
                (record s { callable = record s.callable { is_blocked = str_eq b (lit "вкл") } }))
        × (get_subprog t' q ≡ get_subprog t q)
  unfolding run_lock_subprog
  lock_subprog_locks s q e n =
      let (same, other) = get_subprog-change_subprog (lock_callable (lock_word b).0) t a q n in
      (
        change_subprog (lock_callable (lock_word b).0) t a,
        (run_lock_subprog a b t).1,
        runs.3 ∙ ap ok (rw (e, run_lock_subprog) refl),
        same
            ∙ ap (Option.map (lock_callable (lock_word b).0)) e
            ∙ ap (λ c. some (record s { callable = c })) (set_lock_value (lock_word b).0 s.callable)
            ∙ ap (λ x. some (record s { callable = record s.callable { is_blocked = x } }))
                (lock_word_value b),
        other,
      )

  -- `блблп`, given the path of a block and a word, locks the block if the word is `вкл` and takes
  -- its lock away for any other word; the rest of the block stays.
  pub lock_block_locks :
      (u : Tree D)
      → get_child t a ≡ some u
      → (t' : Tree D) × (said : Str) × (run show lock_block (given lock_block a b) t
          ≡ ok (t', said))
        × (get_child t' a
            ≡ some (
                set_site
                  (record (site u) {
                    callable = record (site u).callable { is_blocked = str_eq b (lit "вкл") };
                  })
                  u))
  unfolding run_lock_block
  lock_block_locks u e =
      let lock : Bool = (lock_word b).0 in
      (
        change_child (lock_tree lock) t a,
        (run_lock_block a b t).1,
        runs.2 ∙ ap ok (rw (e, run_lock_block) refl),
        get_child-change_child (lock_tree lock) t a
            ∙ ap (Option.map (lock_tree lock)) e
            ∙ ap (λ c. some (set_site (record (site u) { callable = c }) u))
                (set_lock_value lock (site u).callable)
            ∙ ap
                (λ x. some (
                  set_site
                    (record (site u) { callable = record (site u).callable { is_blocked = x } }) u))
                (lock_word_value b),
      )
