-- ===== src/Block/Writing.antt =====
-- What `write_variables` does to every variable, the one of each name at a time.
use func_sim_engine.Prelude.{
  ◌≡◌, refl, sym, subst, ◌∙◌, ap, Bool, true, false, ◌||◌, Option, none, some, [], ◌∷◌, arith, ◌⊎◌,
  inl, inr, Str, str_eq, str_eq_iff, str_eq_refl, is_some, Bool-cases, Option-cases,
}
use func_sim_engine.StdMap.{Map, str_key, find, insert, find-insert_ne, find-insert_self}
use func_sim_engine.Result.{ok}
use func_sim_engine.Param.Real.{Floats}
use func_sim_engine.Param.Types.{SameType}
use func_sim_engine.Param.Copy.{IsNumber, IsCopied, copy_data_lem}
use func_sim_engine.Param.{Parameter, copy_data}
use func_sim_engine.Block.{
  Block, Names, write_from, write_variables, written, tell, error_invalid_variable,
}

-- A map as `std::map` keeps it: no key twice.
abbrev pub IsKeyed : {V : Type 0} → Map Str V → Type 0
IsKeyed [] = Unit
IsKeyed ((k, v) ∷ m) = (find k m ≡ none) × IsKeyed m

module _ {D : Type 0} ⦃fl : Floats D⦄ where
  -- A given value is of the type of its variable and no NaN, if there is a variable that is not
  -- locked.
  abbrev pub CanWrite : Option (Parameter D) → Option (Parameter D) → Type 0
  CanWrite v none = Unit
  CanWrite none (some p) = Unit
  CanWrite (some v) (some p) = (v.locked ≡ true) ⊎ (SameType v.value p.value × IsNumber p)

wrote_first : (k : Str) (w : Bool) → (w || is_some (find {V = Unit} k [])) ≡ w
unfolding find
wrote_first k true = refl
wrote_first k false = refl

unlocked-SameType :
    {D : Type 0} ⦃fl : Floats D⦄
    → (v p : Parameter D) → v.locked ≡ false
    → CanWrite (some v) (some p)
    → SameType v.value p.value × IsNumber p
unlocked-SameType v p l (inl l') = absurd cc
unlocked-SameType v p l (inr s) = s

module _ {D : Type 0} ⦃fl : Floats D⦄ where
  -- The variable of a name before, the value that is given for it, the variable afterwards, and
  -- whether it counts as written.
  abbrev pub Outcome :
      Option (Parameter D) → Option (Parameter D) → Option (Parameter D) → Bool → Type 0
  Outcome v none after wrote = (after ≡ v) × (wrote ≡ false)
  Outcome none (some p) after wrote = (after ≡ none) × (wrote ≡ false)
  Outcome (some v) (some p) after wrote =
      ((v.locked ≡ true) × (after ≡ some v) × (wrote ≡ false))
      ⊎ ((v.locked ≡ false)
          × (wrote ≡ true)
          × (q : Parameter D) × (changed : Bool) × (after ≡ some q)
          × IsCopied v p q changed)

  -- The outcome for one name, where the names written before are `res`.
  abbrev At : Map Str (Parameter D) → Block D → Names → Block D → Names → Str → Type 0
  At val b res b' names k =
      (wrote : Bool) × Outcome (find k b.vars) (find k val) (find k b'.vars) wrote
      × (is_some (find k names) ≡ (wrote || is_some (find k res)))

  -- The run of the loop, with its outcome for every name.
  abbrev Run : Map Str (Parameter D) → Names → Block D → Type 0
  Run val res b =
      (b' : Block D) × (names : Names) × (write_from val res b ≡ (b', ok names))
      × ((k : Str) → At val b res b' names k)

  extend_same :
      (name : Str) (p : Parameter D) (val : Map Str (Parameter D)) (b b1 b' : Block D)
      (res res1 names : Names) (wrote : Bool)
      → find name val ≡ none
      → Outcome (find name b.vars) (some p) (find name b1.vars) wrote
      → is_some (find name res1) ≡ (wrote || is_some (find name res))
      → At val b1 res1 b' names name
      → At ((name, p) ∷ val) b res b' names name
  unfolding find
  extend_same name p val b b1 b' res res1 names wrote fresh o s (w, o', s') =
      let after : (find name b'.vars ≡ find name b1.vars) × (w ≡ false) = rw fresh at o' in
      rw (str_eq_refl name) (wrote, rw after.0 o, ground (arith, after.1))

  -- A first step that only touches `name`, in front of the rest of the loop.
  extend :
      (name k : Str) (p : Parameter D) (val : Map Str (Parameter D)) (b b1 b' : Block D)
      (res res1 names : Names) (wrote : Bool)
      → find name val ≡ none
      → Outcome (find name b.vars) (some p) (find name b1.vars) wrote
      → is_some (find name res1) ≡ (wrote || is_some (find name res))
      → ((j : Str) → str_eq name j ≡ false → find j b1.vars ≡ find j b.vars)
      → ((j : Str) → str_eq name j ≡ false → find j res1 ≡ find j res)
      → At val b1 res1 b' names k
      → At ((name, p) ∷ val) b res b' names k
  unfolding find
  extend name k p val b b1 b' res res1 names wrote fresh o s v r h =
      elim (Bool-cases (str_eq name k)) [
        | inl t ↦
            let e : name ≡ k = (str_eq_iff name k).0 t in
            subst (λ j. At ((name, p) ∷ val) b res b' names j) e
              (extend_same name p val b b1 b' res res1 names wrote fresh o s
                (subst (λ j. At val b1 res1 b' names j) (sym e) h))
        | inr t ↦
            let (w, o', s') = h in rw t (w, rw (v k t) at o', s' ∙ ap (λ x. w || is_some x) (r k t))
      ]

  -- What is left to write can still be written after a step that only touches `name`.
  CanWrite-tail :
      (name : Str) (p : Parameter D) (val : Map Str (Parameter D)) (b b1 : Block D)
      → find name val ≡ none
      → ((j : Str) → str_eq name j ≡ false → find j b1.vars ≡ find j b.vars)
      → ((k : Str) → CanWrite (find k b.vars) (find k ((name, p) ∷ val)))
      → (k : Str) → CanWrite (find k b1.vars) (find k val)
  unfolding find
  CanWrite-tail name p val b b1 fresh v c k = elim (Bool-cases (str_eq name k)) [
    | inl t ↦
        let e : name ≡ k = (str_eq_iff name k).0 t in
        let none_left : find k val ≡ none = subst (λ j. find j val ≡ none) e fresh in
        rw none_left tt
    | inr t ↦ rw (v k t) (rw t at (c k))
  ]

  vars-written :
      (name : Str) (v p : Parameter D) (changed : Bool) (b : Block D)
      → (written name v changed p b).vars ≡ insert name v b.vars
  vars-written name v p true b = refl
  vars-written name v p false b = refl

  -- The rest of a run, with its first step in front.
  step :
      (name : Str) (p : Parameter D) (val : Map Str (Parameter D)) (b b1 : Block D)
      (res res1 : Names) (wrote : Bool)
      → find name val ≡ none
      → write_from ((name, p) ∷ val) res b ≡ write_from val res1 b1
      → Outcome (find name b.vars) (some p) (find name b1.vars) wrote
      → is_some (find name res1) ≡ (wrote || is_some (find name res))
      → ((j : Str) → str_eq name j ≡ false → find j b1.vars ≡ find j b.vars)
      → ((j : Str) → str_eq name j ≡ false → find j res1 ≡ find j res)
      → Run val res1 b1
      → Run ((name, p) ∷ val) res b
  step name p val b b1 res res1 wrote fresh e o s v r (b', names, e', h) =
      (b', names, e ∙ e', λ k. extend name k p val b b1 b' res res1 names wrote fresh o s v r (h k))

  write_from-written :
      (name : Str) (v p q : Parameter D) (changed : Bool) (val : Map Str (Parameter D))
      (res : Names) (b : Block D)
      → find name b.vars ≡ some v
      → v.locked ≡ false
      → copy_data v p ≡ ok (q, changed)
      → write_from ((name, p) ∷ val) res b
        ≡ write_from val (insert name tt res) (written name q changed p b)
  unfolding write_from
  write_from-written name v p q changed val res b e l e' = rw (e, l, e', write_from) refl

  write_from-Run :
      (val : Map Str (Parameter D)) (res : Names) (b : Block D)
      → IsKeyed val
      → ((k : Str) → CanWrite (find k b.vars) (find k val))
      → Run val res b
  unfolding write_from find
  write_from-Run [] res b u c = (b, res, refl, λ k. (false, (refl, refl), refl))
  write_from-Run ((name, p) ∷ val) res b u c = elim (Option-cases (find name b.vars)) [
    | inl e ↦
        step name p val b (tell (error_invalid_variable name) b) res res false u.0
          (rw (e, write_from) refl) (rw e (refl, refl)) refl (λ j t. refl) (λ j t. refl)
          (write_from-Run val res _ u.1 (CanWrite-tail name p val b b u.0 (λ j t. refl) c))
    | inr (v, e) ↦ elim (Bool-cases v.locked) [
      | inl l ↦
          step name p val b b res res false u.0 (rw (e, l, write_from) refl)
            (rw e (inl (l, refl, refl))) refl (λ j t. refl) (λ j t. refl)
            (write_from-Run val res _ u.1 (CanWrite-tail name p val b b u.0 (λ j t. refl) c))
      | inr l ↦
          let (same, number) : SameType v.value p.value × IsNumber p =
            unlocked-SameType v p l (rw (e, str_eq_refl name) at (c name)) in
          let (q, changed, e', w) = copy_data_lem v p number same in
          let b1 = written name q changed p b in
          let kept : (j : Str) → str_eq name j ≡ false → find j b1.vars ≡ find j b.vars =
            λ j t. rw (vars-written name q p changed b) (find-insert_ne name j q b.vars t) in
          step name p val b b1 res (insert name tt res) true u.0
            (write_from-written name v p q changed val res b e l e')
            (rw (e, vars-written name q p changed b, find-insert_self name q b.vars)
              (inr (l, refl, q, changed, refl, w)))
            (rw (find-insert_self name tt res) refl) kept (λ j t. find-insert_ne name j tt res t)
            (write_from-Run val _ b1 u.1 (CanWrite-tail name p val b b1 u.0 kept c))
    ]
  ]

  -- When the given values have distinct names, and each is of the type of its variable and no NaN,
  -- unless there is no variable or it is locked, `write_variables` returns. Then, for every name: a variable for which
  -- nothing is given, or that is locked, is as before, and a name without a variable gets none; any
  -- other given value is copied, and the type, the description and the lock of its variable stay.
  -- The returned set holds exactly the names whose variable was written.
  pub write_variables_lem :
      (allowed : Names) (val : Map Str (Parameter D)) (b : Block D)
      → IsKeyed val
      → ((k : Str) → CanWrite (find k b.vars) (find k val))
      → (b' : Block D) × (names : Names) × (write_variables allowed val b ≡ (b', ok names))
        × ((k : Str)
            → Outcome (find k b.vars) (find k val) (find k b'.vars) (is_some (find k names)))
  unfolding write_variables
  write_variables_lem allowed val b u c =
      let (b', names, e, h) = write_from-Run val [] b u c in
      (
        b',
        names,
        e,
        λ k.
            let (wrote, o, s) = h k in
            let s' : is_some (find k names) ≡ wrote = s ∙ wrote_first k wrote in rw s' o,
      )
