-- ===== src/Block/Wiring.antt =====
-- The accordances of a block lead to variables that it has, however it was built.
use func_sim_engine.Prelude.{
  ◌≡◌, ◌≢◌, refl, ◌∙◌, Bool, true, false, List, [], ◌∷◌, arith, Str, str_eq, is_some, All,
  Bool-cases, Option-cases, inl, inr,
}
use func_sim_engine.StdMap.{
  Map, str_key, find, insert, emplace, find-insert, find-insert_self, find-emplace,
}
use func_sim_engine.Result.{Result-cases, ok, undefined}
use func_sim_engine.Param.Real.{Floats}
use func_sim_engine.Param.{Parameter, copy_data, create}
use func_sim_engine.Block.{
  Block, Names, Event, add_made_variable, add_variable, set_names_set, add_param_accordiance,
  add_return_param, add_use_param, write_from, write_variables, written, copy_use_vars, return_vars,
  empty_block,
}

abbrev pub Has : {V : Type 0} → Map Str V → Str → Type 0
Has m k = is_some (find k m) ≡ true

-- Every returned variable is one of the block and a SET variable, and every used one is one of the
-- block.
pub record IsWired {D : Type 0} (b : Block D) : Type 0 where
  pub returns : All (λ e. Has b.vars e.1 × Has b.vset_names e.1) b.res_vars
  pub uses : All (λ e. Has b.vars e.0) b.use_vars

pub All-mono :
    {A : Type 0} (P Q : A → Type 0) (xs : List A) → ((a : A) → P a → Q a) → All P xs → All Q xs
All-mono P Q [] f h = tt
All-mono P Q (x ∷ xs) f h = (f x h.0, All-mono P Q xs f h.1)

pub All-insert :
    {V : Type 0} (P : Str × V → Type 0) (k : Str) (v : V) (m : Map Str V)
    → P (k, v)
    → All P m
    → All P (insert k v m)
unfolding insert
All-insert P k v [] p h = (p, tt)
All-insert P k v ((j, w) ∷ m) p h = elim (Bool-cases (str_eq j k)) [
  | inl t ↦ rw t (p, h.1)
  | inr t ↦ rw t (elim (Bool-cases (str_key.lt k j)) [
    | inl l ↦ rw l (p, h)
    | inr l ↦ rw l (h.0, All-insert P k v m p h.1)
  ])
]

pub All-emplace :
    {V : Type 0} (P : Str × V → Type 0) (k : Str) (v : V) (m : Map Str V)
    → P (k, v)
    → All P m
    → All P (emplace k v m).0
unfolding emplace
All-emplace P k v m p h = elim (Option-cases (find k m)) [
  | inl e ↦ rw (e, All) (All-insert P k v m p h)
  | inr (w, e) ↦ rw (e, All) h
]

pub Has-insert : {V : Type 0} (k j : Str) (v : V) (m : Map Str V) → Has m j → Has (insert k v m) j
Has-insert k j v m h = ground (arith, find-insert k j v m)

Has-emplace : {V : Type 0} (k j : Str) (v : V) (m : Map Str V) → Has m j → Has (emplace k v m).0 j
Has-emplace k j v m h = ground (arith, find-emplace k j v m)

emplace_kept :
    {V : Type 0} (k : Str) (v : V) (m : Map Str V)
    → (emplace k v m).1 ≡ false
    → (emplace k v m).0 ≡ m
unfolding emplace
emplace_kept k v m h = ground arith

module _ {D : Type 0} where
  -- A block with the same accordances, more variables and more SET names.
  pub record Grows (b b' : Block D) : Type 0 where
    pub vars : (k : Str) → Has b.vars k → Has b'.vars k
    pub names : (k : Str) → Has b.vset_names k → Has b'.vset_names k
    pub res_vars : b'.res_vars ≡ b.res_vars
    pub use_vars : b'.use_vars ≡ b.use_vars

  pub Grows-refl : (b : Block D) → Grows b b
  Grows-refl b = record { vars = λ k h. h; names = λ k h. h; res_vars = refl; use_vars = refl }

  pub Grows-trans : {b c d : Block D} → Grows b c → Grows c d → Grows b d
  Grows-trans g h = record {
    vars = λ k x. h.vars k (g.vars k x);
    names = λ k x. h.names k (g.names k x);
    res_vars = h.res_vars ∙ g.res_vars;
    use_vars = h.use_vars ∙ g.use_vars;
  }

  pub Grows-IsWired : {b b' : Block D} → Grows b b' → IsWired b → IsWired b'
  Grows-IsWired g w = record {
    returns = rw g.res_vars (All-mono _ _ _ (λ e h. (g.vars _ h.0, g.names _ h.1)) w.returns);
    uses = rw g.use_vars (All-mono _ _ _ (λ e h. g.vars _ h) w.uses);
  }

  pub more_vars :
      (b : Block D) (vars : Map Str (Parameter D)) (log : List Event)
      → ((k : Str) → Has b.vars k → Has vars k)
      → Grows b (record b { vars = vars; log = log })
  more_vars b vars log h = record { vars = h; names = λ k n. n; res_vars = refl; use_vars = refl }

  pub add_made_variable-Grows :
      (name : Str) (p : Parameter D) (b : Block D) → Grows b (add_made_variable name p b).0
  unfolding add_made_variable
  add_made_variable-Grows name p b = elim (Bool-cases (emplace name p b.vars).1) [
    | inl t ↦ rw t (more_vars b _ _ (λ k h. Has-emplace name k p b.vars h))
    | inr t ↦ rw t (more_vars b _ _ (λ k h. Has-emplace name k p b.vars h))
  ]

  set_names_set-Grows : (names : List Str) (b : Block D) → Grows b (set_names_set names b)
  unfolding set_names_set
  set_names_set-Grows [] b = Grows-refl b
  set_names_set-Grows (name ∷ names) b =
      Grows-trans
        (record {
          vars = λ k h. h;
          names = λ k h. Has-insert name k tt b.vset_names h;
          res_vars = refl;
          use_vars = refl;
        })
        (set_names_set-Grows names _)

  pub add_return_param-IsWired :
      (src dst : Str) (b : Block D) → IsWired b → IsWired (add_return_param src dst b).0
  unfolding add_return_param add_param_accordiance
  add_return_param-IsWired src dst b w = elim (Option-cases (find src b.vars)) [
    | inl e ↦ rw (e, add_return_param) (record { returns = w.returns; uses = w.uses })
    | inr (p, e) ↦
        let has : Has b.vars src = rw e refl in
        elim (Bool-cases (emplace dst src b.res_vars).1) [
          | inl t ↦
              rw (e, t, add_return_param)
                (record {
                  returns =
                      All-emplace (λ x. Has b.vars x.1 × Has (insert src tt b.vset_names) x.1) dst
                        src b.res_vars (has, rw (find-insert_self src tt b.vset_names) refl)
                        (All-mono _ _ _ (λ x h. (h.0, Has-insert src x.1 tt b.vset_names h.1))
                          w.returns);
                  uses = w.uses;
                })
          | inr t ↦
              rw (e, t, emplace_kept dst src b.res_vars t, add_return_param)
                (record { returns = w.returns; uses = w.uses })
        ]
  ]

  pub add_use_param-IsWired :
      (src dst : Str) (b : Block D) → IsWired b → IsWired (add_use_param src dst b).0
  unfolding add_use_param add_param_accordiance
  add_use_param-IsWired src dst b w = elim (Option-cases (find dst b.vars)) [
    | inl e ↦ rw (e, add_use_param) (record { returns = w.returns; uses = w.uses })
    | inr (p, e) ↦
        let has : Has b.vars dst = rw e refl in
        let uses : All (λ x. Has b.vars x.0) (emplace dst src b.use_vars).0 =
          All-emplace (λ x. Has b.vars x.0) dst src b.use_vars has w.uses in
        elim (Bool-cases (emplace dst src b.use_vars).1) [
          | inl t ↦ rw (e, t, add_use_param) (record { returns = w.returns; uses = uses })
          | inr t ↦ rw (e, t, add_use_param) (record { returns = w.returns; uses = uses })
        ]
  ]

module _ {D : Type 0} ⦃fl : Floats D⦄ where
  written-Grows :
      (name : Str) (v p : Parameter D) (changed : Bool) (b : Block D)
      → Grows b (written name v changed p b)
  written-Grows name v p true b = more_vars b _ _ (λ k h. Has-insert name k v b.vars h)
  written-Grows name v p false b = more_vars b _ _ (λ k h. Has-insert name k v b.vars h)

  pub write_from-Grows :
      (val : Map Str (Parameter D)) (res : Names) (b : Block D) → Grows b (write_from val res b).0
  unfolding write_from
  write_from-Grows [] res b = Grows-refl b
  write_from-Grows ((name, p) ∷ val) res b = elim (Option-cases (find name b.vars)) [
    | inl e ↦
        rw (e, write_from) (Grows-trans (more_vars b _ _ (λ k h. h)) (write_from-Grows val res _))
    | inr (v, e) ↦ elim (Bool-cases v.locked) [
      | inl l ↦ rw (e, l, write_from) (write_from-Grows val res b)
      | inr l ↦ elim (Result-cases (copy_data v p)) [
        | inl (r, c) ↦
            rw (e, l, c, write_from)
              (Grows-trans (written-Grows name r.0 p r.1 b)
                (write_from-Grows val (insert name tt res) _))
        | inr (inl (x, c)) ↦ rw (e, l, c, write_from) (Grows-refl b)
        | inr (inr c) ↦ rw (e, l, c, write_from) (Grows-refl b)
      ]
    ]
  ]

  return_vars_runs :
      (vs : Map Str Str) (res : Map Str (Parameter D)) (b : Block D)
      → All (λ e. Has b.vars e.1) vs
      → (res' : Map Str (Parameter D)) × (return_vars vs res b ≡ ok res')
  unfolding return_vars
  return_vars_runs [] res b h = (res, refl)
  return_vars_runs ((dst, src) ∷ vs) res b h = elim (Option-cases (find src b.vars)) [
    | inl e ↦ absurd (ground (arith, h.0, e))
    | inr (p, e) ↦ rw (e, return_vars) (return_vars_runs vs _ b h.1)
  ]

  copy_data_defined : (p a : Parameter D) → copy_data p a ≢ undefined
  unfolding copy_data
  copy_data_defined p a = λ h. ground arith

  pub copy_use_vars_defined :
      (above : Map Str (Parameter D)) (vs : Map Str Str) (b : Block D)
      → All (λ e. Has b.vars e.0) vs
      → (copy_use_vars above vs b).1 ≢ undefined
  unfolding copy_use_vars
  copy_use_vars_defined above [] b h = λ x. cc
  copy_use_vars_defined above ((dst, src) ∷ vs) b h = elim (Option-cases (find src above)) [
    | inl e ↦ rw (e, copy_use_vars) (λ x. cc)
    | inr (p, e) ↦ elim (Option-cases (find dst b.vars)) [
      | inl e' ↦ absurd (ground (arith, h.0, e'))
      | inr (v, e') ↦ elim (Result-cases (copy_data v p)) [
        | inl (r, c) ↦
            rw (e, e', c, copy_use_vars)
              (copy_use_vars_defined above vs _
                (All-mono _ _ _ (λ x g. Has-insert dst x.0 r.0 b.vars g) h.1))
        | inr (inl (x, c)) ↦ rw (e, e', c, copy_use_vars) (λ x. cc)
        | inr (inr c) ↦ absurd (copy_data_defined v p c)
      ]
    ]
  ]

  pub wired_returns :
      (b : Block D)
      → IsWired b
      → (res : Map Str (Parameter D)) × (return_vars b.res_vars [] b ≡ ok res)
  wired_returns b w = return_vars_runs b.res_vars [] b (All-mono _ _ _ (λ e g. g.0) w.returns)

-- The blocks that the constructor and the operations on variables make.
pub data IsBuilt {D : Type 0} ⦃fl : Floats D⦄ : Block D → Type 0 where
  new_block : IsBuilt empty_block
  with_variable : (name type : Str) (b : Block D) → IsBuilt b → IsBuilt (add_variable name type b).0
  with_made_variable :
      (name : Str) (p : Parameter D) (b : Block D)
      → IsBuilt b
      → IsBuilt (add_made_variable name p b).0
  with_set_names : (names : List Str) (b : Block D) → IsBuilt b → IsBuilt (set_names_set names b)
  with_return_param :
      (src dst : Str) (b : Block D) → IsBuilt b → IsBuilt (add_return_param src dst b).0
  with_use_param : (src dst : Str) (b : Block D) → IsBuilt b → IsBuilt (add_use_param src dst b).0
  with_values :
      (allowed : Names) (val : Map Str (Parameter D)) (b : Block D)
      → IsBuilt b
      → IsBuilt (write_variables allowed val b).0

module _ {D : Type 0} ⦃fl : Floats D⦄ where
  -- In a block that is built by the constructor and any sequence of the operations that add
  -- variables, SET names and accordances or that write values, every accordance leads to a variable
  -- of the block, and every returned variable is a SET variable.
  pub IsBuilt-IsWired : (b : Block D) → IsBuilt b → IsWired b
  unfolding add_variable write_variables
  IsBuilt-IsWired _ new_block = record { returns = tt; uses = tt }
  IsBuilt-IsWired _ (with_variable name type b h) = elim (Option-cases (create ⦃fl = fl⦄ type)) [
    | inl e ↦
        rw (e, add_variable) (Grows-IsWired (more_vars b _ _ (λ k g. g)) (IsBuilt-IsWired b h))
    | inr (p, e) ↦
        rw (e, add_variable)
          (Grows-IsWired (add_made_variable-Grows name p b) (IsBuilt-IsWired b h))
  ]
  IsBuilt-IsWired _ (with_made_variable name p b h) =
      Grows-IsWired (add_made_variable-Grows name p b) (IsBuilt-IsWired b h)
  IsBuilt-IsWired _ (with_set_names names b h) =
      Grows-IsWired (set_names_set-Grows names b) (IsBuilt-IsWired b h)
  IsBuilt-IsWired _ (with_return_param src dst b h) =
      add_return_param-IsWired src dst b (IsBuilt-IsWired b h)
  IsBuilt-IsWired _ (with_use_param src dst b h) =
      add_use_param-IsWired src dst b (IsBuilt-IsWired b h)
  IsBuilt-IsWired _ (with_values allowed val b h) =
      Grows-IsWired (write_from-Grows val [] b) (IsBuilt-IsWired b h)

  -- A built block never follows a null pointer in a call: whatever the variables of the block
  -- above, the copying of the used variables is never undefined, and the gathering of the returned
  -- ones always gives a map.
  pub accordances_safe :
      (b : Block D) (above : Map Str (Parameter D))
      → IsBuilt b
      → ((copy_use_vars above b.use_vars b).1 ≢ undefined)
        × (res : Map Str (Parameter D)) × (return_vars b.res_vars [] b ≡ ok res)
  accordances_safe b above h =
      let w = IsBuilt-IsWired b h in
      let (res, e) = wired_returns b w in (copy_use_vars_defined above b.use_vars b w.uses, res, e)
