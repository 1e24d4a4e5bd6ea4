-- ===== src/Block/Typing.antt =====
-- A variable of a block keeps its type, whatever is written.
use func_sim_engine.Prelude.{
  ◌≡◌, refl, subst, ◌∙◌, Bool, true, false, some, [], ◌∷◌, Str, str_eq, str_eq_iff, Bool-cases,
  Option-cases, inl, inr,
}
use func_sim_engine.StdMap.{Map, str_key, find, insert, find-insert_self, find-insert_ne}
use func_sim_engine.Result.{Result-cases, Returns}
use func_sim_engine.Param.Real.{Floats}
use func_sim_engine.Param.Types.{
  SameType, Paired, Paired-SameType, Paired-trans, booleans, integers, reals, texts,
}
use func_sim_engine.Param.{Value, boolean, integer, real, text, Parameter, value_eq, copy_data}
use func_sim_engine.Block.{Block, Names, written, write_from, write_variables}

module _ {D : Type 0} where
  Paired-refl : (v : Value D) → Paired v v
  Paired-refl (boolean a) = booleans a a
  Paired-refl (integer a) = integers a a
  Paired-refl (real a) = reals a a
  Paired-refl (text a) = texts a a

  -- A parameter of the same type.
  abbrev Kept : Parameter D → Parameter D → Type 0
  Kept p p' = Paired p.value p'.value × (p'.type ≡ p.type)

module _ {D : Type 0} ⦃fl : Floats D⦄ where
  value_eq-Paired : (v w : Value D) (b : Bool) → value_eq v w ≡ some b → Paired v w
  unfolding value_eq
  value_eq-Paired (boolean a) (boolean c) b h = booleans a c
  value_eq-Paired (integer a) (integer c) b h = integers a c
  value_eq-Paired (real a) (real c) b h = reals a c
  value_eq-Paired (text a) (text c) b h = texts a c
  value_eq-Paired (boolean a) (integer c) b h = cc
  value_eq-Paired (boolean a) (real c) b h = cc
  value_eq-Paired (boolean a) (text c) b h = cc
  value_eq-Paired (integer a) (boolean c) b h = cc
  value_eq-Paired (integer a) (real c) b h = cc
  value_eq-Paired (integer a) (text c) b h = cc
  value_eq-Paired (real a) (boolean c) b h = cc
  value_eq-Paired (real a) (integer c) b h = cc
  value_eq-Paired (real a) (text c) b h = cc
  value_eq-Paired (text a) (boolean c) b h = cc
  value_eq-Paired (text a) (integer c) b h = cc
  value_eq-Paired (text a) (real c) b h = cc

  copy_data-Kept : (p a : Parameter D) → Returns (λ r. Kept p r.0) (copy_data p a)
  unfolding copy_data
  copy_data-Kept p a = elim (Option-cases (value_eq p.value a.value)) [
    | inl e ↦ rw (e, copy_data) tt
    | inr (true, e) ↦ rw (e, copy_data) (Paired-refl p.value, refl)
    | inr (false, e) ↦ rw (e, copy_data) (value_eq-Paired p.value a.value false e, refl)
  ]

  written_vars :
      (name : Str) (v p : Parameter D) (changed : Bool) (b : Block D)
      → (written name v changed p b).vars ≡ insert name v b.vars
  written_vars name v p true b = refl
  written_vars name v p false b = refl

  -- What was found under a name, after one variable was written.
  written-Kept :
      (name : Str) (v v' p : Parameter D) (changed : Bool) (b : Block D) (k : Str) (q : Parameter D)
      → find name b.vars ≡ some v
      → Kept v v'
      → find k b.vars ≡ some q
      → (q' : Parameter D) × (find k (written name v' changed p b).vars ≡ some q') × Kept q q'
  written-Kept name v v' p changed b k q e kept f =
      rw (written_vars name v' p changed b) (elim (Bool-cases (str_eq name k)) [
        | inl t ↦
            let same : name ≡ k = (str_eq_iff name k).0 t in
            let v_is_q : v ≡ q = cc in
            (
              v',
              subst (λ j. find j (insert name v' b.vars) ≡ some v') same
                  (find-insert_self name v' b.vars),
              subst (λ x. Kept x v') v_is_q kept,
            )
        | inr t ↦ (q, find-insert_ne name k v' b.vars t ∙ f, (Paired-refl q.value, refl))
      ])

  write_from-Kept :
      (val : Map Str (Parameter D)) (res : Names) (b : Block D) (k : Str) (q : Parameter D)
      → find k b.vars ≡ some q
      → (q' : Parameter D) × (find k (write_from val res b).0.vars ≡ some q') × Kept q q'
  unfolding write_from
  write_from-Kept [] res b k q f = (q, f, (Paired-refl q.value, refl))
  write_from-Kept ((name, p) ∷ val) res b k q f = elim (Option-cases (find name b.vars)) [
    | inl e ↦ rw (e, write_from) (write_from-Kept val res _ k q f)
    | inr (v, e) ↦ elim (Bool-cases v.locked) [
      | inl l ↦ rw (e, l, write_from) (write_from-Kept val res b k q f)
      | inr l ↦ elim (Result-cases (copy_data v p)) [
        | inl (r, c) ↦
            let kept : Kept v r.0 = subst (Returns (λ r. Kept v r.0)) c (copy_data-Kept v p) in
            let (q1, f1, k1) = written-Kept name v r.0 p r.1 b k q e kept f in
            let (q2, f2, k2) =
              write_from-Kept val (insert name tt res) (written name r.0 r.1 p b) k q1 f1 in
            rw (e, l, c, write_from) (q2, f2, (Paired-trans k1.0 k2.0, k2.1 ∙ k1.1))
        | inr (inl (x, c)) ↦ rw (e, l, c, write_from) (q, f, (Paired-refl q.value, refl))
        | inr (inr c) ↦ rw (e, l, c, write_from) (q, f, (Paired-refl q.value, refl))
      ]
    ]
  ]

  -- Whatever is written to a block, and even if the writing ends with an exception, a variable of
  -- the block is still there after it, and it is of the same type.
  pub write_variables-SameType :
      (allowed : Names) (val : Map Str (Parameter D)) (b : Block D) (k : Str) (q : Parameter D)
      → find k b.vars ≡ some q
      → (q' : Parameter D) × (find k (write_variables allowed val b).0.vars ≡ some q')
        × SameType q.value q'.value
        × (q'.type ≡ q.type)
  unfolding write_variables
  write_variables-SameType allowed val b k q f =
      let (q', f', (same, type)) = write_from-Kept val [] b k q f in
      (q', f', Paired-SameType same, type)
