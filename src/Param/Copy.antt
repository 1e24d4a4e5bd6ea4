-- ===== src/Param/Copy.antt =====
-- `copy_data`, `clone`, `is_equal` and the typed access `map_tools::get`.
use func_sim_engine.Prelude.{
  ◌≡◌, refl, ap, Bool, true, false, not, none, some, [], arith, ◌==◌, ==_iff, if◌then◌else◌, Str,
  str_eq, str_eq_refl,
}
use func_sim_engine.StdMap.{Map, str_key, find}
use func_sim_engine.Result.{ok, throw, bad_cast, invalid_type}
use func_sim_engine.Param.Real.{Floats}
use func_sim_engine.Param.Types.{
  SameType, Paired, SameType-Paired, Paired-SameType, Paired-trans, Paired-sym, booleans, integers,
  reals, texts,
}
use func_sim_engine.Param.{
  Value, boolean, integer, real, text, Parameter, value_eq, copy_data, clone, get, type_name,
  default_value, holder,
}

-- No value is a NaN, which differs from itself.
abbrev IsReflexive : {D : Type 0} → Floats D → Type 0
IsReflexive {D} fl = (d : D) → fl.eq d d ≡ true

module _ {D : Type 0} ⦃fl : Floats D⦄ where
  pub value_eq_refl : (v : Value D) → IsReflexive fl → value_eq v v ≡ some true
  unfolding value_eq
  value_eq_refl (boolean true) h = refl
  value_eq_refl (boolean false) h = refl
  value_eq_refl (integer n) h = ap some ((==_iff n n).1 refl)
  value_eq_refl (real d) h = ap some (h d)
  value_eq_refl (text s) h = ap some (str_eq_refl s)

  Paired-value_eq : {v w : Value D} → Paired v w → (b : Bool) × (value_eq v w ≡ some b)
  unfolding value_eq
  Paired-value_eq (booleans a b) = (if a then b else not b, refl)
  Paired-value_eq (integers a b) = (a == b, refl)
  Paired-value_eq (reals a b) = (fl.eq a b, refl)
  Paired-value_eq (texts a b) = (str_eq a b, refl)

  -- What `copy_data` of `a` makes of `p`.
  pub record IsCopied (p a q : Parameter D) (changed : Bool) : Type 0 where
    pub equal : value_eq q.value a.value ≡ some true
    pub before : value_eq p.value a.value ≡ some (not changed)
    pub kept : changed ≡ false → q ≡ p
    pub type : q.type ≡ p.type
    pub desc : q.desc ≡ p.desc
    pub locked : q.locked ≡ p.locked

  -- The value of a parameter equals itself: it is no NaN.
  abbrev pub IsNumber : Parameter D → Type 0
  IsNumber a = value_eq a.value a.value ≡ some true

  by_answer :
      (p a : Parameter D) (same : Bool)
      → IsNumber a
      → value_eq p.value a.value ≡ some same
      → (q : Parameter D) × (changed : Bool) × (copy_data p a ≡ ok (q, changed))
        × IsCopied p a q changed
  unfolding copy_data
  by_answer p a true r e = (
    p,
    false,
    ground arith,
    record { equal = e; before = e; kept = λ h. refl; type = refl; desc = refl; locked = refl },
  )
  by_answer p a false r e = (
    record p { value = a.value },
    true,
    ground arith,
    record { equal = r; before = e; kept = λ h. cc; type = refl; desc = refl; locked = refl },
  )

  -- Between holders of one class, the second of which holds no NaN, `copy_data` returns. Afterwards the values are equal; it says
  -- `false` exactly where they were equal before, and then leaves the holder as it was. The type,
  -- the description and the lock stay.
  pub copy_data_lem :
      (p a : Parameter D)
      → IsNumber a
      → SameType p.value a.value
      → (q : Parameter D) × (changed : Bool) × (copy_data p a ≡ ok (q, changed))
        × IsCopied p a q changed
  copy_data_lem p a r s =
      let (same, e) = Paired-value_eq (SameType-Paired p.value a.value s) in by_answer p a same r e

  value_eq_differ : (v w : Value D) → ¬ SameType v w → value_eq v w ≡ none
  unfolding value_eq
  value_eq_differ (boolean a) (boolean b) n = absurd (n tt)
  value_eq_differ (boolean a) _ n = refl
  value_eq_differ (integer a) (integer b) n = absurd (n tt)
  value_eq_differ (integer a) _ n = refl
  value_eq_differ (real a) (real b) n = absurd (n tt)
  value_eq_differ (real a) _ n = refl
  value_eq_differ (text a) (text b) n = absurd (n tt)
  value_eq_differ (text a) _ n = refl

  -- Between holders of two classes it throws `bad_cast`.
  pub copy_data_bad_cast :
      (p a : Parameter D) → ¬ SameType p.value a.value → copy_data p a ≡ throw bad_cast
  unfolding copy_data
  copy_data_bad_cast p a n = ground (arith, value_eq_differ p.value a.value n)

  -- A clone: an equal value of the same type, unlocked and with no description.
  pub record IsClone (p c : Parameter D) : Type 0 where
    pub same : SameType c.value p.value
    pub equal : value_eq c.value p.value ≡ some true
    pub type : c.type ≡ type_name p.value
    pub locked : c.locked ≡ false
    pub desc : c.desc ≡ []

  SameType-refl : (v : Value D) → SameType v v
  SameType-refl (boolean b) = tt
  SameType-refl (integer n) = tt
  SameType-refl (real d) = tt
  SameType-refl (text s) = tt

  SameType-default_value : (v : Value D) → SameType (default_value v) v
  unfolding default_value
  SameType-default_value (boolean b) = tt
  SameType-default_value (integer n) = tt
  SameType-default_value (real d) = tt
  SameType-default_value (text s) = tt

  type_name-default_value : (v : Value D) → type_name (default_value v) ≡ type_name v
  unfolding default_value type_name
  type_name-default_value (boolean b) = refl
  type_name-default_value (integer n) = refl
  type_name-default_value (real d) = refl
  type_name-default_value (text s) = refl

  -- The new holder is of the class of the old one, so `copy_data` returns.
  copied_IsClone :
      (p : Parameter D) (same : Bool)
      → IsReflexive fl
      → value_eq (default_value p.value) p.value ≡ some same
      → IsClone p (clone p)
  unfolding clone copy_data holder
  copied_IsClone p true r e =
      rw (e, copy_data)
        (record {
          same = SameType-default_value p.value;
          equal = e;
          type = type_name-default_value p.value;
          locked = refl;
          desc = refl;
        })
  copied_IsClone p false r e =
      rw (e, copy_data)
        (record {
          same = SameType-refl p.value;
          equal = value_eq_refl p.value r;
          type = type_name-default_value p.value;
          locked = refl;
          desc = refl;
        })

  -- A clone is of the type of its source and holds an equal value, but has lost the description and
  -- the lock.
  pub clone-IsClone : (p : Parameter D) → IsReflexive fl → IsClone p (clone p)
  clone-IsClone p r =
      let (same, e) = Paired-value_eq (SameType-Paired _ _ (SameType-default_value p.value)) in
      copied_IsClone p same r e

  clone-Paired : (p : Parameter D) → IsReflexive fl → Paired (clone p).value p.value
  clone-Paired p r = SameType-Paired _ _ (clone-IsClone p r).same

  -- Typed access to a variable that is there: at its type it returns a value equal to the
  -- variable's, and at another type it throws `invalid_type`.
  pub get_lem :
      (want : Value D) (map : Map Str (Parameter D)) (name : Str) (p : Parameter D)
      → IsReflexive fl
      → find name map ≡ some p
      → (SameType want p.value
          → (v : Value D) × (get want map name ≡ ok v) × (value_eq v p.value ≡ some true))
        × (¬ SameType want p.value → get want map name ≡ throw (invalid_type name))
  unfolding get
  get_lem want map name p r e = (
    λ s.
        let (same, e') =
          Paired-value_eq (Paired-trans (SameType-Paired _ _ s) (Paired-sym (clone-Paired p r))) in
        ((clone p).value, ground arith, (clone-IsClone p r).equal),
    λ n.
        let e' : value_eq want (clone p).value ≡ none =
          value_eq_differ _ _
            (λ s. n (Paired-SameType (Paired-trans (SameType-Paired _ _ s) (clone-Paired p r)))) in
        ground arith,
  )
