-- ===== src/Control/Values.antt =====
-- What `set_parameter_values` does to the parameters.
use func_sim_engine.Prelude.{
  ℕ, suc, ◌+◌, ◌≡◌, refl, ap, ◌⊎◌, true, false, List, [], ◌∷◌, map, length, ◌==◌, ==_iff, Str,
  Bool-cases, inl, inr,
}
use func_sim_engine.Param.Real.{Floats}
use func_sim_engine.Param.Types.{SameType}
use func_sim_engine.Param.Strings.{IsExact, from_string-to_string}
use func_sim_engine.Param.{Value, Parameter, to_string}
use func_sim_engine.Control.{ControlFunc, set_from, set_parameter_values, get_parameter_count}

module _ {D : Type 0} ⦃fl : Floats D⦄ where
  -- As many values as parameters, each of the type of its parameter and printed without loss.
  abbrev pub Fits : List (Parameter D) → List (Value D) → Type 0
  Fits [] [] = Unit
  Fits [] (v ∷ vs) = ⊥
  Fits (p ∷ ps) [] = ⊥
  Fits (p ∷ ps) (v ∷ vs) = SameType p.value v × IsExact v × Fits ps vs

  -- The parameters with these values.
  unfoldable pub with_values : List (Parameter D) → List (Value D) → List (Parameter D)
  with_values [] vs = []
  with_values (p ∷ ps) [] = p ∷ ps
  with_values (p ∷ ps) (v ∷ vs) = record p { value = v } ∷ with_values ps vs

  Fits-length :
      (ps : List (Parameter D)) (vs : List (Value D))
      → Fits ps vs
      → length (map to_string vs) ≡ length ps
  Fits-length [] [] h = refl
  Fits-length [] (v ∷ vs) h = absurd h
  Fits-length (p ∷ ps) [] h = absurd h
  Fits-length (p ∷ ps) (v ∷ vs) h = ap suc (Fits-length ps vs h.2)

  set_from-to_string :
      (i : ℕ) (ps : List (Parameter D)) (vs : List (Value D))
      → Fits ps vs
      → set_from i ps (map to_string vs) ≡ (with_values ps vs, true, [])
  unfolding set_from with_values
  set_from-to_string i [] [] h = refl
  set_from-to_string i [] (v ∷ vs) h = absurd h
  set_from-to_string i (p ∷ ps) [] h = absurd h
  set_from-to_string i (p ∷ ps) (v ∷ vs) h =
      rw (from_string-to_string p v h.0 h.1, set_from-to_string (i + 1) ps vs h.2) refl

  -- Given the texts of as many logical, integer or text values as there are parameters, each of the
  -- type of its parameter, `set_parameter_values` succeeds without a word to the logger, and the
  -- parameters have these values.
  pub set_parameter_values-to_string :
      (f : ControlFunc D) (vs : List (Value D))
      → Fits f.params vs
      → set_parameter_values (map to_string vs) f
        ≡ (record f { params = with_values f.params vs }, true)
  unfolding set_parameter_values
  set_parameter_values-to_string f vs h =
      let l : (length (map to_string vs) == length f.params) ≡ true =
        (==_iff _ _).1 (Fits-length f.params vs h) in
      rw (l, set_from-to_string 0 f.params vs h) refl

  length-set_from :
      (i : ℕ) (ps : List (Parameter D)) (values : List Str)
      → length (set_from i ps values).0 ≡ length ps
  unfolding set_from
  length-set_from i [] values = refl
  length-set_from i (p ∷ ps) [] = refl
  length-set_from i (p ∷ ps) (v ∷ vs) = ap suc (length-set_from (i + 1) ps vs)

  -- Whatever texts are given, the count of the parameters stays, and a wrong count of texts leaves
  -- all parameters as they were and is reported as a failure.
  pub set_parameter_values_count :
      (values : List Str) (f : ControlFunc D)
      → (get_parameter_count (set_parameter_values values f).0 ≡ get_parameter_count f)
        × ((length values ≡ length f.params)
            ⊎ (((set_parameter_values values f).0.params ≡ f.params)
                × ((set_parameter_values values f).1 ≡ false)))
  unfolding set_parameter_values get_parameter_count
  set_parameter_values_count values f = elim (Bool-cases (length values == length f.params)) [
    | inl t ↦ rw t (length-set_from 0 f.params values, inl ((==_iff _ _).0 t))
    | inr t ↦ rw t (refl, inr (refl, refl))
  ]
