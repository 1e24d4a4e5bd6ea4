-- ===== src/Callable/Times.antt =====
-- The times of calls, the notices of changes, and conditions that are read back.
use func_sim_engine.Prelude.{◌≡◌, ◌∙◌, refl, ap, Bool-cases, inl, inr, Bool, true, false, [], Str}
use func_sim_engine.StdMap.{Map}
use func_sim_engine.Result.{Result}
use func_sim_engine.Formula.Text.{parse-get_cond}
use func_sim_engine.Param.Real.{Floats}
use func_sim_engine.Callable.{
  Callable, pre_call, post_call, call_around, set_lock, set_power_cond, get_power_cond, is_powered,
}

module _ {D : Type 0} ⦃fl : Floats D⦄ where
  -- Two calls one after the other, where a call itself leaves the time of the last call alone: the
  -- second call finds as its time difference the span from the start of the first to its own start,
  -- and the process time is the span of the second call.
  pub call_around-twice :
      (b b' e e' : D) (during during' : Callable D → Callable D) (c : Callable D)
      → ((x : Callable D) → (during x).lastcall_time ≡ x.lastcall_time)
      → ((x : Callable D) → (during' x).lastcall_time ≡ x.lastcall_time)
      → ((x : Callable D) → (during' x).delta_time ≡ x.delta_time)
      → ((call_around b' during' e' (call_around b during e c)).delta_time ≡ fl.sub b' b)
        × ((call_around b' during' e' (call_around b during e c)).process_time ≡ fl.sub e' b')
        × ((call_around b' during' e' (call_around b during e c)).lastcall_time ≡ b')
  unfolding call_around pre_call post_call
  call_around-twice b b' e e' during during' c h h' k =
      (k _ ∙ ap (fl.sub b') (h _), ap (fl.sub e') (h' _), h' _)

  -- However often `set_lock` is called with one value, the state is that value, and the logger is
  -- told at the first call at most, which is when the state was the other one.
  pub set_lock-twice :
      (lock : Bool) (c : Callable D)
      → ((set_lock lock c).0.is_blocked ≡ lock)
        × (set_lock lock (set_lock lock c).0 ≡ ((set_lock lock c).0, []))
  unfolding set_lock
  set_lock-twice true c = elim (Bool-cases c.is_blocked) [
    | inl t ↦ rw (t, set_lock) (refl, refl)
    | inr t ↦ rw (t, set_lock) (refl, refl)
  ]
  set_lock-twice false c = elim (Bool-cases c.is_blocked) [
    | inl t ↦ rw (t, set_lock) (refl, refl)
    | inr t ↦ rw (t, set_lock) (refl, refl)
  ]

  -- A power condition that is printed and set again powers the object for the same variables.
  pub is_powered-get_power_cond :
      {P : Type 0} (get : P → Result Bool) (v : Map Str P) (src : Str) (c : Callable D)
      → is_powered get v (set_power_cond (get_power_cond (set_power_cond src c)) c)
        ≡ is_powered get v (set_power_cond src c)
  unfolding set_power_cond get_power_cond
  is_powered-get_power_cond get v src c =
      ap (λ s. is_powered get v (record c { cond_s = s })) (parse-get_cond src true)
