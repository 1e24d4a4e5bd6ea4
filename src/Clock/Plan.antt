-- ===== src/Clock/Plan.antt =====
-- The plan of the calls does not drift, and the time of processing is counted from it.
use func_sim_engine.Prelude.{
  ℕ, ◌+◌, ◌*◌, ◌≤◌, ◌≡◌, refl, ap, ◌∙◌, List, [], ◌∷◌, ltb, length, Bool-cases, inl, inr, arith,
  if◌then◌else◌,
}
use func_sim_engine.Clock.{BoostClock, wait_interval, wait_all, wakes}

wait_interval_iter : (c : BoostClock) (now : ℕ) → (wait_interval c now).0.iter ≡ c.iter + c.dt
unfolding wait_interval
wait_interval_iter c now = ground arith

wait_interval_dt : (c : BoostClock) (now : ℕ) → (wait_interval c now).0.dt ≡ c.dt
unfolding wait_interval
wait_interval_dt c now = ground arith

wait_interval_has :
    (c : BoostClock) (now : ℕ)
    → (wait_interval c now).0.process_time.has ≡ c.process_time.has + (c.dt + now)
unfolding wait_interval
wait_interval_has c now = ground arith

wait_interval_lacks :
    (c : BoostClock) (now : ℕ)
    → (wait_interval c now).0.process_time.lacks ≡ c.process_time.lacks + (c.iter + c.dt)
unfolding wait_interval
wait_interval_lacks c now = ground arith

ruleset one = (wait_interval_iter, wait_interval_dt, wait_interval_has, wait_interval_lacks)

-- How late each call ends after the moment it was planned for.
abbrev pub sum : List ℕ → ℕ
sum [] = 0
sum (n ∷ ns) = n + sum ns

-- The moments that calls are planned for, from one on.
abbrev pub planned : ℕ → ℕ → List ℕ → ℕ
planned first dt [] = 0
planned first dt (n ∷ ns) = first + planned (first + dt) dt ns

mul_suc : (n d : ℕ) → (n + 1) * d ≡ n * d + d
mul_suc n d = omega arith

wait_all_dt : (c : BoostClock) (nows : List ℕ) → (wait_all c nows).dt ≡ c.dt
unfolding wait_all
wait_all_dt c [] = refl
wait_all_dt c (now ∷ nows) = wait_all_dt (wait_interval c now).0 nows ∙ wait_interval_dt c now

wait_all_iter :
    (c : BoostClock) (nows : List ℕ) → (wait_all c nows).iter ≡ c.iter + length nows * c.dt
unfolding wait_all
wait_all_iter c [] = omega arith
wait_all_iter c (now ∷ nows) =
    wait_all_iter (wait_interval c now).0 nows
    ∙ rw (wait_interval_iter c now, wait_interval_dt c now)
        (ground (arith, mul_suc (length nows) c.dt))

wait_interval_wakes :
    (c : BoostClock) (now : ℕ)
    → wakes now (wait_interval c now).2 ≡ (if ltb (c.iter + c.dt) now then now else c.iter + c.dt)
unfolding wait_interval
wait_interval_wakes c now = elim (Bool-cases (ltb (c.iter + c.dt) now)) [
  | inl e ↦ rw (e, wait_interval) refl
  | inr e ↦
      let l : now ≤ c.iter + c.dt = ground (arith, e) in rw (e, wait_interval) (omega (arith, l))
]

-- However late the steps end, the plan does not drift: after any waits at any readings of the clock,
-- the next wait ends, if the thread sleeps just as long as it asks, at the moment planned for it,
-- the start and that many periods, or at once if that moment is past.
pub wait_all-wakes :
    (c : BoostClock) (nows : List ℕ) (now : ℕ)
    → let plan = c.iter + (length nows + 1) * c.dt in
      let (next, dt, sleep) = wait_interval (wait_all c nows) now in
      (next.iter ≡ plan) × (wakes now sleep ≡ (if ltb plan now then now else plan))
unfolding wait_interval
wait_all-wakes c nows now =
    let i = wait_all_iter c nows in
    let d = wait_all_dt c nows in
    let e : (wait_all c nows).iter + (wait_all c nows).dt ≡ c.iter + (length nows + 1) * c.dt =
      rw (i, d) (ground (arith, mul_suc (length nows) c.dt)) in
    (
      wait_interval_iter (wait_all c nows) now ∙ e,
      wait_interval_wakes (wait_all c nows) now ∙ ap (λ p. if ltb p now then now else p) e,
    )

-- The processing time after some waits, less that before, is the sum over the waits of the time from
-- the moment that the step was planned for to its end.
pub wait_all_process_time :
    (c : BoostClock) (nows : List ℕ)
    → (wait_all c nows).process_time.has + (c.process_time.lacks + planned c.iter c.dt nows)
      ≡ (wait_all c nows).process_time.lacks + (c.process_time.has + sum nows)
unfolding wait_all
wait_all_process_time c [] = omega arith
wait_all_process_time c (now ∷ nows) =
    let ih = wait_all_process_time (wait_interval c now).0 nows in
    let ih' = rw one at ih in omega (arith, ih')
