-- ===== src/Clock.antt =====
-- process/boost_clock.cpp: the clock that says when the main block is called next, in microseconds.
-- A reading of the clock of the system is an argument. A duration may be negative: it is the
-- difference of two counts. Seconds as a `double` are the business of the dispatcher.
pub mod Plan
use func_sim_engine.Prelude.{
  ℕ, ◌+◌, ◌-◌, Bool, true, false, Option, none, some, List, [], ◌∷◌, ltb, if◌then◌else◌,
}

-- `time_duration`: what it has, less what it lacks.
pub record Span : Type 0 where
  pub has : ℕ
  pub lacks : ℕ

abbrev pub difference : ℕ → ℕ → Span
difference a b = record { has = a; lacks = b }

abbrev pub add : Span → Span → Span
add x y = record { has = x.has + y.has; lacks = x.lacks + y.lacks }

-- `a - b`
abbrev pub minus : Span → Span → Span
minus x y = record { has = x.has + y.lacks; lacks = x.lacks + y.has }

-- `_start_time`, `*_iter`, `_dt`, `_process_time`.
pub record BoostClock : Type 0 where
  pub start_time : ℕ
  pub iter : ℕ
  pub dt : ℕ
  pub process_time : Span

-- The constructor, for a period in microseconds.
unfoldable pub boost_clock : ℕ → ℕ → BoostClock
boost_clock period now = record {
  start_time = now;
  iter = now;
  dt = period;
  process_time = difference 0 0;
}

-- `get_time`, `get_process_time`
unfoldable pub get_time : BoostClock → ℕ → Span
get_time c now = difference now c.start_time

unfoldable pub get_process_time : BoostClock → Span
get_process_time c = c.process_time

-- `save_time`
unfoldable pub save_time : BoostClock → ℕ → BoostClock
save_time c now = record c { iter = now }

-- `wait_interval`: the clock, the time of waiting that is returned, and how long the thread sleeps.
unfoldable pub wait_interval : BoostClock → ℕ → BoostClock × Span × Option ℕ
wait_interval c now =
    let next = c.iter + c.dt in
    let dt = difference next now in
    let c' = record c {
      iter = next;
      process_time = add c.process_time (minus (difference c.dt 0) dt);
    } in
    if ltb next now then (c', dt, none) else (c', dt, some (next - now))

-- The clock after a wait at each of these readings.
unfoldable pub wait_all : BoostClock → List ℕ → BoostClock
unfolding wait_interval
wait_all c [] = c
wait_all c (now ∷ nows) = wait_all (wait_interval c now).0 nows

-- When the thread goes on, if it sleeps just as long as it asks.
abbrev pub wakes : ℕ → Option ℕ → ℕ
wakes now none = now
wakes now (some us) = now + us
