-- ===== src/Callable.antt =====
-- kernel/callable.hpp: what blocks and subprograms share. The clock gives the seconds since the
-- object was made; what `call` itself does is an argument, and the logger is told a list of events.
pub mod Times
use func_sim_engine.Prelude.{
  ℕ, Bool, true, false, not, Option, none, some, List, [], ◌∷◌, if◌then◌else◌, Str,
}
use func_sim_engine.StdMap.{Map}
use func_sim_engine.Result.{Result}
use func_sim_engine.Formula.{Solver, logic_operations, parse, get_cond, get_operands, solve}
use func_sim_engine.Param.Real.{Floats}

pub data Notice (D : Type 0) : Type 0 where
  notify_priority_change : Str → D → Notice D
  notify_block_lock notify_block_unlock : Str → Notice D

-- `_name`, `_start` (the reading of the clock), `_lastcall_time`, `_process_time`, `_delta_time`, `_priority`, `_isblocked`, `_cond_s`.
pub record Callable (D : Type 0) : Type 0 where
  pub name : Str
  pub start : ℕ
  pub lastcall_time : D
  pub process_time : D
  pub delta_time : D
  pub priority : D
  pub is_blocked : Bool
  pub cond_s : Solver Bool

-- The clock of the system in a world, and `( t - _start ).total_microseconds() * 1e-6`.
pub record SystemClock (D W : Type 0) : Type 0 where
  pub universal_time : W → ℕ × W
  pub elapsed : ℕ → ℕ → D

module _ {D : Type 0} ⦃fl : Floats D⦄ where
  -- The constructor.
  unfoldable pub callable : ℕ → Str → D → Bool → Callable D
  unfolding parse
  callable start name priority isblocked = record {
    name = name;
    start = start;
    lastcall_time = fl.zero;
    process_time = fl.zero;
    delta_time = fl.zero;
    priority = priority;
    is_blocked = isblocked;
    cond_s = parse [] true;
  }

  unfoldable pub pre_call : D → Callable D → Callable D
  pre_call now c = record c { delta_time = fl.sub now c.lastcall_time; lastcall_time = now }

  unfoldable pub post_call : D → Callable D → Callable D
  post_call now c = record c { process_time = fl.sub now c.lastcall_time }

  -- `operator()` around a `call` that returns: `during` is what the call does to the object.
  unfoldable pub call_around : D → (Callable D → Callable D) → D → Callable D → Callable D
  unfolding pre_call post_call
  call_around before during after c = post_call after (during (pre_call before c))

  -- `touch`
  unfoldable pub touch : D → Callable D → Callable D
  unfolding pre_call
  touch now c = pre_call now c

  -- `set_priority`
  unfoldable pub set_priority : D → Callable D → Callable D × List (Notice D)
  set_priority priority c =
      if fl.eq c.priority priority
      then (c, [])
      else (record c { priority = priority }, notify_priority_change c.name priority ∷ [])

  -- `set_lock`
  unfoldable pub set_lock : Bool → Callable D → Callable D × List (Notice D)
  set_lock lock c =
      let changed : Bool = if c.is_blocked then not lock else lock in
      let notice : Notice D =
        if lock then notify_block_lock c.name else notify_block_unlock c.name in
      if changed then (record c { is_blocked = lock }, notice ∷ []) else (c, [])

  -- `set_power_cond`, `get_power_cond`, `get_power_vars`
  unfoldable pub set_power_cond : Str → Callable D → Callable D
  unfolding parse
  set_power_cond src c = record c { cond_s = parse src true }

  unfoldable pub get_power_cond : Callable D → Str
  unfolding get_cond
  get_power_cond c = get_cond c.cond_s

  unfoldable pub get_power_vars : Callable D → List Str
  unfolding get_operands
  get_power_vars c = get_operands logic_operations c.cond_s

  -- `is_powered`
  unfoldable pub is_powered :
      {P : Type 0} → (P → Result Bool) → Map Str P → Callable D → Result Bool
  unfolding solve
  is_powered get v c = solve logic_operations get v c.cond_s

module _ {D W : Type 0} ⦃fl : Floats D⦄ (clock : SystemClock D W) where
  -- `pre_call` and `post_call` at the time that the clock shows.
  unfoldable pub start_call : Callable D → W → Callable D × W
  unfolding pre_call
  start_call c w =
      let (t, w') = clock.universal_time w in (pre_call (clock.elapsed t c.start) c, w')

  unfoldable pub end_call : Callable D → W → Callable D × W
  unfolding post_call
  end_call c w = let (t, w') = clock.universal_time w in (post_call (clock.elapsed t c.start) c, w')
