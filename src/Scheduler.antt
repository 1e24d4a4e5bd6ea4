-- ===== src/Scheduler.antt =====
-- `StdScheduler::get_nextcall_objs` of kernel/detail/std.hpp: what is to be called, in which order.
pub mod Order
pub mod Selection
use func_sim_engine.Prelude.{Bool, true, false, not, ◌&&◌, List, [], ◌∷◌, map, if◌then◌else◌, Str}
use func_sim_engine.StdMap.{Map}
use func_sim_engine.Param.Real.{Floats}

-- A `callable_ptr`: to a block or to a subprogram.
pub data CallablePtr (B S : Type 0) : Type 0 where
  block : B → CallablePtr B S
  subprogram : S → CallablePtr B S

module _ {D : Type 0} (lt : D → D → Bool) {A : Type 0} where
  -- `std::multimap::emplace`: behind the entries of an equal key.
  unfoldable pub emplace : D → A → List (D × A) → List (D × A)
  emplace k v [] = (k, v) ∷ []
  emplace k v ((j, w) ∷ m) =
      let rest = emplace k v m in if lt k j then (k, v) ∷ (j, w) ∷ m else (j, w) ∷ rest

  unfoldable pub emplace_all : List (D × A) → List (D × A) → List (D × A)
  emplace_all [] m = m
  emplace_all ((k, v) ∷ l) m = emplace_all l (emplace k v m)

-- What the loops ask of a block and of a subprogram.
pub record Queries (D B S : Type 0) : Type 0 where
  pub is_blocked : B → Bool
  pub get_priority : B → D
  pub get_lastcall_time_plan : B → D
  pub subprog_is_blocked : S → Bool
  pub subprog_get_priority : S → D

module _ {D B S : Type 0} (fl : Floats D) (q : Queries D B S) (time : D) where
  -- `!is_blocked() && time > get_lastcall_time_plan()`
  unfoldable pub is_due : B → Bool
  is_due b = not (q.is_blocked b) && fl.lt (q.get_lastcall_time_plan b) time

  -- The first loop, as the entries that it adds in turn.
  unfoldable pub due_blocks : List B → List (D × CallablePtr B S)
  unfolding is_due
  due_blocks [] = []
  due_blocks (b ∷ bs) =
      let rest = due_blocks bs in if is_due b then (q.get_priority b, block b) ∷ rest else rest

  -- The second loop.
  unfoldable pub free_subprogs : List S → List (D × CallablePtr B S)
  free_subprogs [] = []
  free_subprogs (s ∷ ss) =
      let rest = free_subprogs ss in
      if q.subprog_is_blocked s then rest else (q.subprog_get_priority s, subprogram s) ∷ rest

  unfoldable pub clbl_with_priority : List B → List S → List (D × CallablePtr B S)
  clbl_with_priority bs ss =
      emplace_all fl.lt (free_subprogs ss) (emplace_all fl.lt (due_blocks bs) [])

  -- `get_nextcall_objs` on the values of the two maps, in the order of their names.
  unfoldable pub get_nextcall_objs : List B → List S → List (CallablePtr B S)
  unfolding clbl_with_priority
  get_nextcall_objs bs ss = map (λ e. e.1) (clbl_with_priority bs ss)
