-- ===== src/Examples/Scheduling.antt =====
-- Runs of the theorems on the scheduler: a block that is due, one that is not, and a subprogram.
use func_sim_engine.Prelude.{refl, ◌≡◌, Bool, true, false, List, [], ◌∷◌, ◌++◌, ◌↔◌, In}
use func_sim_engine.Scheduler.{
  Queries, block, due_blocks, free_subprogs, clbl_with_priority, get_nextcall_objs,
}
use func_sim_engine.Scheduler.Order.{IsSorted, at_priority}
use func_sim_engine.Scheduler.Selection.{clbl_with_priority_stable, called_iff, IsDue}
use func_sim_engine.Examples.{bits, bits-IsOrder}

-- A block is given by whether it is blocked, its priority and the planned time of its last call, a
-- subprogram by its priority.
abbrev Block : Type 0
Block = Bool × Bool × Bool

abbrev queries : Queries Bool Block Bool
queries = record {
  is_blocked = λ b. b.0;
  get_priority = λ b. b.1;
  get_lastcall_time_plan = λ b. b.2;
  subprog_is_blocked = λ s. false;
  subprog_get_priority = λ s. s;
}

abbrev late : Block
late = (false, true, false)

abbrev blocks : List Block
blocks = late ∷ (false, false, true) ∷ []

abbrev subprogs : List Bool
subprogs = true ∷ false ∷ []

clbl_with_priority_stable_example :
    IsSorted bits.lt (clbl_with_priority bits queries true blocks subprogs)
    × (at_priority bits.lt true (clbl_with_priority bits queries true blocks subprogs)
        ≡ at_priority bits.lt true (due_blocks bits queries true blocks)
          ++ at_priority bits.lt true (free_subprogs bits queries true subprogs))
clbl_with_priority_stable_example =
    clbl_with_priority_stable bits queries true blocks subprogs true bits-IsOrder (refl, (refl, tt))
      (refl, (refl, tt)) refl

called_iff_example :
    In (block late) (get_nextcall_objs bits queries true blocks subprogs)
    ↔ (In late blocks × IsDue bits queries true late)
called_iff_example = called_iff bits queries true late blocks subprogs
