-- ===== src/Examples/Blocks.antt =====
-- Runs of the theorems on blocks.
use func_sim_engine.Prelude.{
  some, ◌≡◌, ◌≢◌, refl, Bool, true, false, [], ◌∷◌, Str, lit, str_eq, is_some, inl, inr, Bool-cases,
  str_eq_iff, subst,
}
use func_sim_engine.StdMap.{Map, str_key, find}
use func_sim_engine.Result.{ok, undefined}
use func_sim_engine.Param.{Parameter, value_eq}
use func_sim_engine.Block.{
  Block, Names, empty_block, add_made_variable, add_return_param, write_variables, copy_use_vars,
  return_vars,
}
use func_sim_engine.Block.Writing.{write_variables_lem, Outcome, CanWrite, IsKeyed}
use func_sim_engine.Param.Types.{SameType}
use func_sim_engine.Block.Typing.{write_variables-SameType}
use func_sim_engine.Block.Wiring.{
  IsBuilt, new_block, with_made_variable, with_return_param, accordances_safe,
}
use func_sim_engine.Examples.{bits, flag, number, name_a, name_n, variables}

-- A block with the variables `a` and `n`.
abbrev plant : Block Bool
plant = record empty_block { vars = variables false 1 }

-- A new value for `n`, and one for a name that the block has not.
abbrev given : Map Str (Parameter Bool)
given = (name_n, number 2) ∷ (lit "x", flag true) ∷ []

abbrev Writable : Str → Type 0
Writable k = CanWrite (find k plant.vars) (find k given)

can_write : (k : Str) → CanWrite (find k plant.vars) (find k given)
unfolding find str_eq value_eq
can_write k = elim (Bool-cases (str_eq name_n k)) [
  | inl t ↦ subst Writable ((str_eq_iff name_n k).0 t) (inr (tt, refl))
  | inr t ↦ elim (Bool-cases (str_eq (lit "x") k)) [
    | inl u ↦ subst Writable ((str_eq_iff (lit "x") k).0 u) tt
    | inr u ↦ rw (t, u) tt
  ]
]

given-IsKeyed : IsKeyed given
unfolding find str_eq
given-IsKeyed = (refl, (refl, tt))

write_variables_lem_example :
    (b' : Block Bool) × (names : Names) × (write_variables [] given plant ≡ (b', ok names))
    × ((k : Str)
        → Outcome (find k plant.vars) (find k given) (find k b'.vars) (is_some (find k names)))
write_variables_lem_example = write_variables_lem [] given plant given-IsKeyed can_write

-- The variable `a` is returned as `out`.
abbrev pub built : Block Bool
built = (add_return_param name_a (lit "out") (add_made_variable name_a (flag true) empty_block).0).0

pub built-IsBuilt : IsBuilt built
built-IsBuilt =
    with_return_param name_a (lit "out") _ (with_made_variable name_a (flag true) _ new_block)

accordances_safe_example :
    ((copy_use_vars (variables true 3) built.use_vars built).1 ≢ undefined)
    × (res : Map Str (Parameter Bool)) × (return_vars built.res_vars [] built ≡ ok res)
accordances_safe_example = accordances_safe built (variables true 3) built-IsBuilt

n_there : find name_n plant.vars ≡ some (number 1)
unfolding find str_eq
n_there = refl

write_variables-SameType_example :
    (q' : Parameter Bool) × (find name_n (write_variables [] given plant).0.vars ≡ some q')
    × SameType (number 1).value q'.value
    × (q'.type ≡ (number 1).type)
write_variables-SameType_example = write_variables-SameType [] given plant name_n (number 1) n_there
