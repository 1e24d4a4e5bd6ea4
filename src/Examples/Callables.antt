-- ===== src/Examples/Callables.antt =====
-- Runs of the theorems on control functions and on what is called.
use func_sim_engine.Prelude.{Bool, true, false, List, [], ◌∷◌, Str, lit}
use func_sim_engine.StdMap.{Map}
use func_sim_engine.Result.{Result, ok}
use func_sim_engine.Param.{Value, boolean, integer}
use func_sim_engine.Control.{ControlFunc}
use func_sim_engine.Callable.{Callable, callable}
use func_sim_engine.Examples.{bits, flag, number}

-- A control function with an integer and a logical parameter.
abbrev command : ControlFunc Bool
command = record { params = number 0 ∷ flag false ∷ []; log = [] }

abbrev new_values : List (Value Bool)
new_values = integer 17 ∷ boolean true ∷ []

abbrev pump : Callable Bool
pump = callable 0 (lit "pump") true false

abbrev renamed : Callable Bool → Callable Bool
renamed c = record c { name = lit "valve" }

abbrev read : Bool → Result Bool
read b = ok b

abbrev powers : Map Str Bool
powers = (lit "a", true) ∷ []
