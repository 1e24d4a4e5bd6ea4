-- ===== src/Examples/Parameters.antt =====
-- Runs of the theorems on parameters, on maps with renamed keys and on names.
use func_sim_engine.Prelude.{
  ℕ, ◌≡◌, refl, Bool, true, false, some, [], ◌∷◌, lit, str_eq, if◌then◌else◌, arith,
}
use func_sim_engine.StdMap.{str_key}
use func_sim_engine.Param.{integer, from_bytes, to_bytes, from_string, to_string, parse_value}
use func_sim_engine.Param.Decimal.{
  parse_int, parse_nat, parse_signed, parse_digits, is_digit, skip_space,
}
use func_sim_engine.Param.Bytes.{from_bytes-to_bytes}
use func_sim_engine.Param.Strings.{from_string-to_string}
use func_sim_engine.StdMap
use func_sim_engine.Remap.{RemappableMap, Heap, find, assign_at, get_map_key, set_key_remap}
use func_sim_engine.Remap.Aliasing.{find-assign_at-set_key_remap}
use func_sim_engine.Examples.{bits, bits-HasBytes, number, name_a, name_n}

from_bytes-to_bytes_example :
    from_bytes (number 0) (to_bytes {D = Bool} (integer 70000)) ≡ (number 70000, true)
from_bytes-to_bytes_example =
    from_bytes-to_bytes (number 0) (integer 70000) bits-HasBytes tt (omega arith)

from_string-to_string_example :
    from_string (number 0) (to_string {D = Bool} (integer 4294967254)) ≡ (number 4294967254, true)
from_string-to_string_example =
    from_string-to_string (number 0) (integer 4294967254) tt (omega arith)

refused : (from_string (number 5) (lit "x")).1 ≡ false
unfolding from_string parse_value parse_int parse_signed parse_nat parse_digits is_digit skip_space
refused = refl

abbrev values : Heap ℕ
values = ((name_a, 7) ∷ (name_n, 8) ∷ []) ∷ []

-- A map of these values without other names, and one that calls `a` `n`.
abbrev plain : RemappableMap
plain = record { p_map = 0; has_remap = false; remap = [] }

abbrev shared : RemappableMap
shared = record { p_map = 0; has_remap = false; remap = [] }

renamed : (set_key_remap name_a name_n shared).1 ≡ true
unfolding set_key_remap StdMap.emplace StdMap.find
renamed = refl

find-assign_at-set_key_remap_example :
    find name_a plain (assign_at name_n 9 (set_key_remap name_a name_n shared).0 values) ≡ (
      if str_eq (if str_eq name_n name_n then name_a else get_map_key shared name_n) name_a
      then some 9
      else find name_a plain values)
find-assign_at-set_key_remap_example =
    find-assign_at-set_key_remap name_a name_n name_n name_a 9 shared plain values
      (record { plain = λ e. refl }) (omega arith) renamed refl
