-- ===== src/Param.antt =====
-- kernel/param.hpp, kernel/holder.hpp, kernel/typefactory.hpp: the parameters of blocks.
-- A `tInt` is its bit pattern, a number below 2^32, stored with its lowest byte first. The type
-- `double` is a parameter with the operations that the sources make of it.
pub mod Real
pub mod Decimal
pub mod Types
pub mod Bytes
pub mod Strings
pub mod Copy
use func_sim_engine.Prelude.{
  ℕ, zero, suc, ◌+◌, ◌-◌, ◌*◌, ◌/◌, ◌%◌, ◌≡◌, Bool, true, false, not, ◌&&◌, Option, none, some,
  List, [], ◌∷◌, ◌++◌, length, ◌==◌, if◌then◌else◌, Str, lit, str_eq,
}
use mathlib.Core.Option
use func_sim_engine.StdMap.{Map, Key, str_key, find, insert}
use func_sim_engine.Result.{Result, ok, throw, bad_cast, invalid_var_name, invalid_type, ◌>>=◌}
use Real.{Floats}
use Decimal.{print_int, parse_int, parse_bool}

-- What a `Holder` holds: `tBool`, `tInt`, `tReal`, `tString`.
pub data Value (D : Type 0) : Type 0 where
  boolean : Bool → Value D
  integer : ℕ → Value D
  real : D → Value D
  text : Str → Value D

-- `Parameter` with the field of its `Holder`.
pub record Parameter (D : Type 0) : Type 0 where
  pub type : Str
  pub desc : Str
  pub locked : Bool
  pub value : Value D

module _ {D : Type 0} ⦃fl : Floats D⦄ where
  -- `types::type_name`
  unfoldable pub type_name : Value D → Str
  type_name (boolean b) = lit "лог"
  type_name (integer n) = lit "цел"
  type_name (real d) = lit "вещ"
  type_name (text s) = lit "строка"

  -- `types::default_value` at the type of a value.
  unfoldable pub default_value : Value D → Value D
  default_value (boolean b) = boolean false
  default_value (integer n) = integer 0
  default_value (real d) = real fl.zero
  default_value (text s) = text []

  -- The constructor of `Holder` from a value.
  unfoldable pub holder : Value D → Parameter D
  unfolding type_name
  holder v = record { type = type_name v; desc = []; locked = false; value = v }

  -- `holder_util::to_string`
  unfoldable pub to_string : Value D → Str
  unfolding print_int
  to_string (boolean b) = if b then lit "1" else lit "0"
  to_string (integer n) = print_int n
  to_string (real d) = fl.print d
  to_string (text s) = s

  -- `holder_util::from_string` at the type of a value; `none` is the answer `false`.
  unfoldable pub parse_value : Value D → Str → Option (Value D)
  parse_value (boolean b) src = Option.map boolean (parse_bool src)
  parse_value (integer n) src = Option.map integer (parse_int src)
  parse_value (real d) src = Option.map real (fl.parse src)
  parse_value (text s) src = some (text src)

  abbrev store : Parameter D → Option (Value D) → Parameter D × Bool
  store p none = (p, false)
  store p (some v) = (record p { value = v }, true)

  -- `Holder::from_string`: a text that is not accepted leaves the value.
  unfoldable pub from_string : Parameter D → Str → Parameter D × Bool
  from_string p src = store p (parse_value p.value src)

  -- `holder_util::to_bytes`
  unfoldable pub to_bytes : Value D → List ℕ
  to_bytes (boolean b) = (if b then 1 else 0) ∷ 0 ∷ []
  to_bytes (integer n) = n % 256 ∷ n / 256 % 256 ∷ n / 65536 % 256 ∷ n / 16777216 % 256 ∷ []
  to_bytes (real d) = fl.to_bytes d
  to_bytes (text s) = s

  abbrev int_of_bytes : List ℕ → Option (Value D)
  int_of_bytes (a ∷ b ∷ c ∷ d ∷ []) = some (integer (a + 256 * b + 65536 * c + 16777216 * d))
  int_of_bytes _ = none

  -- One or two bytes, of which the first is read.
  abbrev bool_of_bytes : List ℕ → Option (Value D)
  bool_of_bytes (a ∷ []) = some (boolean (not (a == 0)))
  bool_of_bytes (a ∷ b ∷ []) = some (boolean (not (a == 0)))
  bool_of_bytes _ = none

  -- `holder_util::from_bytes` at the type of a value.
  unfoldable pub value_of_bytes : Value D → List ℕ → Option (Value D)
  value_of_bytes (boolean b) src = bool_of_bytes src
  value_of_bytes (integer n) src = int_of_bytes src
  value_of_bytes (real d) src = if length src == 8 then some (real (fl.of_bytes src)) else none
  value_of_bytes (text s) src = some (text src)

  -- `Holder::from_bytes`
  unfoldable pub from_bytes : Parameter D → List ℕ → Parameter D × Bool
  from_bytes p src = store p (value_of_bytes p.value src)

  -- `holder_util::is_set`
  unfoldable pub is_set_value : Value D → Bool
  is_set_value (boolean b) = b
  is_set_value (integer n) = not (n == 0)
  is_set_value (real d) = not (fl.eq d fl.zero)
  is_set_value (text []) = false
  is_set_value (text (c ∷ s)) = true

  -- `Holder::is_set`
  unfoldable pub is_set : Parameter D → Bool
  is_set p = is_set_value p.value

  -- `==` of two values of one type, after the `dynamic_cast`; `none` where the types differ.
  unfoldable pub value_eq : Value D → Value D → Option Bool
  value_eq (boolean a) (boolean b) = some (if a then b else not b)
  value_eq (integer a) (integer b) = some (a == b)
  value_eq (real a) (real b) = some (fl.eq a b)
  value_eq (text a) (text b) = some (str_eq a b)
  value_eq (boolean a) _ = none
  value_eq (integer a) _ = none
  value_eq (real a) _ = none
  value_eq (text a) _ = none

  -- `Holder::is_equal`
  unfoldable pub is_equal : Parameter D → Parameter D → Bool
  is_equal p another = elim (value_eq p.value another.value) [ none ↦ false | some b ↦ b ]

  -- `Holder::copy_data`: the changed parameter, and whether it changed.
  unfoldable pub copy_data : Parameter D → Parameter D → Result (Parameter D × Bool)
  copy_data p a = elim (value_eq p.value a.value) [
    | none ↦ throw bad_cast
    | some same ↦ if same then ok (p, false) else ok (record p { value = a.value }, true)
  ]

  -- The value that `copy_data` leaves in a new holder of the same type.
  abbrev copied : Parameter D → Result (Parameter D × Bool) → Parameter D
  copied res (ok (p, changed)) = p
  copied res _ = res

  -- `Holder::clone`: a new holder, with neither the description nor the lock.
  unfoldable pub clone : Parameter D → Parameter D
  unfolding holder default_value
  clone p = let res = holder (default_value p.value) in copied res (copy_data res p)

  -- `map_tools::get` at the type of `want`.
  unfoldable pub get : Value D → Map Str (Parameter D) → Str → Result (Value D)
  get want map name = elim (find name map) [
    | none ↦ throw (invalid_var_name name)
    | some p ↦ elim (value_eq want (clone p).value) [
      | none ↦ throw (invalid_type name)
      | some _ ↦ ok (clone p).value
    ]
  ]

  -- `map_tools::add_parameter_to_map`
  unfoldable pub add_parameter_to_map :
      Map Str (Parameter D) → Str → Value D → Map Str (Parameter D)
  add_parameter_to_map map name val = insert name (holder val) map

  -- The types of `TypeFactory`, each with what its factory makes.
  unfoldable pub type_factory : Map Str (Parameter D)
  unfolding holder insert str_eq
  type_factory = insert (lit "строка") (holder (text [])) (
      insert (lit "вещ") (holder (real fl.zero))
        (insert (lit "цел") (holder (integer 0)) (insert (lit "лог") (holder (boolean false)) [])))

  -- `TypeFactory::create`; `none` is the null pointer.
  unfoldable pub create : Str → Option (Parameter D)
  unfolding type_factory find
  create name = find name type_factory
