-- ===== src/Reader.antt =====
-- process/boost_tcp_instruction_reader.cpp and process/detail/trim_str.hpp: what is made of the bytes
-- that a connection gives. The queue is func_sim_engine.Mailbox. `isspace` and the conversions of
-- UTF-8 to wide characters and back are arguments; `isspace` is asked of wide characters, for which
-- the C library defines it only up to 255.
pub mod Trimmed
use func_sim_engine.Prelude.{
  ℕ, Bool, true, false, Option, none, some, List, [], ◌∷◌, Str, lit, if◌then◌else◌,
}
use mathlib.Core.List.{reverse}

module _ (isspace : ℕ → Bool) where
  -- `ltrim`
  unfoldable pub ltrim : Str → Str
  ltrim [] = []
  ltrim (c ∷ cs) = let rest = ltrim cs in if isspace c then rest else c ∷ cs

  -- `rtrim`
  unfoldable pub rtrim : Str → Str
  unfolding ltrim
  rtrim s = reverse (ltrim (reverse s))

  -- `trim`
  unfoldable pub trim : Str → Str
  unfolding ltrim rtrim
  trim s = ltrim (rtrim s)

-- `utf_to_utf` both ways.
pub record Locale : Type 0 where
  pub to_wide : Str → Str
  pub to_utf : Str → Str

-- The instruction that `validate_and_add` puts into the queue: it refuses none.
unfoldable pub validate : (ℕ → Bool) → Locale → Str → Option Str
unfolding trim
validate isspace loc instr = some (loc.to_utf (trim isspace (loc.to_wide instr)))

-- Where a connection is: it waits for data or for its answer to be written, or is dropped.
pub data Connection : Type 0 where
  reading closed : Connection
  writing : Str → Connection

-- The handlers of `do_read` and `do_write`, for data or for an error, which drops the connection.
unfoldable pub read_done : Option Str → (Str → Bool) → Connection
read_done none validate_and_add = closed
read_done (some data_) validate_and_add =
    if validate_and_add data_ then writing (lit "200 OK") else writing (lit "400 INVALID_STRING")

unfoldable pub write_done : Bool → Connection
write_done true = closed
write_done false = reading

-- `udp_server_caller::add_message`: an empty message is left out.
unfoldable pub add_message : List ℕ → Option (List ℕ)
add_message [] = none
add_message (b ∷ bs) = some (b ∷ bs)
