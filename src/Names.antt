-- ===== src/Names.antt =====
-- `StdStringSpec` of kernel/detail/std.hpp: the names of blocks and of what they hold, which are
-- joined by dots.
use func_sim_engine.Prelude.{ℕ, ◌≡◌, refl, false, [], ◌∷◌, ◌++◌, ◌==◌, if◌then◌else◌, Str, All}

-- `'.'`
abbrev pub dot : ℕ
dot = b'.'

-- `extract_block_name`: the name up to the first dot, and what follows that dot.
unfoldable pub extract_block_name : Str → Str × Str
extract_block_name [] = ([], [])
extract_block_name (c ∷ s) =
    let (block, rest) = extract_block_name s in if c == dot then ([], s) else (c ∷ block, rest)

-- `compose_block_name`
unfoldable pub compose_block_name : Str → Str → Str
compose_block_name parent child = parent ++ dot ∷ child

-- A name of one level.
abbrev pub IsSimple : Str → Type 0
IsSimple = All (λ c. (c == dot) ≡ false)

-- A composed name is taken apart into the simple name in front and all that was put behind it.
pub extract-compose :
    (parent child : Str)
    → IsSimple parent
    → extract_block_name (compose_block_name parent child) ≡ (parent, child)
unfolding extract_block_name compose_block_name
extract-compose [] child h = refl
extract-compose (c ∷ parent) child h = cc (h.0, extract-compose parent child h.1)

-- A simple name has nothing behind it.
pub extract_simple : (name : Str) → IsSimple name → extract_block_name name ≡ (name, [])
unfolding extract_block_name
extract_simple [] h = refl
extract_simple (c ∷ name) h = cc (h.0, extract_simple name h.1)
