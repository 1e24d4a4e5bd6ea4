-- ===== src/Exchange/Checksum.antt =====
-- `calc_control_sum< uint16_t >` of kernel/block_class/udp_exchange.hpp.
pub mod Laws
use func_sim_engine.Prelude.{ℕ, suc, ◌+◌, ◌*◌, ◌%◌, List, [], ◌∷◌, ltb, ◌==◌, if◌then◌else◌}

-- The bytes as words of two, the low byte first; `size /= sizeof( T )` drops an odd last byte.
unfoldable pub words : List ℕ → List ℕ
words [] = []
words (a ∷ []) = []
words (a ∷ b ∷ r) = (a + 256 * b) ∷ words r

-- One round of the loop: an overflow adds one, and a sum of zero becomes one.
unfoldable pub add_word : ℕ → ℕ → ℕ
add_word res d =
    let sum = (res + d) % 65536 in
    let carried = if ltb sum d then (sum + 1) % 65536 else sum in
    if carried == 0 then (carried + 1) % 65536 else carried

unfoldable pub add_words : ℕ → List ℕ → ℕ
add_words res [] = res
add_words res (d ∷ ds) = add_words (add_word res d) ds

-- `calc_control_sum`, from the value `initial`.
unfoldable pub calc_control_sum : List ℕ → ℕ → ℕ
calc_control_sum data_ initial = add_words initial (words data_)
