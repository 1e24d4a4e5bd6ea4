-- ===== src/Exchange/Checksum/Laws.antt =====
-- The control sum is the sum of the words modulo 2^16 - 1, written without a zero.
use func_sim_engine.Prelude.{
  ℕ, ◌+◌, ◌*◌, ◌%◌, ◌<◌, ◌≡◌, refl, ap, List, [], ◌∷◌, ◌++◌, arith, ◌==◌, if◌then◌else◌, All,
  length, ◌↔◌,
}
use func_sim_engine.Exchange.Checksum.{words, add_word, add_words, calc_control_sum}

abbrev pub IsByte : ℕ → Type 0
IsByte b = b < 256

abbrev IsWord : ℕ → Type 0
IsWord w = w < 65536

unfoldable pub total : List ℕ → ℕ
total [] = 0
total (d ∷ ds) = d + total ds

add_word_lem :
    (res d : ℕ)
    → 0 < res
    → IsWord res
    → IsWord d
    → (0 < add_word res d)
      × (IsWord (add_word res d))
      × (add_word res d % 65535 ≡ (res + d) % 65535)
unfolding add_word
add_word_lem res d p r w = ground arith

add_words_lem :
    (res : ℕ) (ds : List ℕ)
    → 0 < res
    → IsWord res
    → All IsWord ds
    → (0 < add_words res ds)
      × (IsWord (add_words res ds))
      × (add_words res ds % 65535 ≡ (res + total ds) % 65535)
unfolding add_words total
add_words_lem res [] p r w = (p, r, omega arith)
add_words_lem res (d ∷ ds) p r w =
    let (a, b, c) = add_word_lem res d p r w.0 in
    let (a', b', c') = add_words_lem (add_word res d) ds a b w.1 in (a', b', omega (arith, c, c'))

-- The number from 1 to 65535 with the residue of `n`.
unfoldable pub residue : ℕ → ℕ
residue n = if n % 65535 == 0 then 65535 else n % 65535

residue_lem : (s n : ℕ) → 0 < s → IsWord s → s % 65535 ≡ n % 65535 → s ≡ residue n
unfolding residue
residue_lem s n p w e = ground arith

pub words-IsWord : (bs : List ℕ) → All IsByte bs → All IsWord (words bs)
unfolding words
words-IsWord [] h = tt
words-IsWord (a ∷ []) h = tt
words-IsWord (a ∷ b ∷ r) h = (omega arith, words-IsWord r h.1.1)

add_words-residue :
    (res : ℕ) (ds : List ℕ)
    → 0 < res
    → IsWord res
    → All IsWord ds
    → add_words res ds ≡ residue (res + total ds)
add_words-residue res ds p r w =
    let (a, b, c) = add_words_lem res ds p r w in residue_lem (add_words res ds) _ a b c

-- From a start that is not zero, the control sum of bytes is the sum of the start and the words,
-- reduced modulo 65535 to the range from 1 to 65535.
pub calc_control_sum-residue :
    (bs : List ℕ) (initial : ℕ)
    → 0 < initial
    → initial < 65536
    → All IsByte bs
    → calc_control_sum bs initial ≡ residue (initial + total (words bs))
unfolding calc_control_sum
calc_control_sum-residue bs initial p r h =
    add_words-residue initial (words bs) p r (words-IsWord bs h)

total-append : (xs ys : List ℕ) → total (xs ++ ys) ≡ total xs + total ys
unfolding total
total-append [] ys = omega arith
total-append (x ∷ xs) ys = omega (arith, total-append xs ys)

residue_injective : (m n : ℕ) → residue m ≡ residue n → m % 65535 ≡ n % 65535
unfolding residue
residue_injective m n h = ground arith

residue_cong : (m n : ℕ) → m % 65535 ≡ n % 65535 → residue m ≡ residue n
unfolding residue
residue_cong m n h = ground arith

words-odd : (bs : List ℕ) (b : ℕ) → length bs % 2 ≡ 0 → words (bs ++ b ∷ []) ≡ words bs
unfolding words
words-odd [] b h = refl
words-odd (a ∷ []) b h = absurd (omega arith)
words-odd (a ∷ c ∷ r) b h = ap (λ w. (a + 256 * c) ∷ w) (words-odd r b (omega arith))

-- A message in which one word has changed keeps its sum exactly if the two words have one residue
-- modulo 65535.
pub changed_word_seen :
    (res a b : ℕ) (xs ys : List ℕ)
    → 0 < res
    → IsWord res
    → All IsWord (xs ++ a ∷ ys)
    → All IsWord (xs ++ b ∷ ys)
    → (add_words res (xs ++ a ∷ ys) ≡ add_words res (xs ++ b ∷ ys)) ↔ (a % 65535 ≡ b % 65535)
unfolding total
changed_word_seen res a b xs ys p r h k =
    let ta = total-append xs (a ∷ ys) in
    let tb = total-append xs (b ∷ ys) in
    rw (add_words-residue res _ p r h, add_words-residue res _ p r k)
      (
        λ e. omega (arith, ta, tb, residue_injective _ _ e),
        λ e. residue_cong _ _ (omega (arith, ta, tb)),
      )

-- The last byte of an odd number of bytes is not summed.
pub odd_byte_unseen :
    (bs : List ℕ) (b initial : ℕ)
    → length bs % 2 ≡ 0
    → calc_control_sum (bs ++ b ∷ []) initial ≡ calc_control_sum bs initial
unfolding calc_control_sum
odd_byte_unseen bs b initial h = ap (add_words initial) (words-odd bs b h)

add_word-lt : (res d : ℕ) → add_word res d < 65536
unfolding add_word
add_word-lt res d = ground arith

add_words-lt : (res : ℕ) (ds : List ℕ) → res < 65536 → add_words res ds < 65536
unfolding add_words
add_words-lt res [] h = h
add_words-lt res (d ∷ ds) h = add_words-lt (add_word res d) ds (add_word-lt res d)

pub calc_control_sum-lt : (bs : List ℕ) (n : ℕ) → n < 65536 → calc_control_sum bs n < 65536
unfolding calc_control_sum
calc_control_sum-lt bs n h = add_words-lt n (words bs) h
