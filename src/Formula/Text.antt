-- ===== src/Formula/Text.antt =====
-- The text of a formula, which `get_cond` prints and the constructor reads.
use func_sim_engine.Prelude.{
  ◌≡◌, refl, ap, ◌∙◌, false, List, [], ◌∷◌, ◌++◌, append_assoc, append-nil, Str, All, All-append,
  Bool-cases, inl, inr,
}
use func_sim_engine.Formula.{is_space, words, flush, print, parse, get_cond}

-- A word: not empty, and without white space.
abbrev pub NoSpace : Str → Type 0
NoSpace = All (λ c. is_space c ≡ false)

abbrev pub IsWord : Str → Type 0
IsWord [] = ⊥
IsWord (c ∷ w) = NoSpace (c ∷ w)

words-append : (w t rest : Str) → NoSpace t → words w (t ++ rest) ≡ words (w ++ t) rest
unfolding words
words-append w [] rest h = rw append-nil
words-append w (c ∷ t) rest h =
    rw h.0
      (words-append (w ++ c ∷ []) t rest h.1 ∙ ap (λ v. words v rest) (append_assoc w (c ∷ []) t))

words-word : (w rest : Str) → IsWord w → words [] (w ++ 32 ∷ rest) ≡ w ∷ words [] rest
unfolding words is_space
words-word [] rest h = absurd h
words-word (c ∷ w) rest h = words-append [] (c ∷ w) (32 ∷ rest) h

words-print : (ts : List Str) → All IsWord ts → words [] (print ts) ≡ ts
unfolding print
words-print [] h = unfold words in refl
words-print (t ∷ ts) h = words-word t (print ts) h.0 ∙ ap (λ r. t ∷ r) (words-print ts h.1)

flush-IsWord : (w : Str) → NoSpace w → All IsWord (flush w)
flush-IsWord [] h = tt
flush-IsWord (c ∷ w) h = (h, tt)

words-IsWord : (w s : Str) → NoSpace w → All IsWord (words w s)
unfolding words
words-IsWord w [] h = flush-IsWord w h
words-IsWord w (c ∷ s) h = elim (Bool-cases (is_space c)) [
  | inl e ↦
      rw e (All-append IsWord (flush w) (words [] s) (flush-IsWord w h) (words-IsWord [] s tt))
  | inr e ↦ rw e (words-IsWord (w ++ c ∷ []) s (All-append _ w (c ∷ []) h (e, tt)))
]

-- The text that `get_cond` gives for a formula is read back as the same formula, whatever text the
-- formula was first read from.
pub parse-get_cond :
    {T : Type 0} (src : Str) (d : T) → parse (get_cond (parse src d)) d ≡ parse src d
unfolding parse get_cond
parse-get_cond src d =
    ap (λ s. record { s = s; default = d }) (words-print (words [] src) (words-IsWord [] src tt))
