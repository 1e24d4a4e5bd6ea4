-- ===== src/Instruction/Reading.antt =====
-- The loop of `parse` ends: its fuel is enough for every text.
use func_sim_engine.Prelude.{
  ℕ, zero, suc, ◌-◌, ◌⊎◌, ◌≤◌, ◌<◌, ◌≡◌, refl, Bool, false, some, [], ◌∷◌, ◌++◌, arith, length,
  ◌==◌, Str, Bool-cases, inl, inr,
}
use func_sim_engine.Instruction.{
  Locale, ParseResult, Scan, reading, closing, Quoted, unclosed, found, quote, quoted, of_quoted,
  split_at, skip_spaces, ends_bare, parameter_at, extract_parameter, extract_parameters, parse,
}

-- What follows a quoted parameter is no longer than the text behind its opening quote.
abbrev Shorter : Str → Quoted → Type 0
Shorter s unclosed = Unit
Shorter s (found par rest) = length rest ≤ length s

Shorter-suc : (c : ℕ) (s : Str) (q : Quoted) → Shorter s q → Shorter (c ∷ s) q
Shorter-suc c s unclosed h = tt
Shorter-suc c s (found par rest) h = omega arith

quoted-Shorter : (scan : Scan) (par s : Str) → Shorter s (quoted scan par s)
unfolding quoted
quoted-Shorter (reading prev piece) par [] = tt
quoted-Shorter (reading prev piece) par (c ∷ s) = elim (Bool-cases (c == quote)) [
  | inl t ↦ elim (Bool-cases (prev == 92)) [
    | inl u ↦ rw (t, u) (Shorter-suc c s _ (quoted-Shorter (reading quote []) _ s))
    | inr u ↦ rw (t, u) (Shorter-suc c s _ (quoted-Shorter (closing piece) par s))
  ]
  | inr t ↦ rw t (Shorter-suc c s _ (quoted-Shorter (reading c (piece ++ c ∷ [])) par s))
]
quoted-Shorter (closing piece) par [] = omega arith
quoted-Shorter (closing piece) par (d ∷ s) = elim (Bool-cases (d == quote)) [
  | inl t ↦ rw t (Shorter-suc d s _ (quoted-Shorter (reading quote []) _ s))
  | inr t ↦ rw t (omega arith)
]

List-cases : (s : Str) → (s ≡ []) ⊎ ((c : ℕ) × (t : Str) × (s ≡ c ∷ t))
List-cases [] = inl refl
List-cases (c ∷ s) = inr (c, s, refl)

module _ (loc : Locale) where
  length-split_at : (test : ℕ → Bool) (s : Str) → length (split_at loc test s).1 ≤ length s
  unfolding split_at
  length-split_at test [] = omega arith
  length-split_at test (c ∷ s) = ground (arith, length-split_at test s)

  length-skip_spaces : (s : Str) → length (skip_spaces loc s) ≤ length s
  unfolding skip_spaces
  length-skip_spaces [] = omega arith
  length-skip_spaces (c ∷ s) = ground (arith, length-skip_spaces s)

  -- A text that starts with no space.
  abbrev StartsWord : Str → Type 0
  StartsWord [] = Unit
  StartsWord (c ∷ s) = loc.is_space c ≡ false

  skip_spaces-StartsWord : (s : Str) → StartsWord (skip_spaces loc s)
  unfolding skip_spaces
  skip_spaces-StartsWord [] = tt
  skip_spaces-StartsWord (c ∷ s) = elim (Bool-cases (loc.is_space c)) [
    | inl t ↦ rw t (skip_spaces-StartsWord s)
    | inr t ↦ rw t t
  ]

  of_quoted-Shorter :
      (res : ParseResult) (s : Str) (q : Quoted)
      → Shorter s q
      → length (of_quoted loc res q).0 ≤ length s
  of_quoted-Shorter res s unclosed h = omega arith
  of_quoted-Shorter res s (found par rest) h = h

  parameter_at-Shorter :
      (c : ℕ) (s : Str) (res : ParseResult)
      → loc.is_space c ≡ false
      → length (parameter_at loc (c ∷ s) res).0 ≤ length s
  unfolding parameter_at split_at
  parameter_at-Shorter c s res h = elim (Bool-cases (c == quote)) [
    | inl t ↦ rw t (of_quoted-Shorter res s _ (quoted-Shorter (reading quote []) [] s))
    | inr t ↦ rw (t, h) (length-split_at (ends_bare loc) s)
  ]

  parameter_at_rest :
      (src : Str) (res : ParseResult)
      → StartsWord src
      → length (parameter_at loc src res).0 ≤ length src - 1
  unfolding parameter_at
  parameter_at_rest [] res h = omega arith
  parameter_at_rest (c ∷ s) res h = omega (arith, parameter_at-Shorter c s res h)

  extract_parameter-Shorter :
      (src : Str) (res : ParseResult) → length (extract_parameter loc src res).0 ≤ length src - 1
  unfolding extract_parameter
  extract_parameter-Shorter src res = omega (
    arith,
    parameter_at_rest (skip_spaces loc src) res (skip_spaces-StartsWord src),
    length-skip_spaces src,
  )

  extract_parameters_runs :
      (fuel : ℕ) (src : Str) (res : ParseResult)
      → length src < fuel
      → (r : ParseResult) × (extract_parameters loc fuel src res ≡ some r)
  unfolding extract_parameters
  extract_parameters_runs zero src res h = absurd (omega arith)
  extract_parameters_runs (suc fuel) src res h =
      let short = extract_parameter-Shorter src res in
      elim (List-cases (extract_parameter loc src res).0) [
        | inl e ↦ rw (e, extract_parameters) ((extract_parameter loc src res).1, refl)
        | inr (c, s, e) ↦
            let l : length (c ∷ s) ≤ length src - 1 = rw e at short in
            rw (e, extract_parameters) (extract_parameters_runs fuel (c ∷ s) _ (omega arith))
      ]

  -- `parse` always returns: for every text, and whatever the locale and the decoder are, the loop
  -- over the parameters ends within as many rounds as the text has characters, and one more.
  pub parse_runs : (str : Str) → (r : ParseResult) × (parse loc str ≡ some r)
  unfolding parse
  parse_runs str =
      extract_parameters_runs (suc (length str)) (split_at loc loc.is_space str).1 _
        (omega (arith, length-split_at loc.is_space str))
