-- ===== src/Formula/Failure.antt =====
-- When `solve` fails, and what it reads.
use func_sim_engine.Prelude.{
  ℕ, ◌+◌, ◌≡◌, refl, ap, ◌⊎◌, inl, inr, Bool, true, false, not, Option, none, some, List, [], ◌∷◌,
  arith, length, Str, str_eq, str_eq_iff, lit, All, Bool-cases, ltb, lt→ltb, ge→ltb, ◌≤◌, ◌<◌, ◌-◌,
  ◌&&◌, ◌||◌, if◌then◌else◌,
}
use native.Mathlib.Numerals.{add-one}
use func_sim_engine.StdMap.{Map, str_key, find}
use func_sim_engine.Result.{Result, ok, throw, invalid_args, ◌>>=◌, bind_cong}
use func_sim_engine.Formula.{
  Operations, logic_operations, is_operand, operands, get_operands, value, token, tokens, Solver,
  solve, top,
}

All-operands {ℓ} :
    {T : Type 0} (ops : Operations T) (Q : Str → Type ℓ) (w : Str) (ws : List Str)
    → All Q (operands ops (w ∷ ws))
    → (is_operand ops w ≡ true → Q w) × All Q (operands ops ws)
unfolding operands
All-operands ops Q w ws h = elim (Bool-cases (is_operand ops w)) [
  | inl e ↦ let (q, qs) : Q w × All Q (operands ops ws) = rw e at h in (λ _. q, qs)
  | inr e ↦ (λ e'. cc, rw e at h)
]

module _ {T P : Type 0} (ops : Operations T) (get : P → Result T) (m n : Map Str P) where
  token-agree :
      (pos : ℕ) (w : Str) (st : List T)
      → (is_operand ops w ≡ true → find w m ≡ find w n)
      → token ops get m pos w st ≡ token ops get n pos w st
  unfolding token value
  token-agree pos w st h = ground arith

  tokens-agree :
      (pos : ℕ) (ws : List Str) (st : List T)
      → All (λ x. find x m ≡ find x n) (operands ops ws)
      → tokens ops get m pos ws st ≡ tokens ops get n pos ws st
  unfolding tokens operands
  tokens-agree pos [] st h = refl
  tokens-agree pos (w ∷ ws) st h =
      let (hd, tl) = All-operands ops (λ x. find x m ≡ find x n) w ws h in
      rw (token-agree pos w st hd)
        (bind_cong (token ops get n pos w st) _ _ (λ st'. tokens-agree (pos + 1) ws st' tl))

  -- A formula reads only the variables that `get_operands` lists.
  pub solve-get_operands :
      (f : Solver T)
      → All (λ x. find x m ≡ find x n) (get_operands ops f)
      → solve ops get m f ≡ solve ops get n f
  unfolding solve get_operands
  solve-get_operands f h = on_tokens f.s f.default h
    where
      on_tokens :
          (s : List Str) (d : T)
          → All (λ x. find x m ≡ find x n) (operands ops s)
          → solve ops get m (record { s = s; default = d })
            ≡ solve ops get n (record { s = s; default = d })
      on_tokens [] d h = refl
      on_tokens (w ∷ ws) d h = ap (λ r. r >>= top) (tokens-agree 0 (w ∷ ws) [] h)

-- The operators take one or two values.
abbrev arity : Str → ℕ
arity w = if str_eq (lit "!") w then 1 else 2

-- The first operator that finds too few values, if any: their number, the number that it needs, the
-- operator and its position. Only the shape of the formula matters.
unfoldable pub first_short : ℕ → ℕ → List Str → Option (ℕ × ℕ × Str × ℕ)
first_short pos depth [] = none
first_short pos depth (w ∷ ws) =
    let deeper = first_short (pos + 1) (depth + 1) ws in
    let reduced = first_short (pos + 1) (depth + 1 - arity w) ws in
    if is_operand logic_operations w
    then deeper
    else if ltb depth (arity w)
    then some (depth, arity w, w, pos)
    else reduced

-- What `solve` does with a formula whose operands all have values.
abbrev pub Verdict : {A : Type 0} → Option (ℕ × ℕ × Str × ℕ) → Result A → Type 0
Verdict {A} none r = (a : A) × (r ≡ ok a)
Verdict (some (presented, expected, op, pos)) r = r ≡ throw (invalid_args presented expected op pos)

word_cases :
    (w : Str)
    → (is_operand logic_operations w ≡ true) ⊎ (w ≡ lit "!") ⊎ (w ≡ lit "&") ⊎ (w ≡ lit "|")
unfolding is_operand logic_operations
word_cases w =
    ground (arith, str_eq_iff (lit "!") w, str_eq_iff (lit "&") w, str_eq_iff (lit "|") w)

module _ {P : Type 0} (get : P → Result Bool) (m : Map Str P) where
  abbrev read : Str → Result Bool
  read = value logic_operations get m

  abbrev step : ℕ → Str → List Bool → Result (List Bool)
  step = token logic_operations get m

  abbrev loop : ℕ → List Str → List Bool → Result (List Bool)
  loop = tokens logic_operations get m

  -- An operator that finds its values leaves its result on them.
  abbrev OneStep : ℕ → Str → List Bool → Type 0
  OneStep pos w st =
      ((length st < arity w) × (step pos w st ≡ throw (invalid_args (length st) (arity w) w pos)))
      ⊎ ((v : Bool) × (st' : List Bool) × (arity w ≤ length st)
          × (step pos w st ≡ ok (v ∷ st'))
          × (length st + 1 - arity w ≡ length (v ∷ st')))

  step-not : (pos : ℕ) (st : List Bool) → OneStep pos (lit "!") st
  unfolding token logic_operations
  step-not pos [] = inl (omega arith, refl)
  step-not pos (v ∷ st) = inr (not v, st, omega arith, refl, omega arith)

  step-and : (pos : ℕ) (st : List Bool) → OneStep pos (lit "&") st
  unfolding token logic_operations
  step-and pos [] = inl (omega arith, refl)
  step-and pos (v ∷ []) = inl (omega arith, refl)
  step-and pos (v ∷ w ∷ st) = inr (w && v, st, omega arith, refl, omega arith)

  step-or : (pos : ℕ) (st : List Bool) → OneStep pos (lit "|") st
  unfolding token logic_operations
  step-or pos [] = inl (omega arith, refl)
  step-or pos (v ∷ []) = inl (omega arith, refl)
  step-or pos (v ∷ w ∷ st) = inr (w || v, st, omega arith, refl, omega arith)

  step-operator :
      (pos : ℕ) (w : Str) (st : List Bool)
      → is_operand logic_operations w ≡ false
      → OneStep pos w st
  step-operator pos w st h = elim (word_cases w) [
    | inl e ↦ cc
    | inr (inl e) ↦ rw e (step-not pos st)
    | inr (inr (inl e)) ↦ rw e (step-and pos st)
    | inr (inr (inr e)) ↦ rw e (step-or pos st)
  ]

  abbrev HaveValues : List Str → Type 0
  HaveValues ws = All (λ x. (v : Bool) × (read x ≡ ok v)) (operands logic_operations ws)

  abbrev LoopVerdict : Option (ℕ × ℕ × Str × ℕ) → Result (List Bool) → Type 0
  LoopVerdict none r = (v : Bool) × (st : List Bool) × (r ≡ ok (v ∷ st))
  LoopVerdict (some (presented, expected, op, pos)) r =
      r ≡ throw (invalid_args presented expected op pos)

  token_verdict :
      (pos : ℕ) (w : Str) (ws : List Str) (st : List Bool)
      → (is_operand logic_operations w ≡ true → (v : Bool) × (read w ≡ ok v))
      → ((v : Bool) (st' : List Bool)
          → LoopVerdict (first_short (pos + 1) (length (v ∷ st')) ws) (loop (pos + 1) ws (v ∷ st')))
      → LoopVerdict (first_short pos (length st) (w ∷ ws)) (loop pos (w ∷ ws) st)
  unfolding first_short tokens
  token_verdict pos w ws st hd rest = elim (Bool-cases (is_operand logic_operations w)) [
    | inl e ↦
        let (v, p) = hd e in
        let t : step pos w st ≡ ok (v ∷ st) = unfold token in rw (e, p) in
        rw (e, t, add-one (length st)) (rest v st)
    | inr e ↦ elim (step-operator pos w st e) [
      | inl (lt, t) ↦ rw (e, lt→ltb _ _ lt, t) refl
      | inr (v, st', le, t, n) ↦ rw (e, ge→ltb _ _ le, t, n) (rest v st')
    ]
  ]

  loop_verdict :
      (pos : ℕ) (v : Bool) (st : List Bool) (ws : List Str)
      → HaveValues ws
      → LoopVerdict (first_short pos (length (v ∷ st)) ws) (loop pos ws (v ∷ st))
  loop_verdict pos v st [] h = unfold tokens first_short in (v, st, refl)
  loop_verdict pos v st (w ∷ ws) h =
      let (hd, tl) = All-operands logic_operations (λ x. (u : Bool) × (read x ≡ ok u)) w ws h in
      token_verdict pos w ws (v ∷ st) hd (λ u st'. loop_verdict (pos + 1) u st' ws tl)

  Verdict-of_LoopVerdict :
      (o : Option (ℕ × ℕ × Str × ℕ)) (r : Result (List Bool))
      → LoopVerdict o r
      → Verdict o (r >>= top)
  Verdict-of_LoopVerdict none r (v, st, e) = (v, rw e)
  Verdict-of_LoopVerdict (some (a, b, c, d)) r e = rw e

  -- With a value for every operand, a formula fails only for lack of arguments: `solve` throws
  -- `invalid_args` for the first operator that is short, with its true numbers and position, and
  -- returns a value if there is none.
  pub solve-Verdict :
      (f : Solver Bool)
      → All
          (λ x. (v : Bool) × (value logic_operations get m x ≡ ok v))
          (get_operands logic_operations f)
      → Verdict (first_short 0 0 f.s) (solve logic_operations get m f)
  unfolding solve get_operands
  solve-Verdict f h = on_tokens f.s f.default h
    where
      on_tokens :
          (s : List Str) (d : Bool)
          → HaveValues s
          → Verdict
              (first_short 0 0 s)
              (solve logic_operations get m (record { s = s; default = d }))
      on_tokens [] d h = unfold first_short in (d, refl)
      on_tokens (w ∷ ws) d h =
          let (hd, tl) = All-operands logic_operations (λ x. (u : Bool) × (read x ≡ ok u)) w ws h in
          Verdict-of_LoopVerdict (first_short 0 0 (w ∷ ws)) (loop 0 (w ∷ ws) [])
            (token_verdict 0 w ws [] hd (λ u st'. loop_verdict 1 u st' ws tl))
