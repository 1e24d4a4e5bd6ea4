-- ===== src/Instruction/Quoting.antt =====
-- An instruction that is written with quoted parameters is read back.
use func_sim_engine.Prelude.{
  ℕ, zero, suc, ◌<◌, ◌≡◌, refl, ap, sym, subst, ◌∙◌, Bool, true, false, not, ◌&&◌, some, List, [],
  ◌∷◌, ◌++◌, append-nil, append_assoc, arith, length, length-append, ◌==◌, ==_iff, if◌then◌else◌,
  Str, All, Bool-cases, inl, inr,
}
use func_sim_engine.Instruction.{
  Locale, ParseResult, no_error, reading, closing, found, quote, backslash, quoted, split_at,
  skip_spaces, parameter_at, extract_parameter, extract_parameters, parse, validate_name, is_name,
  push,
}

-- A quote inside a parameter is written twice.
unfoldable pub escape : Str → Str
escape [] = []
escape (c ∷ p) = let rest = escape p in if c == quote then quote ∷ quote ∷ rest else c ∷ rest

-- The parameters, each in quotes and behind a space.
unfoldable pub print_parameters : List Str → Str
unfolding escape
print_parameters [] = []
print_parameters (p ∷ ps) = 32 ∷ quote ∷ (escape p ++ quote ∷ print_parameters ps)

-- No quote, and not the end, follows directly on a backslash; the first argument is the character
-- in front.
unfoldable pub is_quotable : ℕ → Str → Bool
is_quotable prev [] = not (prev == backslash)
is_quotable prev (c ∷ p) = (if c == quote then not (prev == backslash) else true) && is_quotable c p

abbrev NoQuote : Str → Type 0
NoQuote [] = Unit
NoQuote (c ∷ s) = (c == quote) ≡ false

quoted-closing :
    (piece par rest : Str)
    → NoQuote rest
    → quoted (closing piece) par rest ≡ found (par ++ piece) rest
unfolding quoted
quoted-closing piece par [] h = refl
quoted-closing piece par (d ∷ s) h = rw h refl

quoted-escape :
    (prev : ℕ) (piece par p rest : Str)
    → is_quotable prev p ≡ true
    → NoQuote rest
    → quoted (reading prev piece) par (escape p ++ quote ∷ rest) ≡ found (par ++ (piece ++ p)) rest
unfolding quoted escape is_quotable
quoted-escape prev piece par [] rest h n =
    let u : (prev == backslash) ≡ false = ground arith in
    rw (u, append-nil piece) (quoted-closing piece par rest n)
quoted-escape prev piece par (c ∷ p) rest h n = elim (Bool-cases (c == quote)) [
  | inl t ↦
      let e : c ≡ quote = (==_iff c quote).0 t in
      let u : (prev == backslash) ≡ false = ground arith in
      let w : is_quotable c p ≡ true = ground arith in
      let v : is_quotable quote p ≡ true = subst (λ d. is_quotable d p ≡ true) e w in
      rw (t, u, e)
        (quoted-escape quote [] (par ++ (piece ++ quote ∷ [])) p rest v n
          ∙ ap (λ x. found x rest)
              (append_assoc par (piece ++ quote ∷ []) p
                ∙ ap (λ x. par ++ x) (append_assoc piece (quote ∷ []) p)))
  | inr t ↦
      let v : is_quotable c p ≡ true = ground arith in
      rw (t, quoted, t)
        (quoted-escape c (piece ++ c ∷ []) par p rest v n
          ∙ ap (λ x. found (par ++ x) rest) (append_assoc piece (c ∷ []) p))
]

print_parameters-NoQuote : (ps : List Str) → NoQuote (print_parameters ps)
unfolding print_parameters
print_parameters-NoQuote [] = tt
print_parameters-NoQuote (p ∷ ps) = refl

abbrev AreQuotable : List Str → Type 0
AreQuotable = All (λ p. is_quotable quote p ≡ true)

-- A locale in which the space is a space and the quote is none.
pub record IsSpacing (loc : Locale) : Type 0 where
  pub space : loc.is_space 32 ≡ true
  pub plain_quote : loc.is_space quote ≡ false

module _ (loc : Locale) where
  extract_parameter-print :
      (p : Str) (ps : List Str) (res : ParseResult)
      → IsSpacing loc
      → is_quotable quote p ≡ true
      → extract_parameter loc (print_parameters (p ∷ ps)) res ≡ (print_parameters ps, push p res)
  unfolding extract_parameter skip_spaces parameter_at print_parameters
  extract_parameter-print p ps res l q =
      rw
        (
          l.space,
          l.plain_quote,
          quoted-escape quote [] [] p (print_parameters ps) q (print_parameters-NoQuote ps),
        )
        refl

  abbrev pushed : List Str → ParseResult → ParseResult
  pushed ps res = record res { param = res.param ++ ps }

  extract_parameters-print :
      (fuel : ℕ) (ps : List Str) (res : ParseResult)
      → IsSpacing loc
      → length (print_parameters ps) < fuel
      → AreQuotable ps
      → extract_parameters loc fuel (print_parameters ps) res ≡ some (pushed ps res)
  unfolding extract_parameters print_parameters
  extract_parameters-print zero ps res l h q = absurd (omega arith)
  extract_parameters-print (suc fuel) [] res l h q =
      unfold extract_parameter in
      unfold skip_spaces in
      unfold parameter_at in ap (λ x. some (record res { param = x })) (sym (append-nil res.param))
  extract_parameters-print (suc fuel) (p ∷ []) res l h q =
      let e = extract_parameter-print p [] res l q.0 in
      rw (e, extract_parameters) (ap (λ x. some x.1) e)
  extract_parameters-print (suc fuel) (p ∷ r ∷ ps) res l h q =
      let e = extract_parameter-print p (r ∷ ps) res l q.0 in
      rw (e, extract_parameters)
        (ap (λ x. extract_parameters loc fuel (print_parameters (r ∷ ps)) x.1) e
          ∙ extract_parameters-print fuel (r ∷ ps) (push p res) l
              (omega (arith, length-append (escape p) (quote ∷ print_parameters (r ∷ ps)))) q.1
          ∙ ap (λ x. some (record res { param = x })) (append_assoc res.param (p ∷ []) (r ∷ ps)))

  split_at-name :
      (name : Str) (ps : List Str)
      → IsSpacing loc
      → All (λ c. loc.is_space c ≡ false) name
      → split_at loc loc.is_space (name ++ print_parameters ps) ≡ (name, print_parameters ps)
  unfolding split_at print_parameters
  split_at-name [] [] l h = refl
  split_at-name [] (p ∷ ps) l h = rw l.space refl
  split_at-name (c ∷ name) ps l h = rw (h.0, split_at-name name ps l h.1) refl

  -- Write a valid name and, behind a space and in quotes with the inner quotes doubled, each
  -- parameter. If no parameter has a quote or its end directly behind a backslash, `parse` returns
  -- that name and those parameters and reports no error.
  pub parse-print :
      (name : Str) (ps : List Str)
      → IsSpacing loc
      → All (λ c. loc.is_space c ≡ false) name
      → is_name loc (loc.decode name) ≡ true
      → AreQuotable ps
      → parse loc (name ++ print_parameters ps)
        ≡ some (record { name = name; param = ps; error_code = no_error })
  unfolding parse validate_name
  parse-print name ps l h v q =
      rw (split_at-name name ps l h, v)
        (extract_parameters-print (suc (length (name ++ print_parameters ps))) ps _ l
          (omega (arith, length-append name (print_parameters ps))) q)
