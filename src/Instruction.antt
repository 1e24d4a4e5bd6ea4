-- ===== src/Instruction.antt =====
-- process/simple_instruction_parser.hpp: an instruction is a name and parameters, bare or quoted.
-- A position in the text is the text from there on. Behind its last character a text has the
-- terminating zero. The locale and the decoder are parameters.
pub mod Reading
pub mod Quoting
use func_sim_engine.Prelude.{
  ℕ, zero, suc, Bool, true, false, not, ◌&&◌, ◌||◌, Option, none, some, List, [], ◌∷◌, ◌++◌, length,
  ◌==◌, if◌then◌else◌, Str,
}

-- `ParseResult`; `error_message` is never set.
pub data ErrorCode : Type 0 where
  no_error invadid_instruction_name quotes_error : ErrorCode

pub record ParseResult : Type 0 where
  pub name : Str
  pub param : List Str
  pub error_code : ErrorCode

-- `_loc` on the characters of a text and on wide characters, and `_d`.
pub record Locale : Type 0 where
  pub is_space : ℕ → Bool
  pub is_alpha : ℕ → Bool
  pub is_alnum : ℕ → Bool
  pub decode : Str → List ℕ

-- `'"'` and `'\\'`
abbrev pub quote : ℕ
quote = 34

abbrev pub backslash : ℕ
backslash = 92

-- Where the loop over a quoted parameter stands: before the next character, given the one before
-- it and the piece that is not copied yet, or behind a quote that may be the last.
pub data Scan : Type 0 where
  reading : ℕ → Str → Scan
  closing : Str → Scan

-- No closing quote, or the parameter and what follows it.
pub data Quoted : Type 0 where
  unclosed : Quoted
  found : Str → Str → Quoted

-- `std::string( next_sp, end_par-1 )`
unfoldable pub drop_last : Str → Str
drop_last [] = []
drop_last (c ∷ []) = []
drop_last (c ∷ d ∷ s) = c ∷ drop_last (d ∷ s)

-- The loop over a quoted parameter: `par` is what is copied already.
unfoldable pub quoted : Scan → Str → Str → Quoted
unfolding drop_last
quoted (reading prev piece) par [] = unclosed
quoted (reading prev piece) par (c ∷ s) =
    let escaped = quoted (reading quote []) (par ++ (drop_last piece ++ quote ∷ [])) s in
    let close = quoted (closing piece) par s in
    let more = quoted (reading c (piece ++ c ∷ [])) par s in
    if c == quote then (if prev == backslash then escaped else close) else more
quoted (closing piece) par [] = found (par ++ piece) []
quoted (closing piece) par (d ∷ s) =
    let doubled = quoted (reading quote []) (par ++ (piece ++ quote ∷ [])) s in
    if d == quote then doubled else found (par ++ piece) (d ∷ s)

abbrev pub push : Str → ParseResult → ParseResult
push par res = record res { param = res.param ++ par ∷ [] }

module _ (loc : Locale) where
  -- `std::find_if` with the tests that the sources use: the text before and the text from there.
  unfoldable pub split_at : (ℕ → Bool) → Str → Str × Str
  split_at test [] = ([], [])
  split_at test (c ∷ s) =
      let (before, rest) = split_at test s in if test c then ([], c ∷ s) else (c ∷ before, rest)

  unfoldable pub skip_spaces : Str → Str
  skip_spaces [] = []
  skip_spaces (c ∷ s) = let rest = skip_spaces s in if loc.is_space c then rest else c ∷ s

  abbrev pub ends_bare : ℕ → Bool
  ends_bare c = loc.is_space c || c == quote

  unfoldable pub all_of : (ℕ → Bool) → List ℕ → Bool
  all_of test [] = true
  all_of test (c ∷ s) = test c && all_of test s

  -- `validate_name`; the first character of an empty name is a zero, which is no letter.
  unfoldable pub is_name : List ℕ → Bool
  unfolding all_of
  is_name [] = false
  is_name (c ∷ s) = loc.is_alpha c && all_of (λ d. loc.is_alnum d || d == 95) s

  unfoldable pub validate_name : Str → ParseResult → ParseResult
  unfolding is_name
  validate_name name res =
      if is_name (loc.decode name)
      then record res { name = name }
      else record res { error_code = invadid_instruction_name }

  abbrev pub of_quoted : ParseResult → Quoted → Str × ParseResult
  of_quoted res unclosed = ([], record res { error_code = quotes_error })
  of_quoted res (found par rest) = (rest, push par res)

  -- The parameter at the first character that is no space.
  unfoldable pub parameter_at : Str → ParseResult → Str × ParseResult
  unfolding quoted split_at
  parameter_at [] res = ([], res)
  parameter_at (c ∷ s) res =
      let (par, rest) = split_at ends_bare (c ∷ s) in
      if c == quote then of_quoted res (quoted (reading quote []) [] s) else (rest, push par res)

  -- `extract_parameter`
  unfoldable pub extract_parameter : Str → ParseResult → Str × ParseResult
  unfolding skip_spaces parameter_at
  extract_parameter src res = parameter_at (skip_spaces src) res

  -- The loop of `parse`, on fuel.
  unfoldable pub extract_parameters : ℕ → Str → ParseResult → Option ParseResult
  unfolding extract_parameter
  extract_parameters zero src res = none
  extract_parameters (suc fuel) src res =
      let (rest, res') = extract_parameter src res in
      elim rest [ [] ↦ some res' | c ∷ s ↦ extract_parameters fuel (c ∷ s) res' ]

  abbrev pub new_result : ParseResult
  new_result = record { name = []; param = []; error_code = no_error }

  -- `parse`: a round of the loop uses up at least one character.
  unfoldable pub parse : Str → Option ParseResult
  unfolding split_at validate_name extract_parameters
  parse str =
      let (name, rest) = split_at loc.is_space str in
      extract_parameters (suc (length str)) rest (validate_name name new_result)
