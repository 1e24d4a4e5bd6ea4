-- ===== src/Examples/Instructions.antt =====
-- Runs of the theorems on instructions, in a locale of ASCII characters.
use func_sim_engine.Prelude.{
  ℕ, ◌≡◌, refl, Bool, true, ◌||◌, ◌&&◌, some, List, [], ◌∷◌, ◌++◌, Str, lit, leb, ◌==◌, All,
}
use func_sim_engine.Instruction.{Locale, ParseResult, no_error, parse, is_name, all_of}
use func_sim_engine.Instruction.Reading.{parse_runs}
use func_sim_engine.Instruction.Quoting.{print_parameters, is_quotable, parse-print}

abbrev is_letter : ℕ → Bool
is_letter c = leb 65 c && leb c 90 || leb 97 c && leb c 122

abbrev ascii : Locale
ascii = record {
  is_space = λ c. c == 32;
  is_alpha = is_letter;
  is_alnum = λ c. is_letter c || leb 48 c && leb c 57;
  decode = λ s. s;
}

abbrev name : Str
name = lit "set"

-- A name, and a text with a space and quotes.
abbrev parameters : List Str
parameters = lit "n" ∷ lit "a \"b\" c" ∷ []

ascii-is_name : is_name ascii (ascii.decode name) ≡ true
unfolding is_name all_of
ascii-is_name = refl

quotable_parameters : All (λ p. is_quotable 34 p ≡ true) parameters
unfolding is_quotable
quotable_parameters = (refl, (refl, tt))

parse_runs_example : (r : ParseResult) × (parse ascii (lit "set n \"open") ≡ some r)
parse_runs_example = parse_runs ascii (lit "set n \"open")

parse-print_example :
    parse ascii (name ++ print_parameters parameters)
    ≡ some (record { name = name; param = parameters; error_code = no_error })
parse-print_example =
    parse-print ascii name parameters (record { space = refl; plain_quote = refl })
      (refl, (refl, (refl, tt))) ascii-is_name quotable_parameters
