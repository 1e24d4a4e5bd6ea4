-- ===== src/Examples/Process.antt =====
-- Runs of the theorems on the queue of instructions, the trimming and the clock.
use func_sim_engine.Prelude.{
  ℕ, ◌+◌, ◌*◌, ◌≡◌, refl, Bool, false, some, List, [], ◌∷◌, ◌++◌, Str, lit, ◌==◌, ltb, length,
  if◌then◌else◌,
}
use mathlib.Core.List.{reverse}
use func_sim_engine.Mailbox.{
  Mailbox, empty_box, ready, away, Action, hear, adder_locks, push_back, adder_unlocks, taker_locks,
  splice, taker_unlocks, interleave, entries,
}
use func_sim_engine.Mailbox.Order.{
  IsLocked, contents, CanAct, interleave_in_order, interleave_goes_on,
}
use func_sim_engine.Reader.{Locale, trim, validate}
use func_sim_engine.Reader.Trimmed.{Spaces, starts, trim_split}
use func_sim_engine.Clock.{BoostClock, boost_clock, wait_interval, wait_all, wakes}
use func_sim_engine.Clock.Plan.{planned, sum, wait_all-wakes, wait_all_process_time}

abbrev is_blank : ℕ → Bool
is_blank c = c == b' '

abbrev plain : Locale
plain = record { to_wide = λ s. s; to_utf = λ s. s }

-- Two instructions are heard, one before and one while the first is taken.
abbrev race : List (Action Str)
race =
    hear (lit " halt ")
    ∷ adder_locks
    ∷ push_back
    ∷ adder_unlocks
    ∷ taker_locks
    ∷ hear (lit "x")
    ∷ splice
    ∷ taker_unlocks
    ∷ []

abbrev after_race : Mailbox Str
after_race = record {
  mtx = false;
  instr = [];
  adder = ready (lit "x");
  taker = away;
  taken = lit "halt" ∷ [];
}

race_runs : interleave (validate is_blank plain) race empty_box ≡ some after_race
unfolding interleave validate
race_runs = refl

interleave_in_order_example :
    IsLocked after_race × (contents after_race ≡ entries (validate is_blank plain) race)
interleave_in_order_example =
    interleave_in_order (validate is_blank plain) race after_race race_runs

interleave_goes_on_example : CanAct (validate is_blank plain) after_race
interleave_goes_on_example = interleave_goes_on (validate is_blank plain) race after_race race_runs

trim_split_example :
    (p q : Str) × Spaces is_blank p
    × Spaces is_blank q
    × (lit " a b " ≡ p ++ (trim is_blank (lit " a b ") ++ q))
    × (starts is_blank (trim is_blank (lit " a b ")) ≡ false)
    × (starts is_blank (reverse (trim is_blank (lit " a b "))) ≡ false)
trim_split_example = trim_split is_blank (lit " a b ")

-- A clock of ten microseconds; the first step ends late.
abbrev ticks : BoostClock
ticks = boost_clock 10 100

abbrev one_late : List ℕ
one_late = 115 ∷ []

abbrev both_late : List ℕ
both_late = 115 ∷ 130 ∷ []

wait_all-wakes_example :
    ((wait_interval (wait_all ticks one_late) 118).0.iter
      ≡ ticks.iter + (length one_late + 1) * ticks.dt)
    × (wakes 118 (wait_interval (wait_all ticks one_late) 118).2 ≡ (
        if ltb (ticks.iter + (length one_late + 1) * ticks.dt) 118
        then 118
        else ticks.iter + (length one_late + 1) * ticks.dt))
wait_all-wakes_example = wait_all-wakes ticks one_late 118

wait_all_process_time_example :
    (wait_all ticks both_late).process_time.has
      + (ticks.process_time.lacks + planned ticks.iter ticks.dt both_late)
    ≡ (wait_all ticks both_late).process_time.lacks + (ticks.process_time.has + sum both_late)
wait_all_process_time_example = wait_all_process_time ticks both_late
