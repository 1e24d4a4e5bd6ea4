-- ===== src/Mailbox.antt =====
-- The queue between two threads that process/boost_tcp_instruction_reader.cpp and
-- kernel/block_class/udp_networking.cpp share: the thread of the network puts what it hears at the
-- end, under the lock, and the main thread takes all at once, under the lock. An interleaving is a
-- list of actions, one for each call on the lock or the list.
pub mod Order
use func_sim_engine.Prelude.{Bool, true, false, Option, none, some, List, [], ◌∷◌, ◌++◌}

-- Where the thread that adds is: it waits for input, has made an entry of it, has the lock, or has
-- added the entry.
pub data Adder (A : Type 0) : Type 0 where
  idle added : Adder A
  ready entered : A → Adder A

-- Where the thread that takes is: outside, with the lock, or with the lock and the entries.
pub data Taker (A : Type 0) : Type 0 where
  away inside : Taker A
  holding : List A → Taker A

-- `_mtx`, `_instr` or `_msgs`, the two threads, and what was returned so far, in order.
pub record Mailbox (A : Type 0) : Type 0 where
  pub mtx : Bool
  pub instr : List A
  pub adder : Adder A
  pub taker : Taker A
  pub taken : List A

abbrev pub empty_box : {A : Type 0} → Mailbox A
empty_box = record { mtx = false; instr = []; adder = idle; taker = away; taken = [] }

pub data Action (I : Type 0) : Type 0 where
  hear : I → Action I
  adder_locks push_back adder_unlocks taker_locks splice taker_unlocks : Action I

-- What is made of input: an entry, or nothing.
abbrev pub heard : {A : Type 0} → Option A → Adder A
heard none = idle
heard (some a) = ready a

module _ {I A : Type 0} (prepare : I → Option A) where
  -- The actions of the thread that adds; `none` if it is not there yet, or waits for the lock.
  unfoldable pub add_step : Action I → Adder A → Mailbox A → Option (Mailbox A)
  add_step (hear i) idle b = some (record b { adder = heard (prepare i) })
  add_step adder_locks (ready a) b = elim b.mtx [
    | true ↦ none
    | false ↦ some (record b { mtx = true; adder = entered a })
  ]
  add_step push_back (entered a) b = some (record b { instr = b.instr ++ a ∷ []; adder = added })
  add_step adder_unlocks added b = some (record b { mtx = false; adder = idle })
  add_step _ _ b = none

  -- Those of the thread that takes.
  unfoldable pub take_step : Action I → Taker A → Mailbox A → Option (Mailbox A)
  take_step taker_locks away b = elim b.mtx [
    | true ↦ none
    | false ↦ some (record b { mtx = true; taker = inside })
  ]
  take_step splice inside b = some (record b { instr = []; taker = holding b.instr })
  take_step taker_unlocks (holding res) b =
      some (record b { mtx = false; taker = away; taken = b.taken ++ res })
  take_step _ _ b = none

  unfoldable pub act : Action I → Mailbox A → Option (Mailbox A)
  unfolding add_step take_step
  act taker_locks b = take_step taker_locks b.taker b
  act splice b = take_step splice b.taker b
  act taker_unlocks b = take_step taker_unlocks b.taker b
  act (hear i) b = add_step (hear i) b.adder b
  act adder_locks b = add_step adder_locks b.adder b
  act push_back b = add_step push_back b.adder b
  act adder_unlocks b = add_step adder_unlocks b.adder b

  -- An interleaving of the two threads.
  unfoldable pub interleave : List (Action I) → Mailbox A → Option (Mailbox A)
  unfolding act
  interleave [] b = some b
  interleave (x ∷ xs) b = elim (act x b) [ none ↦ none | some b' ↦ interleave xs b' ]

  -- The entries made of all that was heard.
  unfoldable pub entries : List (Action I) → List A
  entries [] = []
  entries (hear i ∷ xs) = elim (prepare i) [ none ↦ entries xs | some a ↦ a ∷ entries xs ]
  entries (_ ∷ xs) = entries xs
