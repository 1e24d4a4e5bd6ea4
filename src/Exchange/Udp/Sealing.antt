-- ===== src/Exchange/Udp/Sealing.antt =====
-- What a sender seals, a receiver finds in order.
use func_sim_engine.Prelude.{
  ℕ, ◌+◌, ◌*◌, ◌/◌, ◌%◌, ◌≤◌, ◌≡◌, ◌≢◌, refl, ap, ◌∙◌, some, List, [], ◌∷◌, arith, length, drop,
  get_elem?, ge→ltb, Str,
}
use func_sim_engine.StdMap.{Map, nat_key, find}
use func_sim_engine.Result.{ok}
use func_sim_engine.Param.Real.{Floats}
use func_sim_engine.Param.{Parameter}
use func_sim_engine.Exchange.Checksum.{calc_control_sum}
use func_sim_engine.Exchange.Checksum.Laws.{IsByte, calc_control_sum-lt}
use func_sim_engine.Exchange.Udp.{
  UdpExchange, InetBuffer, word_at, seal, read_vars, read_checked, read_counted, read_message,
}

-- A message of at least four bytes: its buffer, its number, its control sum and the rest.
pub record IsSealed (m : List ℕ) (number counter : ℕ) : Type 0 where
  pub buffer : get_elem? m 0 ≡ some number
  pub counted : get_elem? m 1 ≡ some (counter % 256)
  pub long : 4 ≤ length m
  pub word : ℕ
  pub sum : ℕ
  pub first : word_at m 0 ≡ ok word
  pub second : word_at m 2 ≡ ok sum
  pub right : calc_control_sum (drop 4 m) word ≡ sum

abbrev head_word : ℕ → ℕ → ℕ
head_word a counter = a + 256 * (counter % 256)

abbrev sealed : ℕ → ℕ → List ℕ → List ℕ
sealed a counter r =
    let cs = calc_control_sum r (head_word a counter) in
    a ∷ counter % 256 ∷ cs % 256 ∷ cs / 256 % 256 ∷ r

seal_runs :
    (a b c d : ℕ) (r : List ℕ) (counter : ℕ)
    → seal (a ∷ b ∷ c ∷ d ∷ r) counter ≡ ok (sealed a counter r)
unfolding seal word_at
seal_runs a b c d r counter = rw (ge→ltb (length (a ∷ b ∷ c ∷ d ∷ r)) 4 (omega arith))

sealed-IsSealed : (a counter : ℕ) (r : List ℕ) → IsByte a → IsSealed (sealed a counter r) a counter
unfolding word_at
sealed-IsSealed a counter r h = record {
  buffer = refl;
  counted = refl;
  long = omega arith;
  word = head_word a counter;
  sum = calc_control_sum r (head_word a counter);
  first = refl;
  second = ap ok (omega (arith, calc_control_sum-lt r (head_word a counter)));
  right = refl;
}

-- Sealing a message of bytes gives one of the same length and with the same bytes behind the
-- fourth, which has the given number and the control sum that a receiver computes.
pub seal_lem :
    (res : List ℕ) (number counter : ℕ)
    → 4 ≤ length res
    → get_elem? res 0 ≡ some number
    → IsByte number
    → (m : List ℕ) × (seal res counter ≡ ok m)
      × (length m ≡ length res)
      × (drop 4 m ≡ drop 4 res)
      × IsSealed m number counter
seal_lem [] number counter l e h = absurd (omega arith)
seal_lem (a ∷ []) number counter l e h = absurd (omega arith)
seal_lem (a ∷ b ∷ []) number counter l e h = absurd (omega arith)
seal_lem (a ∷ b ∷ c ∷ []) number counter l e h = absurd (omega arith)
seal_lem (a ∷ b ∷ c ∷ d ∷ r) number counter l e h =
    let e' : number ≡ a = cc in
    rw e' (
      sealed a counter r,
      seal_runs a b c d r counter,
      refl,
      refl,
      sealed-IsSealed a counter r (rw e' at h),
    )

-- A receiver that knows the buffer, at the size of the message, and has just seen another number,
-- reads the variables of a sealed message and takes over its number.
read_message-IsSealed :
    {D : Type 0} ⦃fl : Floats D⦄ (u : UdpExchange D) (res : Map Str (Parameter D)) (m : List ℕ)
    (number counter : ℕ) (desc : InetBuffer)
    → IsSealed m number counter
    → find number u.buf ≡ some desc
    → length m ≡ desc.size
    → u.i_counter % 256 ≢ counter % 256
    → read_message m (u, res) ≡ read_vars m desc.vars (record u { i_counter = counter % 256 }, res)
unfolding read_message read_counted read_checked
read_message-IsSealed u res m number counter desc s f l n =
    ground (arith, s.buffer, s.counted, s.long, s.first, s.second, s.right)

-- Sealing a message of bytes of at least four bytes, the first of which is the number of a buffer,
-- gives a message with the same bytes behind the fourth. A receiver that knows the buffer, at the
-- size of the message, and has just seen another number reads the variables of that message and takes
-- over its number.
pub read_message-seal :
    {D : Type 0} ⦃fl : Floats D⦄ (u : UdpExchange D) (vars : Map Str (Parameter D)) (res : List ℕ)
    (number counter : ℕ) (desc : InetBuffer)
    → 4 ≤ length res
    → get_elem? res 0 ≡ some number
    → IsByte number
    → find number u.buf ≡ some desc
    → length res ≡ desc.size
    → u.i_counter % 256 ≢ counter % 256
    → (m : List ℕ) × (seal res counter ≡ ok m)
      × (drop 4 m ≡ drop 4 res)
      × (read_message m (u, vars)
          ≡ read_vars m desc.vars (record u { i_counter = counter % 256 }, vars))
read_message-seal u vars res number counter desc l e h f size n =
    let (m, sent, same, rest, sealed) = seal_lem res number counter l e h in
    (m, sent, rest, read_message-IsSealed u vars m number counter desc sealed f (same ∙ size) n)
