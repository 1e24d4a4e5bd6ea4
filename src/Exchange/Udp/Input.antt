-- ===== src/Exchange/Udp/Input.antt =====
-- What `input_vars` does with any messages.
use func_sim_engine.Prelude.{
  ℕ, zero, suc, ◌+◌, ◌*◌, ◌%◌, ◌<◌, ◌≤◌, ◌≡◌, refl, ap, ◌∙◌, true, some, List, [], ◌∷◌, arith,
  length, drop, take, get_elem?, ge→ltb, ◌==◌, All, Str, sym, subst, ==_iff, Bool-cases,
  Option-cases, inl, inr,
}
use func_sim_engine.StdMap.{Map, str_key, nat_key, find, find-All}
use func_sim_engine.Result.{Result, ok}
use func_sim_engine.Param.Real.{Floats}
use func_sim_engine.Param.{Parameter, clone, from_bytes}
use func_sim_engine.Exchange.{VariableDesc}
use func_sim_engine.Exchange.Checksum.{calc_control_sum}
use func_sim_engine.Exchange.Udp.{
  UdpExchange, InetBuffer, word_at, slice, read_vars, read_checked, read_counted, read_message,
  read_messages, input_vars, add_error_msg, repeated_message,
}

-- Room for the head, and every variable inside: what the reading of messages relies on.
abbrev pub IsWellFormed : InetBuffer → Type 0
IsWellFormed b = (4 ≤ b.size) × All (λ (v : VariableDesc). v.offset + v.size ≤ b.size) b.vars

abbrev State : Type 0 → Type 0
State D = UdpExchange D × Map Str (Parameter D)

-- A result that is there, with the number of the last message that came in, and that leaves the
-- buffers, the variables and the outgoing number alone.
abbrev pub Reads : {D : Type 0} → UdpExchange D → ℕ → Result (State D) → Type 0
Reads {D} u c r =
    (u' : UdpExchange D) × (res : Map Str (Parameter D)) × (r ≡ ok (u', res))
    × (u'.buf ≡ u.buf)
    × (u'.vars ≡ u.vars)
    × (u'.o_counter ≡ u.o_counter)
    × (u'.i_counter ≡ c)

slice_runs :
    (m : List ℕ) (v : VariableDesc)
    → v.offset + v.size ≤ length m
    → slice m v ≡ ok (take v.size (drop v.offset m))
unfolding slice
slice_runs m v h = ground arith

get_elem?_runs : (m : List ℕ) (i : ℕ) → i < length m → (a : ℕ) × (get_elem? m i ≡ some a)
get_elem?_runs [] i h = absurd (omega arith)
get_elem?_runs (a ∷ m) zero h = (a, refl)
get_elem?_runs (a ∷ m) (suc i) h = get_elem?_runs m i (omega arith)

word_at_runs : (m : List ℕ) (i : ℕ) → i + 1 < length m → (w : ℕ) × (word_at m i ≡ ok w)
unfolding word_at
word_at_runs m i h =
    let (a, e) = get_elem?_runs m i (omega arith) in
    let (b, e') = get_elem?_runs m (i + 1) h in (a + 256 * b, rw (e, e', word_at) refl)

module _ {D : Type 0} ⦃fl : Floats D⦄ where
  read_vars-Reads :
      (m : List ℕ) (vs : List VariableDesc) (u : UdpExchange D) (res : Map Str (Parameter D))
      → All (λ (v : VariableDesc). v.offset + v.size ≤ length m) vs
      → Reads u u.i_counter (read_vars m vs (u, res))
  unfolding read_vars add_error_msg
  read_vars-Reads m [] u res h = (u, res, refl, refl, refl, refl, refl)
  read_vars-Reads m (v ∷ vs) u res h =
      rw (slice_runs m v h.0) (elim (Option-cases (find v.name u.vars)) [
        | inl e ↦ rw e (read_vars-Reads m vs _ res h.1)
        | inr (p, e) ↦
            rw e (elim (Bool-cases (from_bytes (clone p) (take v.size (drop v.offset m))).1) [
              | inl t ↦ rw t (read_vars-Reads m vs u _ h.1)
              | inr t ↦ rw t (_, _, refl, refl, refl, refl, refl)
            ])
      ])

  read_checked-Reads :
      (m : List ℕ) (desc : InetBuffer) (u : UdpExchange D) (res : Map Str (Parameter D))
      → IsWellFormed desc
      → length m ≡ desc.size
      → Reads u u.i_counter (read_checked m desc (u, res))
  unfolding read_checked add_error_msg
  read_checked-Reads m desc u res w l =
      let (cs, e) = word_at_runs m 2 (omega arith) in
      let (fw, e') = word_at_runs m 0 (omega arith) in
      rw (ge→ltb (length m) 4 (omega arith), e, e')
        (elim (Bool-cases (calc_control_sum (drop 4 m) fw == cs)) [
          | inl t ↦ rw t (read_vars-Reads m desc.vars u res (rw l w.1))
          | inr t ↦ rw t (_, _, refl, refl, refl, refl, refl)
        ])

  read_counted-Reads :
      (m : List ℕ) (desc : InetBuffer) (u : UdpExchange D) (res : Map Str (Parameter D))
      → IsWellFormed desc
      → length m ≡ desc.size
      → (n : ℕ) × (c : ℕ) × (get_elem? m 1 ≡ some n)
        × (n < 256 → c % 256 ≡ n)
        × Reads u c (read_counted m desc (u, res))
  unfolding read_counted add_error_msg
  read_counted-Reads m desc u res w l =
      let (n, e) = get_elem?_runs m 1 (omega arith) in
      rw (e, read_counted)
        (elim (Bool-cases (u.i_counter % 256 == n)) [
          | inl t ↦
              rw t
                (n, u.i_counter, refl, λ _. (==_iff _ _).0 t, (_, _, refl, refl, refl, refl, refl))
          | inr t ↦ rw t (n, n, refl, λ h. omega arith, read_checked-Reads m desc _ res w l)
        ])

  read_message-Reads :
      (m : List ℕ) (u : UdpExchange D) (res : Map Str (Parameter D))
      → All (λ e. IsWellFormed e.1) u.buf
      → 0 < length m
      → (c : ℕ) × Reads u c (read_message m (u, res))
  unfolding read_message add_error_msg
  read_message-Reads m u res w l =
      let (n, e) = get_elem?_runs m 0 l in
      rw (e, read_message)
        (elim (Option-cases (find n u.buf)) [
          | inl t ↦ rw t (_, (_, _, refl, refl, refl, refl, refl))
          | inr (desc, t) ↦ rw t (elim (Bool-cases (length m == desc.size)) [
            | inl l' ↦
                let (_, c, _, _, r) =
                  read_counted-Reads m desc u res (find-All IsWellFormed n desc u.buf w t)
                    ((==_iff _ _).0 l') in
                rw l' (c, r)
            | inr l' ↦ rw l' (_, (_, _, refl, refl, refl, refl, refl))
          ])
        ])

  read_messages-Reads :
      (ms : List (List ℕ)) (u : UdpExchange D) (res : Map Str (Parameter D))
      → All (λ e. IsWellFormed e.1) u.buf
      → All (λ m. 0 < length m) ms
      → (c : ℕ) × Reads u c (read_messages ms (u, res))
  unfolding read_messages
  read_messages-Reads [] u res w h = (_, (u, res, refl, refl, refl, refl, refl))
  read_messages-Reads (m ∷ ms) u res w h =
      let (_, (u', res', e, b, v, o, _)) = read_message-Reads m u res w h.0 in
      let w' : All (λ (x : ℕ × InetBuffer). IsWellFormed x.1) u'.buf =
        subst (All (λ (x : ℕ × InetBuffer). IsWellFormed x.1)) (sym b) w in
      let (c, (u'', res'', e', b', v', o', i)) = read_messages-Reads ms u' res' w' h.1 in
      (c, (u'', res'', rw e e', b' ∙ b, v' ∙ v, o' ∙ o, i))

  -- With buffers that have room for the head and for all their variables, and with messages that
  -- are not empty, `input_vars` always returns, whatever the messages hold: no read leaves a message
  -- and nothing is thrown. It leaves the buffers, the variables of the class and the number of the
  -- last message sent as they were.
  pub input_vars-Reads :
      (ms : List (List ℕ)) (u : UdpExchange D)
      → All (λ e. IsWellFormed e.1) u.buf
      → All (λ m. 0 < length m) ms
      → (c : ℕ) × Reads u c (input_vars ms u)
  unfolding input_vars
  input_vars-Reads ms u w h = read_messages-Reads ms u [] w h

  -- A well-formed buffer's message `m` of the right size is read with some result `(u', res')`, in
  -- which the control sum of `m` may have been wrong. A message `again` with the same number byte
  -- that comes next is then refused as repeated: no variable is read from it, although its control
  -- sum may be right.
  pub same_number_refused :
      (m again : List ℕ) (n : ℕ) (desc : InetBuffer) (u : UdpExchange D)
      (res : Map Str (Parameter D))
      → IsWellFormed desc
      → length m ≡ desc.size
      → n < 256
      → get_elem? m 1 ≡ some n
      → get_elem? again 1 ≡ some n
      → (u' : UdpExchange D) × (res' : Map Str (Parameter D)) × (read_counted m desc (u, res)
          ≡ ok (u', res'))
        × (read_counted again desc (u', res') ≡ ok (add_error_msg repeated_message u', res'))
  unfolding read_counted
  same_number_refused m again n desc u res w l small e e' =
      let (n', c, f, k, (u', res', r, _, _, _, i)) = read_counted-Reads m desc u res w l in
      let same : n' ≡ n = cc in
      let t : (u'.i_counter % 256 == n) ≡ true =
        (==_iff _ _).1 (ap (λ c. c % 256) i ∙ k (omega arith) ∙ same) in
      (u', res', r, rw (e', read_counted, t) refl)
