-- ===== src/Exchange/Udp/Output.antt =====
-- What `output_vars` sends, and what it leaves in the class.
use func_sim_engine.Prelude.{
  ℕ, ◌+◌, ◌%◌, ◌^◌, ◌<◌, ◌≡◌, refl, ◌∙◌, true, ◌&&◌, some, List, [], ◌∷◌, arith, length,
  length-append, ◌==◌, Str, Bool-cases, Option-cases, inl, inr,
}
use func_sim_engine.StdMap.{Map, str_key, nat_key, find, insert, find-insert}
use func_sim_engine.Result.{Returns, Returns-bind, Returns-any}
use func_sim_engine.Param.Real.{Floats}
use func_sim_engine.Param.{Parameter, to_bytes}
use func_sim_engine.Exchange.{VariableDesc}
use func_sim_engine.Exchange.Udp.{
  UdpExchange, InetBuffer, Filling, add_error_msg, update_var, fill_vars, write_at, seal, finish,
  output_buffer, output_buffers, output_vars,
}

module _ {D : Type 0} ⦃fl : Floats D⦄ where
  -- Two maps that give every name the same parameter.
  abbrev pub SameVars : Map Str (Parameter D) → Map Str (Parameter D) → Type 0
  SameVars a b = (k : Str) → find k a ≡ find k b

  -- After a first change: the flag stays, and the variables of the class are the given ones.
  abbrev pub Stays : Map Str (Parameter D) → Filling D → Type 0
  Stays vars f' = (f'.is_changed ≡ true) × SameVars f'.exchange.vars vars

  find-insert_same :
      (k j : Str) (p : Parameter D) (m : Map Str (Parameter D))
      → find k m ≡ some p
      → find j (insert k p m) ≡ find j m
  find-insert_same k j p m e = ground (arith, find-insert k j p m, str_key.eq_iff k j)

  fill_vars-Stays :
      (u_vars : Map Str (Parameter D)) (vs : List VariableDesc) (f : Filling D)
      (vars : Map Str (Parameter D))
      → Stays vars f
      → Returns (Stays vars) (fill_vars u_vars vs f)
  unfolding fill_vars update_var add_error_msg
  fill_vars-Stays u_vars [] f vars s = s
  fill_vars-Stays u_vars (var ∷ rest) f vars s = elim (Option-cases (find var.name u_vars)) [
    | inl e ↦ rw (e, Returns) s
    | inr (pu, e) ↦
        rw (e, Returns)
          (elim (Option-cases (find var.name f.exchange.vars)) [
            | inl e' ↦ rw (e', Returns) s
            | inr (pv, e') ↦
                let same : (k : Str) → find k (insert var.name pv f.exchange.vars) ≡ find k vars =
                  λ k. find-insert_same var.name k pv f.exchange.vars e' ∙ s.1 k in
                rw (e', s.0, Returns)
                  (elim (Bool-cases (length (to_bytes pv.value) == var.size)) [
                    | inl t ↦ rw t (
                        Returns-bind (λ _. Unit) (Stays vars)
                          (write_at (to_bytes pv.value) var.offset f.res) _
                          (Returns-any (λ _. Unit) _ (λ _. tt))
                          (λ res' _. fill_vars-Stays u_vars rest _ vars (refl, same)))
                    | inr t ↦ rw t (refl, same)
                  ])
          ])
  ]

  -- Once a variable of a buffer has changed, the variables behind it in the same buffer are not
  -- copied from the block any more: whatever the block's values, every variable of the class is
  -- afterwards what it was before.
  pub fill_vars_stale :
      (u_vars : Map Str (Parameter D)) (vs : List VariableDesc) (f : Filling D)
      → f.is_changed ≡ true
      → Returns (Stays f.exchange.vars) (fill_vars u_vars vs f)
  fill_vars_stale u_vars vs f c = fill_vars-Stays u_vars vs f f.exchange.vars (c, λ k. refl)

  -- The fields that filling a message leaves alone.
  abbrev SameState : UdpExchange D → UdpExchange D → Type 0
  SameState u v = (u.o_counter ≡ v.o_counter) × (u.i_counter ≡ v.i_counter) × (u.buf ≡ v.buf)

  fill_vars-SameState :
      (u_vars : Map Str (Parameter D)) (vs : List VariableDesc) (f : Filling D) (u : UdpExchange D)
      → SameState f.exchange u
      → Returns (λ f'. SameState f'.exchange u) (fill_vars u_vars vs f)
  unfolding fill_vars add_error_msg
  fill_vars-SameState u_vars [] f u s = s
  fill_vars-SameState u_vars (var ∷ rest) f u s = elim (Option-cases (find var.name u_vars)) [
    | inl e ↦ rw (e, Returns) s
    | inr (pu, e) ↦
        rw (e, Returns)
          (elim (Option-cases (find var.name f.exchange.vars)) [
            | inl e' ↦ rw (e', Returns) s
            | inr (pv, e') ↦
                rw (e', Returns)
                  (Returns-bind (λ _. Unit) (λ (f' : Filling D). SameState f'.exchange u)
                    (update_var f.is_changed pu pv) _ (Returns-any (λ _. Unit) _ (λ _. tt))
                    (λ r _. elim (Bool-cases (length (to_bytes r.0.value) == var.size)) [
                      | inl t ↦ rw t (
                          Returns-bind (λ _. Unit) (λ (f' : Filling D). SameState f'.exchange u)
                            (write_at (to_bytes r.0.value) var.offset f.res) _
                            (Returns-any (λ _. Unit) _ (λ _. tt))
                            (λ res' _. fill_vars-SameState u_vars rest _ u s))
                      | inr t ↦ rw t s
                    ]))
          ])
  ]

  -- After some messages: the number of the last one, counted from the number before.
  abbrev pub Numbered : UdpExchange D → UdpExchange D × List (List ℕ) → Type 0
  Numbered u (u', sent) =
      (u'.o_counter ≡ (u.o_counter + length sent) % 2 ^ 64)
      × (u'.i_counter ≡ u.i_counter)
      × (u'.buf ≡ u.buf)

  finish-Numbered :
      (u v : UdpExchange D) (f : Filling D) (sent : List (List ℕ))
      → Numbered u (v, sent)
      → SameState f.exchange v
      → Returns (Numbered u) (finish f sent)
  unfolding finish
  finish-Numbered u v f sent n s = elim (Bool-cases (f.no_error && f.is_changed)) [
    | inl t ↦ rw t (
        Returns-bind (λ _. Unit) (Numbered u) (seal f.res ((f.exchange.o_counter + 1) % 2 ^ 64)) _
          (Returns-any (λ _. Unit) _ (λ _. tt))
          (λ m _. (omega (arith, s.0, n.0, length-append sent (m ∷ [])), s.1 ∙ n.1, s.2 ∙ n.2)))
    | inr t ↦ rw t (s.0 ∙ n.0, s.1 ∙ n.1, s.2 ∙ n.2)
  ]

  output_buffers-Numbered :
      (u_vars : Map Str (Parameter D)) (bs : List (ℕ × InetBuffer)) (u v : UdpExchange D)
      (sent : List (List ℕ))
      → Numbered u (v, sent)
      → Returns (Numbered u) (output_buffers u_vars bs (v, sent))
  unfolding output_buffers output_buffer
  output_buffers-Numbered u_vars [] u v sent n = n
  output_buffers-Numbered u_vars ((number, desc) ∷ bs) u v sent n =
      elim (Bool-cases (desc.size == 0)) [
        | inl t ↦ rw (t, Returns) tt
        | inr t ↦
            rw (t, Returns)
              (Returns-bind (Numbered u) (Numbered u) _ _
                (Returns-bind (λ (f : Filling D). SameState f.exchange v) (Numbered u) _ _
                  (fill_vars-SameState u_vars desc.vars _ v (refl, refl, refl))
                  (λ f s. finish-Numbered u v f sent n s))
                (λ s h. output_buffers-Numbered u_vars bs u s.0 s.1 h))
      ]

  -- The outgoing number of the class grows by one for each message that is sent, and for nothing
  -- else: when `output_vars` returns, the number is the one before plus the count of the sent
  -- messages, modulo 2^64. The number of the last incoming message and the buffers stay.
  pub output_vars-Numbered :
      (u_vars : Map Str (Parameter D)) (u : UdpExchange D)
      → u.o_counter < 2 ^ 64
      → Returns (Numbered u) (output_vars u_vars u)
  unfolding output_vars
  output_vars-Numbered u_vars u h =
      output_buffers-Numbered u_vars u.buf u u [] (omega arith, refl, refl)
