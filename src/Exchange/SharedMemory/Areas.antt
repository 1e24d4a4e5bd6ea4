-- ===== src/Exchange/SharedMemory/Areas.antt =====
-- What the variables of a shared memory do to it: each keeps to its area.
use func_sim_engine.Prelude.{
  ℕ, zero, suc, ◌+◌, ◌^◌, ◌<◌, ◌≤◌, ◌≡◌, refl, sym, ap, ◌∙◌, ◌⊎◌, inl, inr, Bool, true, false, none,
  some, List, [], ◌∷◌, ◌++◌, length, take, drop, replicate, get_elem?, ltb, if◌then◌else◌, Str, All,
  Bool-cases, Option-cases, arith, length-replicate, length-append, length-take, length-drop, subst,
}
use func_sim_engine.StdMap.{Map, str_key, find}
use func_sim_engine.Result.{
  Result, ok, throw, undefined, Result-cases, Returns, Returns-bind, bind-ok,
}
use func_sim_engine.Formula.{logic_operations}
use func_sim_engine.Param.Real.{Floats}
use func_sim_engine.Param.{Parameter, to_bytes}
use func_sim_engine.Exchange.{VariableDesc, do_read, do_write}
use func_sim_engine.Exchange.SharedMemory.{
  Exchanged, Problem, no_variable, get_chars, put_chars, complain, read_var, write_var, vars_is_set,
  process_var, process_vars, if_holds, shared_memory_io, write_if, read_write,
}

pub length-put_chars :
    (bytes : List ℕ) (offset : ℕ) (memory : List ℕ)
    → offset + length bytes ≤ length memory
    → length (put_chars bytes offset memory) ≡ length memory
unfolding put_chars
length-put_chars bytes offset memory h =
    rw (length-append, length-append, length-take, length-drop) (omega (arith, h))

put_chars-suc :
    (bytes : List ℕ) (k m : ℕ) (ms : List ℕ)
    → put_chars bytes (suc k) (m ∷ ms) ≡ m ∷ put_chars bytes k ms
unfolding put_chars
put_chars-suc bytes k m ms =
    let e : suc k + length bytes ≡ suc (k + length bytes) = omega arith in
    ap (λ i. m ∷ (take k ms ++ (bytes ++ drop i (m ∷ ms)))) e

put_chars_zero :
    (bytes memory : List ℕ) → put_chars bytes 0 memory ≡ bytes ++ drop (length bytes) memory
unfolding put_chars
put_chars_zero bytes memory =
    let e : 0 + length bytes ≡ length bytes = omega arith in ap (λ i. bytes ++ drop i memory) e

get-splice :
    (bytes memory : List ℕ) (j : ℕ)
    → length bytes ≤ j
    → length bytes ≤ length memory
    → get_elem? (bytes ++ drop (length bytes) memory) j ≡ get_elem? memory j
get-splice [] memory j h l = refl
get-splice (b ∷ bs) [] j h l = absurd (omega (arith, l))
get-splice (b ∷ bs) (m ∷ ms) zero h l = absurd (omega (arith, h))
get-splice (b ∷ bs) (m ∷ ms) (suc j) h l = get-splice bs ms j (omega (arith, h)) (omega (arith, l))

get-put_chars :
    (bytes : List ℕ) (offset : ℕ) (memory : List ℕ) (j : ℕ)
    → offset + length bytes ≤ length memory
    → (j < offset) ⊎ (offset + length bytes ≤ j)
    → get_elem? (put_chars bytes offset memory) j ≡ get_elem? memory j
get-put_chars bytes zero memory j h (inl o) = absurd (omega (arith, o))
get-put_chars bytes zero memory j h (inr o) =
    rw (put_chars_zero bytes memory)
      (get-splice bytes memory j (omega (arith, o)) (omega (arith, h)))
get-put_chars bytes (suc k) [] j h o = absurd (omega (arith, h))
get-put_chars bytes (suc k) (m ∷ ms) zero h o = rw (put_chars-suc bytes k m ms) refl
get-put_chars bytes (suc k) (m ∷ ms) (suc j) h (inl o) =
    rw (put_chars-suc bytes k m ms)
      (get-put_chars bytes k ms j (omega (arith, h)) (inl (omega (arith, o))))
get-put_chars bytes (suc k) (m ∷ ms) (suc j) h (inr o) =
    rw (put_chars-suc bytes k m ms)
      (get-put_chars bytes k ms j (omega (arith, h)) (inr (omega (arith, o))))

take_append : (xs ys : List ℕ) → take (length xs) (xs ++ ys) ≡ xs
take_append [] ys = refl
take_append (x ∷ xs) ys = ap (λ r. x ∷ r) (take_append xs ys)

pub drop-put_chars :
    (bytes : List ℕ) (offset : ℕ) (memory : List ℕ)
    → offset + length bytes ≤ length memory
    → take (length bytes) (drop offset (put_chars bytes offset memory)) ≡ bytes
drop-put_chars bytes zero memory h =
    rw (put_chars_zero bytes memory) (take_append bytes (drop (length bytes) memory))
drop-put_chars bytes (suc k) [] h = absurd (omega (arith, h))
drop-put_chars bytes (suc k) (m ∷ ms) h =
    rw (put_chars-suc bytes k m ms) (drop-put_chars bytes k ms (omega (arith, h)))

-- A place that is not in the area of a variable.
abbrev pub Outside : ℕ → VariableDesc → Type 0
Outside j d = (j < d.offset) ⊎ (d.offset + d.size ≤ j)

-- The memory has kept its size and what it has at a place.
abbrev Keeps : ℕ → List ℕ → List ℕ → Type 0
Keeps j old new = (length new ≡ length old) × (get_elem? new j ≡ get_elem? old j)

put-Keeps :
    (bytes : List ℕ) (offset : ℕ) (memory : List ℕ) (j size : ℕ)
    → length bytes ≤ size
    → offset + size ≤ length memory
    → (j < offset) ⊎ (offset + size ≤ j)
    → Keeps j memory (put_chars bytes offset memory)
put-Keeps bytes offset memory j size s h o =
    let within : offset + length bytes ≤ length memory = omega (arith, s, h) in
    let outside : (j < offset) ⊎ (offset + length bytes ≤ j) = elim o [
      | inl x ↦ inl x
      | inr x ↦ inr (omega (arith, x, s))
    ] in
    (
      length-put_chars bytes offset memory within,
      get-put_chars bytes offset memory j within outside,
    )

get_chars_within :
    (memory : List ℕ) (offset size : ℕ) (bytes : List ℕ)
    → get_chars memory offset size ≡ ok (some bytes)
    → offset + size ≤ length memory
unfolding get_chars
get_chars_within memory offset size bytes h = ground arith

pub get_chars_area :
    (memory : List ℕ) (offset size : ℕ)
    → offset + size < length memory
    → length memory < 2 ^ 64
    → get_chars memory offset size ≡ ok (some (take size (drop offset memory)))
unfolding get_chars
get_chars_area memory offset size h b = ground (arith, h, b)

module _ {D : Type 0} ⦃fl : Floats D⦄ where
  write_var-Keeps :
      (d : VariableDesc) (par : Parameter D) (x : Exchanged D) (j : ℕ)
      → d.offset + d.size ≤ length x.memory
      → Outside j d
      → Keeps j x.memory (write_var d par x).memory
  unfolding write_var
  write_var-Keeps d par x j h o =
      let zeros : List ℕ = replicate d.size 0 in
      let z : length zeros ≡ d.size = length-replicate d.size 0 in
      let (l, g) = put-Keeps zeros d.offset x.memory j d.size (omega (arith, z)) h o in
      let cleared = put_chars zeros d.offset x.memory in
      elim (Bool-cases (ltb d.size (length (to_bytes par.value)))) [
        | inl e ↦ rw e (l, g)
        | inr e ↦
            let (l', g') =
              put-Keeps (to_bytes par.value) d.offset cleared j d.size (ground (arith, e)) (rw l h)
                o in
            rw e (l' ∙ l, g' ∙ g)
      ]

  read_var_memory :
      (name : Str) (bytes : List ℕ) (par : Parameter D) (x : Exchanged D)
      → (read_var name bytes par x).1.memory ≡ x.memory
  unfolding read_var
  read_var_memory name bytes par x = refl

  if_holds-Returns :
      (P : Exchanged D → Type 0) (name : Str) (r : Result Bool) (x : Exchanged D)
      (k : Bool → Result (Exchanged D))
      → ((e : Problem) → P (complain e x))
      → ((b : Bool) → Returns P (k b))
      → Returns P (if_holds name r x k)
  if_holds-Returns P name (ok b) x k c h = h b
  if_holds-Returns P name (throw e) x k c h = c _
  if_holds-Returns P name undefined x k c h = tt

  write_if-Keeps :
      (d : VariableDesc) (par : Parameter D) (x : Exchanged D) (j : ℕ)
      → d.offset + d.size ≤ length x.memory
      → Outside j d
      → Returns (λ x'. Keeps j x.memory x'.memory) (write_if d par x)
  unfolding write_if
  write_if-Keeps d par x j h o =
      let P : Exchanged D → Type 0 = λ x'. Keeps j x.memory x'.memory in
      let k : Bool → Result (Exchanged D) =
        λ write. if write then ok (write_var d par x) else ok x in
      if_holds-Returns P d.name (do_write logic_operations vars_is_set x.vars d) x k
        (λ e. (refl, refl))
        (λ b. elim b as (λ b. Returns P (k b)) [
          | true ↦ write_var-Keeps d par x j h o
          | false ↦ (refl, refl)
        ])

  read_write-Keeps :
      (d : VariableDesc) (bytes : List ℕ) (par : Parameter D) (x : Exchanged D) (j : ℕ)
      → d.offset + d.size ≤ length x.memory
      → Outside j d
      → Returns (λ x'. Keeps j x.memory x'.memory) (read_write d bytes par x)
  unfolding read_write
  read_write-Keeps d bytes par x j h o =
      let P : Exchanged D → Type 0 = λ x'. Keeps j x.memory x'.memory in
      let par' = (read_var d.name bytes par x).0 in
      let x' = (read_var d.name bytes par x).1 in
      let same = read_var_memory d.name bytes par x in
      let after : Returns P (write_if d par' x') =
        subst (λ m. Returns (λ x'. Keeps j m x'.memory) (write_if d par' x')) same
          (write_if-Keeps d par' x' j (rw same h) o) in
      let k : Bool → Result (Exchanged D) =
        λ read. if read then write_if d par' x' else write_if d par x in
      if_holds-Returns P d.name (do_read logic_operations vars_is_set x.vars d) x k
        (λ e. (refl, refl))
        (λ b. elim b as (λ b. Returns P (k b)) [
          | true ↦ after
          | false ↦ write_if-Keeps d par x j h o
        ])

  process_var_missing :
      (d : VariableDesc) (x : Exchanged D) (bytes : List ℕ)
      → get_chars x.memory d.offset d.size ≡ ok (some bytes)
      → find d.name x.vars ≡ none
      → process_var d x ≡ ok (complain (no_variable d.name) x)
  unfolding process_var
  process_var_missing d x bytes e e' =
      rw (process_var, e)
        (ap
          (λ o. elim o as (λ o. Result (Exchanged D)) [
            | none ↦ ok (complain (no_variable d.name) x)
            | some par ↦ read_write d bytes par x
          ])
          e')

  pub process_var_found :
      (d : VariableDesc) (x : Exchanged D) (bytes : List ℕ) (par : Parameter D)
      → get_chars x.memory d.offset d.size ≡ ok (some bytes)
      → find d.name x.vars ≡ some par
      → process_var d x ≡ read_write d bytes par x
  unfolding process_var
  process_var_found d x bytes par e e' =
      rw (process_var, e)
        (ap
          (λ o. elim o as (λ o. Result (Exchanged D)) [
            | none ↦ ok (complain (no_variable d.name) x)
            | some par ↦ read_write d bytes par x
          ])
          e')

  process_var-Keeps :
      (d : VariableDesc) (x : Exchanged D) (j : ℕ)
      → Outside j d
      → Returns (λ x'. Keeps j x.memory x'.memory) (process_var d x)
  unfolding process_var
  process_var-Keeps d x j o = elim (Result-cases (get_chars x.memory d.offset d.size)) [
    | inl (none, e) ↦ rw (e, process_var) (refl, refl)
    | inl (some bytes, e) ↦
        let within = get_chars_within x.memory d.offset d.size bytes e in
        elim (Option-cases (find d.name x.vars)) [
          | inl e' ↦
              subst (Returns (λ x'. Keeps j x.memory x'.memory))
                (sym (process_var_missing d x bytes e e')) (refl, refl)
          | inr (par, e') ↦
              subst (Returns (λ x'. Keeps j x.memory x'.memory))
                (sym (process_var_found d x bytes par e e'))
                (read_write-Keeps d bytes par x j within o)
        ]
    | inr (inl (y, e)) ↦ rw (e, process_var) tt
    | inr (inr e) ↦ rw (e, process_var) tt
  ]

  process_vars-Keeps :
      (ds : List VariableDesc) (x : Exchanged D) (j : ℕ)
      → All (Outside j) ds
      → Returns (λ x'. Keeps j x.memory x'.memory) (process_vars ds x)
  unfolding process_vars
  process_vars-Keeps [] x j o = (refl, refl)
  process_vars-Keeps (d ∷ ds) x j o =
      let P : Exchanged D → Type 0 = λ x'. Keeps j x.memory x'.memory in
      Returns-bind P P (process_var d x) (process_vars ds) (process_var-Keeps d x j o.0) (λ y h.
        subst (Returns P) (bind-ok (process_vars ds y)) (
          Returns-bind (λ z. Keeps j y.memory z.memory) P (process_vars ds y) ok
            (process_vars-Keeps ds y j o.1) (λ z g. (g.0 ∙ h.0, g.1 ∙ h.1))))

  -- An exchange that returns leaves the size of the shared memory and every byte that is in the
  -- area of none of its variables as they were.
  pub shared_memory_io_frame :
      (ds : List VariableDesc) (memory : List ℕ) (errors : List Problem) (v : Map Str (Parameter D))
      (j : ℕ) (x : Exchanged D)
      → All (Outside j) ds
      → shared_memory_io ds memory errors v ≡ ok x
      → (length x.memory ≡ length memory) × (get_elem? x.memory j ≡ get_elem? memory j)
  unfolding shared_memory_io
  shared_memory_io_frame ds memory errors v j x o e =
      subst (Returns (λ x'. Keeps j memory x'.memory)) e (process_vars-Keeps ds _ j o)
