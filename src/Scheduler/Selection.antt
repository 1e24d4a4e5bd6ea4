-- ===== src/Scheduler/Selection.antt =====
-- What `get_nextcall_objs` calls, and in which order.
use func_sim_engine.Prelude.{
  All, ◌≡◌, ap, sym, ◌∙◌, true, false, List, [], ◌∷◌, ◌++◌, ◌↔◌, ◌⊎◌, arith, In, subst, Bool-cases,
  inl, inr, map,
}
use func_sim_engine.Param.Real.{Floats}
use func_sim_engine.Scheduler.Order.{
  IsOrder, Numbers, IsSorted, at_priority, emplace_all-IsSorted, emplace_all-Numbers,
  at_priority-emplace_all,
}
use func_sim_engine.Scheduler.{
  CallablePtr, block, subprogram, Queries, emplace, emplace_all, is_due, due_blocks, free_subprogs,
  clbl_with_priority, get_nextcall_objs,
}

module _ {D B S : Type 0} (fl : Floats D) (q : Queries D B S) (time : D) where
  -- A priority that equals itself: no NaN.
  abbrev pub IsNumber : D → Type 0
  IsNumber d = fl.eq d d ≡ true

  due_blocks-Numbers :
      (bs : List B)
      → All (λ b. IsNumber (q.get_priority b)) bs
      → Numbers fl.lt IsNumber (due_blocks fl q time bs)
  unfolding due_blocks
  due_blocks-Numbers [] h = tt
  due_blocks-Numbers (b ∷ bs) h = elim (Bool-cases (is_due fl q time b)) [
    | inl e ↦ rw e (h.0, due_blocks-Numbers bs h.1)
    | inr e ↦ rw e (due_blocks-Numbers bs h.1)
  ]

  free_subprogs-Numbers :
      (ss : List S)
      → All (λ s. IsNumber (q.subprog_get_priority s)) ss
      → Numbers fl.lt IsNumber (free_subprogs fl q time ss)
  unfolding free_subprogs
  free_subprogs-Numbers [] h = tt
  free_subprogs-Numbers (s ∷ ss) h = elim (Bool-cases (q.subprog_is_blocked s)) [
    | inl e ↦ rw e (free_subprogs-Numbers ss h.1)
    | inr e ↦ rw e (h.0, free_subprogs-Numbers ss h.1)
  ]

  -- If `<` is a strict weak order between numbers that are no NaN, as that of IEEE 754 is, and no
  -- priority is a NaN, the list of the objects to call rises in priority. Those of one priority, no
  -- NaN either, stand in it in the order in which the loops meet them: the blocks that are due by
  -- name, then the subprograms by name.
  pub clbl_with_priority_stable :
      (bs : List B) (ss : List S) (p : D)
      → IsOrder fl.lt IsNumber
      → All (λ b. IsNumber (q.get_priority b)) bs
      → All (λ s. IsNumber (q.subprog_get_priority s)) ss
      → IsNumber p
      → IsSorted fl.lt (clbl_with_priority fl q time bs ss)
        × (at_priority fl.lt p (clbl_with_priority fl q time bs ss)
            ≡ at_priority fl.lt p (due_blocks fl q time bs)
              ++ at_priority fl.lt p (free_subprogs fl q time ss))
  unfolding clbl_with_priority at_priority
  clbl_with_priority_stable bs ss p o nb ns np =
      let blocks = due_blocks-Numbers bs nb in
      let subprogs = free_subprogs-Numbers ss ns in
      let N : D → Type 0 = IsNumber in
      let due = emplace_all-IsSorted fl.lt N o (due_blocks fl q time bs) [] blocks tt tt in
      let kept = emplace_all-Numbers fl.lt N (due_blocks fl q time bs) [] blocks tt in
      (
        emplace_all-IsSorted fl.lt N o (free_subprogs fl q time ss) _ subprogs kept due,
        at_priority-emplace_all fl.lt N o p (free_subprogs fl q time ss) _ np subprogs kept due
            ∙ ap (λ l. l ++ at_priority fl.lt p (free_subprogs fl q time ss))
                (at_priority-emplace_all fl.lt N o p (due_blocks fl q time bs) [] np blocks tt tt),
      )

  abbrev values : List (D × CallablePtr B S) → List (CallablePtr B S)
  values = map (λ e. e.1)

  In-emplace :
      (x v : CallablePtr B S) (k : D) (m : List (D × CallablePtr B S))
      → In x (values (emplace fl.lt k v m)) ↔ ((x ≡ v) ⊎ In x (values m))
  unfolding emplace
  In-emplace x v k [] = (λ h. h, λ h. h)
  In-emplace x v k ((j, w) ∷ m) = elim (Bool-cases (fl.lt k j)) [
    | inl e ↦ rw e (λ h. h, λ h. h)
    | inr e ↦ rw e (swap_front (In-emplace x v k m))
  ]
    where
      swap_front :
          (In x (values (emplace fl.lt k v m)) ↔ ((x ≡ v) ⊎ In x (values m)))
          → ((x ≡ w) ⊎ In x (values (emplace fl.lt k v m)))
            ↔ ((x ≡ v) ⊎ ((x ≡ w) ⊎ In x (values m)))
      swap_front h = (
        λ y. elim y [
          | inl e ↦ inr (inl e)
          | inr i ↦ elim (h.0 i) [ inl e ↦ inl e | inr i' ↦ inr (inr i') ]
        ],
        λ y. elim y [
          | inl e ↦ inr (h.1 (inl e))
          | inr (inl e) ↦ inl e
          | inr (inr i) ↦ inr (h.1 (inr i))
        ],
      )

  In-emplace_all :
      (x : CallablePtr B S) (l m : List (D × CallablePtr B S))
      → In x (values (emplace_all fl.lt l m)) ↔ (In x (values l) ⊎ In x (values m))
  unfolding emplace_all
  In-emplace_all x [] m = (λ h. inr h, λ h. elim h [ inl i ↦ absurd i | inr i ↦ i ])
  In-emplace_all x ((k, v) ∷ l) m =
      through (In-emplace_all x l (emplace fl.lt k v m)) (In-emplace x v k m)
    where
      through :
          (In x (values (emplace_all fl.lt l (emplace fl.lt k v m)))
            ↔ (In x (values l) ⊎ In x (values (emplace fl.lt k v m))))
          → (In x (values (emplace fl.lt k v m)) ↔ ((x ≡ v) ⊎ In x (values m)))
          → In x (values (emplace_all fl.lt l (emplace fl.lt k v m)))
            ↔ (((x ≡ v) ⊎ In x (values l)) ⊎ In x (values m))
      through f g = (
        λ h. elim (f.0 h) [
          | inl i ↦ inl (inr i)
          | inr i ↦ elim (g.0 i) [ inl e ↦ inl (inl e) | inr i' ↦ inr i' ]
        ],
        λ h. elim h [
          | inl (inl e) ↦ f.1 (inr (g.1 (inl e)))
          | inl (inr i) ↦ f.1 (inl i)
          | inr i ↦ f.1 (inr (g.1 (inr i)))
        ],
      )

  -- Not blocked, and the planned time of the last call lies before now.
  abbrev pub IsDue : B → Type 0
  IsDue b = (q.is_blocked b ≡ false) × (fl.lt (q.get_lastcall_time_plan b) time ≡ true)

  is_due-IsDue : (b : B) → (is_due fl q time b ≡ true) ↔ IsDue b
  unfolding is_due
  is_due-IsDue b = (λ h. ground arith, λ h. ground arith)

  In-due_blocks :
      (b : B) (bs : List B) → In (block b) (values (due_blocks fl q time bs)) ↔ (In b bs × IsDue b)
  unfolding due_blocks
  In-due_blocks b [] = (λ h. absurd h, λ h. h.0)
  In-due_blocks b (c ∷ bs) = elim (Bool-cases (is_due fl q time c)) [
    | inl d ↦ rw d (called d (In-due_blocks b bs))
    | inr d ↦ rw d (passed d (In-due_blocks b bs))
  ]
    where
      called :
          is_due fl q time c ≡ true
          → (In (block b) (values (due_blocks fl q time bs)) ↔ (In b bs × IsDue b))
          → In (block b) (block c ∷ values (due_blocks fl q time bs))
            ↔ (((b ≡ c) ⊎ In b bs) × IsDue b)
      called d ih = (
        λ h. elim h [
          | inl e ↦ let e' : b ≡ c = cc in (inl e', subst IsDue (sym e') ((is_due-IsDue c).0 d))
          | inr i ↦ (inr (ih.0 i).0, (ih.0 i).1)
        ],
        λ h. elim h.0 [ inl e ↦ inl (ap block e) | inr i ↦ inr (ih.1 (i, h.1)) ],
      )

      passed :
          is_due fl q time c ≡ false
          → (In (block b) (values (due_blocks fl q time bs)) ↔ (In b bs × IsDue b))
          → In (block b) (values (due_blocks fl q time bs)) ↔ (((b ≡ c) ⊎ In b bs) × IsDue b)
      passed d ih = (
        λ h. (inr (ih.0 h).0, (ih.0 h).1),
        λ h. elim h.0 [
          | inl e ↦ let e' = (is_due-IsDue c).1 (subst IsDue e h.1) in cc
          | inr i ↦ ih.1 (i, h.1)
        ],
      )

  In-free_subprogs : (b : B) (ss : List S) → ¬ In (block b) (values (free_subprogs fl q time ss))
  unfolding free_subprogs
  In-free_subprogs b [] h = h
  In-free_subprogs b (s ∷ ss) h = elim (Bool-cases (q.subprog_is_blocked s)) [
    | inl e ↦ In-free_subprogs b ss (rw e at h)
    | inr e ↦ not_in (In-free_subprogs b ss) (rw e at h)
  ]
    where
      not_in :
          ¬ In (block b) (values (free_subprogs fl q time ss))
          → In (block b) (subprogram s ∷ values (free_subprogs fl q time ss))
          → ⊥
      not_in n (inl e) = cc
      not_in n (inr i) = n i

  -- A block is in the list of `get_nextcall_objs` exactly if it is in the map, it is not blocked, and
  -- the planned time of its last call lies before now.
  pub called_iff :
      (b : B) (bs : List B) (ss : List S)
      → In (block b) (get_nextcall_objs fl q time bs ss) ↔ (In b bs × IsDue b)
  unfolding get_nextcall_objs
  called_iff b bs ss =
      let outer = In-emplace_all (block b) (free_subprogs fl q time ss) _ in
      let inner = In-emplace_all (block b) (due_blocks fl q time bs) [] in
      let due = In-due_blocks b bs in
      (
        λ h. elim (outer.0 h) [
          | inl i ↦ absurd (In-free_subprogs b ss i)
          | inr i ↦ elim (inner.0 i) [ inl j ↦ due.0 j | inr j ↦ absurd j ]
        ],
        λ h. outer.1 (inr (inner.1 (inl (due.1 h)))),
      )
