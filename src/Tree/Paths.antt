-- ===== src/Tree/Paths.antt =====
-- What is changed through a path is found through it, and through no other path.
use mathlib.Core.Option
use func_sim_engine.Prelude.{
  ℕ, ◌≡◌, ◌≢◌, refl, sym, ap, ◌∙◌, Option, [], ◌∷◌, Str, str_eq, str_eq_iff, ◌==◌, ==_iff,
  Bool-cases, inl, inr, arith, ◌⊎◌, Option-cases,
}
use func_sim_engine.StdMap.{Map, str_key, find, find-insert_ne, find-insert_self}
use func_sim_engine.Names.{extract_block_name, compose_block_name, dot}
use func_sim_engine.Param.{Parameter}
use func_sim_engine.Subprogram.{Subprogram}
use func_sim_engine.Tree.{
  Tree, Forest, node, end, child, Site, look, look_in, modify, modify_in, adjust, get_variable,
  change_variable, get_subprog, change_subprog, adjust_variable, adjust_subprog, get_child,
  child_in, change_child, change_child_in,
}

Str-cases : (s : Str) → (s ≡ []) ⊎ ((c : ℕ) × (cs : Str) × (s ≡ c ∷ cs))
Str-cases [] = inl refl
Str-cases (c ∷ cs) = inr (c, cs, refl)

-- Two paths that are not one name only are equal if their two parts are.
extract_whole :
    (p : Str) (c : ℕ) (cs : Str)
    → (extract_block_name p).1 ≡ c ∷ cs
    → p ≡ compose_block_name (extract_block_name p).0 (extract_block_name p).1
unfolding extract_block_name compose_block_name
extract_whole [] c cs h = cc
extract_whole (d ∷ p) c cs h = elim (Bool-cases (d == dot)) [
  | inl t ↦ let e : d ≡ dot = (==_iff d dot).0 t in rw t (cc e)
  | inr t ↦ rw t (ap (λ x. d ∷ x) (extract_whole p c cs (rw t at h)))
]

module _ {D A : Type 0} (own : Site D → Str → Option A) (s : Site D) (f : Forest D) (p : Str) where
  look_leaf : (extract_block_name p).1 ≡ [] → look own (node s f) p ≡ own s p
  unfolding look
  look_leaf e =
      ap
        (λ r. elim r [
          | [] ↦ own s p
          | c ∷ cs ↦ look_in own f (extract_block_name p).0 (extract_block_name p).1
        ])
        e

  look_deep :
      (c : ℕ) (cs : Str)
      → (extract_block_name p).1 ≡ c ∷ cs
      → look own (node s f) p ≡ look_in own f (extract_block_name p).0 (extract_block_name p).1
  unfolding look
  look_deep c cs e =
      ap
        (λ r. elim r [
          | [] ↦ own s p
          | c ∷ cs ↦ look_in own f (extract_block_name p).0 (extract_block_name p).1
        ])
        e

module _ {D : Type 0} (change : Str → Site D → Site D) (s : Site D) (f : Forest D) (p : Str) where
  modify_leaf : (extract_block_name p).1 ≡ [] → modify change (node s f) p ≡ node (change p s) f
  unfolding modify
  modify_leaf e =
      ap
        (λ r. elim r [
          | [] ↦ node (change p s) f
          | c ∷ cs ↦ node s (modify_in change f (extract_block_name p).0 (extract_block_name p).1)
        ])
        e

  modify_deep :
      (c : ℕ) (cs : Str)
      → (extract_block_name p).1 ≡ c ∷ cs
      → modify change (node s f) p
        ≡ node s (modify_in change f (extract_block_name p).0 (extract_block_name p).1)
  unfolding modify
  modify_deep c cs e =
      ap
        (λ r. elim r [
          | [] ↦ node (change p s) f
          | c ∷ cs ↦ node s (modify_in change f (extract_block_name p).0 (extract_block_name p).1)
        ])
        e

module _ {D A : Type 0} (own : Site D → Str → Option A) (change : Str → Site D → Site D) (g : A → A)
    (found : (s : Site D) (n : Str) → own (change n s) n ≡ Option.map g (own s n)) where
  mutual
    unfolding look modify

    look-modify :
        (t : Tree D) (p : Str) → look own (modify change t p) p ≡ Option.map g (look own t p)
    look-modify (node s f) p = elim (Str-cases (extract_block_name p).1) [
      | inl e ↦
          rw (modify_leaf change s f p e, look_leaf own (change p s) f p e, look_leaf own s f p e)
            (found s p)
      | inr (c, cs, e) ↦
          rw
            (
              modify_deep change s f p c cs e,
              look_deep own s (modify_in change f (extract_block_name p).0 (extract_block_name p).1)
                  p c cs e,
              look_deep own s f p c cs e,
            )
            (look_in-modify_in f (extract_block_name p).0 (extract_block_name p).1)
    ]

    look_in-modify_in :
        (f : Forest D) (first rest : Str)
        → look_in own (modify_in change f first rest) first rest
          ≡ Option.map g (look_in own f first rest)
    look_in-modify_in end first rest = refl
    look_in-modify_in (child k t f) first rest = elim (Bool-cases (str_eq k first)) [
      | inl e ↦ rw e (rw e (look-modify t rest))
      | inr e ↦ rw e (rw e (look_in-modify_in f first rest))
    ]

module _ {D A : Type 0} (own : Site D → Str → Option A) (change : Str → Site D → Site D)
    (kept : (s : Site D) (n m : Str) → n ≢ m → own (change n s) m ≡ own s m) where
  mutual
    unfolding look modify

    look-modify_ne :
        (t : Tree D) (p q : Str) → p ≢ q → look own (modify change t p) q ≡ look own t q
    look-modify_ne (node s f) p q n = elim (Str-cases (extract_block_name p).1) [
      | inl e ↦ rw (modify_leaf change s f p e) (elim (Str-cases (extract_block_name q).1) [
        | inl e' ↦ rw (look_leaf own (change p s) f q e', look_leaf own s f q e') (kept s p q n)
        | inr (c, cs, e') ↦
            rw (look_deep own (change p s) f q c cs e', look_deep own s f q c cs e') refl
      ])
      | inr (b, bs, e) ↦
          let f' = modify_in change f (extract_block_name p).0 (extract_block_name p).1 in
          rw (modify_deep change s f p b bs e) (elim (Str-cases (extract_block_name q).1) [
            | inl e' ↦ rw (look_leaf own s f' q e', look_leaf own s f q e') refl
            | inr (c, cs, e') ↦
                rw (look_deep own s f' q c cs e', look_deep own s f q c cs e')
                  (look_in-modify_in_ne f (extract_block_name p).0 (extract_block_name p).1
                    (extract_block_name q).0 (extract_block_name q).1
                    (λ x y. n (extract_whole p b bs e ∙ cc (x, y) ∙ sym (extract_whole q c cs e'))))
          ])
    ]

    look_in-modify_in_ne :
        (f : Forest D) (first rest first' rest' : Str)
        → (first ≡ first' → rest ≢ rest')
        → look_in own (modify_in change f first rest) first' rest' ≡ look_in own f first' rest'
    look_in-modify_in_ne end first rest first' rest' n = refl
    look_in-modify_in_ne (child k t f) first rest first' rest' n =
        elim (Bool-cases (str_eq k first)) [
          | inl e ↦ rw e (elim (Bool-cases (str_eq k first')) [
            | inl e' ↦
                let same : first ≡ first' =
                  sym ((str_eq_iff k first).0 e) ∙ (str_eq_iff k first').0 e' in
                rw e' (look-modify_ne t rest rest' (n same))
            | inr e' ↦ rw e' refl
          ])
          | inr e ↦ rw e (elim (Bool-cases (str_eq k first')) [
            | inl e' ↦ rw e' refl
            | inr e' ↦ rw e' (look_in-modify_in_ne f first rest first' rest' n)
          ])
        ]

find-adjust :
    {V : Type 0} (g : V → V) (k : Str) (m : Map Str V)
    → find k (adjust g k m) ≡ Option.map g (find k m)
find-adjust g k m = elim (Option-cases (find k m)) [
  | inl e ↦ rw (e, adjust, e) refl
  | inr (v, e) ↦ rw (e, adjust) (find-insert_self k (g v) m)
]

find-adjust_ne :
    {V : Type 0} (g : V → V) (k j : Str) (m : Map Str V) → k ≢ j → find j (adjust g k m) ≡ find j m
find-adjust_ne g k j m n = elim (Option-cases (find k m)) [
  | inl e ↦ rw (e, adjust) refl
  | inr (v, e) ↦ rw (e, adjust) (find-insert_ne k j (g v) m (ground (arith, str_eq_iff k j)))
]

module _ {D : Type 0} where
  -- A change through the pointer to a variable, by its path, is what the same path finds, and no
  -- other path finds another variable than before.
  pub get_variable-change_variable :
      (g : Parameter D → Parameter D) (t : Tree D) (p q : Str)
      → p ≢ q
      → (get_variable (change_variable g t p) p ≡ Option.map g (get_variable t p))
        × (get_variable (change_variable g t p) q ≡ get_variable t q)
  unfolding get_variable change_variable
  get_variable-change_variable g t p q n = (
    look-modify (λ s n. find n s.block.vars) (adjust_variable g) g
        (λ s n. find-adjust g n s.block.vars) t p,
    look-modify_ne (λ s n. find n s.block.vars) (adjust_variable g)
        (λ s n m. find-adjust_ne g n m s.block.vars) t p q n,
  )

  -- The same for subprograms.
  pub get_subprog-change_subprog :
      (g : Subprogram D → Subprogram D) (t : Tree D) (p q : Str)
      → p ≢ q
      → (get_subprog (change_subprog g t p) p ≡ Option.map g (get_subprog t p))
        × (get_subprog (change_subprog g t p) q ≡ get_subprog t q)
  unfolding get_subprog change_subprog
  get_subprog-change_subprog g t p q n = (
    look-modify (λ s n. find n s.subprogs) (adjust_subprog g) g (λ s n. find-adjust g n s.subprogs)
        t p,
    look-modify_ne (λ s n. find n s.subprogs) (adjust_subprog g)
        (λ s n m. find-adjust_ne g n m s.subprogs) t p q n,
  )

module _ {D : Type 0} (g : Tree D → Tree D) where
  mutual
    unfolding get_child change_child

    child-change :
        (t : Tree D) (p : Str) → get_child (change_child g t p) p ≡ Option.map g (get_child t p)
    child-change (node s f) p = child_in-change f (extract_block_name p).0 (extract_block_name p).1

    child_in-change :
        (f : Forest D) (first rest : Str)
        → child_in (change_child_in g f first rest) first rest
          ≡ Option.map g (child_in f first rest)
    child_in-change end first rest = refl
    child_in-change (child k t f) first [] = elim (Bool-cases (str_eq k first)) [
      | inl e ↦ rw e (rw e refl)
      | inr e ↦ rw e (rw e (child_in-change f first []))
    ]
    child_in-change (child k t f) first (c ∷ cs) = elim (Bool-cases (str_eq k first)) [
      | inl e ↦ rw e (rw e (child-change t (c ∷ cs)))
      | inr e ↦ rw e (rw e (child_in-change f first (c ∷ cs)))
    ]

  -- A change through the pointer to a block is what the same path finds.
  pub get_child-change_child :
      (t : Tree D) (p : Str) → get_child (change_child g t p) p ≡ Option.map g (get_child t p)
  get_child-change_child = child-change
