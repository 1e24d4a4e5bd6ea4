-- ===== src/Reader/Trimmed.antt =====
-- Trimming takes away the spaces at both ends, and no more.
use func_sim_engine.Prelude.{
  ℕ, ◌≡◌, refl, sym, ap, ◌∙◌, subst, Bool, true, false, [], ◌∷◌, ◌++◌, append-nil, append_assoc,
  Str, Bool-cases, inl, inr, All, All-append,
}
use mathlib.Core.List.{reverse, reverse-cons, reverse-append, reverse-reverse}
use func_sim_engine.Reader.{ltrim, rtrim, trim}

module _ (isspace : ℕ → Bool) where
  abbrev pub Spaces : Str → Type 0
  Spaces s = All (λ c. isspace c ≡ true) s

  -- Whether a text starts with a space.
  abbrev pub starts : Str → Bool
  starts [] = false
  starts (c ∷ cs) = isspace c

  Spaces-reverse : (s : Str) → Spaces s → Spaces (reverse s)
  Spaces-reverse [] h = tt
  Spaces-reverse (c ∷ cs) h =
      rw (reverse-cons c cs)
        (All-append (λ c. isspace c ≡ true) (reverse cs) (c ∷ []) (Spaces-reverse cs h.1) (h.0, tt))

  starts-append : (xs ys : Str) → starts (xs ++ ys) ≡ false → starts xs ≡ false
  starts-append [] ys h = refl
  starts-append (c ∷ cs) ys h = h

  abbrev Front : Str → Str → Type 0
  Front s m = (p : Str) × Spaces p × (s ≡ p ++ m) × (starts m ≡ false)

  ltrim-Front : (s : Str) → Front s (ltrim isspace s)
  unfolding ltrim
  ltrim-Front [] = ([], tt, refl, refl)
  ltrim-Front (c ∷ cs) = elim (Bool-cases (isspace c)) [
    | inl e ↦
        let (p, h, s, m) = ltrim-Front cs in rw (e, ltrim) (c ∷ p, (e, h), ap (λ x. c ∷ x) s, m)
    | inr e ↦ rw (e, ltrim) ([], tt, refl, e)
  ]

  -- A text is spaces, what its trimming gives, and spaces, and the trimmed text neither starts nor
  -- ends with a space.
  pub trim_split :
      (s : Str)
      → (p q : Str) × Spaces p
        × Spaces q
        × (s ≡ p ++ (trim isspace s ++ q))
        × (starts (trim isspace s) ≡ false)
        × (starts (reverse (trim isspace s)) ≡ false)
  unfolding trim rtrim
  trim_split s =
      let (q, hq, eq, mq) = ltrim-Front (reverse s) in
      let r = rtrim isspace s in
      let (p, hp, ep, mp) = ltrim-Front r in
      let whole : s ≡ r ++ reverse q =
        sym (reverse-reverse s) ∙ (ap reverse eq ∙ reverse-append q (ltrim isspace (reverse s))) in
      let ends : starts (reverse r) ≡ false =
        subst (λ x. starts x ≡ false) (sym (reverse-reverse (ltrim isspace (reverse s)))) mq in
      let ends' : starts (reverse (trim isspace s)) ≡ false =
        starts-append (reverse (trim isspace s)) (reverse p) (
          subst (λ x. starts x ≡ false) (ap reverse ep ∙ reverse-append p (trim isspace s)) ends) in
      (
        p,
        reverse q,
        hp,
        Spaces-reverse q hq,
        whole ∙ (ap (λ x. x ++ reverse q) ep ∙ append_assoc p (trim isspace s) (reverse q)),
        mp,
        ends',
      )

  ltrim-append : (p m : Str) → Spaces p → ltrim isspace (p ++ m) ≡ ltrim isspace m
  unfolding ltrim
  ltrim-append [] m h = refl
  ltrim-append (c ∷ p) m h = rw (h.0, ltrim) (ltrim-append p m h.1)

  ltrim_fixed : (m : Str) → starts m ≡ false → ltrim isspace m ≡ m
  unfolding ltrim
  ltrim_fixed [] h = refl
  ltrim_fixed (c ∷ cs) h = rw (h, ltrim) refl

  ltrim-Spaces : (p : Str) → Spaces p → ltrim isspace p ≡ []
  unfolding ltrim
  ltrim-Spaces p h = ap (ltrim isspace) (sym (append-nil p)) ∙ ltrim-append p [] h

  -- A text read backwards, with the spaces that stood before it.
  both_ends :
      (x p : Str)
      → Spaces p
      → starts x ≡ false
      → starts (reverse x) ≡ false
      → ltrim isspace (reverse (ltrim isspace (x ++ reverse p))) ≡ reverse x
  unfolding ltrim
  both_ends [] p h k l =
      ap (λ y. ltrim isspace (reverse y)) (ltrim-Spaces (reverse p) (Spaces-reverse p h))
  both_ends (c ∷ cs) p h k l =
      let x = c ∷ cs in
      ap (λ y. ltrim isspace (reverse y)) (ltrim_fixed (x ++ reverse p) k)
      ∙ (ap (ltrim isspace)
            (reverse-append x (reverse p) ∙ ap (λ y. y ++ reverse x) (reverse-reverse p))
          ∙ (ltrim-append p (reverse x) h ∙ ltrim_fixed (reverse x) l))

  -- Whatever spaces stand before and after a text that neither starts nor ends with one, its
  -- trimming gives the text.
  pub trim_middle :
      (p m q : Str)
      → Spaces p
      → Spaces q
      → starts m ≡ false
      → starts (reverse m) ≡ false
      → trim isspace (p ++ (m ++ q)) ≡ m
  unfolding trim rtrim
  trim_middle p m q hp hq hm he =
      let back : reverse (p ++ (m ++ q)) ≡ reverse q ++ (reverse m ++ reverse p) =
        reverse-append p (m ++ q)
        ∙ (ap (λ x. x ++ reverse p) (reverse-append m q)
            ∙ append_assoc (reverse q) (reverse m) (reverse p)) in
      let front : ltrim isspace (reverse (p ++ (m ++ q))) ≡ ltrim isspace (reverse m ++ reverse p) =
        ap (ltrim isspace) back
        ∙ ltrim-append (reverse q) (reverse m ++ reverse p) (Spaces-reverse q hq) in
      ap (λ x. ltrim isspace (reverse x)) front
      ∙ (both_ends (reverse m) p hp he (subst (λ x. starts x ≡ false) (sym (reverse-reverse m)) hm)
          ∙ reverse-reverse m)
