-- ===== src/Scheduler/Order.antt =====
-- The multimap of the scheduler is a stable sort by priority.
use mathlib.Core.List.{Perm, perm_middle}
use mathlib.Core.List.Perm
use func_sim_engine.Prelude.{
  ◌≡◌, refl, Bool, true, false, not, ◌&&◌, List, [], ◌∷◌, ◌++◌, append-nil, append_assoc, arith,
  All, if◌then◌else◌, Bool-cases, inl, inr,
}
use func_sim_engine.Scheduler.{emplace, emplace_all}

-- `<`, which is a strict weak order between priorities that are no NaN, such as `N` holds of: what is
-- asked of it holds of the numbers of IEEE 754, NaN among them, where `N` says that one equals itself.
pub record IsOrder {D : Type 0} (lt : D → D → Bool) (N : D → Type 0) : Type 0 where
  pub asym : (a b : D) → lt a b ≡ true → lt b a ≡ false
  pub cotrans : (a b c : D) → N b → lt a b ≡ false → lt b c ≡ false → lt a c ≡ false

module _ {D : Type 0} (lt : D → D → Bool) {A : Type 0} where
  -- No entry stands behind one of a greater key.
  abbrev pub IsSorted : List (D × A) → Type 0
  IsSorted [] = Unit
  IsSorted ((k, v) ∷ m) = All (λ e. lt e.0 k ≡ false) m × IsSorted m

  -- The values at the keys that are equivalent to `p`, in their order.
  unfoldable pub at_priority : D → List (D × A) → List A
  at_priority p [] = []
  at_priority p ((k, v) ∷ m) =
      let rest = at_priority p m in if not (lt p k) && not (lt k p) then v ∷ rest else rest

module _ {D : Type 0} (lt : D → D → Bool) (N : D → Type 0) {A : Type 0} where
  -- No key is a NaN.
  abbrev pub Numbers : List (D × A) → Type 0
  Numbers m = All (λ e. N e.0) m

  emplace-All :
      (P : D × A → Type 0) (k : D) (v : A) (m : List (D × A))
      → P (k, v)
      → All P m
      → All P (emplace lt k v m)
  unfolding emplace
  emplace-All P k v [] h a = (h, tt)
  emplace-All P k v ((j, w) ∷ m) h a = elim (Bool-cases (lt k j)) [
    | inl e ↦ rw e (h, a)
    | inr e ↦ rw e (a.0, emplace-All P k v m h a.1)
  ]

  All-below :
      (o : IsOrder lt N) (k j : D) (m : List (D × A))
      → N j
      → lt j k ≡ false
      → All (λ e. lt e.0 j ≡ false) m
      → All (λ e. lt e.0 k ≡ false) m
  All-below o k j [] n h a = tt
  All-below o k j ((i, w) ∷ m) n h a = (o.cotrans i j k n a.0 h, All-below o k j m n h a.1)

  emplace-IsSorted :
      (o : IsOrder lt N) (k : D) (v : A) (m : List (D × A))
      → Numbers m
      → IsSorted lt m
      → IsSorted lt (emplace lt k v m)
  unfolding emplace
  emplace-IsSorted o k v [] n s = (tt, tt)
  emplace-IsSorted o k v ((j, w) ∷ m) n s = elim (Bool-cases (lt k j)) [
    | inl e ↦ rw e ((o.asym k j e, All-below o k j m n.0 (o.asym k j e) s.0), s)
    | inr e ↦ rw e (emplace-All _ k v m e s.0, emplace-IsSorted o k v m n.1 s.1)
  ]

  emplace-Perm : (k : D) (v : A) (m : List (D × A)) → Perm (emplace lt k v m) ((k, v) ∷ m)
  unfolding emplace
  emplace-Perm k v [] = Perm.refl _
  emplace-Perm k v ((j, w) ∷ m) = elim (Bool-cases (lt k j)) [
    | inl e ↦ rw e (Perm.refl _)
    | inr e ↦ rw e (Perm.trans (Perm.cons _ (emplace-Perm k v m)) (Perm.swap _ _ _))
  ]

  -- Nothing is found at a smaller priority than all the keys.
  at_priority_above :
      (o : IsOrder lt N) (p j : D) (m : List (D × A))
      → Numbers m
      → lt p j ≡ true
      → All (λ e. lt e.0 j ≡ false) m
      → at_priority lt p m ≡ []
  unfolding at_priority
  at_priority_above o p j [] n h a = refl
  at_priority_above o p j ((i, w) ∷ m) n h a =
      ground (arith, o.cotrans p i j n.0, at_priority_above o p j m n.1 h a.1)

  at_priority-emplace :
      (o : IsOrder lt N) (p k : D) (v : A) (m : List (D × A))
      → N p
      → Numbers m
      → IsSorted lt m
      → at_priority lt p (emplace lt k v m) ≡ at_priority lt p m ++ at_priority lt p ((k, v) ∷ [])
  unfolding at_priority emplace
  at_priority-emplace o p k v [] np n s = refl
  at_priority-emplace o p k v ((j, w) ∷ m) np n s = elim (Bool-cases (lt k j)) [
    | inl e ↦ rw e (front e)
    | inr e ↦ rw e (ground (arith, at_priority-emplace o p k v m np n.1 s.1))
  ]
    where
      front :
          lt k j ≡ true
          → at_priority lt p ((k, v) ∷ (j, w) ∷ m)
            ≡ at_priority lt p ((j, w) ∷ m) ++ at_priority lt p ((k, v) ∷ [])
      front e = elim (Bool-cases (lt p j)) [
        | inl h ↦
            let z : at_priority lt p ((j, w) ∷ m) ≡ [] =
              at_priority_above o p j ((j, w) ∷ m) n h (ground (arith, o.asym j j), s.0) in
            rw z
        | inr h ↦ ground (arith, o.cotrans k p j np, append-nil (at_priority lt p ((j, w) ∷ m)))
      ]

  at_priority-cons :
      (p k : D) (v : A) (l : List (D × A))
      → at_priority lt p ((k, v) ∷ l) ≡ at_priority lt p ((k, v) ∷ []) ++ at_priority lt p l
  unfolding at_priority
  at_priority-cons p k v l = ground arith

  pub at_priority-append :
      (p : D) (l m : List (D × A))
      → at_priority lt p (l ++ m) ≡ at_priority lt p l ++ at_priority lt p m
  unfolding at_priority
  at_priority-append p [] m = refl
  at_priority-append p ((k, v) ∷ l) m = ground (arith, at_priority-append p l m)

  pub emplace_all-Numbers :
      (l m : List (D × A)) → Numbers l → Numbers m → Numbers (emplace_all lt l m)
  unfolding emplace_all
  emplace_all-Numbers [] m nl n = n
  emplace_all-Numbers ((k, v) ∷ l) m nl n =
      emplace_all-Numbers l (emplace lt k v m) nl.1 (emplace-All (λ e. N e.0) k v m nl.0 n)

  pub emplace_all-IsSorted :
      (o : IsOrder lt N) (l m : List (D × A))
      → Numbers l
      → Numbers m
      → IsSorted lt m
      → IsSorted lt (emplace_all lt l m)
  unfolding emplace_all
  emplace_all-IsSorted o [] m nl n s = s
  emplace_all-IsSorted o ((k, v) ∷ l) m nl n s =
      emplace_all-IsSorted o l (emplace lt k v m) nl.1 (emplace-All (λ e. N e.0) k v m nl.0 n)
        (emplace-IsSorted o k v m n s)

  pub at_priority-emplace_all :
      (o : IsOrder lt N) (p : D) (l m : List (D × A))
      → N p
      → Numbers l
      → Numbers m
      → IsSorted lt m
      → at_priority lt p (emplace_all lt l m) ≡ at_priority lt p m ++ at_priority lt p l
  unfolding emplace_all
  at_priority-emplace_all o p [] m np nl n s = unfold at_priority in rw append-nil
  at_priority-emplace_all o p ((k, v) ∷ l) m np nl n s =
      rw
        (
          at_priority-emplace_all o p l (emplace lt k v m) np nl.1
              (emplace-All (λ e. N e.0) k v m nl.0 n) (emplace-IsSorted o k v m n s),
          at_priority-emplace o p k v m np n s,
          at_priority-cons p k v l,
        )
        (append_assoc (at_priority lt p m) _ _)

  pub emplace_all-Perm : (l m : List (D × A)) → Perm (emplace_all lt l m) (l ++ m)
  unfolding emplace_all
  emplace_all-Perm [] m = Perm.refl m
  emplace_all-Perm ((k, v) ∷ l) m =
      Perm.trans (emplace_all-Perm l (emplace lt k v m))
        (Perm.trans (Perm.append (Perm.refl l) (emplace-Perm k v m)) (perm_middle l m))
