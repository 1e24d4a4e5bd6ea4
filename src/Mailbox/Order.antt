-- ===== src/Mailbox/Order.antt =====
-- Whatever the interleaving, one thread at a time is inside, and what is taken is what was heard.
use func_sim_engine.Prelude.{
  ◌≡◌, refl, sym, ◌∙◌, subst, Bool, true, false, ◌&&◌, ◌||◌, Option, none, some, List, [], ◌∷◌,
  ◌++◌, append-nil, append_assoc, arith, Option-cases, inl, inr,
}
use func_sim_engine.Mailbox.{
  Adder, idle, added, ready, entered, Taker, away, inside, holding, Mailbox, empty_box, Action,
  hear, adder_locks, push_back, adder_unlocks, taker_locks, splice, taker_unlocks, add_step, heard,
  take_step, act, interleave, entries,
}

module _ {A : Type 0} where
  abbrev pub adds : Adder A → Bool
  adds idle = false
  adds (ready a) = false
  adds (entered a) = true
  adds added = true

  abbrev pub takes : Taker A → Bool
  takes away = false
  takes inside = true
  takes (holding res) = true

  -- What was taken, then what is under way, in order.
  abbrev pub unadded : Adder A → List A
  unadded idle = []
  unadded (ready a) = a ∷ []
  unadded (entered a) = a ∷ []
  unadded added = []

  abbrev pub held : Taker A → List A
  held away = []
  held inside = []
  held (holding res) = res

  abbrev pub contents : Mailbox A → List A
  contents b = b.taken ++ (held b.taker ++ (b.instr ++ unadded b.adder))

  -- The lock is held by the thread that is inside; entries that are held leave an empty list behind.
  pub record IsLocked (b : Mailbox A) : Type 0 where
    pub locked : b.mtx ≡ (adds b.adder || takes b.taker)
    pub exclusive : (adds b.adder && takes b.taker) ≡ false

abbrev pub hears : {I : Type 0} → Action I → Bool
hears (hear i) = true
hears _ = false

module _ {I A : Type 0} (prepare : I → Option A) where
  abbrev pub news : Action I → List A
  news x = entries prepare (x ∷ [])

  -- What one action does.
  abbrev Kept : Mailbox A → Action I → Option (Mailbox A) → Type 0
  Kept b x none = Unit
  Kept b x (some b') = IsLocked b' × (contents b' ≡ contents b ++ news x)

  ruleset lists = (append_assoc, append-nil)

  hear-Kept :
      (i : I) (p : Adder A) (b : Mailbox A)
      → IsLocked (record b { adder = p })
      → Kept
          (record b { adder = p })
          (hear i)
          (add_step prepare (hear i) p (record b { adder = p }))
  unfolding add_step entries
  hear-Kept i idle b h =
      let Q : Option A → Type 0 = λ o.
        IsLocked (record b { adder = heard o })
        × (contents (record b { adder = heard o })
            ≡ contents (record b { adder = idle }) ++ elim o [ none ↦ [] | some a ↦ a ∷ [] ]) in
      elim (prepare i) as Q [
        | none ↦ (record { locked = h.locked; exclusive = refl }, simp lists)
        | some a ↦ (record { locked = h.locked; exclusive = refl }, simp lists)
      ]
  hear-Kept i (ready a) b h = tt
  hear-Kept i (entered a) b h = tt
  hear-Kept i added b h = tt

  adder_locks-Kept :
      (p : Adder A) (m : Bool) (b : Mailbox A)
      → IsLocked (record b { adder = p; mtx = m })
      → Kept
          (record b { adder = p; mtx = m })
          adder_locks
          (add_step prepare adder_locks p (record b { adder = p; mtx = m }))
  unfolding add_step entries
  adder_locks-Kept (ready a) true b h = tt
  adder_locks-Kept (ready a) false b h =
      let out : takes b.taker ≡ false = sym h.locked in
      (record { locked = refl; exclusive = out }, simp lists)
  adder_locks-Kept idle m b h = tt
  adder_locks-Kept (entered a) m b h = tt
  adder_locks-Kept added m b h = tt

  push_back-Kept :
      (p : Adder A) (b : Mailbox A)
      → IsLocked (record b { adder = p })
      → Kept
          (record b { adder = p })
          push_back
          (add_step prepare push_back p (record b { adder = p }))
  unfolding add_step entries
  push_back-Kept (entered a) b h =
      (record { locked = h.locked; exclusive = h.exclusive }, simp lists)
  push_back-Kept idle b h = tt
  push_back-Kept (ready a) b h = tt
  push_back-Kept added b h = tt

  adder_unlocks-Kept :
      (p : Adder A) (b : Mailbox A)
      → IsLocked (record b { adder = p })
      → Kept
          (record b { adder = p })
          adder_unlocks
          (add_step prepare adder_unlocks p (record b { adder = p }))
  unfolding add_step entries
  adder_unlocks-Kept added b h = (record { locked = sym h.exclusive; exclusive = refl }, simp lists)
  adder_unlocks-Kept idle b h = tt
  adder_unlocks-Kept (ready a) b h = tt
  adder_unlocks-Kept (entered a) b h = tt

  taker_locks-Kept :
      (t : Taker A) (m : Bool) (b : Mailbox A)
      → IsLocked (record b { taker = t; mtx = m })
      → Kept
          (record b { taker = t; mtx = m })
          taker_locks
          (take_step prepare taker_locks t (record b { taker = t; mtx = m }))
  unfolding take_step entries
  taker_locks-Kept away true b h = tt
  taker_locks-Kept away false b h =
      let l = h.locked in (record { locked = ground arith; exclusive = ground arith }, simp lists)
  taker_locks-Kept inside m b h = tt
  taker_locks-Kept (holding res) m b h = tt

  splice-Kept :
      (t : Taker A) (b : Mailbox A)
      → IsLocked (record b { taker = t })
      → Kept (record b { taker = t }) splice (take_step prepare splice t (record b { taker = t }))
  unfolding take_step entries
  splice-Kept inside b h = (record { locked = h.locked; exclusive = h.exclusive }, simp lists)
  splice-Kept away b h = tt
  splice-Kept (holding res) b h = tt

  taker_unlocks-Kept :
      (t : Taker A) (b : Mailbox A)
      → IsLocked (record b { taker = t })
      → Kept
          (record b { taker = t })
          taker_unlocks
          (take_step prepare taker_unlocks t (record b { taker = t }))
  unfolding take_step entries
  taker_unlocks-Kept (holding res) b h =
      let x = h.exclusive in
      (record { locked = ground arith; exclusive = ground arith }, simp lists)
  taker_unlocks-Kept away b h = tt
  taker_unlocks-Kept inside b h = tt

  act-Kept : (x : Action I) (b : Mailbox A) → IsLocked b → Kept b x (act prepare x b)
  unfolding act
  act-Kept (hear i) b h = hear-Kept i b.adder b h
  act-Kept adder_locks b h = adder_locks-Kept b.adder b.mtx b h
  act-Kept push_back b h = push_back-Kept b.adder b h
  act-Kept adder_unlocks b h = adder_unlocks-Kept b.adder b h
  act-Kept taker_locks b h = taker_locks-Kept b.taker b.mtx b h
  act-Kept splice b h = splice-Kept b.taker b h
  act-Kept taker_unlocks b h = taker_unlocks-Kept b.taker b h

  entries-cons :
      (x : Action I) (xs : List (Action I))
      → entries prepare (x ∷ xs) ≡ news x ++ entries prepare xs
  unfolding entries
  entries-cons (hear i) xs =
      elim (prepare i)
        as (λ o.
          (elim o [ none ↦ entries prepare xs | some a ↦ a ∷ entries prepare xs ])
          ≡ (elim o [ none ↦ [] | some a ↦ a ∷ [] ]) ++ entries prepare xs) [
            | none ↦ refl
            | some a ↦ refl
          ]
  entries-cons adder_locks xs = refl
  entries-cons push_back xs = refl
  entries-cons adder_unlocks xs = refl
  entries-cons taker_locks xs = refl
  entries-cons splice xs = refl
  entries-cons taker_unlocks xs = refl

  interleave-Kept :
      (xs : List (Action I)) (b b' : Mailbox A)
      → IsLocked b
      → interleave prepare xs b ≡ some b'
      → IsLocked b' × (contents b' ≡ contents b ++ entries prepare xs)
  unfolding interleave entries
  interleave-Kept [] b b' h e =
      let same : b ≡ b' = cc in
      subst (λ c. IsLocked c × (contents c ≡ contents b ++ [])) same (h, simp lists)
  interleave-Kept (x ∷ xs) b b' h e = elim (Option-cases (act prepare x b)) [
    | inl n ↦ absurd (ground (arith, rw (n, interleave) at e))
    | inr (c, n) ↦
        let (k, l) = rw n at (act-Kept x b h) in
        let (h', l') = interleave-Kept xs c b' k (rw (n, interleave) at e) in
        (
          h',
          l' ∙ rw (l, entries-cons x xs) (append_assoc (contents b) (news x) (entries prepare xs)),
        )
  ]

  -- However the actions of the two threads are interleaved, from an empty queue: the two threads are
  -- never inside at once, the lock is held when one is, and the entries made of what was heard are,
  -- in order and each once, those that were returned, those that the taking thread holds, those in
  -- the queue, and the one that is not added yet.
  pub interleave_in_order :
      (xs : List (Action I)) (b : Mailbox A)
      → interleave prepare xs empty_box ≡ some b
      → IsLocked b × (contents b ≡ entries prepare xs)
  interleave_in_order xs b e =
      interleave-Kept xs empty_box b (record { locked = refl; exclusive = refl }) e

  -- What can be done next, other than to hear, by a thread that is inside, or else by one that waits
  -- for the lock.
  abbrev pub CanAct : Mailbox A → Type 0
  CanAct b = (x : Action I) × (b' : Mailbox A) × (hears x ≡ false) × (act prepare x b ≡ some b')

  taker_can :
      (t : Taker A) (m : Bool) (b : Mailbox A)
      → m ≡ takes t
      → CanAct (record b { taker = t; mtx = m })
  unfolding act take_step
  taker_can away true b e = absurd (ground (arith, e))
  taker_can away false b e = (taker_locks, _, refl, refl)
  taker_can inside m b e = (splice, _, refl, refl)
  taker_can (holding res) m b e = (taker_unlocks, _, refl, refl)

  adder_can :
      (p : Adder A) (b : Mailbox A)
      → b.mtx ≡ (adds p || takes b.taker)
      → CanAct (record b { adder = p })
  unfolding act add_step
  adder_can (entered a) b e = (push_back, _, refl, refl)
  adder_can added b e = (adder_unlocks, _, refl, refl)
  adder_can idle b e = taker_can b.taker b.mtx (record b { adder = idle }) e
  adder_can (ready a) b e = taker_can b.taker b.mtx (record b { adder = ready a }) e

  -- The two threads never wait for each other for ever: after any interleaving, from an empty queue,
  -- one of them can act, other than to hear more.
  pub interleave_goes_on :
      (xs : List (Action I)) (b : Mailbox A) → interleave prepare xs empty_box ≡ some b → CanAct b
  interleave_goes_on xs b e = adder_can b.adder b (interleave_in_order xs b e).0.locked
