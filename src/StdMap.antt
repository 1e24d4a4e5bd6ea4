-- ===== src/StdMap.antt =====
-- `std::map` as the sources use it: an association list that `insert` keeps in the order of its
-- keys, so that iteration follows the keys. A key type gives its `==` and `<`.
use func_sim_engine.Prelude.{
  ℕ, ◌≡◌, refl, ◌↔◌, Bool, true, false, Option, none, some, List, [], ◌∷◌, arith, ltb, ◌==◌, ==_iff,
  All, Bool-cases, inl, inr, subst, if◌then◌else◌, Str, str_eq, str_lt, str_eq_iff,
}

pub record Key (K : Type 0) : Type 0 where
  pub eq : K → K → Bool
  pub lt : K → K → Bool
  pub eq_iff : (a b : K) → (eq a b ≡ true) ↔ (a ≡ b)

instance abbrev pub str_key : Key Str
str_key = record { eq = str_eq; lt = str_lt; eq_iff = str_eq_iff }

instance abbrev pub nat_key : Key ℕ
nat_key = record { eq = ◌==◌; lt = ltb; eq_iff = ==_iff }

abbrev pub Map : Type 0 → Type 0 → Type 0
Map K V = List (K × V)

module _ {K V : Type 0} ⦃key : Key K⦄ where
  -- `find`; `none` is `end()`.
  unfoldable pub find : K → Map K V → Option V
  find k [] = none
  find k ((j, v) ∷ m) = if key.eq j k then some v else find k m

  -- `m[ k ] = v`
  unfoldable pub insert : K → V → Map K V → Map K V
  insert k v [] = (k, v) ∷ []
  insert k v ((j, w) ∷ m) =
      let rest = insert k v m in
      if key.eq j k then (k, v) ∷ m else if key.lt k j then (k, v) ∷ (j, w) ∷ m else (j, w) ∷ rest

  -- `emplace`, `insert( make_pair( k, v ) )`: a key that is there keeps its value.
  unfoldable pub emplace : K → V → Map K V → Map K V × Bool
  emplace k v m = elim (find k m) [ none ↦ (insert k v m, true) | some _ ↦ (m, false) ]

  unfoldable pub erase : K → Map K V → Map K V
  erase k [] = []
  erase k ((j, v) ∷ m) = let rest = erase k m in if key.eq j k then rest else (j, v) ∷ rest

  pub find-nil : (k : K) → ◌≡◌ {A = Option V} (find k []) none
  unfolding find
  find-nil k = refl

  pub find-insert :
      (k j : K) (v : V) (m : Map K V)
      → find j (insert k v m) ≡ (if key.eq k j then some v else find j m)
  unfolding find insert
  find-insert k j v [] = refl
  find-insert k j v ((i, w) ∷ m) =
      ground (arith, key.eq_iff k j, key.eq_iff i k, key.eq_iff i j, find-insert k j v m)

  pub find-insert_ne :
      (k j : K) (v : V) (m : Map K V) → key.eq k j ≡ false → find j (insert k v m) ≡ find j m
  find-insert_ne k j v m t = ground (arith, find-insert k j v m)

  pub find-insert_self : (k : K) (v : V) (m : Map K V) → find k (insert k v m) ≡ some v
  find-insert_self k v m = ground (arith, find-insert k k v m, (key.eq_iff k k).1 refl)

  pub find-erase :
      (k j : K) (m : Map K V) → find j (erase k m) ≡ (if key.eq k j then none else find j m)
  unfolding find erase
  find-erase k j [] = ground arith
  find-erase k j ((i, w) ∷ m) =
      ground (arith, key.eq_iff k j, key.eq_iff i k, key.eq_iff i j, find-erase k j m)

  pub find-emplace :
      (k j : K) (v : V) (m : Map K V)
      → find j (emplace k v m).0
        ≡ (elim (find k m) [ none ↦ if key.eq k j then some v else find j m | some _ ↦ find j m ])
  unfolding emplace
  find-emplace k j v m = ground (arith, find-insert k j v m)

  -- What holds of all the values holds of one that is found.
  pub find-All :
      (P : V → Type 0) (k : K) (v : V) (m : Map K V) → All (λ e. P e.1) m → find k m ≡ some v → P v
  unfolding find
  find-All P k v [] h e = cc
  find-All P k v ((j, w) ∷ m) h e = elim (Bool-cases (key.eq j k)) [
    | inl t ↦ let e' : some w ≡ some v = rw t at e in let e'' : w ≡ v = cc in subst P e'' h.0
    | inr t ↦ find-All P k v m h.1 (rw t at e)
  ]
