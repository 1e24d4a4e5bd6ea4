-- ===== src/Remap/Aliasing.antt =====
-- Who sees a write: maps that share their data do, through their own names, and copies do not.
use func_sim_engine.Prelude.{
  ℕ, zero, suc, ◌<◌, ◌≡◌, ◌≢◌, refl, ap, sym, true, false, some, [], ◌∷◌, ◌++◌, arith, length, ◌∙◌,
  set, if◌then◌else◌, Str, str_eq,
}
use func_sim_engine.StdMap
use func_sim_engine.StdMap.{Map, Key, str_key, find-nil, find-insert}
use func_sim_engine.Remap.{
  RemappableMap, Heap, deref, get_map_key, set_key_remap, copy, find, assign_at, use_data,
}

-- Without a remap there is no other name.
pub record IsWellFormed (m : RemappableMap) : Type 0 where
  pub plain : m.has_remap ≡ false → m.remap ≡ []

-- A map whose pointer leads somewhere.
abbrev pub IsAllocated : {V : Type 0} → RemappableMap → Heap V → Type 0
IsAllocated m h = m.p_map < length h

pub set_key_remap-IsWellFormed :
    (e r : Str) (m : RemappableMap) → IsWellFormed m → IsWellFormed (set_key_remap e r m).0
unfolding set_key_remap StdMap.emplace
set_key_remap-IsWellFormed e r m w = record { plain = λ p. ground (arith, w.plain) }

p_map-set_key_remap : (e r : Str) (m : RemappableMap) → (set_key_remap e r m).0.p_map ≡ m.p_map
unfolding set_key_remap
p_map-set_key_remap e r m = ground arith

get_map_key-set_key_remap :
    (e r k : Str) (m : RemappableMap)
    → IsWellFormed m
    → get_map_key (set_key_remap e r m).0 k ≡ (
        if (set_key_remap e r m).1
        then (if str_eq r k then e else get_map_key m k)
        else get_map_key m k)
unfolding set_key_remap get_map_key StdMap.emplace
get_map_key-set_key_remap e r k m w =
    ground (arith, w.plain, find-nil {V = Str} k, find-insert r k e m.remap)

module _ {V : Type 0} where
  deref-set_self : (h : Heap V) (p : ℕ) (d : Map Str V) → p < length h → deref (set h p d) p ≡ d
  deref-set_self [] p d b = elim b [ ]
  deref-set_self (x ∷ h) zero d b = refl
  deref-set_self (x ∷ h) (suc p) d b = deref-set_self h p d (omega arith)

  deref-set_ne : (h : Heap V) (p q : ℕ) (d : Map Str V) → p ≢ q → deref (set h p d) q ≡ deref h q
  deref-set_ne [] p q d n = refl
  deref-set_ne (x ∷ h) zero zero d n = absurd (n refl)
  deref-set_ne (x ∷ h) zero (suc q) d n = refl
  deref-set_ne (x ∷ h) (suc p) zero d n = refl
  deref-set_ne (x ∷ h) (suc p) (suc q) d n = deref-set_ne h p q d (λ e. n (ap suc e))

  deref-append :
      (h : Heap V) (d : Map Str V) (p : ℕ) → p < length h → deref (h ++ d ∷ []) p ≡ deref h p
  deref-append [] d p b = elim b [ ]
  deref-append (x ∷ h) d zero b = refl
  deref-append (x ∷ h) d (suc p) b = deref-append h d p (omega arith)

  deref-append_last : (h : Heap V) (d : Map Str V) → deref (h ++ d ∷ []) (length h) ≡ d
  deref-append_last [] d = refl
  deref-append_last (x ∷ h) d = deref-append_last h d

  -- A new name reads the entry that it was given, unless it had one, and no other name changes.
  pub find-set_key_remap :
      (e r k : Str) (m : RemappableMap) (h : Heap V)
      → IsWellFormed m
      → find k (set_key_remap e r m).0 h ≡ (
          if (set_key_remap e r m).1
          then (if str_eq r k then StdMap.find e (deref h m.p_map) else find k m h)
          else find k m h)
  unfolding find
  find-set_key_remap e r k m h w =
      rw (p_map-set_key_remap, get_map_key-set_key_remap e r k m w) (ground arith)

  -- A write through one map is read, through each map that shares its data, under the key that
  -- either has for it.
  pub find-assign_at :
      (k j : Str) (v : V) (m n : RemappableMap) (h : Heap V)
      → IsAllocated m h
      → m.p_map ≡ n.p_map
      → find j n (assign_at k v m h)
        ≡ (if str_eq (get_map_key m k) (get_map_key n j) then some v else find j n h)
  unfolding find assign_at
  find-assign_at k j v m n h b e =
      simp (← e, deref-set_self h m.p_map _ b) (find-insert (get_map_key m k) (get_map_key n j) v _)

  -- When `remapped` is a new name for the key `existed` of a map, a write through that map under
  -- any name, `remapped` among them, is read by a map without new names that shares its data under
  -- the key that the name stands for, and under no other.
  pub find-assign_at-set_key_remap :
      (existed remapped k j : Str) (v : V) (m n : RemappableMap) (h : Heap V)
      → IsWellFormed m
      → IsAllocated m h
      → (set_key_remap existed remapped m).1 ≡ true
      → n ≡ record { p_map = m.p_map; has_remap = false; remap = [] }
      → find j n (assign_at k v (set_key_remap existed remapped m).0 h) ≡ (
          if str_eq (if str_eq remapped k then existed else get_map_key m k) j
          then some v
          else find j n h)
  unfolding get_map_key
  find-assign_at-set_key_remap existed remapped k j v m n h w b fresh e =
      let m' = (set_key_remap existed remapped m).0 in
      let same : m'.p_map ≡ m.p_map = p_map-set_key_remap existed remapped m in
      let plain : get_map_key n j ≡ j = rw e refl in
      let key : get_map_key m' k ≡ (if str_eq remapped k then existed else get_map_key m k) =
        rw fresh at (get_map_key-set_key_remap existed remapped k m w) in
      rw (plain, key) at
        (find-assign_at k j v m' n h (omega (arith, same)) (same ∙ sym (ap (λ x. x.p_map) e)))

  -- A write through one map is not seen by a map with other data.
  pub find-assign_at_ne :
      (k j : Str) (v : V) (m n : RemappableMap) (h : Heap V)
      → m.p_map ≢ n.p_map
      → find j n (assign_at k v m h) ≡ find j n h
  unfolding find assign_at
  find-assign_at_ne k j v m n h e = rw (deref-set_ne h m.p_map n.p_map _ e)

  -- A map that uses the data of another reads what that one reads, each under its own names.
  pub find-use_data :
      (k : Str) (m n : RemappableMap) (h : Heap V)
      → find k (use_data n m) h ≡ StdMap.find (get_map_key m k) (deref h n.p_map)
  unfolding find use_data get_map_key
  find-use_data k m n h = refl

  find-append :
      (k : Str) (m : RemappableMap) (h : Heap V) (d : Map Str V)
      → IsAllocated m h
      → find k m (h ++ d ∷ []) ≡ find k m h
  unfolding find
  find-append k m h d b = rw (deref-append h d m.p_map b)

  -- A copy reads what its source read when it was made.
  pub find-copy :
      (k : Str) (m : RemappableMap) (h : Heap V) → find k (copy m h).0 (copy m h).1 ≡ find k m h
  unfolding find copy get_map_key
  find-copy k m h = rw (deref-append_last h (deref h m.p_map))

  -- A write to a copy leaves every map of the old heap as it was, and a write to one of those
  -- leaves the copy.
  pub copy_isolated :
      (k j : Str) (v : V) (m n : RemappableMap) (h : Heap V)
      → IsAllocated n h
      → let (c, g) = copy m h in
        (find j n (assign_at k v c g) ≡ find j n h) × (find j c (assign_at k v n g) ≡ find j m h)
  unfolding copy
  copy_isolated k j v m n h b =
      let c = (copy m h).0 in
      let g = (copy m h).1 in
      (
        find-assign_at_ne k j v c n g (λ e. omega arith) ∙ find-append j n h (deref h m.p_map) b,
        find-assign_at_ne k j v n c g (λ e. omega arith) ∙ find-copy j m h,
      )
