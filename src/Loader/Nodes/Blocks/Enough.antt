-- ===== src/Loader/Nodes/Blocks/Enough.antt =====
-- A task whose nodes are not nested without end is read whole: enough fuel is never used up.
use func_sim_engine.Prelude.{
  ℕ, zero, suc, ◌<◌, ◌≡◌, refl, Option, none, some, List, [], ◌∷◌, Str, lit, All, arith,
}
use func_sim_engine.StdMap.{Map, str_key, insert}
use func_sim_engine.Param.Real.{Floats}
use func_sim_engine.Subprogram.{FunctionStorage}
use func_sim_engine.Tree.{Tree}
use func_sim_engine.Loader.{Classes, Loading, loaded, refused, crashed, says, find_or, ◌>>=◌}
use func_sim_engine.Loader.Nodes.{
  Yaml, caught, read_n_validate, validate_map, decode_entries, decode_map,
}
use func_sim_engine.Loader.Nodes.Blocks.{decode_part, decode_parts, decode_block}

Loading-bind_cong {ℓ} :
    {A B : Type ℓ} (m : Loading A) (f g : A → Loading B)
    → ((a : A) → m ≡ loaded a → f a ≡ g a)
    → (m >>= f) ≡ (m >>= g)
Loading-bind_cong (loaded a) f g h = h a refl
Loading-bind_cong (refused e) f g h = refl
Loading-bind_cong crashed f g h = refl

-- How deep the nodes are nested: what stands in a node is less deep than the node, as it is where no
-- alias stands for a node around it.
pub record IsNested {N D : Type 0} (yaml : Yaml N D) (depth : N → ℕ) : Type 0 where
  pub entry_less :
      (n : N) (key : Str) (m : N) → yaml.entry n key ≡ loaded (some m) → depth m < depth n
  pub entries_less : (n : N) → All (λ e. depth e.1 < depth n) (yaml.entries n)

module _ {N D V : Type 0} (yaml : Yaml N D) (conv conv' : N → Loading V) where
  decode_entries_same :
      (es : List (Option Str × N)) (m : Map Str V)
      → All (λ e. conv e.1 ≡ conv' e.1) es
      → decode_entries yaml conv es m ≡ decode_entries yaml conv' es m
  unfolding decode_entries
  decode_entries_same [] m h = refl
  decode_entries_same ((k, n) ∷ es) m h = rw h.0 (
      Loading-bind_cong (find_or k (says (lit "Неверно указано имя"))) _ _ (λ key e.
        Loading-bind_cong (caught (conv' n) _) _ _
          (λ v e'. decode_entries_same es (insert key v m) h.1)))

  -- The conversion of the entries is all that a map that is read depends on.
  decode_map_same :
      (n : N)
      → All (λ e. conv e.1 ≡ conv' e.1) (yaml.entries n)
      → decode_map yaml conv n ≡ decode_map yaml conv' n
  unfolding decode_map
  decode_map_same n h =
      Loading-bind_cong (validate_map yaml n) _ _ (λ u e. decode_entries_same (yaml.entries n) [] h)

  decode_part_same :
      (n : N) (key desc : Str)
      → ((m : N)
          → yaml.entry n key ≡ loaded (some m)
          → All (λ e. conv e.1 ≡ conv' e.1) (yaml.entries m))
      → decode_part yaml n key desc conv ≡ decode_part yaml n key desc conv'
  unfolding decode_part read_n_validate
  decode_part_same n key desc h =
      Loading-bind_cong (yaml.entry n key) _ _
        (elim [ none ↦ λ e. refl | some m ↦ λ e. rw (decode_map_same m (h m e)) refl ])

All-below :
    {N V : Type 0} (depth : N → ℕ) (d : ℕ) (conv conv' : N → Loading V) (es : List (Option Str × N))
    → ((n : N) → depth n < d → conv n ≡ conv' n)
    → All (λ e. depth e.1 < d) es
    → All (λ e. conv e.1 ≡ conv' e.1) es
All-below depth d conv conv' [] h below = tt
All-below depth d conv conv' ((k, n) ∷ es) h below =
    (h n below.0, All-below depth d conv conv' es h below.1)

module _ {N D W : Type 0} ⦃fl : Floats D⦄ (yaml : Yaml N D) (classes : N → Classes D)
    (storage : FunctionStorage D W) (start : N → ℕ) where
  -- The reading of `n` levels of nodes, with any reader of the nodes below them.
  abbrev pub levels : ℕ → (N → Loading (Tree D)) → N → Loading (Tree D)
  levels zero conv = conv
  levels (suc n) conv = decode_parts yaml classes storage start (levels n conv)

module _ {N D W : Type 0} ⦃fl : Floats D⦄ (yaml : Yaml N D) (classes : N → Classes D)
    (storage : FunctionStorage D W) (start : N → ℕ) (depth : N → ℕ)
    (nested : IsNested yaml depth) where
  decode_parts_same :
      (conv conv' : N → Loading (Tree D)) (n : N)
      → ((m : N) → depth m < depth n → conv m ≡ conv' m)
      → decode_parts yaml classes storage start conv n
        ≡ decode_parts yaml classes storage start conv' n
  unfolding decode_parts
  decode_parts_same conv conv' n h =
      let children = decode_part_same yaml conv conv' n (lit "блоки") (lit "массив блоков") (λ m e.
        let less = nested.entry_less n (lit "блоки") m e in
        All-below depth (depth m) conv conv' (yaml.entries m)
          (λ k below. h k (omega (arith, below, less))) (nested.entries_less m)) in
      rw children refl

  -- If what stands in a node is less deep than the node, and there is more fuel than the node is
  -- deep, then what is loaded is what any number of levels above the depth gives, whatever stands in
  -- place of the reading of nodes below them: nothing is asked where the fuel ends.
  pub decode_block_enough :
      (fuel n : ℕ) (conv : N → Loading (Tree D)) (b : N)
      → depth b < fuel
      → depth b < n
      → decode_block yaml classes storage start fuel b ≡ levels yaml classes storage start n conv b
  unfolding decode_block
  decode_block_enough zero n conv b l l' = absurd (omega (arith, l))
  decode_block_enough (suc fuel) zero conv b l l' = absurd (omega (arith, l'))
  decode_block_enough (suc fuel) (suc n) conv b l l' =
      decode_parts_same (decode_block yaml classes storage start fuel)
        (levels yaml classes storage start n conv) b
        (λ m less.
          decode_block_enough fuel n conv m (omega (arith, l, less)) (omega (arith, l', less)))
