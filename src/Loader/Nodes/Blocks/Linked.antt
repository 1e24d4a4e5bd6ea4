-- ===== src/Loader/Nodes/Blocks/Linked.antt =====
-- Every block that is loaded from a node is linked with its children, at every depth.
use func_sim_engine.Prelude.{
  ℕ, zero, suc, ◌≡◌, subst, Option, none, some, List, [], ◌∷◌, ◌++◌, Str, lit, All,
}
use func_sim_engine.StdMap.{Map, str_key, insert}
use func_sim_engine.Param.Real.{Floats}
use func_sim_engine.Result.{ok}
use func_sim_engine.Block.{return_vars}
use func_sim_engine.Block.Wiring.{All-insert}
use func_sim_engine.Subprogram.{FunctionStorage}
use func_sim_engine.Tree.{Tree, Site, site}
use func_sim_engine.Loader.{Classes, Loading, loaded, refused, crashed, LoadError, says, ◌>>=◌}
use func_sim_engine.Tree.Calling.{Machine, Vars, call}
use func_sim_engine.Tree.Calling.Growth.{AllWired}
use func_sim_engine.Tree.Calling.Wired.{call-AllWired}
use func_sim_engine.Tree.Linked.{known, Linked-AllWired}
use func_sim_engine.Loader.Assembly.{Gives, Gives-bind, Gives-check, Gives-find_or, EachChild}
use func_sim_engine.Loader.Assembly.Uses.{Fresh, assemble-Fresh}
use func_sim_engine.Loader.Nodes.{
  Yaml, NodeType, map_node, is_type, caught, read_n_validate, validate_map, decode_entries,
  decode_map, decode_parameter, decode_subprogram, decode_state,
}
use func_sim_engine.Loader.Nodes.Blocks.{
  forest_of, decode_head, decode_part, decode_parts, decode_block,
}

pub Gives-skip {ℓ κ} :
    {A B : Type ℓ} (Q : B → Type κ) (m : Loading A) (f : A → Loading B)
    → ((a : A) → Gives Q (f a))
    → Gives Q (m >>= f)
Gives-skip Q (loaded a) f h = h a
Gives-skip Q (refused e) f h = tt
Gives-skip Q crashed f h = tt

Gives-caught {κ} :
    {A : Type 0} (Q : A → Type κ) (m : Loading A) (e : LoadError) → Gives Q m → Gives Q (caught m e)
Gives-caught Q (loaded a) e h = h
Gives-caught Q (refused e') e h = tt
Gives-caught Q crashed e h = tt

EachChild-forest_of :
    {D : Type 0} (Q : Tree D → Type 0) (m : Map Str (Tree D))
    → All (λ e. Q e.1) m
    → EachChild Q (forest_of m)
EachChild-forest_of Q [] h = tt
EachChild-forest_of Q ((k, t) ∷ m) h = (h.0, EachChild-forest_of Q m h.1)

read_n_validate-Gives :
    {N D A : Type 0} (yaml : Yaml N D) (Q : A → Type 0) (n : N) (desc : Str) (t : NodeType)
    (conv : N → Loading A)
    → Gives Q (conv n)
    → Gives Q (read_n_validate yaml (some n) desc t conv)
unfolding read_n_validate
read_n_validate-Gives yaml Q n desc t conv h =
    let wrong = says (lit "Неверно указан параметр \"" ++ (desc ++ lit "\"")) in
    Gives-check Q (is_type yaml t n)
      (says (lit "Пропущен или неверно указан параметр \"" ++ (desc ++ lit "\"")))
      (λ u. caught (conv n) wrong) (Gives-caught Q (conv n) wrong h)

pub read_option-Gives :
    {N D A : Type 0} (yaml : Yaml N D) (Q : A → Type 0) (o : Option N) (desc : Str) (t : NodeType)
    (conv : N → Loading A)
    → ((n : N) → Gives Q (conv n))
    → Gives Q (read_n_validate yaml o desc t conv)
unfolding read_n_validate
read_option-Gives yaml Q none desc t conv h = tt
read_option-Gives yaml Q (some n) desc t conv h = read_n_validate-Gives yaml Q n desc t conv (h n)

module _ {N D V : Type 0} (yaml : Yaml N D) (Q : V → Type 0) (conv : N → Loading V)
    (gives : (n : N) → Gives Q (conv n)) where
  decode_entries-Gives :
      (es : List (Option Str × N)) (m : Map Str V)
      → All (λ e. Q e.1) m
      → Gives (All (λ e. Q e.1)) (decode_entries yaml conv es m)
  unfolding decode_entries
  decode_entries-Gives [] m h = h
  decode_entries-Gives ((k, n) ∷ es) m h = Gives-find_or (All (λ e. Q e.1)) k _ _ (λ key e.
      Gives-bind Q (All (λ e. Q e.1)) (caught (conv n) _) _ (Gives-caught Q (conv n) _ (gives n))
        (λ v q. decode_entries-Gives es (insert key v m) (All-insert (λ e. Q e.1) key v m q h)))

  decode_map-Gives : (m : N) → Gives (All (λ e. Q e.1)) (decode_map yaml conv m)
  unfolding decode_map
  decode_map-Gives m =
      Gives-skip (All (λ e. Q e.1)) (validate_map yaml m) _
        (λ u. decode_entries-Gives (yaml.entries m) [] tt)

  -- What every value that is read has, every value of a map that is read has.
  decode_part-Gives :
      (n : N) (key desc : Str) → Gives (All (λ e. Q e.1)) (decode_part yaml n key desc conv)
  unfolding decode_part
  decode_part-Gives n key desc =
      let P : Map Str V → Type 0 = All (λ e. Q e.1) in
      Gives-skip P (yaml.entry n key) _ (elim [
        | none ↦ tt
        | some m ↦
            read_n_validate-Gives yaml P m desc map_node (decode_map yaml conv) (decode_map-Gives m)
      ])

module _ {N D W : Type 0} ⦃fl : Floats D⦄ (yaml : Yaml N D) (classes : N → Classes D)
    (storage : FunctionStorage D W) (start : N → ℕ)
    (keeps : (n : N) (c : Option ℕ) (s s' : Site D)
      → (classes n).join c s ≡ loaded s'
      → s'.block ≡ s.block) where
  decode_parts-Fresh :
      (decode_child : N → Loading (Tree D)) (n : N)
      → ((m : N) → Gives Fresh (decode_child m))
      → Gives Fresh (decode_parts yaml classes storage start decode_child n)
  unfolding decode_parts
  decode_parts-Fresh decode_child n h = Gives-skip Fresh (decode_head yaml n) _ (λ x.
      Gives-skip Fresh (decode_part yaml n _ _ (decode_parameter yaml)) _ (λ p_map.
        Gives-bind (All (λ e. Fresh e.1)) Fresh (decode_part yaml n _ _ decode_child) _
          (decode_part-Gives yaml Fresh decode_child h n _ _)
          (λ child_map fresh.
            Gives-skip Fresh (decode_part yaml n _ _ (decode_subprogram yaml storage (start n))) _
              (λ subs_map.
                Gives-skip Fresh (decode_part yaml n _ _ (decode_state yaml)) _ (λ state_map.
                  let read = record x {
                    p_map = p_map;
                    child_map = forest_of child_map;
                    subs_map = subs_map;
                    state_map = state_map;
                  } in
                  assemble-Fresh (classes n) (start n) read (keeps n)
                    (EachChild-forest_of Fresh child_map fresh))))))

  pub decode_block-Fresh :
      (fuel : ℕ) (n : N) → Gives Fresh (decode_block yaml classes storage start fuel n)
  unfolding decode_block
  decode_block-Fresh zero n = tt
  decode_block-Fresh (suc fuel) n =
      decode_parts-Fresh (decode_block yaml classes storage start fuel) n (decode_block-Fresh fuel)

  -- If the joining of a class leaves the variables of a block alone, then in a tree that is loaded
  -- from a node, whatever it holds, every block, at every depth, is wired and has every variable
  -- that one of its children uses, and the main block uses none of a block above it.
  pub decode_block_linked :
      (fuel : ℕ) (n : N) (t : Tree D)
      → decode_block yaml classes storage start fuel n ≡ loaded t
      → Fresh t
  decode_block_linked fuel n t e = subst (Gives Fresh) e (decode_block-Fresh fuel n)

  -- So, whatever such a tree calls, throws or switches on and off in a call, its blocks stay wired,
  -- and the gathering of the returned values, which dereferences a pointer for each, gives a map.
  pub decode_block_called :
      {V : Type 0} (m : Machine D V) (fuel : ℕ) (n : N) (t : Tree D) (time : D)
      (vars upper : Vars D) (v : V)
      → decode_block yaml classes storage start fuel n ≡ loaded t
      → AllWired (call m t time vars upper v).0.0
        × (res : Vars D) × (return_vars
              (site (call m t time vars upper v).0.0).block.res_vars
              []
              (site (call m t time vars upper v).0.0).block
            ≡ ok res)
  decode_block_called m fuel n t time vars upper v e =
      call-AllWired m t time vars upper v
        (Linked-AllWired known t (decode_block_linked fuel n t e).0)
