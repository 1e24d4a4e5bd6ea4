-- ===== src/Loader/Assembly.antt =====
-- What holds of the children of a block while the loader makes it.
pub mod Uses
pub mod Periodical
use func_sim_engine.Prelude.{
  ◌≡◌, refl, sym, subst, Bool, true, false, Option, none, some, List, [], ◌∷◌, Str, lit, str_eq,
  str_eq_refl, Bool-cases, Option-cases, inl, inr, arith, All, is_some,
}
use func_sim_engine.StdMap.{Map, str_key, find, emplace, find-emplace}
use func_sim_engine.Param.Real.{Floats}
use func_sim_engine.Param.{Parameter, create, clone, from_string}
use func_sim_engine.Callable.{Callable, get_power_vars}
use func_sim_engine.Subprogram.{Subprogram}
use func_sim_engine.Block.{
  Block, empty_block, add_made_variable, add_return_param, add_use_param, add_param_accordiance,
}
use func_sim_engine.Block.Wiring.{
  Has, IsWired, Grows, Grows-IsWired, All-mono, All-emplace, add_made_variable-Grows,
  add_return_param-IsWired, add_use_param-IsWired,
}
use func_sim_engine.Tree.{
  Tree, Forest, node, end, child, Site, site, children, find_child, insert_child, add_child,
  get_variable, add_subprog,
}
use func_sim_engine.Tree.Power.{set_site, set_block}
use func_sim_engine.Tree.Calling.{replace_child}
use func_sim_engine.Tree.Linked.{Linked, LinkedIn, Deep, DeepIn}
use func_sim_engine.Loader.{
  ParameterDesc, DestinationDesk, StateD, BlockNode, Classes, Loading, loaded, refused, crashed,
  LoadError, check, find_or, name_or, ◌>>=◌, make_variable, link, described, add_parameters,
  check_power_vars, add_children, add_subprogs, make_setup, add_states, set_name, first_site,
  assemble,
}

-- What holds of what is loaded.
abbrev pub Gives {ℓ κ} : {A : Type ℓ} → (A → Type κ) → Loading A → Type κ
Gives P (loaded a) = P a
Gives P (refused e) = Unit
Gives P crashed = Unit

pub Gives-mono {κ} :
    {A : Type 0} (P Q : A → Type κ) (m : Loading A) → ((a : A) → P a → Q a) → Gives P m → Gives Q m
Gives-mono P Q (loaded a) f h = f a h
Gives-mono P Q (refused e) f h = tt
Gives-mono P Q crashed f h = tt

pub Gives-bind {ℓ κ} :
    {A B : Type ℓ} (P : A → Type κ) (Q : B → Type κ) (m : Loading A) (f : A → Loading B)
    → Gives P m
    → ((a : A) → P a → Gives Q (f a))
    → Gives Q (m >>= f)
Gives-bind P Q (loaded a) f h k = k a h
Gives-bind P Q (refused e) f h k = tt
Gives-bind P Q crashed f h k = tt

pub Gives-any {ℓ} : {A : Type ℓ} (m : Loading A) → Gives (λ a. Unit {0}) m
Gives-any (loaded a) = tt
Gives-any (refused e) = tt
Gives-any crashed = tt

pub Gives-check {κ} :
    {B : Type 0} (Q : B → Type κ) (b : Bool) (e : LoadError) (f : Unit → Loading B)
    → Gives Q (f tt)
    → Gives Q (check b e >>= f)
Gives-check Q true e f h = h
Gives-check Q false e f h = tt

pub Gives-find_or {κ} :
    {A B : Type 0} (Q : B → Type κ) (o : Option A) (e : LoadError) (f : A → Loading B)
    → ((a : A) → o ≡ some a → Gives Q (f a))
    → Gives Q (find_or o e >>= f)
Gives-find_or Q none e f h = tt
Gives-find_or Q (some a) e f h = h a refl

pub Gives-check_then {κ} :
    {B : Type 0} (Q : B → Type κ) (p_map : Map Str ParameterDesc) (name : Str) (vs : List Str)
    (f : Unit → Loading B)
    → Gives Q (f tt)
    → Gives Q (check_power_vars p_map name vs >>= f)
unfolding check_power_vars
Gives-check_then Q p_map name [] f h = h
Gives-check_then Q p_map name (v ∷ vs) f h = elim (Bool-cases (is_some (find v p_map))) [
  | inl e ↦ rw (e, check_power_vars) (Gives-check_then Q p_map name vs f h)
  | inr e ↦ rw (e, check_power_vars) tt
]

module _ {D : Type 0} where
  abbrev pub EachChild : (Tree D → Type 0) → Forest D → Type 0
  EachChild Q end = Unit
  EachChild Q (child k t f) = Q t × EachChild Q f

  -- A deeply linked tree that uses only what `P` knows.
  abbrev pub Child : (Str → Type 0) → Tree D → Type 0
  Child P t = Deep t × All (λ e. P e.1) (site t).block.use_vars

  pub EachChild-find :
      (Q : Tree D → Type 0) (k : Str) (f : Forest D) (t : Tree D)
      → EachChild Q f
      → find_child k f ≡ some t
      → Q t
  unfolding find_child
  EachChild-find Q k end t h e = cc
  EachChild-find Q k (child j u f) t h e = elim (Bool-cases (str_eq j k)) [
    | inl x ↦ let same : u ≡ t = cc (rw x at e) in subst Q same h.0
    | inr x ↦ EachChild-find Q k f t h.1 (rw x at e)
  ]

  pub EachChild-replace :
      (Q : Tree D → Type 0) (k : Str) (t : Tree D) (f : Forest D)
      → Q t
      → EachChild Q f
      → EachChild Q (replace_child k t f)
  unfolding replace_child
  EachChild-replace Q k t end q h = tt
  EachChild-replace Q k t (child j u f) q h = elim (Bool-cases (str_eq j k)) [
    | inl e ↦ rw (e, replace_child) (q, h.1)
    | inr e ↦ rw (e, replace_child) (h.0, EachChild-replace Q k t f q h.1)
  ]

  EachChild-mono :
      (Q R : Tree D → Type 0) (f : Forest D)
      → ((t : Tree D) → Q t → R t)
      → EachChild Q f
      → EachChild R f
  EachChild-mono Q R end g h = tt
  EachChild-mono Q R (child k t f) g h = (g t h.0, EachChild-mono Q R f g h.1)

  pub Child-mono :
      (P P' : Str → Type 0) (f : Forest D)
      → ((s : Str) → P s → P' s)
      → EachChild (Child P) f
      → EachChild (Child P') f
  Child-mono P P' f g h =
      EachChild-mono (Child P) (Child P') f (λ t c. (c.0, All-mono _ _ _ (λ e x. g e.1 x) c.1)) h

  pub EachChild-DeepIn :
      (m : Map Str (Parameter D)) (f : Forest D) → EachChild (Child (Has m)) f → DeepIn m f
  unfolding LinkedIn
  EachChild-DeepIn m end h = tt
  EachChild-DeepIn m (child k t f) h = (h.0, EachChild-DeepIn m f h.1)

  pub DeepIn-EachChild :
      (m : Map Str (Parameter D)) (f : Forest D) → DeepIn m f → EachChild (Child (Has m)) f
  unfolding LinkedIn
  DeepIn-EachChild m end h = tt
  DeepIn-EachChild m (child k t f) h = (h.0, DeepIn-EachChild m f h.1)

  pub Deep-children :
      (t : Tree D) → Deep t → EachChild (Child (Has (site t).block.vars)) (children t)
  unfolding Linked
  Deep-children (node s f) h = DeepIn-EachChild s.block.vars f h.1

  pub EachChild-insert :
      (Q : Tree D → Type 0) (k : Str) (t : Tree D) (f : Forest D)
      → Q t
      → EachChild Q f
      → EachChild Q (insert_child k t f)
  unfolding insert_child
  EachChild-insert Q k t end q h = (q, tt)
  EachChild-insert Q k t (child j u f) q h = elim (Bool-cases (str_key.lt k j)) [
    | inl e ↦ rw (e, insert_child) (q, h)
    | inr e ↦ rw (e, insert_child) (h.0, EachChild-insert Q k t f q h.1)
  ]

  pub add_return_param_uses :
      (src dst : Str) (b : Block D) → (add_return_param src dst b).0.use_vars ≡ b.use_vars
  unfolding add_return_param add_param_accordiance
  add_return_param_uses src dst b = ground arith

  pub add_use_param_uses :
      (P : Str → Type 0) (src dst : Str) (b : Block D)
      → P src
      → All (λ e. P e.1) b.use_vars
      → All (λ e. P e.1) (add_use_param src dst b).0.use_vars
  unfolding add_use_param add_param_accordiance
  add_use_param_uses P src dst b p h = elim (Option-cases (find dst b.vars)) [
    | inl e ↦ rw (e, add_use_param) h
    | inr (v, e) ↦ rw (e, add_use_param) (All-emplace (λ e. P e.1) dst src b.use_vars p h)
  ]

  pub add_return_param_vars :
      (src dst : Str) (b : Block D) → b.vars ≡ (add_return_param src dst b).0.vars
  unfolding add_return_param add_param_accordiance
  add_return_param_vars src dst b = ground arith

  pub add_use_param_vars : (src dst : Str) (b : Block D) → b.vars ≡ (add_use_param src dst b).0.vars
  unfolding add_use_param add_param_accordiance
  add_use_param_vars src dst b = ground arith

  -- A block in place of another with the same variables.
  pub set_block-Child :
      (P : Str → Type 0) (c : Block D) (t : Tree D)
      → Deep t
      → (site t).block.vars ≡ c.vars
      → IsWired c
      → All (λ e. P e.1) c.use_vars
      → Child P (set_block c t)
  unfolding Linked
  set_block-Child P c (node s f) w e h u =
      ((h, subst (λ (v : Map Str (Parameter D)). DeepIn v f) e w.1), u)

  pub set_site-Child :
      (P : Str → Type 0) (c : Callable D) (t : Tree D)
      → Child P t
      → Child P (set_site (record (site t) { callable = c }) t)
  unfolding Linked
  set_site-Child P c (node s f) h = h
