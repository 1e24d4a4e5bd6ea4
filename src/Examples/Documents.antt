-- ===== src/Examples/Documents.antt =====
-- Documents for the loader: a simple library of nodes, and a task in it.
use func_sim_engine.Prelude.{
  ℕ, ◌+◌, ◌<◌, ◌≤◌, ◌≡◌, subst, Bool, true, false, Option, none, some, List, [], ◌∷◌, Str, lit,
  str_eq, Bool-cases, inl, inr, All, arith, if◌then◌else◌,
}
use func_sim_engine.Loader.{Loading, loaded, refused, bad_conversion}
use func_sim_engine.Loader.Nodes.{Yaml, NodeType, scalar, sequence, map_node}
use func_sim_engine.Loader.Nodes.Blocks.Enough.{IsNested}

mutual
  pub data Doc : Type 0 where
    text : Str → Doc
    items : Docs → Doc
    fields : Fields → Doc

  pub data Docs : Type 0 where
    no_docs : Docs
    doc : Doc → Docs → Docs

  pub data Fields : Type 0 where
    no_fields : Fields
    field : Str → Doc → Fields → Fields

abbrev entry_of : Str → Fields → Option Doc
entry_of key no_fields = none
entry_of key (field k d fs) = let rest = entry_of key fs in if str_eq k key then some d else rest

abbrev elements_of : Docs → List Doc
elements_of no_docs = []
elements_of (doc d ds) = d ∷ elements_of ds

abbrev entries_of : Fields → List (Option Str × Doc)
entries_of no_fields = []
entries_of (field k d fs) = (some k, d) ∷ entries_of fs

abbrev entry : Doc → Str → Loading (Option Doc)
entry (text s) key = refused bad_conversion
entry (items ds) key = loaded none
entry (fields fs) key = loaded (entry_of key fs)

abbrev node_type : Doc → NodeType
node_type (text s) = scalar
node_type (items ds) = sequence
node_type (fields fs) = map_node

abbrev as_string : Doc → Option Str
as_string (text s) = some s
as_string (items ds) = none
as_string (fields fs) = none

abbrev as_bit : Doc → Option Bool
as_bit (text s) = if str_eq s (lit "1") then some true else some false
as_bit (items ds) = none
as_bit (fields fs) = none

abbrev elements : Doc → List Doc
elements (text s) = []
elements (items ds) = elements_of ds
elements (fields fs) = []

abbrev entries : Doc → List (Option Str × Doc)
entries (text s) = []
entries (items ds) = []
entries (fields fs) = entries_of fs

abbrev pub documents : Yaml Doc Bool
documents = record {
  entry = entry;
  node_type = node_type;
  as_string = as_string;
  as_double = as_bit;
  as_size = λ d. none;
  as_port = λ d. none;
  elements = elements;
  entries = entries;
  tag = λ d. [];
}

unfoldable mutual
  pub depth : Doc → ℕ
  depth (text s) = 0
  depth (items ds) = 1
  depth (fields fs) = depth_in fs + 1

  pub depth_in : Fields → ℕ
  depth_in no_fields = 0
  depth_in (field k d fs) = depth d + depth_in fs

entry_of_less :
    (key : Str) (d : Doc) (fs : Fields) → entry_of key fs ≡ some d → depth d < depth_in fs + 1
unfolding depth_in
entry_of_less key d no_fields e = cc
entry_of_less key d (field k c fs) e = elim (Bool-cases (str_eq k key)) [
  | inl h ↦
      let same : c ≡ d = cc (rw h at e) in
      subst (λ x. depth x < depth c + depth_in fs + 1) same (omega arith)
  | inr h ↦ let less = entry_of_less key d fs (rw h at e) in omega (arith, less)
]

entry_less : (n : Doc) (key : Str) (d : Doc) → entry n key ≡ loaded (some d) → depth d < depth n
unfolding depth
entry_less (text s) key d e = cc
entry_less (items ds) key d e = cc
entry_less (fields fs) key d e = let e' : entry_of key fs ≡ some d = cc in entry_of_less key d fs e'

All-weaken :
    (m n : ℕ) (es : List (Option Str × Doc))
    → m ≤ n
    → All (λ e. depth e.1 < m) es
    → All (λ e. depth e.1 < n) es
All-weaken m n [] l h = tt
All-weaken m n (e ∷ es) l h = (omega (arith, h.0), All-weaken m n es l h.1)

entries_of_less : (fs : Fields) → All (λ e. depth e.1 < depth_in fs + 1) (entries_of fs)
unfolding depth_in
entries_of_less no_fields = tt
entries_of_less (field k d fs) = (
  omega arith,
  All-weaken (depth_in fs + 1) (depth d + depth_in fs + 1) (entries_of fs) (omega arith)
      (entries_of_less fs),
)

entries_less : (n : Doc) → All (λ e. depth e.1 < depth n) (entries n)
unfolding depth
entries_less (text s) = tt
entries_less (items ds) = tt
entries_less (fields fs) = entries_of_less fs

pub documents-IsNested : IsNested documents depth
documents-IsNested = record { entry_less = entry_less; entries_less = entries_less }
