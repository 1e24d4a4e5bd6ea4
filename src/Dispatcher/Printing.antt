-- ===== src/Dispatcher/Printing.antt =====
-- What the printing of the names of blocks with errors keeps, and what it prints.
use func_sim_engine.Prelude.{
  true, Bool-cases, ◌≡◌, refl, ap, sym, subst, ◌∙◌, Bool, false, ◌||◌, List, [], ◌∷◌, ◌++◌, arith,
  if◌then◌else◌, Str, str_eq, str_eq_iff, is_some, Option-cases, inl, inr,
}
use func_sim_engine.StdMap.{str_key, find, emplace, find-insert}
use func_sim_engine.Dispatcher.{Dispatcher, print_errors}

abbrev pub contains : Str → List Str → Bool
contains k [] = false
contains k (s ∷ ss) = str_eq s k || contains k ss

abbrev pub IsDistinct : List Str → Type 0
IsDistinct [] = Unit
IsDistinct (s ∷ ss) = (contains s ss ≡ false) × IsDistinct ss

contains-append :
    (k e : Str) (ss : List Str) → contains k (ss ++ e ∷ []) ≡ (contains k ss || str_eq e k)
contains-append k e [] = ground arith
contains-append k e (s ∷ ss) = ground (arith, contains-append k e ss)

contains-concat :
    (k : Str) (rs ss : List Str) → contains k (rs ++ ss) ≡ (contains k rs || contains k ss)
contains-concat k [] ss = refl
contains-concat k (r ∷ rs) ss = ground (arith, contains-concat k rs ss)

str_eq_sym : (s t : Str) → str_eq s t ≡ false → str_eq t s ≡ false
str_eq_sym s t h = ground (arith, str_eq_iff s t, str_eq_iff t s)

append-IsDistinct :
    (e : Str) (ss : List Str) → IsDistinct ss → contains e ss ≡ false → IsDistinct (ss ++ e ∷ [])
append-IsDistinct e [] d h = (refl, tt)
append-IsDistinct e (s ∷ ss) d h =
    let differ : str_eq s e ≡ false = ground arith in
    let rest : contains e ss ≡ false = ground arith in
    (ground (arith, contains-append s e ss, str_eq_sym s e differ), append-IsDistinct e ss d.1 rest)

module _ {D W : Type 0} where
  -- The printed names are those of the set, each once.
  pub record IsPrinted (d : Dispatcher D W) : Type 0 where
    pub same : (k : Str) → is_some (find k d.errors) ≡ contains k d.printed_errors
    pub distinct : IsDistinct d.printed_errors

  -- The state after one name.
  abbrev printed : Str → Dispatcher D W → Dispatcher D W
  printed e d =
      let (errors, fresh) = emplace e tt d.errors in
      record d {
        errors = errors;
        printed_errors = if fresh then d.printed_errors ++ e ∷ [] else d.printed_errors;
      }

  printed-IsPrinted : (e : Str) (d : Dispatcher D W) → IsPrinted d → IsPrinted (printed e d)
  unfolding emplace
  printed-IsPrinted e d p = elim (Option-cases (find e d.errors)) [
    | inl n ↦ record {
      same = λ k.
          ground
            (arith, n, p.same k, find-insert e k tt d.errors, contains-append k e d.printed_errors);
      distinct =
          rw (n, IsDistinct)
            (append-IsDistinct e d.printed_errors p.distinct (ground (arith, p.same e, n)));
    }
    | inr (u, n) ↦ record {
      same = λ k. ground (arith, n, p.same k);
      distinct = rw (n, IsDistinct) p.distinct;
    }
  ]

  -- The printed names are those that were printed before and the names `rs`.
  abbrev pub Told : List Str → Dispatcher D W → Dispatcher D W → Type 0
  Told rs d d' =
      IsPrinted d'
      × ((k : Str) → contains k d'.printed_errors ≡ (contains k d.printed_errors || contains k rs))

  pub Told-trans :
      (rs ss : List Str) (d d1 d2 : Dispatcher D W)
      → Told rs d d1
      → Told ss d1 d2
      → Told (rs ++ ss) d d2
  Told-trans rs ss d d1 d2 t u = (u.0, λ k. ground (arith, t.1 k, u.1 k, contains-concat k rs ss))

  printed-Told : (e : Str) (d : Dispatcher D W) → IsPrinted d → Told (e ∷ []) d (printed e d)
  unfolding emplace
  printed-Told e d p = (
    printed-IsPrinted e d p,
    λ k. elim (Option-cases (find e d.errors)) [
      | inl n ↦ ground (arith, n, contains-append k e d.printed_errors)
      | inr (u, n) ↦ elim (Bool-cases (str_eq e k)) [
        | inl t ↦
            let same : e ≡ k = (str_eq_iff e k).0 t in
            let there : contains e d.printed_errors ≡ true = sym (p.same e) ∙ ap is_some n in
            let there' : contains k d.printed_errors ≡ true =
              subst (λ j. contains j d.printed_errors ≡ true) same there in
            ground (arith, n, t, there')
        | inr t ↦ ground (arith, n, t)
      ]
    ],
  )

  pub print_errors-Told :
      (es : List Str) (d : Dispatcher D W) → IsPrinted d → Told es d (print_errors es d)
  unfolding print_errors
  print_errors-Told [] d p = (p, λ k. ground arith)
  print_errors-Told (e ∷ es) d p =
      let first = printed-Told e d p in
      Told-trans (e ∷ []) es d (printed e d) _ first (print_errors-Told es (printed e d) first.0)
