-- ===== src/Command.antt =====
-- kernel/control_func/{vars,block,subprog}.hpp: the standard control functions, on the tree of
-- blocks. A function gives the tree after it and the text that it returns; what a lock tells the
-- logger is left out.
pub mod Effects
pub mod Linked
use func_sim_engine.Prelude.{
  ℕ, Bool, true, false, Option, none, some, List, [], ◌∷◌, ◌++◌, Str, lit, str_eq, if◌then◌else◌,
}
use func_sim_engine.StdMap.{Map, Key, str_key}
use func_sim_engine.Result.{Result, ok, undefined, ◌>>=◌}
use func_sim_engine.Param.Real.{Floats}
use func_sim_engine.Param.Decimal.{print_nat}
use func_sim_engine.Param.{Parameter, to_string, from_string}
use func_sim_engine.Callable.{set_lock, get_power_cond}
use func_sim_engine.Subprogram.{Subprogram}
use func_sim_engine.Control.{ControlFunc, add_param, get_param, add_func}
use func_sim_engine.Block.{Names, get_next_errors}
use func_sim_engine.Tree.{
  Tree, site, get_variable, change_variable, get_subprog, change_subprog, get_child, change_child,
  get_var_list, get_subp_list,
}
use func_sim_engine.Tree.Power.{set_block, set_site}

-- The classes of control functions.
pub data Command : Type 0 where
  get_value set_value lock_param var_list lock_block show_class_errors lock_subprog subp_list :
      Command

abbrev string_type : Str
string_type = lit "строка"

module _ {D : Type 0} ⦃fl : Floats D⦄ where
  -- The constructors: every parameter is a text.
  unfoldable pub construct : Command → ControlFunc D
  unfolding add_param
  construct c =
      let none_yet : ControlFunc D = record { params = []; log = [] } in
      let one = (add_param string_type none_yet).0 in
      let two = (add_param string_type one).0 in
      elim c [
        | get_value ↦ one
        | set_value ↦ two
        | lock_param ↦ two
        | var_list ↦ two
        | lock_block ↦ two
        | show_class_errors ↦ one
        | lock_subprog ↦ two
        | subp_list ↦ two
      ]

  -- `get_param( i )->to_string()`
  unfoldable pub param_text : ℕ → ControlFunc D → Result Str
  unfolding get_param
  param_text i f = elim (get_param i f) [ none ↦ undefined | some p ↦ ok (to_string p.value) ]

  -- `print_var_info`, `print_subp_info`; `show` is what a stream makes of a priority.
  unfoldable pub print_var_info : Str → Option (Parameter D) → Str
  print_var_info name none = []
  print_var_info name (some p) =
      lit "\t"
      ++ (name
          ++ (lit "\t"
              ++ (p.type
                  ++ (lit "\t"
                      ++ ((if p.locked then lit "бл" else [])
                          ++ (lit "\t"
                              ++ (to_string p.value ++ (lit "\t" ++ (p.desc ++ lit "\n")))))))))

  unfoldable pub print_subp_info : (D → Str) → Str → Option (Subprogram D) → Str
  unfolding get_power_cond
  print_subp_info show name none = []
  print_subp_info show name (some s) =
      lit "\t"
      ++ (name
          ++ (lit "\t"
              ++ (show s.callable.priority
                  ++ (lit "\t"
                      ++ ((if s.callable.is_blocked then lit "бл" else [])
                          ++ (lit "\t" ++ (get_power_cond s.callable ++ lit "\n")))))))

-- `"X \"name\"" << std::endl`
abbrev pub missing : Str → Str → Str
missing what name = what ++ (lit " \"" ++ (name ++ lit "\"\n"))

abbrev pub no_parameter : Str → Str
no_parameter = missing (lit "Нет параметра")

abbrev pub no_block : Str → Str
no_block = missing (lit "Нет блока")

abbrev pub no_subprog : Str → Str
no_subprog = missing (lit "Нет подпрограммы")

-- The word of a lock, and what is said of another one, which is taken for `выкл`.
unfoldable pub lock_word : Str → Bool × Str
lock_word s =
    if str_eq s (lit "вкл") then (true, []) else if str_eq s (lit "выкл") then (false, []) else (
      false,
      lit "Неверный признак блокировки \"" ++ (s ++ lit "\" укажите \"вкл\" или \"выкл\"\n"),
    )

-- What is said of a lock that was set or taken away.
abbrev lock_reply : Bool → Str → Str → Str
lock_reply lock what name =
    (if lock then lit "Установлена" else lit "Снята") ++ missing (lit " блокировка " ++ what) name

-- The messages, a line each.
unfoldable pub lines : List Str → Str
lines [] = []
lines (e ∷ es) = e ++ (lit "\n" ++ lines es)

module _ {D : Type 0} ⦃fl : Floats D⦄ where
  abbrev pub lock_variable : Bool → Parameter D → Parameter D
  lock_variable lock p = record p { locked = lock }

  abbrev pub lock_tree : Bool → Tree D → Tree D
  lock_tree lock t = set_site (record (site t) { callable = (set_lock lock (site t).callable).0 }) t

  abbrev pub lock_callable : Bool → Subprogram D → Subprogram D
  lock_callable lock s = record s { callable = (set_lock lock s.callable).0 }

  -- The block without the errors that are shown.
  abbrev pub errors_shown : Tree D → Tree D
  errors_shown t = set_block (get_next_errors 10 (site t).block).0 t

abbrev Answer : Type 0 → Type 0
Answer D = Tree D × Str

module _ {D : Type 0} ⦃fl : Floats D⦄ where
  -- `GetValue::run`, with the text of its parameter.
  unfoldable pub run_get_value : Str → Tree D → Answer D
  unfolding get_variable print_var_info
  run_get_value name t = elim (get_variable t name) [
    | none ↦ (t, no_parameter name)
    | some p ↦ (t, print_var_info name (some p))
  ]

  -- `SetValue::run`
  unfoldable pub run_set_value : Str → Str → Tree D → Answer D
  unfolding get_variable change_variable print_var_info from_string
  run_set_value name val t = elim (get_variable t name) [
    | none ↦ (t, no_parameter name)
    | some p ↦
        let (p', accepted) = from_string p val in
        let t' = change_variable (λ p. (from_string p val).0) t name in
        if accepted then (t', print_var_info name (some p')) else (
          t',
          lit "Неверное значение \""
              ++ (val
                  ++ (lit "\" для переменной "
                      ++ (name ++ (lit " типа " ++ (p.type ++ lit "\n"))))),
        )
  ]

  -- `LockParam::run`
  unfoldable pub run_lock_param : Str → Str → Tree D → Answer D
  unfolding get_variable change_variable print_var_info lock_word
  run_lock_param name word t =
      let (lock, said) = lock_word word in
      elim (get_variable t name) [
        | none ↦ (t, said ++ no_parameter name)
        | some p ↦
            let changed : Bool = if p.locked then (if lock then false else true) else lock in
            if changed
            then (
              change_variable (lock_variable lock) t name,
              said ++ print_var_info name (some (lock_variable lock p)),
            )
            else (t, said)
      ]

  abbrev print_vars : Tree D → Names → Str
  print_vars t [] = []
  print_vars t ((v, u) ∷ vs) = print_var_info v (get_variable t v) ++ print_vars t vs

  -- `GetVarList::run`
  unfoldable pub run_var_list : Str → Tree D → Answer D
  unfolding get_child get_var_list get_variable print_var_info
  run_var_list block t = elim (get_child t block) [
    | none ↦ (t, no_block block)
    | some p ↦ (t, print_vars p (get_var_list p false))
  ]

  -- `LockBlock::run`
  unfoldable pub run_lock_block : Str → Str → Tree D → Answer D
  unfolding get_child change_child set_lock lock_word
  run_lock_block name word t =
      let (lock, said) = lock_word word in
      elim (get_child t name) [
        | none ↦ (t, said ++ no_block name)
        | some b ↦
            (change_child (lock_tree lock) t name, said ++ lock_reply lock (lit "блока") name)
      ]

  -- `ShowClassErrors::run`
  unfoldable pub run_show_class_errors : Str → Tree D → Answer D
  unfolding get_child change_child get_next_errors lines print_nat
  run_show_class_errors name t = elim (get_child t name) [
    | none ↦ (t, no_block name)
    | some b ↦
        let (block, errors, left) = get_next_errors 10 (site b).block in
        (
          change_child errors_shown t name,
          elim errors [
            | [] ↦ lit "Ошибок не зарегистрировано\n"
            | e ∷ es ↦
                lines (e ∷ es) ++ (lit "Еще имеется " ++ (print_nat 20 left ++ lit " ошибок\n"))
          ],
        )
  ]

  -- `LockSubprog::run`
  unfoldable pub run_lock_subprog : Str → Str → Tree D → Answer D
  unfolding get_subprog change_subprog set_lock lock_word
  run_lock_subprog name word t =
      let (lock, said) = lock_word word in
      elim (get_subprog t name) [
        | none ↦ (t, said ++ no_subprog name)
        | some s ↦ (
          change_subprog (lock_callable lock) t name,
          said ++ lock_reply lock (lit "подпрограммы") name,
        )
      ]

  abbrev print_subps : (D → Str) → Tree D → Names → Str
  print_subps show t [] = []
  print_subps show t ((s, u) ∷ ss) =
      print_subp_info show s (get_subprog t s) ++ print_subps show t ss

  -- `GetSubpList::run`
  unfoldable pub run_subp_list : (D → Str) → Str → Tree D → Answer D
  unfolding get_child get_subp_list get_subprog print_subp_info
  run_subp_list show block t = elim (get_child t block) [
    | none ↦ (t, no_block block)
    | some p ↦ (t, print_subps show p (get_subp_list p false))
  ]

module _ {D : Type 0} ⦃fl : Floats D⦄ (show : D → Str) where
  abbrev with_text : ControlFunc D → (Str → Answer D) → Result (Answer D)
  with_text f k = param_text 0 f >>= λ name. ok (k name)

  abbrev with_texts : ControlFunc D → (Str → Str → Answer D) → Result (Answer D)
  with_texts f k = param_text 0 f >>= λ name. param_text 1 f >>= λ word. ok (k name word)

  -- `run` of a control function of each class.
  unfoldable pub run : Command → ControlFunc D → Tree D → Result (Answer D)
  unfolding run_get_value run_set_value run_lock_param run_var_list run_lock_block
      run_show_class_errors run_lock_subprog run_subp_list param_text
  run get_value f t = with_text f (λ name. run_get_value name t)
  run set_value f t = with_texts f (λ name val. run_set_value name val t)
  run lock_param f t = with_texts f (λ name word. run_lock_param name word t)
  run var_list f t = with_texts f (λ block filter. run_var_list block t)
  run lock_block f t = with_texts f (λ name word. run_lock_block name word t)
  run show_class_errors f t = with_text f (λ name. run_show_class_errors name t)
  run lock_subprog f t = with_texts f (λ name word. run_lock_subprog name word t)
  run subp_list f t = with_texts f (λ block filter. run_subp_list show block t)

-- The functions of the storage's constructor, in its order.
unfoldable pub standard_funcs : Map Str Command
unfolding add_func
standard_funcs =
    let put : Str → Command → Map Str Command → Map Str Command =
      λ name c m. (add_func name c m).0 in
    put (lit "инфошибкаблп") show_class_errors (
      put (lit "блблп") lock_block (
        put (lit "инфппблп") subp_list (
          put (lit "блпп") lock_subprog (
            put (lit "блп") lock_param (
              put (lit "инфпблп") var_list
                (put (lit "устп") set_value (put (lit "инфп") get_value [])))))))
