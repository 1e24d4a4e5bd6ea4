-- ===== src/Tree/Messages.antt =====
-- The messages that `Block::call` of kernel/block.hpp makes of an exception.
use func_sim_engine.Prelude.{ℕ, [], ◌∷◌, ◌++◌, Str, lit}
use func_sim_engine.Result.{
  Result, ok, undefined, Exn, invalid_operation, invalid_args, invalid_var_name, invalid_type,
  out_of_range, bad_cast, user_exception, ◌>>=◌,
}
use func_sim_engine.Param.Real.{Floats}
use func_sim_engine.Callable.{Callable, get_power_cond}
use func_sim_engine.Param.Decimal.{print_nat}

-- `user_exception::what` of kernel/subprog.hpp: with data, the pointer is to a string that is gone.
unfoldable pub what : Str → Str → Result Str
what [] desc = ok desc
what (c ∷ cs) desc = undefined

abbrev in_quotes : Str → Str
in_quotes s = lit "\"" ++ (s ++ lit "\"")

abbrev running : Str → Str
running name = lit "Ошибка при выполнении модуля " ++ (name ++ lit ". ")

-- `std::to_string` of a `size_t`, which has at most twenty digits.
abbrev decimal : ℕ → Str
decimal n = print_nat 20 n

-- The handlers of `call`.
unfoldable pub message : {D : Type 0} ⦃fl : Floats D⦄ → Callable D → Exn → Result Str
unfolding what get_power_cond print_nat
message c (invalid_args presented expected op position) = ok (
    lit "Недостаточное количество операндов в выражении "
    ++ (in_quotes (get_power_cond c)
        ++ (lit " для оператора " ++ (in_quotes op ++ (lit " в позиции " ++ decimal position)))))
message c (invalid_operation operation) = ok (
    lit "Неверная операция "
    ++ (in_quotes operation ++ (lit " в выражении " ++ in_quotes (get_power_cond c))))
message c (invalid_var_name name) =
    ok (running c.name ++ (lit "Произошло обращение к отсутствующей переменной " ++ in_quotes name))
message c out_of_range =
    ok (running c.name ++ lit "Скорее всего произошло обращение к отсутствующей переменной")
message c (invalid_type name) =
    ok (
      running c.name
      ++ (lit "Произошло неверное приведение типа для переменной " ++ in_quotes name))
message c bad_cast = ok (running c.name ++ lit "Скорее всего произошло неверное приведение типа")
message c (user_exception data_ desc) = what data_ desc >>= λ text.
    ok
      (lit "Пользовательская ошибка при работе модуля " ++ (c.name ++ (lit ": " ++ in_quotes text)))
