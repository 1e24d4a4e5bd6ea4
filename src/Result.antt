-- ===== src/Result.antt =====
-- C++ code that may throw: a value, an exception, or undefined behaviour. An exception is one of
-- those that `Block::call` in kernel/block.hpp tells apart by its handlers; code that throws another,
-- such as the lock of a shared memory that is not got in time, is not modelled.
use func_sim_engine.Prelude.{ℕ, ◌≡◌, refl, Str, ◌⊎◌, inl, inr}

pub data Exn : Type 0 where
  -- `formula_solver::invalid_operation`: `operation`
  invalid_operation : Str → Exn
  -- `formula_solver::invalid_args`: `args_presented`, `args_expected`, `op`, `position`
  invalid_args : ℕ → ℕ → Str → ℕ → Exn
  -- `exception::invalid_var_name`, `exception::invalid_type`: `_name`
  invalid_var_name : Str → Exn
  invalid_type : Str → Exn
  -- `std::out_of_range`, `std::bad_cast`
  out_of_range : Exn
  bad_cast : Exn
  -- `Subprogram::user_exception`: `_data`, `_desc`
  user_exception : Str → Str → Exn

pub data Result {ℓ} (A : Type ℓ) : Type ℓ where
  ok : A → Result A
  throw : Exn → Result A
  undefined : Result A

infixl 5 ◌>>=◌
abbrev pub ◌>>=◌ {ℓ κ} : {A : Type ℓ} {B : Type κ} → Result A → (A → Result B) → Result B
ok a >>= f = f a
throw e >>= f = throw e
undefined >>= f = undefined

pub >>=_assoc {ℓ} :
    {A B C : Type ℓ} (m : Result A) (f : A → Result B) (g : B → Result C)
    → (m >>= f >>= g) ≡ (m >>= λ a. f a >>= g)
>>=_assoc (ok a) f g = refl
>>=_assoc (throw e) f g = refl
>>=_assoc undefined f g = refl

pub bind-ok {ℓ} : {A : Type ℓ} (m : Result A) → (m >>= ok) ≡ m
bind-ok (ok a) = refl
bind-ok (throw e) = refl
bind-ok undefined = refl

pub bind_cong {ℓ} :
    {A B : Type ℓ} (m : Result A) (f g : A → Result B)
    → ((a : A) → f a ≡ g a)
    → (m >>= f) ≡ (m >>= g)
bind_cong (ok a) f g h = h a
bind_cong (throw e) f g h = refl
bind_cong undefined f g h = refl

-- What holds of a value, of a result: nothing is asked of an exception or of undefined behaviour.
abbrev pub Returns {ℓ κ} : {A : Type ℓ} → (A → Type κ) → Result A → Type κ
Returns P (ok a) = P a
Returns P (throw e) = Unit
Returns P undefined = Unit

pub Returns-bind {ℓ κ} :
    {A B : Type ℓ} (P : A → Type κ) (Q : B → Type κ) (m : Result A) (f : A → Result B)
    → Returns P m
    → ((a : A) → P a → Returns Q (f a))
    → Returns Q (m >>= f)
Returns-bind P Q (ok a) f h k = k a h
Returns-bind P Q (throw e) f h k = tt
Returns-bind P Q undefined f h k = tt

pub Returns-any {ℓ κ} : {A : Type ℓ} (P : A → Type κ) (m : Result A) → ((a : A) → P a) → Returns P m
Returns-any P (ok a) h = h a
Returns-any P (throw e) h = tt
Returns-any P undefined h = tt

pub Result-cases {ℓ} :
    {A : Type ℓ} (r : Result A)
    → ((a : A) × (r ≡ ok a)) ⊎ (((e : Exn) × (r ≡ throw e)) ⊎ (r ≡ undefined))
Result-cases (ok a) = inl (a, refl)
Result-cases (throw e) = inr (inl (e, refl))
Result-cases undefined = inr (inr refl)

-- A step that may throw after a change of state: the state is kept, and what follows needs a value.
abbrev pub and_then {ℓ κ μ} :
    {S : Type ℓ} {A : Type κ} {B : Type μ} → S × Result A → (A → S → S × Result B) → S × Result B
and_then (s, ok a) k = k a s
and_then (s, throw e) k = (s, throw e)
and_then (s, undefined) k = (s, undefined)

-- What holds of the state before a step and is kept by what follows holds of the state after both.
pub and_then_keeps {ℓ κ μ ν} :
    {S : Type ℓ} {A : Type κ} {B : Type μ} (P : S → Type ν) (x : S × Result A)
    (k : A → S → S × Result B)
    → P x.0
    → ((a : A) (s : S) → P s → P (k a s).0)
    → P (and_then x k).0
and_then_keeps P (s, ok a) k h f = f a s h
and_then_keeps P (s, throw e) k h f = h
and_then_keeps P (s, undefined) k h f = h

-- What holds of the exceptions of a result: nothing is asked of a value or of undefined behaviour.
abbrev pub Throws {ℓ κ} : {A : Type ℓ} → (Exn → Type κ) → Result A → Type κ
Throws P (ok a) = Unit
Throws P (throw e) = P e
Throws P undefined = Unit

pub and_then-Throws {ℓ κ μ ν} :
    {S : Type ℓ} {A : Type κ} {B : Type μ} (P : Exn → Type ν) (x : S × Result A)
    (k : A → S → S × Result B)
    → Throws P x.1
    → ((a : A) (s : S) → Throws P (k a s).1)
    → Throws P (and_then x k).1
and_then-Throws P (s, ok a) k h f = f a s
and_then-Throws P (s, throw e) k h f = h
and_then-Throws P (s, undefined) k h f = tt

-- What holds of the state after code that returns: nothing is asked where it throws.
abbrev pub Done {ℓ κ μ} : {S : Type ℓ} {A : Type κ} → (S → Type μ) → S × Result A → Type μ
Done P (s, ok a) = P s
Done P (s, throw e) = Unit
Done P (s, undefined) = Unit

pub and_then-Done {ℓ κ μ ν} :
    {S : Type ℓ} {A : Type κ} {B : Type μ} (P Q : S → Type ν) (x : S × Result A)
    (k : A → S → S × Result B)
    → Done P x
    → ((a : A) (s : S) → P s → Done Q (k a s))
    → Done Q (and_then x k)
and_then-Done P Q (s, ok a) k h f = f a s h
and_then-Done P Q (s, throw e) k h f = tt
and_then-Done P Q (s, undefined) k h f = tt

pub Done-mono {ℓ κ μ} :
    {S : Type ℓ} {A : Type κ} (P Q : S → Type μ) (x : S × Result A)
    → ((s : S) → P s → Q s)
    → Done P x
    → Done Q x
Done-mono P Q (s, ok a) f h = f s h
Done-mono P Q (s, throw e) f h = tt
Done-mono P Q (s, undefined) f h = tt
