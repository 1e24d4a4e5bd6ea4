-- ===== src/Formula/Postfix.antt =====
-- A formula in postfix form means what its expression means.
use func_sim_engine.Prelude.{
  ℕ, ◌+◌, ◌≡◌, ◌≢◌, refl, sym, ap, ◌∙◌, Bool, true, not, ◌&&◌, ◌||◌, List, [], ◌∷◌, ◌++◌, arith,
  length, Str, lit,
}
use native.Mathlib.Nat.{add_assoc, add-zero}
use func_sim_engine.StdMap.{Map, str_key}
use func_sim_engine.Result.{Result, ok, throw, undefined, ◌>>=◌, bind-ok, bind_cong, >>=_assoc}
use func_sim_engine.Formula.{logic_operations, is_operand, value, token, tokens, solve, top}

-- A condition as a tree.
pub data Expr : Type 0 where
  operand : Str → Expr
  negation : Expr → Expr
  conjunction disjunction : Expr → Expr → Expr

-- Its tokens: the arguments in front of their operator.
unfoldable pub postfix : Expr → List Str
postfix (operand x) = x ∷ []
postfix (negation a) = postfix a ++ lit "!" ∷ []
postfix (conjunction a b) = postfix a ++ (postfix b ++ lit "&" ∷ [])
postfix (disjunction a b) = postfix a ++ (postfix b ++ lit "|" ∷ [])

-- No operand is spelled as an operator.
abbrev pub IsPlain : Expr → Type 0
IsPlain (operand x) = is_operand logic_operations x ≡ true
IsPlain (negation a) = IsPlain a
IsPlain (conjunction a b) = IsPlain a × IsPlain b
IsPlain (disjunction a b) = IsPlain a × IsPlain b

append-ne-nil : (ws : List Str) (w : Str) → ws ++ w ∷ [] ≢ []
append-ne-nil [] w e = cc
append-ne-nil (v ∷ ws) w e = cc

append-append-ne-nil : (ws vs : List Str) (w : Str) → ws ++ (vs ++ w ∷ []) ≢ []
append-append-ne-nil [] vs w e = append-ne-nil vs w e
append-append-ne-nil (v ∷ ws) vs w e = cc

postfix-ne-nil : (e : Expr) → postfix e ≢ []
unfolding postfix
postfix-ne-nil (operand x) p = cc
postfix-ne-nil (negation a) p = append-ne-nil (postfix a) (lit "!") p
postfix-ne-nil (conjunction a b) p = append-append-ne-nil (postfix a) (postfix b) (lit "&") p
postfix-ne-nil (disjunction a b) p = append-append-ne-nil (postfix a) (postfix b) (lit "|") p

bind_top : (r : Result Bool) → ((r >>= λ v. ok (v ∷ [])) >>= top) ≡ r
bind_top (ok v) = refl
bind_top (throw e) = refl
bind_top undefined = refl

module _ {P : Type 0} (get : P → Result Bool) (m : Map Str P) where
  -- The meaning of the tree: operands are read from left to right, and the first that fails ends it.
  unfoldable pub eval : Expr → Result Bool
  eval (operand x) = value logic_operations get m x
  eval (negation a) = eval a >>= λ v. ok (not v)
  eval (conjunction a b) = eval a >>= λ v. eval b >>= λ w. ok (v && w)
  eval (disjunction a b) = eval a >>= λ v. eval b >>= λ w. ok (v || w)

  abbrev step : ℕ → Str → List Bool → Result (List Bool)
  step = token logic_operations get m

  abbrev loop : ℕ → List Str → List Bool → Result (List Bool)
  loop = tokens logic_operations get m

  token-operand :
      (pos : ℕ) (x : Str) (st : List Bool)
      → is_operand logic_operations x ≡ true
      → step pos x st ≡ (value logic_operations get m x >>= λ v. ok (v ∷ st))
  unfolding token
  token-operand pos x st h = rw h

  token-not : (pos : ℕ) (v : Bool) (st : List Bool) → step pos (lit "!") (v ∷ st) ≡ ok (not v ∷ st)
  unfolding token logic_operations
  token-not pos v st = refl

  token-and :
      (pos : ℕ) (v w : Bool) (st : List Bool) → step pos (lit "&") (w ∷ v ∷ st) ≡ ok ((v && w) ∷ st)
  unfolding token logic_operations
  token-and pos v w st = refl

  token-or :
      (pos : ℕ) (v w : Bool) (st : List Bool) → step pos (lit "|") (w ∷ v ∷ st) ≡ ok ((v || w) ∷ st)
  unfolding token logic_operations
  token-or pos v w st = refl

  tokens-append :
      (pos : ℕ) (ws vs : List Str) (st : List Bool)
      → loop pos (ws ++ vs) st ≡ (loop pos ws st >>= λ st'. loop (pos + length ws) vs st')
  unfolding tokens
  tokens-append pos [] vs st = rw add-zero
  tokens-append pos (w ∷ ws) vs st =
      bind_cong (step pos w st) _ _ (λ st'.
        tokens-append (pos + 1) ws vs st'
        ∙ ap (λ n. loop (pos + 1) ws st' >>= λ st''. loop n vs st'')
            (add_assoc pos 1 (length ws) ∙ ap (λ n. pos + n) (omega arith)))
      ∙ sym (>>=_assoc (step pos w st) _ _)

  -- Tokens that push one value: what they push, and the failure that they may end in, is `r`.
  abbrev Pushes : List Str → Result Bool → Type 0
  Pushes ws r = (pos : ℕ) (st : List Bool) → loop pos ws st ≡ (r >>= λ v. ok (v ∷ st))

  operand-Pushes :
      (x : Str)
      → is_operand logic_operations x ≡ true
      → Pushes (x ∷ []) (value logic_operations get m x)
  unfolding tokens
  operand-Pushes x h pos st = rw (token-operand pos x st h) (bind-ok _)

  unary-Pushes :
      (ws : List Str) (r : Result Bool) (op : Str) (f : Bool → Bool)
      → Pushes ws r
      → ((pos : ℕ) (v : Bool) (st : List Bool) → step pos op (v ∷ st) ≡ ok (f v ∷ st))
      → Pushes (ws ++ op ∷ []) (r >>= λ v. ok (f v))
  unfolding tokens
  unary-Pushes ws (ok v) op f p h pos st = rw (tokens-append, p pos st, h)
  unary-Pushes ws (throw e) op f p h pos st = rw (tokens-append, p pos st)
  unary-Pushes ws undefined op f p h pos st = rw (tokens-append, p pos st)

  binary-Pushes :
      (ws vs : List Str) (r q : Result Bool) (op : Str) (f : Bool → Bool → Bool)
      → Pushes ws r
      → Pushes vs q
      → ((pos : ℕ) (v w : Bool) (st : List Bool) → step pos op (w ∷ v ∷ st) ≡ ok (f v w ∷ st))
      → Pushes (ws ++ (vs ++ op ∷ [])) (r >>= λ v. q >>= λ w. ok (f v w))
  unfolding tokens
  binary-Pushes ws vs (ok v) (ok w) op f p p' h pos st =
      rw (tokens-append, p pos st) (rw (tokens-append, p' _ (v ∷ st), h))
  binary-Pushes ws vs (ok v) (throw e) op f p p' h pos st =
      rw (tokens-append, p pos st) (rw (tokens-append, p' _ (v ∷ st)))
  binary-Pushes ws vs (ok v) undefined op f p p' h pos st =
      rw (tokens-append, p pos st) (rw (tokens-append, p' _ (v ∷ st)))
  binary-Pushes ws vs (throw e) q op f p p' h pos st = rw (tokens-append, p pos st)
  binary-Pushes ws vs undefined q op f p p' h pos st = rw (tokens-append, p pos st)

  postfix-Pushes : (e : Expr) → IsPlain e → Pushes (postfix e) (eval e)
  unfolding postfix eval
  postfix-Pushes (operand x) h = operand-Pushes x h
  postfix-Pushes (negation a) h =
      unary-Pushes (postfix a) (eval a) (lit "!") not (postfix-Pushes a h) token-not
  postfix-Pushes (conjunction a b) h =
      binary-Pushes (postfix a) (postfix b) (eval a) (eval b) (lit "&") ◌&&◌ (postfix-Pushes a h.0)
        (postfix-Pushes b h.1) token-and
  postfix-Pushes (disjunction a b) h =
      binary-Pushes (postfix a) (postfix b) (eval a) (eval b) (lit "|") ◌||◌ (postfix-Pushes a h.0)
        (postfix-Pushes b h.1) token-or

  solve-tokens :
      (s : List Str) (d : Bool)
      → s ≢ []
      → solve logic_operations get m (record { s = s; default = d }) ≡ (loop 0 s [] >>= top)
  unfolding solve
  solve-tokens [] d h = absurd (h refl)
  solve-tokens (w ∷ ws) d h = refl

  -- The solver of a condition in postfix form returns what the condition means, and throws exactly
  -- what reading its operands from left to right throws.
  pub solve-postfix :
      (e : Expr) (d : Bool)
      → IsPlain e
      → solve logic_operations get m (record { s = postfix e; default = d }) ≡ eval e
  solve-postfix e d h =
      solve-tokens (postfix e) d (postfix-ne-nil e)
      ∙ rw (postfix-Pushes e h 0 []) (bind_top (eval e))
