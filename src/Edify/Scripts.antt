-- ===== src/Edify/Scripts.antt =====
-- Whole scripts: the expressions whose functions are the operators and builtins of edify/expr.c.
use sc7731_sc8830_bootable_r.Base.{ℕ, suc, ◌≤◌, List, [], ◌∷◌, ◌≡◌, refl, arith, length, ap}
use sc7731_sc8830_bootable_r.Edify.Builtins.{
  concat_fn, ifelse_fn, abort_fn, assert_fn, sleep_fn, sleep_for, stdout_fn, substring_fn,
  less_than_int_fn, greater_than_int_fn, concat_all,
}
use sc7731_sc8830_bootable_r.Edify.Ends.{
  Ends, IsGood, Keeps-refl, >>=-IsGood, evaluate_then, evaluate-IsGood, IsGoodArg, AreGoodArgs,
}
use sc7731_sc8830_bootable_r.Edify.Errors.{
  concat_all-IsGood, abort_with-Ends, assert-IsGood, stdout-IsGood, sleep_for-IsGood,
  less_than-IsGood, ifelse-IsGood, two-IsGood,
}
use sc7731_sc8830_bootable_r.Edify.Expr.{
  Arg, Function, Expr, node, Exprs, nil, cons, evaluate_value, bind_args, literal, evaluate,
  string_value,
}
use sc7731_sc8830_bootable_r.Edify.Operators.{
  logical_and_fn, logical_or_fn, logical_not_fn, equality_fn, inequality_fn, sequence_fn,
}
use sc7731_sc8830_bootable_r.Edify.State.{State}

-- The calls whose arguments suffice: those functions that read argv[i] without a test of argc get
-- that many arguments at least.
pub data CoreCall : Function → ℕ → Type 0 where
  literal_call : (k : ℕ) → CoreCall literal k
  concat_call : (k : ℕ) → CoreCall concat_fn k
  ifelse_call : (k : ℕ) → CoreCall ifelse_fn k
  abort_call : (k : ℕ) → CoreCall abort_fn k
  assert_call : (k : ℕ) → CoreCall assert_fn k
  stdout_call : (k : ℕ) → CoreCall stdout_fn k
  less_call : (k : ℕ) → CoreCall less_than_int_fn k
  greater_call : (k : ℕ) → CoreCall greater_than_int_fn k
  sleep_call : (k : ℕ) → CoreCall sleep_fn (suc k)
  substring_call : (k : ℕ) → CoreCall substring_fn (suc (suc k))
  and_call : (k : ℕ) → CoreCall logical_and_fn (suc (suc k))
  or_call : (k : ℕ) → CoreCall logical_or_fn (suc (suc k))
  not_call : (k : ℕ) → CoreCall logical_not_fn (suc k)
  equality_call : (k : ℕ) → CoreCall equality_fn (suc (suc k))
  inequality_call : (k : ℕ) → CoreCall inequality_fn (suc (suc k))
  sequence_call : (k : ℕ) → CoreCall sequence_fn (suc (suc k))

module _ (n : ℕ) (name : List ℕ) where
  two_args :
      {k : ℕ} (P : List Arg → Type 0) (argv : List Arg)
      → length argv ≡ suc (suc k)
      → AreGoodArgs n argv
      → ((a b : Arg) (rest : List Arg) → IsGoodArg n a → IsGoodArg n b → P (a ∷ b ∷ rest))
      → P argv
  two_args P [] e h f = absurd (omega arith)
  two_args P (a ∷ []) e h f = absurd (omega arith)
  two_args P (a ∷ b ∷ rest) e h f = f a b rest h.0 h.1.0

  one_arg :
      {k : ℕ} (P : List Arg → Type 0) (argv : List Arg)
      → length argv ≡ suc k
      → AreGoodArgs n argv
      → ((a : Arg) (rest : List Arg) → IsGoodArg n a → P (a ∷ rest))
      → P argv
  one_arg P [] e h f = absurd (omega arith)
  one_arg P (a ∷ rest) e h f = f a rest h.0

  abort-IsGood : (argv : List Arg) → AreGoodArgs n argv → IsGood n (abort_fn name argv)
  unfolding abort_fn
  abort-IsGood [] h s fits = ((refl, refl, λ e. refl), refl)
  abort-IsGood (a ∷ argv) h s fits =
      abort_with-Ends n s (evaluate a s) (evaluate-IsGood n a h.0 s fits)

  less-IsGood : (argv : List Arg) → AreGoodArgs n argv → IsGood n (less_than_int_fn name argv)
  unfolding less_than_int_fn
  less-IsGood (a ∷ b ∷ []) h s fits = less_than-IsGood n a b h.0 h.1.0 s fits
  less-IsGood _ h s fits = ((refl, refl, λ e. refl), refl)

  greater-IsGood : (argv : List Arg) → AreGoodArgs n argv → IsGood n (greater_than_int_fn name argv)
  unfolding greater_than_int_fn
  greater-IsGood (a ∷ b ∷ []) h s fits = less-IsGood (b ∷ a ∷ []) (h.1.0, (h.0, tt)) s fits
  greater-IsGood _ h s fits = ((refl, refl, λ e. refl), refl)

  call-IsGood :
      {fn : Function} {k : ℕ}
      → CoreCall fn k
      → (argv : List Arg) → length argv ≡ k
      → AreGoodArgs n argv
      → IsGood n (fn name argv)
  unfolding literal concat_fn sleep_fn logical_not_fn
  call-IsGood (literal_call k) argv e h = λ s fits. Keeps-refl s
  call-IsGood (concat_call k) argv e h =
      >>=-IsGood n (concat_all argv) string_value (concat_all-IsGood n argv h)
        λ v s fits. Keeps-refl s
  call-IsGood (ifelse_call k) argv e h = ifelse-IsGood n name argv h
  call-IsGood (abort_call k) argv e h = abort-IsGood argv h
  call-IsGood (assert_call k) argv e h = assert-IsGood n name argv h
  call-IsGood (stdout_call k) argv e h = stdout-IsGood n name argv h
  call-IsGood (less_call k) argv e h = less-IsGood argv h
  call-IsGood (greater_call k) argv e h = greater-IsGood argv h
  call-IsGood (sleep_call k) argv e h =
      one_arg (λ l. IsGood n (sleep_fn name l)) argv e h
        λ a rest ha. evaluate_then n a sleep_for ha (sleep_for-IsGood n)
  call-IsGood (not_call k) argv e h =
      one_arg (λ l. IsGood n (logical_not_fn name l)) argv e h
        λ a rest ha. evaluate_then n a _ ha λ v s fits. Keeps-refl s
  call-IsGood (substring_call k) argv e h =
      two_args (λ l. IsGood n (substring_fn name l)) argv e h
        λ a b r ha hb. (two-IsGood n name a b r ha hb).5
  call-IsGood (and_call k) argv e h =
      two_args (λ l. IsGood n (logical_and_fn name l)) argv e h
        λ a b r ha hb. (two-IsGood n name a b r ha hb).0
  call-IsGood (or_call k) argv e h =
      two_args (λ l. IsGood n (logical_or_fn name l)) argv e h
        λ a b r ha hb. (two-IsGood n name a b r ha hb).1
  call-IsGood (sequence_call k) argv e h =
      two_args (λ l. IsGood n (sequence_fn name l)) argv e h
        λ a b r ha hb. (two-IsGood n name a b r ha hb).2
  call-IsGood (equality_call k) argv e h =
      two_args (λ l. IsGood n (equality_fn name l)) argv e h
        λ a b r ha hb. (two-IsGood n name a b r ha hb).3
  call-IsGood (inequality_call k) argv e h =
      two_args (λ l. IsGood n (inequality_fn name l)) argv e h
        λ a b r ha hb. (two-IsGood n name a b r ha hb).4

abbrev pub argc : Exprs → ℕ
argc nil = 0
argc (cons e es) = suc (argc es)

-- A script of `n` bytes: each call has the arguments that its function reads, and each expression
-- lies in the script.
unfoldable mutual
  pub IsCore : ℕ → Expr → Type 0
  IsCore n (node fn name argv start end) =
      CoreCall fn (argc argv) × (start ≤ end) × (end ≤ n) × AreCore n argv

  pub AreCore : ℕ → Exprs → Type 0
  AreCore n nil = Unit
  AreCore n (cons e es) = IsCore n e × AreCore n es

length-bind_args : (es : Exprs) → length (bind_args es) ≡ argc es
unfolding bind_args
length-bind_args nil = refl
length-bind_args (cons e es) = ap suc (length-bind_args es)

mutual
  unfolding evaluate_value IsCore

  evaluate_value-IsGood : (n : ℕ) (e : Expr) → IsCore n e → IsGood n (evaluate_value e)
  evaluate_value-IsGood n (node fn name argv start end) h =
      call-IsGood n name h.0 (bind_args argv) (length-bind_args argv) (bind_args-AreGood n argv h.3)

  bind_args-AreGood : (n : ℕ) (es : Exprs) → AreCore n es → AreGoodArgs n (bind_args es)
  bind_args-AreGood n nil h = tt
  bind_args-AreGood n (cons (node fn name argv start end) es) h = (
    (evaluate_value-IsGood n (node fn name argv start end) h.0, h.0.1, h.0.2),
    bind_args-AreGood n es h.1,
  )

-- A script built of the operators and the builtins, whose calls have the arguments that their
-- functions read and whose expressions lie in the script's text, reads nothing beyond argv or that
-- text. Its evaluation leaves the script and the cookie as they were and clears no message; and when
-- it returns NULL, errmsg is set.
pub evaluate_value-Ends :
    (e : Expr) (s : State) → IsCore (length s.script) e → Ends s (evaluate_value e s)
evaluate_value-Ends e s h = evaluate_value-IsGood (length s.script) e h s refl
