-- ===== src/Edify/Errors.antt =====
-- The builtins and operators of edify/expr.c one by one: how their evaluation may end.
use sc7731_sc8830_bootable_r.Base.{ℕ, List, [], ◌∷◌, true, ◌≡◌, refl, arith, length, leb, ◌&&◌, not}
use sc7731_sc8830_bootable_r.Edify.Builtins.{
  truth, concat_all, ifelse_fn, abort_with, assert_failed, assert_fn, sleep_for, stdout_fn,
  substring_fn, less_than_strings, less_than_both,
}
use sc7731_sc8830_bootable_r.Edify.Expr.{Arg, boolean_string, string_value, evaluate, read_args}
use sc7731_sc8830_bootable_r.Edify.Operators.{
  logical_and_fn, logical_or_fn, equality_fn, inequality_fn, sequence_fn,
}
use sc7731_sc8830_bootable_r.Edify.State.{
  fputs, State, Outcome, returned, null, fault, and_then, ◌>>=◌, fail,
}
use sc7731_sc8830_bootable_r.Edify.Ends.{
  Ends, IsGood, Keeps-refl, >>=-IsGood, if-IsGood, evaluate_then, IsGoodArg, AreGoodArgs,
}

read_args_two :
    (a b : Arg) (s : State)
    → and_then (read_args 2 (a ∷ b ∷ []) s) less_than_both
      ≡ and_then
          (evaluate a s)
          (λ l. evaluate b >>= λ r. string_value (truth (less_than_strings l r)))
unfolding read_args less_than_both
read_args_two a b s = ground arith

module _ (n : ℕ) where
  pub concat_all-IsGood : (argv : List Arg) → AreGoodArgs n argv → IsGood n (concat_all argv)
  unfolding concat_all
  concat_all-IsGood [] h = λ s fits. Keeps-refl s
  concat_all-IsGood (a ∷ argv) h =
      evaluate_then n a _ h.0 λ v.
        >>=-IsGood n (concat_all argv) _ (concat_all-IsGood argv h.1) λ r. λ s fits. Keeps-refl s

  pub abort_with-Ends : (s : State) (o : Outcome (List ℕ)) → Ends s o → Ends s (abort_with o)
  unfolding abort_with
  abort_with-Ends s (returned msg t) h = ((h.0, h.1, λ e. refl), refl)
  abort_with-Ends s (null t) h = ((h.0.0, h.0.1, λ e. refl), refl)
  abort_with-Ends s fault h = h

  assert_failed-IsGood : (a : Arg) → IsGoodArg n a → IsGood n (assert_failed a)
  unfolding assert_failed
  assert_failed-IsGood a h s fits =
      let t : (leb a.start a.end && leb a.end (length s.script)) ≡ true = ground arith in
      rw t ((refl, refl, λ e. refl), refl)

  pub assert-IsGood :
      (name : List ℕ) (argv : List Arg) → AreGoodArgs n argv → IsGood n (assert_fn name argv)
  unfolding assert_fn
  assert-IsGood name [] h = λ s fits. Keeps-refl s
  assert-IsGood name (a ∷ argv) h = evaluate_then n a _ h.0 λ v.
      if-IsGood n (boolean_string v) _ _ (assert-IsGood name argv h.1) (assert_failed-IsGood a h.0)

  pub stdout-IsGood :
      (name : List ℕ) (argv : List Arg) → AreGoodArgs n argv → IsGood n (stdout_fn name argv)
  unfolding stdout_fn
  stdout-IsGood name [] h = λ s fits. Keeps-refl s
  stdout-IsGood name (a ∷ argv) h = evaluate_then n a _ h.0 λ v.
      >>=-IsGood n (fputs v) (λ _. stdout_fn name argv) (λ s fits. Keeps-refl s)
        λ _. stdout-IsGood name argv h.1

  pub sleep_for-IsGood : (v : List ℕ) → IsGood n (sleep_for v)
  unfolding sleep_for
  sleep_for-IsGood v s fits = (refl, refl, λ e. e)

  pub less_than-IsGood :
      (a b : Arg)
      → IsGoodArg n a
      → IsGoodArg n b
      → IsGood n (read_args 2 (a ∷ b ∷ []) >>= less_than_both)
  less_than-IsGood a b ha hb s fits =
      rw (read_args_two a b s)
        (evaluate_then n a _ ha (λ l. evaluate_then n b _ hb (λ r. λ s fits. Keeps-refl s)) s fits)

module _ (n : ℕ) where
  fail-IsGood : (A : Type 0) (msg : List ℕ) → IsGood {A = A} n (fail msg)
  fail-IsGood A msg s fits = ((refl, refl, λ e. refl), refl)

  pub ifelse-IsGood :
      (name : List ℕ) (argv : List Arg) → AreGoodArgs n argv → IsGood n (ifelse_fn name argv)
  unfolding ifelse_fn
  ifelse-IsGood name (c ∷ t ∷ []) h =
      evaluate_then n c _ h.0
        λ v. if-IsGood n (boolean_string v) _ _ h.1.0.0 (λ s fits. Keeps-refl s)
  ifelse-IsGood name (c ∷ t ∷ e ∷ []) h =
      evaluate_then n c _ h.0 λ v. if-IsGood n (boolean_string v) _ _ h.1.0.0 h.1.1.0.0
  ifelse-IsGood name _ h = λ s fits. ((refl, refl, λ e. refl), refl)

  pub two-IsGood :
      (name : List ℕ) (a b : Arg) (argv : List Arg)
      → IsGoodArg n a
      → IsGoodArg n b
      → IsGood n (logical_and_fn name (a ∷ b ∷ argv))
        × IsGood n (logical_or_fn name (a ∷ b ∷ argv))
        × IsGood n (sequence_fn name (a ∷ b ∷ argv))
        × IsGood n (equality_fn name (a ∷ b ∷ argv))
        × IsGood n (inequality_fn name (a ∷ b ∷ argv))
        × IsGood n (substring_fn name (a ∷ b ∷ argv))
  unfolding logical_and_fn logical_or_fn sequence_fn equality_fn inequality_fn substring_fn
  two-IsGood name a b argv ha hb = (
    evaluate_then n a _ ha λ v. if-IsGood n (boolean_string v) _ _ hb.0 (λ s fits. Keeps-refl s),
    evaluate_then n a _ ha
        λ v. if-IsGood n (not (boolean_string v)) _ _ hb.0 (λ s fits. Keeps-refl s),
    >>=-IsGood n a.run (λ _. b.run) ha.0 (λ _. hb.0),
    evaluate_then n a _ ha λ l. evaluate_then n b _ hb λ r s fits. Keeps-refl s,
    evaluate_then n a _ ha λ l. evaluate_then n b _ hb λ r s fits. Keeps-refl s,
    evaluate_then n a _ ha λ l. evaluate_then n b _ hb λ r s fits. Keeps-refl s,
  )
