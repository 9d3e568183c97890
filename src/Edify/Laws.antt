-- ===== src/Edify/Laws.antt =====
-- Operators and builtins of edify/expr.c together, as equations between whole evaluations: result, error
-- and state.
use sc7731_sc8830_bootable_r.Base.{ℕ, List, [], ◌∷◌, ◌≡◌, arith, codes}
use sc7731_sc8830_bootable_r.Edify.Builtins.{ifelse_fn}
use sc7731_sc8830_bootable_r.Edify.Expr.{Arg, Function, literal}
use sc7731_sc8830_bootable_r.Edify.Operators.{
  logical_and_fn, logical_or_fn, logical_not_fn, equality_fn, inequality_fn,
}
use sc7731_sc8830_bootable_r.Edify.State.{State}

-- The operand that an expression is, built from a function and its operands.
abbrev pub operand : Function → List Arg → Arg
operand fn argv = record { run = fn (codes "(operator)") argv; start = 0; end = 0 }

-- The literal ""
abbrev pub empty_string : Arg
empty_string = record { run = literal [] []; start = 0; end = 0 }

module _ (name : List ℕ) (a b : Arg) (s : State) where
  -- De Morgan's law for expressions: `!(a && b)` and `!a || !b` evaluate alike in every state, with
  -- the same short cuts, errors and effects.
  pub not-and :
      logical_not_fn name (operand logical_and_fn (a ∷ b ∷ []) ∷ []) s
      ≡ logical_or_fn name
          (operand logical_not_fn (a ∷ []) ∷ operand logical_not_fn (b ∷ []) ∷ [])
          s
  unfolding logical_not_fn logical_and_fn logical_or_fn
  not-and = ground arith

  -- In every state `a != b` evaluates as `!(a == b)`.
  pub inequality-eq-not :
      inequality_fn name (a ∷ b ∷ []) s
      ≡ logical_not_fn name (operand equality_fn (a ∷ b ∷ []) ∷ []) s
  unfolding inequality_fn equality_fn logical_not_fn
  inequality-eq-not = ground arith

  -- In every state an ifelse of two arguments, or of three of which the last is the empty string,
  -- evaluates as the `&&` of the first two; and one whose condition is negated evaluates as the one with
  -- the condition and the branches exchanged.
  pub ifelse_fn_lem :
      (e : Arg)
      → (ifelse_fn name (a ∷ b ∷ []) s ≡ logical_and_fn name (a ∷ b ∷ []) s)
        × (ifelse_fn name (a ∷ b ∷ empty_string ∷ []) s ≡ logical_and_fn name (a ∷ b ∷ []) s)
        × (ifelse_fn name (operand logical_not_fn (a ∷ []) ∷ b ∷ e ∷ []) s
            ≡ ifelse_fn name (a ∷ e ∷ b ∷ []) s)
  unfolding ifelse_fn logical_and_fn logical_not_fn literal
  ifelse_fn_lem e = (ground arith, ground arith, ground arith)
