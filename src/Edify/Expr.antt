-- ===== src/Edify/Expr.antt =====
-- Expressions and their evaluation: Expr, Evaluate, EvaluateValue, StringValue, BooleanString,
-- Literal, Build and the Read*Args family of edify/expr.c.
use sc7731_sc8830_bootable_r.Base.{ℕ, zero, suc, List, [], ◌∷◌, Bool, true, false, codes}
use sc7731_sc8830_bootable_r.Edify.State.{
  Value, str, blob, M, ◌>>=◌, return, undefined, error_abort,
}

-- An element of argv: the evaluation that EvaluateValue starts on it, and its place in the script.
pub record Arg : Type 0 where
  pub run : M Value
  pub start : ℕ
  pub end : ℕ

-- `Value* (*Function)(const char* name, State* state, int argc, Expr* argv[])`; argc is the
-- length of argv.
abbrev pub Function : Type 0
Function = List ℕ → List Arg → M Value

mutual
  pub data Expr : Type 0 where
    node : Function → List ℕ → Exprs → ℕ → ℕ → Expr

  pub data Exprs : Type 0 where
    nil : Exprs
    cons : Expr → Exprs → Exprs

abbrev pub start_of : Expr → ℕ
start_of (node fn name argv start end) = start

abbrev pub end_of : Expr → ℕ
end_of (node fn name argv start end) = end

unfoldable mutual
  pub evaluate_value : Expr → M Value
  evaluate_value (node fn name argv start end) = fn name (bind_args argv)

  pub bind_args : Exprs → List Arg
  bind_args nil = []
  bind_args (cons e es) =
      record { run = evaluate_value e; start = start_of e; end = end_of e } ∷ bind_args es

abbrev pub boolean_string : List ℕ → Bool
boolean_string [] = false
boolean_string (c ∷ s) = true

abbrev pub string_value : List ℕ → M Value
string_value s = return (str s)

-- The type of a value that is no string is VAL_BLOB, which is 2.
unfoldable pub as_string : Value → M (List ℕ)
unfolding error_abort
as_string (str s) = return s
as_string (blob b) = error_abort (codes "expecting string, got value type 2")

unfoldable pub evaluate : Arg → M (List ℕ)
unfolding as_string
evaluate a = a.run >>= as_string

unfoldable pub literal : Function
literal name argv = string_value name

-- Build(fn, loc, count, ...)
unfoldable pub build : Function → ℕ → ℕ → Exprs → Expr
build fn start end argv = node fn (codes "(operator)") argv start end

-- ReadArgs and ReadValueArgs take the number of arguments from the caller.
unfoldable pub read_args : ℕ → List Arg → M (List (List ℕ))
unfolding evaluate
read_args zero argv = return []
read_args (suc n) [] = undefined
read_args (suc n) (a ∷ argv) = do v ← evaluate a; vs ← read_args n argv; return (v ∷ vs)

unfoldable pub read_value_args : ℕ → List Arg → M (List Value)
read_value_args zero argv = return []
read_value_args (suc n) [] = undefined
read_value_args (suc n) (a ∷ argv) = do v ← a.run; vs ← read_value_args n argv; return (v ∷ vs)

-- ReadVarArgs and ReadValueVarArgs read all of argv.
unfoldable pub read_var_args : List Arg → M (List (List ℕ))
unfolding evaluate
read_var_args [] = return []
read_var_args (a ∷ argv) = do v ← evaluate a; vs ← read_var_args argv; return (v ∷ vs)

unfoldable pub read_value_var_args : List Arg → M (List Value)
read_value_var_args [] = return []
read_value_var_args (a ∷ argv) = do v ← a.run; vs ← read_value_var_args argv; return (v ∷ vs)
