-- ===== src/Edify/Tests.antt =====
-- Runs of edify/expr.c on concrete scripts.
use sc7731_sc8830_bootable_r.Base.{◌↔◌, refl}
use sc7731_sc8830_bootable_r.Edify.Builtins.{substring_fn}
use sc7731_sc8830_bootable_r.Edify.Expr.{evaluate, as_string}
use sc7731_sc8830_bootable_r.Edify.State.{returned, str}
use sc7731_sc8830_bootable_r.Edify.Substring.{Occurs, substring_fn-Occurs}
use sc7731_sc8830_bootable_r.Base.{ℕ, List, [], ◌∷◌, ◌≡◌, arith, codes, none, length}
use sc7731_sc8830_bootable_r.Edify.State.{State}
use sc7731_sc8830_bootable_r.Edify.Expr.{Arg, Expr, node, nil, cons, literal, evaluate_value}
use sc7731_sc8830_bootable_r.Edify.Builtins.{ifelse_fn, concat_fn, abort_fn, assert_fn}
use sc7731_sc8830_bootable_r.Edify.Operators.{
  logical_and_fn, logical_or_fn, logical_not_fn, equality_fn, inequality_fn,
}
use sc7731_sc8830_bootable_r.Edify.Ends.{Ends}
use sc7731_sc8830_bootable_r.Edify.Scripts.{
  literal_call, concat_call, ifelse_call, abort_call, IsCore, evaluate_value-Ends,
}
use mathlib.Core.List.{flatten}
use sc7731_sc8830_bootable_r.Edify.Runs.{
  Evaluates, AllSet, concat_fn-Evaluates, assert_fn-Evaluates, sequence, Runs, sequence-Runs,
}
use sc7731_sc8830_bootable_r.Edify.Laws.{
  operand, empty_string, not-and, inequality-eq-not, ifelse_fn_lem,
}

abbrev text : List ℕ
text = codes "ifelse(a,abort(b+c))"

abbrev start_state : State
start_state = record { cookie = 0; script = text; errmsg = none; stdout = []; slept = [] }

abbrev leaf : List ℕ → ℕ → ℕ → Expr
leaf name start end = node literal name nil start end

-- `ifelse(a,abort(b+c))`
abbrev script : Expr
script =
    node ifelse_fn (codes "ifelse")
      (cons (leaf (codes "a") 7 8) (
        cons
          (node abort_fn (codes "abort")
            (cons
              (node concat_fn (codes "(operator)")
                (cons (leaf (codes "b") 15 16) (cons (leaf (codes "c") 17 18) nil)) 15 18)
              nil)
            9 19)
          nil))
      0 20

script-IsCore : IsCore (length text) script
unfolding IsCore
script-IsCore = (
  ifelse_call 2,
  omega arith,
  omega arith,
  (
    (literal_call 0, omega arith, omega arith, tt),
    (
      (
        abort_call 1,
        omega arith,
        omega arith,
        (
          (
            concat_call 2,
            omega arith,
            omega arith,
            (
              (literal_call 0, omega arith, omega arith, tt),
              ((literal_call 0, omega arith, omega arith, tt), tt),
            ),
          ),
          tt,
        ),
      ),
      tt,
    ),
  ),
)

evaluate_value-Ends_example : Ends start_state (evaluate_value script start_state)
evaluate_value-Ends_example = evaluate_value-Ends script start_state script-IsCore

abbrev arg : List ℕ → Arg
arg s = record { run = evaluate_value (leaf s 0 1); start = 0; end = 1 }

abbrev a_arg : Arg
a_arg = arg (codes "a")

abbrev empty_arg : Arg
empty_arg = arg []

not-and_example :
    logical_not_fn (codes "!") (operand logical_and_fn (a_arg ∷ empty_arg ∷ []) ∷ []) start_state
    ≡ logical_or_fn
        (codes "!")
        (operand logical_not_fn (a_arg ∷ []) ∷ operand logical_not_fn (empty_arg ∷ []) ∷ [])
        start_state
not-and_example = not-and (codes "!") a_arg empty_arg start_state

inequality-eq-not_example :
    inequality_fn (codes "o") (a_arg ∷ empty_arg ∷ []) start_state
    ≡ logical_not_fn (codes "o") (operand equality_fn (a_arg ∷ empty_arg ∷ []) ∷ []) start_state
inequality-eq-not_example = inequality-eq-not (codes "o") a_arg empty_arg start_state

ifelse_fn_lem_example :
    (ifelse_fn (codes "ifelse") (a_arg ∷ a_arg ∷ []) start_state
      ≡ logical_and_fn (codes "ifelse") (a_arg ∷ a_arg ∷ []) start_state)
    × (ifelse_fn (codes "ifelse") (a_arg ∷ a_arg ∷ empty_string ∷ []) start_state
        ≡ logical_and_fn (codes "ifelse") (a_arg ∷ a_arg ∷ []) start_state)
    × (ifelse_fn
          (codes "ifelse")
          (operand logical_not_fn (a_arg ∷ []) ∷ a_arg ∷ empty_arg ∷ [])
          start_state
        ≡ ifelse_fn (codes "ifelse") (a_arg ∷ empty_arg ∷ a_arg ∷ []) start_state)
ifelse_fn_lem_example = ifelse_fn_lem (codes "ifelse") a_arg a_arg start_state empty_arg

sequence-Runs_example :
    ((sequence a_arg (empty_arg ∷ arg (codes "b") ∷ [])).run start_state
      ≡ returned (str (codes "b")) start_state)
    ↔ Runs a_arg (empty_arg ∷ arg (codes "b") ∷ []) start_state (str (codes "b")) start_state
sequence-Runs_example =
    sequence-Runs a_arg (empty_arg ∷ arg (codes "b") ∷ []) start_state (str (codes "b")) start_state

concat_fn-Evaluates_example :
    (concat_fn (codes "+") (a_arg ∷ arg (codes "b") ∷ []) start_state
      ≡ returned (str (codes "ab")) start_state)
    ↔ ((vs : List (List ℕ)) × Evaluates (a_arg ∷ arg (codes "b") ∷ []) start_state vs start_state
        × (str (codes "ab") ≡ str (flatten vs)))
concat_fn-Evaluates_example =
    concat_fn-Evaluates (codes "+") (a_arg ∷ arg (codes "b") ∷ []) start_state (str (codes "ab"))
      start_state

assert_fn-Evaluates_example :
    (assert_fn (codes "assert") (a_arg ∷ empty_arg ∷ []) start_state
      ≡ returned (str []) start_state)
    ↔ ((vs : List (List ℕ)) × Evaluates (a_arg ∷ empty_arg ∷ []) start_state vs start_state
        × AllSet vs
        × (str [] ≡ str []))
assert_fn-Evaluates_example =
    assert_fn-Evaluates (codes "assert") (a_arg ∷ empty_arg ∷ []) start_state (str []) start_state

substring_fn-Occurs_example :
    (substring_fn (codes "is_substring") (a_arg ∷ arg (codes "cab") ∷ []) start_state
      ≡ returned (str (codes "t")) start_state)
    ↔ Occurs (codes "cab") (codes "a")
unfolding evaluate evaluate_value literal as_string
substring_fn-Occurs_example =
    substring_fn-Occurs (codes "is_substring") a_arg (arg (codes "cab")) (codes "a") (codes "cab")
      start_state start_state start_state refl refl
