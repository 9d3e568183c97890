-- ===== src/Edify/Operators.antt =====
-- The functions that the parser builds for the operators `;`, `==`, `!=`, `&&`, `||` and `!`
-- (edify/expr.c). They read argv[0] and argv[1] with no test of argc: the parser passes both.
use sc7731_sc8830_bootable_r.Base.{[], ◌∷◌, not, if◌then◌else◌, bytes_eq}
use sc7731_sc8830_bootable_r.Edify.Builtins.{truth}
use sc7731_sc8830_bootable_r.Edify.Expr.{Function, boolean_string, string_value, evaluate}
use sc7731_sc8830_bootable_r.Edify.State.{◌>>=◌, undefined}

unfoldable pub logical_and_fn : Function
unfolding evaluate
logical_and_fn name [] = undefined
logical_and_fn name (a ∷ []) = do
  left ← evaluate a
  if boolean_string left then undefined else string_value left
logical_and_fn name (a ∷ b ∷ argv) = do
  left ← evaluate a
  if boolean_string left then b.run else string_value left

unfoldable pub logical_or_fn : Function
unfolding evaluate
logical_or_fn name [] = undefined
logical_or_fn name (a ∷ []) = do
  left ← evaluate a
  if not (boolean_string left) then undefined else string_value left
logical_or_fn name (a ∷ b ∷ argv) = do
  left ← evaluate a
  if not (boolean_string left) then b.run else string_value left

unfoldable pub logical_not_fn : Function
unfolding evaluate truth
logical_not_fn name [] = undefined
logical_not_fn name (a ∷ argv) = do
  val ← evaluate a
  string_value (truth (not (boolean_string val)))

unfoldable pub equality_fn : Function
unfolding evaluate truth
equality_fn name (a ∷ b ∷ argv) = do
  left ← evaluate a
  right ← evaluate b
  string_value (truth (bytes_eq left right))
equality_fn name (a ∷ []) = do left ← evaluate a; undefined
equality_fn name [] = undefined

unfoldable pub inequality_fn : Function
unfolding evaluate truth
inequality_fn name (a ∷ b ∷ argv) = do
  left ← evaluate a
  right ← evaluate b
  string_value (truth (not (bytes_eq left right)))
inequality_fn name (a ∷ []) = do left ← evaluate a; undefined
inequality_fn name [] = undefined

unfoldable pub sequence_fn : Function
sequence_fn name [] = undefined
sequence_fn name (a ∷ []) = do left ← a.run; undefined
sequence_fn name (a ∷ b ∷ argv) = do left ← a.run; b.run
