-- ===== src/Edify/Builtins.antt =====
-- The functions that RegisterBuiltins of edify/expr.c puts into the table: ifelse, abort, assert,
-- concat, is_substring, stdout, sleep, less_than_int and greater_than_int.
use sc7731_sc8830_bootable_r.Base.Int.{ℤ, pos, negsuc, ltb_ℤ}
use sc7731_sc8830_bootable_r.Base.{
  ℕ, suc, ◌-◌, ◌%◌, ◌^◌, List, [], ◌∷◌, ◌++◌, Bool, true, false, ◌&&◌, leb, if◌then◌else◌, some,
  length, take, drop, codes,
}
use sc7731_sc8830_bootable_r.Edify.Expr.{
  Arg, Function, boolean_string, string_value, evaluate, read_args,
}
use sc7731_sc8830_bootable_r.Edify.State.{
  Value, str, Outcome, returned, null, fault, M, ◌>>=◌, ◌>>◌, return, undefined, fail, fputs,
}
use sc7731_sc8830_bootable_r.Edify.Strings.{strtol, strstr}

-- What a test answers: "t" or the empty string.
unfoldable pub truth : Bool → List ℕ
truth true = codes "t"
truth false = []

unfoldable pub concat_all : List Arg → M (List ℕ)
unfolding evaluate
concat_all [] = return []
concat_all (a ∷ argv) = do s ← evaluate a; rest ← concat_all argv; return (s ++ rest)

unfoldable pub concat_fn : Function
unfolding concat_all
concat_fn name argv = concat_all argv >>= string_value

unfoldable pub ifelse_fn : Function
unfolding evaluate
ifelse_fn name (c ∷ t ∷ []) = do
  cond ← evaluate c
  if boolean_string cond then t.run else string_value cond
ifelse_fn name (c ∷ t ∷ e ∷ []) = do cond ← evaluate c; if boolean_string cond then t.run else e.run
ifelse_fn name argv = fail (codes "ifelse expects 2 or 3 arguments")

-- The message, if its evaluation gives one, replaces the error of that evaluation.
unfoldable pub abort_with : Outcome (List ℕ) → Outcome Value
abort_with (returned msg s) = null (record s { errmsg = some msg })
abort_with (null s) = null (record s { errmsg = some (codes "called abort()") })
abort_with fault = fault

unfoldable pub abort_fn : Function
unfolding evaluate abort_with
abort_fn name [] s = fail (codes "called abort()") s
abort_fn name (a ∷ argv) s = abort_with (evaluate a s)

-- memcpy of script[start .. end), behind the prefix
unfoldable pub assert_failed : Arg → M Value
assert_failed a s =
    if leb a.start a.end && leb a.end (length s.script)
    then fail (codes "assert failed: " ++ take (a.end - a.start) (drop a.start s.script)) s
    else fault

unfoldable pub assert_fn : Function
unfolding evaluate assert_failed
assert_fn name [] = string_value []
assert_fn name (a ∷ argv) = do
  v ← evaluate a
  if boolean_string v then assert_fn name argv else assert_failed a

-- `sleep(v)` takes the int as an unsigned number of seconds.
unfoldable pub seconds : ℤ → ℕ
seconds (pos n) = n % 2 ^ 32
seconds (negsuc n) = (2 ^ 32 - suc n) % 2 ^ 32

unfoldable pub sleep_for : List ℕ → M Value
unfolding seconds
sleep_for v s = returned (str v) (record s { slept = s.slept ++ seconds (strtol v).0 ∷ [] })

-- There is no test of argc here.
unfoldable pub sleep_fn : Function
unfolding evaluate sleep_for
sleep_fn name [] = undefined
sleep_fn name (a ∷ argv) = evaluate a >>= sleep_for

unfoldable pub stdout_fn : Function
unfolding evaluate
stdout_fn name [] = string_value []
stdout_fn name (a ∷ argv) = do v ← evaluate a; fputs v; stdout_fn name argv

-- There is no test of argc here either.
unfoldable pub substring_fn : Function
unfolding evaluate truth
substring_fn name (needle ∷ haystack ∷ argv) = do
  n ← evaluate needle
  h ← evaluate haystack
  string_value (truth (strstr h n))
substring_fn name (needle ∷ []) = do n ← evaluate needle; undefined
substring_fn name [] = undefined

-- `left[0] == '\\0' || *end != '\\0'` is the refusal.
unfoldable pub is_int : List ℕ → Bool
is_int [] = false
is_int (c ∷ s) = elim ((strtol (c ∷ s)).1) [ [] ↦ true | _ ↦ false ]

unfoldable pub less_than_strings : List ℕ → List ℕ → Bool
unfolding is_int
less_than_strings left right = is_int left && is_int right && ltb_ℤ (strtol left).0 (strtol right).0

unfoldable pub less_than_both : List (List ℕ) → M Value
unfolding less_than_strings truth
less_than_both (left ∷ right ∷ []) = string_value (truth (less_than_strings left right))
less_than_both args = undefined

unfoldable pub less_than_int_fn : Function
unfolding less_than_both read_args
less_than_int_fn name (a ∷ b ∷ []) = read_args 2 (a ∷ b ∷ []) >>= less_than_both
less_than_int_fn name argv = fail (codes "less_than_int expects 2 arguments")

unfoldable pub greater_than_int_fn : Function
unfolding less_than_int_fn
greater_than_int_fn name (a ∷ b ∷ []) = less_than_int_fn name (b ∷ a ∷ [])
greater_than_int_fn name argv = fail (codes "greater_than_int expects 2 arguments")

-- RegisterBuiltins, in its order
unfoldable pub builtins : List (List ℕ × Function)
builtins =
    (codes "ifelse", ifelse_fn)
    ∷ (codes "abort", abort_fn)
    ∷ (codes "assert", assert_fn)
    ∷ (codes "concat", concat_fn)
    ∷ (codes "is_substring", substring_fn)
    ∷ (codes "stdout", stdout_fn)
    ∷ (codes "sleep", sleep_fn)
    ∷ (codes "less_than_int", less_than_int_fn)
    ∷ (codes "greater_than_int", greater_than_int_fn)
    ∷ []
