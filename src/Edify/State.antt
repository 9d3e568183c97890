-- ===== src/Edify/State.antt =====
-- Values, the interpreter's state and what a call of a `Function` can come to
-- (edify/expr.h, and Evaluate and ErrorAbort of edify/expr.c).
use sc7731_sc8830_bootable_r.Base.{ℕ, List, ◌++◌, Option, some, take}

-- `str` is VAL_STRING, whose data is the bytes before the NUL; `blob` is VAL_BLOB.
-- The field `size` is the length of the list.
pub data Value : Type 0 where
  str : List ℕ → Value
  blob : List ℕ → Value

-- `cookie` is the number that stands for the pointer. `stdout` and `slept` record what the
-- functions write with fputs and hand to sleep, which the C code does not keep.
pub record State : Type 0 where
  pub cookie : ℕ
  pub script : List ℕ
  pub errmsg : Option (List ℕ)
  pub stdout : List ℕ
  pub slept : List ℕ

-- A call returns a pointer to a result, or NULL, or reads argv beyond argc (or the script beyond
-- its end), which is undefined behaviour.
pub data Outcome {ℓ} (A : Type ℓ) : Type ℓ where
  returned : A → State → Outcome A
  null : State → Outcome A
  fault : Outcome A

abbrev pub M {ℓ} : Type ℓ → Type ℓ
M A = State → Outcome A

abbrev pub and_then {ℓ κ} : {A : Type ℓ} {B : Type κ} → Outcome A → (A → M B) → Outcome B
and_then (returned a s) f = f a s
and_then (null s) f = null s
and_then fault f = fault

-- `if (x == NULL) return NULL;`, which stands behind every evaluation in the source.
infixl 5 ◌>>=◌ ◌>>◌
abbrev pub ◌>>=◌ {ℓ κ} : {A : Type ℓ} {B : Type κ} → M A → (A → M B) → M B
◌>>=◌ m f s = and_then (m s) f

abbrev pub ◌>>◌ {ℓ κ} : {A : Type ℓ} {B : Type κ} → M A → M B → M B
m >> k = m >>= λ _. k

abbrev pub return {ℓ} : {A : Type ℓ} → A → M A
return a s = returned a s

abbrev pub undefined {ℓ} : {A : Type ℓ} → M A
undefined s = fault

-- `free(state->errmsg); state->errmsg = strdup(msg); return NULL;`
abbrev pub fail {ℓ} : {A : Type ℓ} → List ℕ → M A
fail msg s = null (record s { errmsg = some msg })

-- vsnprintf into a buffer of 4096 bytes keeps 4095 of them.
unfoldable pub error_abort {ℓ} : {A : Type ℓ} → List ℕ → M A
error_abort msg = fail (take 4095 msg)

-- fputs(v, stdout)
abbrev pub fputs : List ℕ → M (Unit {0})
fputs v s = returned tt (record s { stdout = s.stdout ++ v })
