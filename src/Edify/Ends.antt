-- ===== src/Edify/Ends.antt =====
-- How an evaluation of edify may end, and the rules by which that is shown of the functions of
-- edify/expr.c.
use mathlib.Core.Option.{Option, none, some}
use sc7731_sc8830_bootable_r.Base.{
  ℕ, ◌≤◌, List, [], ◌∷◌, Bool, true, false, ◌≡◌, refl, length, ◌∙◌, if◌then◌else◌,
}
use sc7731_sc8830_bootable_r.Edify.Expr.{Arg, as_string, evaluate}
use sc7731_sc8830_bootable_r.Edify.State.{
  Value, str, blob, State, Outcome, returned, null, fault, M, and_then, ◌>>=◌,
}

abbrev pub is_set {ℓ} : {A : Type ℓ} → Option A → Bool
is_set none = false
is_set (some a) = true

-- What no core function changes: the script and the cookie; and a message, once set, is replaced
-- at most.
abbrev pub Keeps : State → State → Type 0
Keeps s s' =
    (s'.script ≡ s.script)
    × (s'.cookie ≡ s.cookie)
    × (is_set s.errmsg ≡ true → is_set s'.errmsg ≡ true)

abbrev pub Ends {ℓ} : {A : Type ℓ} → State → Outcome A → Type 0
Ends s (returned a s') = Keeps s s'
Ends s (null s') = Keeps s s' × (is_set s'.errmsg ≡ true)
Ends s fault = ⊥

-- The evaluations that end so in every state whose script has `n` bytes.
abbrev pub IsGood {ℓ} : {A : Type ℓ} → ℕ → M A → Type 0
IsGood n m = (s : State) → length s.script ≡ n → Ends s (m s)

pub Keeps-refl : (s : State) → Keeps s s
Keeps-refl s = (refl, refl, λ e. e)

Keeps-trans : (s t u : State) → Keeps s t → Keeps t u → Keeps s u
Keeps-trans s t u h k = (k.0 ∙ h.0, k.1 ∙ h.1, λ e. k.2 (h.2 e))

Ends-extend : {B : Type 0} (s t : State) (o : Outcome B) → Keeps s t → Ends t o → Ends s o
Ends-extend s t (returned b u) h e = Keeps-trans s t u h e
Ends-extend s t (null u) h e = (Keeps-trans s t u h e.0, e.1)
Ends-extend s t fault h e = e

and_then-Ends :
    {A B : Type 0} (s : State) (o : Outcome A) (k : A → M B)
    → Ends s o
    → ((a : A) (t : State) → Keeps s t → Ends t (k a t))
    → Ends s (and_then o k)
and_then-Ends s (returned a t) k h next = Ends-extend s t (k a t) h (next a t h)
and_then-Ends s (null t) k h next = h
and_then-Ends s fault k h next = h

module _ (n : ℕ) where
  pub >>=-IsGood :
      {A B : Type 0} (m : M A) (k : A → M B)
      → IsGood n m
      → ((a : A) → IsGood n (k a))
      → IsGood n (m >>= k)
  >>=-IsGood m k h next s fits =
      and_then-Ends s (m s) k (h s fits) (λ a t e. next a t (rw e.0 fits))

  pub if-IsGood :
      {A : Type 0} (b : Bool) (x y : M A) → IsGood n x → IsGood n y → IsGood n (if b then x else y)
  if-IsGood true x y h k = h
  if-IsGood false x y h k = k

  as_string-IsGood : (v : Value) → IsGood n (as_string v)
  unfolding as_string
  as_string-IsGood (str v) s fits = Keeps-refl s
  as_string-IsGood (blob b) s fits = ((refl, refl, λ e. refl), refl)

  -- An argument evaluates well, and its place lies in the script.
  abbrev pub IsGoodArg : Arg → Type 0
  IsGoodArg a = IsGood n a.run × (a.start ≤ a.end) × (a.end ≤ n)

  abbrev pub AreGoodArgs : List Arg → Type 0
  AreGoodArgs [] = Unit
  AreGoodArgs (a ∷ argv) = IsGoodArg a × AreGoodArgs argv

  pub evaluate-IsGood : (a : Arg) → IsGoodArg a → IsGood n (evaluate a)
  unfolding evaluate
  evaluate-IsGood a h = >>=-IsGood a.run as_string h.0 as_string-IsGood

  -- `x ← evaluate a; k x`
  pub evaluate_then :
      {B : Type 0} (a : Arg) (k : List ℕ → M B)
      → IsGoodArg a
      → ((v : List ℕ) → IsGood n (k v))
      → IsGood n (evaluate a >>= k)
  evaluate_then a k h next = >>=-IsGood (evaluate a) k (evaluate-IsGood a h) next
