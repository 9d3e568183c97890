-- ===== src/Edify/Substring.antt =====
-- SubstringFn of edify/expr.c, and strstr, as the split of a text.
use sc7731_sc8830_bootable_r.Base.{
  ℕ, List, [], ◌∷◌, ◌++◌, true, ◌≡◌, refl, ap, arith, codes, ◌↔◌, Bool-cases, inl, inr,
}
use sc7731_sc8830_bootable_r.Edify.Builtins.{substring_fn, truth}
use sc7731_sc8830_bootable_r.Edify.Expr.{Arg, evaluate}
use sc7731_sc8830_bootable_r.Edify.State.{str, State, returned}
use sc7731_sc8830_bootable_r.Edify.Strings.{starts_with, strstr}

-- The needle stands in the text.
pub record Occurs (hay needle : List ℕ) : Type 0 where
  pub before : List ℕ
  pub after : List ℕ
  pub split : hay ≡ before ++ (needle ++ after)

starts_with-true :
    (needle hay : List ℕ) → starts_with needle hay ≡ true → (q : List ℕ) × (hay ≡ needle ++ q)
unfolding starts_with
starts_with-true [] hay h = (hay, refl)
starts_with-true (n ∷ needle) [] h = cc
starts_with-true (n ∷ needle) (x ∷ hay) h =
    let head : n ≡ x = ground arith in
    let (q, e) = starts_with-true needle hay (ground arith) in (q, cc (head, e))

starts_with-append : (needle q : List ℕ) → starts_with needle (needle ++ q) ≡ true
unfolding starts_with
starts_with-append [] q = refl
starts_with-append (n ∷ needle) q = ground (arith, starts_with-append needle q)

strstr-Occurs : (hay needle : List ℕ) → strstr hay needle ≡ true → Occurs hay needle
unfolding strstr
strstr-Occurs [] needle h =
    let (q, e) = starts_with-true needle [] h in record { before = []; after = q; split = e }
strstr-Occurs (x ∷ hay) needle h = elim (Bool-cases (starts_with needle (x ∷ hay))) [
  | inl here ↦
      let (q, e) = starts_with-true needle (x ∷ hay) here in
      record { before = []; after = q; split = e }
  | inr later ↦
      let o = strstr-Occurs hay needle (ground arith) in
      record { before = x ∷ o.before; after = o.after; split = ap (λ l. x ∷ l) o.split }
]

strstr-append : (before needle after : List ℕ) → strstr (before ++ (needle ++ after)) needle ≡ true
unfolding strstr
strstr-append [] [] [] = refl
strstr-append [] [] (x ∷ after) = refl
strstr-append [] (n ∷ needle) after = ground (arith, starts_with-append (n ∷ needle) after)
strstr-append (x ∷ before) needle after = ground (arith, strstr-append before needle after)

-- Where the arguments of is_substring give a needle and then a text, the result is "t" if and only if
-- the needle stands in the text, and the state is the one after the evaluation of the second.
pub substring_fn-Occurs :
    (name : List ℕ) (a b : Arg) (needle hay : List ℕ) (s s₁ s₂ : State)
    → evaluate a s ≡ returned needle s₁
    → evaluate b s₁ ≡ returned hay s₂
    → (substring_fn name (a ∷ b ∷ []) s ≡ returned (str (codes "t")) s₂) ↔ Occurs hay needle
unfolding substring_fn
substring_fn-Occurs name a b needle hay s s₁ s₂ first second = (
  (λ h. elim (Bool-cases (strstr hay needle)) [
    | inl e ↦ strstr-Occurs hay needle e
    | inr e ↦
        let clash : returned (str []) s₂ ≡ returned (str (codes "t")) s₂ =
          rw (first, second, e, truth) at h in
        cc
  ]),
  (λ o.
      let e : strstr hay needle ≡ true = rw o.split (strstr-append o.before needle o.after) in
      rw (first, second, e, truth) refl),
)
