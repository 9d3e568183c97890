-- ===== src/Edify/Runs.antt =====
-- What assert, concat and `;` of edify/expr.c answer, by the evaluations of their arguments in order.
use mathlib.Core.List.{flatten}
use sc7731_sc8830_bootable_r.Edify.Builtins.{concat_all, concat_fn, assert_fn, assert_failed}
use sc7731_sc8830_bootable_r.Edify.Expr.{Arg, evaluate}
use sc7731_sc8830_bootable_r.Edify.Laws.{operand}
use sc7731_sc8830_bootable_r.Edify.Operators.{sequence_fn}
use sc7731_sc8830_bootable_r.Edify.State.{
  Value, str, State, Outcome, returned, null, fault, M, and_then,
}
use sc7731_sc8830_bootable_r.Base.{
  ℕ, List, [], ◌∷◌, ◌++◌, ◌≡◌, ◌≢◌, ◌↔◌, ◌⊎◌, inl, inr, refl, sym, ap, arith, ◌∙◌,
}

-- The arguments evaluate, from left to right, to the strings `vs`, and leave the state `s'`.
abbrev pub Evaluates : List Arg → State → List (List ℕ) → State → Type 0
Evaluates [] s vs s' = (vs ≡ []) × (s ≡ s')
Evaluates (a ∷ argv) s vs s' =
    (v : List ℕ) × (ws : List (List ℕ)) × (s₁ : State) × (evaluate a s ≡ returned v s₁)
    × (vs ≡ v ∷ ws)
    × Evaluates argv s₁ ws s'

-- No string is empty.
abbrev pub AllSet : List (List ℕ) → Type 0
AllSet [] = Unit
AllSet (v ∷ vs) = (v ≢ []) × AllSet vs

-- An evaluation answers, or what follows it does not.
Outcome-cases :
    {A : Type 0} (o : Outcome A)
    → ((a : A) × (s : State) × (o ≡ returned a s))
      ⊎ ((B : Type 0) (f : A → M B) (b : B) (s : State) → ¬ (and_then o f ≡ returned b s))
Outcome-cases (returned a s) = inl (a, s, refl)
Outcome-cases (null s) = inr (λ B f b s' e. cc)
Outcome-cases fault = inr (λ B f b s' e. cc)

concat_all-Evaluates :
    (argv : List Arg) (s : State) (u : List ℕ) (s' : State)
    → concat_all argv s ≡ returned u s'
    → (vs : List (List ℕ)) × Evaluates argv s vs s' × (u ≡ flatten vs)
unfolding concat_all flatten
concat_all-Evaluates [] s u s' e = ([], (refl, cc (e)), cc (e))
concat_all-Evaluates (a ∷ argv) s u s' e = elim (Outcome-cases (evaluate a s)) [
  | inr stopped ↦ absurd (stopped (List ℕ) _ u s' e)
  | inl (v, s₁, first) ↦
      let e₁ = rw (first, concat_all) at e in
      elim (Outcome-cases (concat_all argv s₁)) [
        | inr stopped ↦ absurd (stopped (List ℕ) _ u s' e₁)
        | inl (w, s₂, more) ↦
            let e₂ = rw more at e₁ in
            let end : s₂ ≡ s' = cc (e₂) in
            let whole : v ++ w ≡ u = cc (e₂) in
            let (ws, rest, joined) =
              concat_all-Evaluates argv s₁ w s' (more ∙ ap (λ t. returned w t) end) in
            (v ∷ ws, (v, ws, s₁, first, refl, rest), sym whole ∙ ap (λ t. v ++ t) joined)
      ]
]

Evaluates-concat_all :
    (argv : List Arg) (s : State) (vs : List (List ℕ)) (s' : State)
    → Evaluates argv s vs s'
    → concat_all argv s ≡ returned (flatten vs) s'
unfolding concat_all flatten
Evaluates-concat_all [] s vs s' h = rw (h.0, h.1) refl
Evaluates-concat_all (a ∷ argv) s vs s' (v, ws, s₁, first, split, rest) =
    rw (first, Evaluates-concat_all argv s₁ ws s' rest, split, concat_all) refl

-- A concat answers a value if and only if its arguments evaluate, from left to right, to strings, and the
-- value is these strings one behind the other; the state is the one after the last of them.
pub concat_fn-Evaluates :
    (name : List ℕ) (argv : List Arg) (s : State) (v : Value) (s' : State)
    → (concat_fn name argv s ≡ returned v s')
      ↔ ((vs : List (List ℕ)) × Evaluates argv s vs s' × (v ≡ str (flatten vs)))
unfolding concat_fn
concat_fn-Evaluates name argv s v s' = (
  (λ h. elim (Outcome-cases (concat_all argv s)) [
    | inr stopped ↦ absurd (stopped Value _ v s' h)
    | inl (u, s₁, got) ↦
        let h₁ = rw (got, concat_fn) at h in
        let end : s₁ ≡ s' = cc (h₁) in
        let value : str u ≡ v = cc (h₁) in
        let (vs, run, joined) =
          concat_all-Evaluates argv s u s' (got ∙ ap (λ t. returned u t) end) in
        (vs, run, sym value ∙ ap str joined)
  ]),
  (λ (vs, run, value). rw (Evaluates-concat_all argv s vs s' run, value, concat_fn) refl),
)

assert_failed_never :
    (a : Arg) (s : State) (v : Value) (s' : State) → ¬ (assert_failed a s ≡ returned v s')
unfolding assert_failed
assert_failed_never a s v s' e = ground (arith, e)

assert_fn-passes :
    (name : List ℕ) (argv : List Arg) (s : State) (v : Value) (s' : State)
    → assert_fn name argv s ≡ returned v s'
    → (vs : List (List ℕ)) × Evaluates argv s vs s' × AllSet vs × (v ≡ str [])
unfolding assert_fn
assert_fn-passes name [] s v s' e = ([], (refl, cc (e)), tt, cc (e))
assert_fn-passes name (a ∷ argv) s v s' e = elim (Outcome-cases (evaluate a s)) [
  | inr stopped ↦ absurd (stopped Value _ v s' e)
  | inl ([], s₁, first) ↦
      let e₁ = rw (first, assert_fn) at e in absurd (assert_failed_never a s₁ v s' e₁)
  | inl (c ∷ w, s₁, first) ↦
      let e₁ = rw (first, assert_fn) at e in
      let (ws, rest, set, value) = assert_fn-passes name argv s₁ v s' e₁ in
      ((c ∷ w) ∷ ws, (c ∷ w, ws, s₁, first, refl, rest), ((λ z. cc), set), value)
]

Evaluates-assert_fn :
    (name : List ℕ) (argv : List Arg) (s : State) (vs : List (List ℕ)) (s' : State)
    → Evaluates argv s vs s'
    → AllSet vs
    → assert_fn name argv s ≡ returned (str []) s'
unfolding assert_fn
Evaluates-assert_fn name [] s vs s' h set = rw h.1 refl
Evaluates-assert_fn name (a ∷ argv) s vs s' ([], ws, s₁, first, split, rest) set =
    let set' = rw split at set in absurd (set'.0 refl)
Evaluates-assert_fn name (a ∷ argv) s vs s' (c ∷ w, ws, s₁, first, split, rest) set =
    let set' = rw split at set in
    rw (first, assert_fn) (Evaluates-assert_fn name argv s₁ ws s' rest set'.1)

-- An assert answers a value if and only if its arguments evaluate, from left to right, to strings that are
-- not empty; the value is then the empty string, and the state the one after the last of them.
pub assert_fn-Evaluates :
    (name : List ℕ) (argv : List Arg) (s : State) (v : Value) (s' : State)
    → (assert_fn name argv s ≡ returned v s')
      ↔ ((vs : List (List ℕ)) × Evaluates argv s vs s' × AllSet vs × (v ≡ str []))
assert_fn-Evaluates name argv s v s' = (
  (λ h. assert_fn-passes name argv s v s' h),
  (λ (vs, run, set, value).
      Evaluates-assert_fn name argv s vs s' run set ∙ ap (λ t. returned t s') (sym value)),
)

-- `a; b; ...`, as the parser builds it: `;` is left-associative.
abbrev pub sequence : Arg → List Arg → Arg
sequence a [] = a
sequence a (b ∷ bs) = sequence (operand sequence_fn (a ∷ b ∷ [])) bs

-- `a` and then each of `bs` answers, and the last of them with `v`.
abbrev pub Runs : Arg → List Arg → State → Value → State → Type 0
Runs a [] s v s' = a.run s ≡ returned v s'
Runs a (b ∷ bs) s v s' = (u : Value) × (s₁ : State) × (a.run s ≡ returned u s₁) × Runs b bs s₁ v s'

operand-Runs :
    (a b : Arg) (s : State) (v : Value) (s' : State)
    → ((operand sequence_fn (a ∷ b ∷ [])).run s ≡ returned v s') ↔ Runs a (b ∷ []) s v s'
unfolding sequence_fn
operand-Runs a b s v s' = (
  (λ h. elim (Outcome-cases (a.run s)) [
    | inr stopped ↦ absurd (stopped Value _ v s' h)
    | inl (u, s₁, first) ↦ (u, s₁, first, rw (first, sequence_fn) at h)
  ]),
  (λ (u, s₁, first, second). rw (first, sequence_fn) second),
)

-- The expressions of a script that are joined by `;` answer a value if and only if each of them answers
-- when they are evaluated in order, every one in the state that the one before leaves, and the value and
-- the state are those of the last.
pub sequence-Runs :
    (a : Arg) (bs : List Arg) (s : State) (v : Value) (s' : State)
    → ((sequence a bs).run s ≡ returned v s') ↔ Runs a bs s v s'
sequence-Runs a [] s v s' = ((λ h. h), (λ h. h))
sequence-Runs a (b ∷ []) s v s' = operand-Runs a b s v s'
sequence-Runs a (b ∷ c ∷ cs) s v s' =
    let both = sequence-Runs (operand sequence_fn (a ∷ b ∷ [])) (c ∷ cs) s v s' in
    (
      (λ h.
          let (u, s₂, pair, rest) = both.0 h in
          let (w, s₁, first, second) = (operand-Runs a b s u s₂).0 pair in
          (w, s₁, first, (u, s₂, second, rest))),
      (λ (w, s₁, first, (u, s₂, second, rest)).
          both.1 (u, s₂, (operand-Runs a b s u s₂).1 (w, s₁, first, second), rest)),
    )
