-- ===== src/Edify/Table/Lookup.antt =====
-- What FindFunction of edify/expr.c finds after FinishRegistration.
use Prim.Native.Nat.{Ordering}
use mathlib.Core.Path.{subst}
use sc7731_sc8830_bootable_r.Base.{
  true, ℕ, zero, suc, ◌+◌, ◌/◌, ◌≤◌, ◌<◌, List, [], ◌∷◌, ◌++◌, Option, none, some, ◌≡◌, ◌≢◌, refl,
  sym, ap, ◌∙◌, arith, ltb, length, get_elem?, ◌⊎◌, inl, inr, Option-cases, append-nil,
  append_assoc,
}
use sc7731_sc8830_bootable_r.Edify.Table.Order.{
  strcmp_refl, strcmp_eq, strcmp_flip, strcmp_flip_lt, Ordering-cases,
}
use sc7731_sc8830_bootable_r.Edify.Table.Sorted.{
  All, In, Distinct, Sorted, All-In, All-qsort, qsort-Sorted, In-qsort, In-get, get-In, Sorted-get,
}
use sc7731_sc8830_bootable_r.Edify.Table.{
  NamedFunction, FunctionTable, strcmp, qsort, bsearch, register_function, register_all,
  finish_registration, find_function, no_functions,
}

le_cases : (a b : ℕ) → (a < b) ⊎ (b ≤ a)
le_cases a b = ground arith

get_inside :
    (es : List NamedFunction) (i : ℕ)
    → i < length es
    → (e : NamedFunction) × (get_elem? es i ≡ some e)
get_inside [] i h = absurd (omega arith)
get_inside (x ∷ es) zero h = (x, refl)
get_inside (x ∷ es) (suc i) h = get_inside es i (omega arith)

same_entry :
    (es : List NamedFunction) (i j : ℕ) (a b : NamedFunction)
    → get_elem? es i ≡ some a
    → get_elem? es j ≡ some b
    → i ≡ j
    → a ≡ b
same_entry es i j a b h k e = cc

order_clash :
    (es : List NamedFunction) (i j : ℕ) (a b : NamedFunction)
    → Sorted es
    → get_elem? es i ≡ some a
    → get_elem? es j ≡ some b
    → strcmp a.name b.name ≡ Ordering.lt
    → ¬ (j ≤ i)
order_clash es i j a b s h k o le = elim (le_cases j i) [
  | inl lt ↦
      let back = strcmp_flip_lt b.name a.name (Sorted-get es j i b a s lt k h) in
      let clash : ◌≡◌ {A = Ordering} Ordering.lt Ordering.gt = sym o ∙ back in cc
  | inr ge ↦
      let same = same_entry es i j a b h k (omega arith) in
      let equal : strcmp a.name b.name ≡ Ordering.eq =
        subst (λ w. strcmp a.name w.name ≡ Ordering.eq) same (strcmp_refl a.name) in
      let clash : ◌≡◌ {A = Ordering} Ordering.lt Ordering.eq = sym o ∙ equal in cc
]

order_clash_gt :
    (es : List NamedFunction) (i j : ℕ) (a b : NamedFunction)
    → Sorted es
    → get_elem? es i ≡ some a
    → get_elem? es j ≡ some b
    → strcmp a.name b.name ≡ Ordering.gt
    → ¬ (i ≤ j)
order_clash_gt es i j a b s h k o le = order_clash es j i b a s k h (strcmp_flip a.name b.name o) le

same_name :
    (es : List NamedFunction) (i j : ℕ) (a b : NamedFunction)
    → Sorted es
    → get_elem? es i ≡ some a
    → get_elem? es j ≡ some b
    → a.name ≡ b.name
    → i ≡ j
same_name es i j a b s h k e =
    let no_less : strcmp a.name b.name ≢ Ordering.lt = λ o.
      (let z : ◌≡◌ {A = Ordering} Ordering.eq Ordering.lt =
          sym (strcmp_refl a.name) ∙ ap (strcmp a.name) e ∙ o in
        cc) in
    let no_less' : strcmp b.name a.name ≢ Ordering.lt = λ o.
      (let z : ◌≡◌ {A = Ordering} Ordering.eq Ordering.lt =
          sym (strcmp_refl b.name) ∙ ap (strcmp b.name) (sym e) ∙ o in
        cc) in
    elim (le_cases i j) [
      | inl lt ↦ absurd (no_less (Sorted-get es i j a b s lt h k))
      | inr ge ↦ elim (le_cases j i) [
        | inl lt ↦ absurd (no_less' (Sorted-get es j i b a s lt k h))
        | inr le ↦ omega arith
      ]
    ]

-- In a sorted table bsearch finds the entry at `i` by its name if `i` lies between the bounds, which
-- are closer than there are rounds.
bsearch-found :
    (fuel : ℕ) (es : List NamedFunction) (lo hi i : ℕ) (z : NamedFunction)
    → Sorted es
    → get_elem? es i ≡ some z
    → lo ≤ i
    → i < hi
    → hi ≤ length es
    → hi < lo + fuel
    → bsearch fuel z.name es lo hi ≡ some z
unfolding bsearch
bsearch-found zero es lo hi i z s at above below inside enough = absurd (omega arith)
bsearch-found (suc fuel) es lo hi i z s at above below inside enough =
    let mid = (lo + hi) / 2 in
    let open_still : ltb lo hi ≡ true = ground arith in
    let (e, there) = get_inside es mid (omega arith) in
    elim (Ordering-cases (strcmp z.name e.name)) [
      | inl o ↦
          let left : i < mid = elim (le_cases i mid) [
            | inl below_mid ↦ below_mid
            | inr above_mid ↦ absurd (order_clash es i mid z e s at there o above_mid)
          ] in
          rw (open_still, there, o, bsearch)
            (bsearch-found fuel es lo mid i z s at above left (omega arith) (omega arith))
      | inr (inl o) ↦
          let same : i ≡ mid = same_name es i mid z e s at there (strcmp_eq z.name e.name o) in
          let eq : ◌≡◌ {A = Option NamedFunction} (some e) (some z) =
            sym there ∙ ap (get_elem? es) (sym same) ∙ at in
          rw (open_still, there, o, bsearch) eq
      | inr (inr o) ↦
          let right : mid < i = elim (le_cases mid i) [
            | inl after ↦ after
            | inr before ↦ absurd (order_clash_gt es i mid z e s at there o before)
          ] in
          rw (open_still, there, o, bsearch)
            (bsearch-found fuel es (mid + 1) hi i z s at (omega arith) below inside (omega arith))
    ]

bsearch-missing :
    (fuel : ℕ) (key : List ℕ) (es : List NamedFunction) (lo hi : ℕ)
    → All (λ x. x.name ≢ key) es
    → bsearch fuel key es lo hi ≡ none
unfolding bsearch
bsearch-missing zero key es lo hi h = refl
bsearch-missing (suc fuel) key es lo hi h =
    let mid = (lo + hi) / 2 in
    let left = bsearch-missing fuel key es lo mid h in
    let right = bsearch-missing fuel key es (mid + 1) hi h in
    elim (Option-cases (get_elem? es mid)) [
      | inl out ↦ ground arith
      | inr (e, there) ↦
          let other : e.name ≢ key = All-In _ e es h (get-In es mid e there) in
          let apart : strcmp key e.name ≢ Ordering.eq = λ o. other (sym (strcmp_eq key e.name o)) in
          ground arith
    ]

register_all_lem :
    (xs : List NamedFunction) (t : FunctionTable) → (register_all t xs).fn_table ≡ t.fn_table ++ xs
unfolding register_all register_function
register_all_lem [] t = sym (append-nil t.fn_table)
register_all_lem (x ∷ xs) t =
    register_all_lem xs (register_function t x) ∙ append_assoc t.fn_table (x ∷ []) xs

-- After the registration of functions with different names, in any order, and FinishRegistration,
-- FindFunction finds each of them by its name, and NULL for every other name.
pub find_function_registered :
    (xs : List NamedFunction)
    → Distinct xs
    → ((x : NamedFunction)
        → In x xs
        → find_function (finish_registration (register_all no_functions xs)) x.name ≡ some x.fn)
      × ((name : List ℕ)
          → All (λ x. x.name ≢ name) xs
          → find_function (finish_registration (register_all no_functions xs)) name ≡ none)
unfolding find_function finish_registration
find_function_registered xs h =
    let table : (register_all no_functions xs).fn_table ≡ xs = register_all_lem xs no_functions in
    let es = qsort xs in
    (
      (λ x k.
          let (i, inside, at) = In-get x es (In-qsort x xs k) in
          let run =
            bsearch-found (length es + 1) es 0 (length es) i x (qsort-Sorted xs h) at (omega arith)
              inside (omega arith) (omega arith) in
          rw (table, run, find_function) refl),
      (λ name k.
          let run = bsearch-missing (length es + 1) name es 0 (length es) (All-qsort _ xs k) in
          rw (table, run, find_function) refl),
    )
