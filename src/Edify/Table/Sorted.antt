-- ===== src/Edify/Table/Sorted.antt =====
-- qsort and bsearch on the function table of edify/expr.c, for names that are all different.
use Prim.Native.Nat.{Ordering}
use mathlib.Core.Path.{subst}
use sc7731_sc8830_bootable_r.Base.{
  ℕ, zero, suc, ◌<◌, List, [], ◌∷◌, some, ◌≡◌, ◌≢◌, refl, sym, ap, arith, length, get_elem?, ◌⊎◌,
  inl, inr,
}
use sc7731_sc8830_bootable_r.Edify.Table.Order.{
  strcmp_eq, strcmp_flip, strcmp_trans, Ordering-cases,
}
use sc7731_sc8830_bootable_r.Edify.Table.{NamedFunction, strcmp, fn_entry_compare, insert, qsort}

abbrev pub All : (NamedFunction → Type 0) → List NamedFunction → Type 0
All P [] = Unit
All P (x ∷ xs) = P x × All P xs

abbrev pub In : NamedFunction → List NamedFunction → Type 0
In x [] = ⊥
In x (y ∷ ys) = (x ≡ y) ⊎ In x ys

-- No two functions have the same name.
abbrev pub Distinct : List NamedFunction → Type 0
Distinct [] = Unit
Distinct (x ∷ xs) = All (λ y. x.name ≢ y.name) xs × Distinct xs

abbrev pub Sorted : List NamedFunction → Type 0
Sorted [] = Unit
Sorted (x ∷ xs) = All (λ y. strcmp x.name y.name ≡ Ordering.lt) xs × Sorted xs

All-map :
    {P Q : NamedFunction → Type 0}
    → ((x : NamedFunction) → P x → Q x)
    → (xs : List NamedFunction) → All P xs
    → All Q xs
All-map f [] h = tt
All-map f (x ∷ xs) h = (f x h.0, All-map f xs h.1)

pub All-In :
    (P : NamedFunction → Type 0) (x : NamedFunction) (xs : List NamedFunction)
    → All P xs
    → In x xs
    → P x
All-In P x [] h k = absurd k
All-In P x (y ∷ ys) h (inl e) = subst P (sym e) h.0
All-In P x (y ∷ ys) h (inr k) = All-In P x ys h.1 k

All-insert :
    (P : NamedFunction → Type 0) (x : NamedFunction) (ys : List NamedFunction)
    → P x
    → All P ys
    → All P (insert x ys)
unfolding insert
All-insert P x [] px h = (px, tt)
All-insert P x (y ∷ ys) px h = elim (Ordering-cases (fn_entry_compare x y)) [
  | inl e ↦ rw (e, insert) (px, h)
  | inr (inl e) ↦ rw (e, insert) (px, h)
  | inr (inr e) ↦ rw (e, insert) (h.0, All-insert P x ys px h.1)
]

pub All-qsort : (P : NamedFunction → Type 0) (xs : List NamedFunction) → All P xs → All P (qsort xs)
unfolding qsort
All-qsort P [] h = tt
All-qsort P (x ∷ xs) h = All-insert P x (qsort xs) h.0 (All-qsort P xs h.1)

insert-Sorted :
    (x : NamedFunction) (ys : List NamedFunction)
    → All (λ y. x.name ≢ y.name) ys
    → Sorted ys
    → Sorted (insert x ys)
unfolding insert fn_entry_compare
insert-Sorted x [] new h = (tt, tt)
insert-Sorted x (y ∷ ys) new h = elim (Ordering-cases (strcmp x.name y.name)) [
  | inl e ↦
      rw (e, insert, fn_entry_compare)
        ((e, All-map (λ z k. strcmp_trans x.name y.name z.name e k) ys h.0), h)
  | inr (inl e) ↦ absurd (new.0 (strcmp_eq x.name y.name e))
  | inr (inr e) ↦
      rw (e, insert, fn_entry_compare)
        (All-insert _ x ys (strcmp_flip x.name y.name e) h.0, insert-Sorted x ys new.1 h.1)
]

pub qsort-Sorted : (xs : List NamedFunction) → Distinct xs → Sorted (qsort xs)
unfolding qsort
qsort-Sorted [] h = tt
qsort-Sorted (x ∷ xs) h = insert-Sorted x (qsort xs) (All-qsort _ xs h.0) (qsort-Sorted xs h.1)

In-insert_self : (x : NamedFunction) (ys : List NamedFunction) → In x (insert x ys)
unfolding insert
In-insert_self x [] = inl refl
In-insert_self x (y ∷ ys) = elim (Ordering-cases (fn_entry_compare x y)) [
  | inl e ↦ rw (e, insert) (inl refl)
  | inr (inl e) ↦ rw (e, insert) (inl refl)
  | inr (inr e) ↦ rw (e, insert) (inr (In-insert_self x ys))
]

In-insert : (x z : NamedFunction) (ys : List NamedFunction) → In z ys → In z (insert x ys)
unfolding insert
In-insert x z [] k = absurd k
In-insert x z (y ∷ ys) k = elim (Ordering-cases (fn_entry_compare x y)) [
  | inl e ↦ rw (e, insert) (inr k)
  | inr (inl e) ↦ rw (e, insert) (inr k)
  | inr (inr e) ↦ rw (e, insert) (elim k [ inl o ↦ inl o | inr o ↦ inr (In-insert x z ys o) ])
]

pub In-qsort : (z : NamedFunction) (xs : List NamedFunction) → In z xs → In z (qsort xs)
unfolding qsort
In-qsort z [] k = k
In-qsort z (x ∷ xs) (inl e) =
    subst (λ w. In w (insert x (qsort xs))) (sym e) (In-insert_self x (qsort xs))
In-qsort z (x ∷ xs) (inr k) = In-insert x z (qsort xs) (In-qsort z xs k)

pub In-get :
    (z : NamedFunction) (xs : List NamedFunction)
    → In z xs
    → (i : ℕ) × (i < length xs) × (get_elem? xs i ≡ some z)
In-get z [] k = absurd k
In-get z (x ∷ xs) (inl e) = (0, omega arith, ap some (sym e))
In-get z (x ∷ xs) (inr k) = let (i, inside, at) = In-get z xs k in (suc i, omega arith, at)

pub get-In :
    (xs : List NamedFunction) (i : ℕ) (z : NamedFunction) → get_elem? xs i ≡ some z → In z xs
get-In [] i z h = cc
get-In (x ∷ xs) zero z h = inl (sym (cc (h)))
get-In (x ∷ xs) (suc i) z h = inr (get-In xs i z h)

pub Sorted-get :
    (xs : List NamedFunction) (i j : ℕ) (a b : NamedFunction)
    → Sorted xs
    → i < j
    → get_elem? xs i ≡ some a
    → get_elem? xs j ≡ some b
    → strcmp a.name b.name ≡ Ordering.lt
Sorted-get [] i j a b s lt h k = cc
Sorted-get (x ∷ xs) i zero a b s lt h k = absurd (omega arith)
Sorted-get (x ∷ xs) zero (suc j) a b s lt h k =
    let e : x ≡ a = cc (h) in
    subst (λ w. strcmp w.name b.name ≡ Ordering.lt) e (All-In _ b xs s.0 (get-In xs j b k))
Sorted-get (x ∷ xs) (suc i) (suc j) a b s lt h k = Sorted-get xs i j a b s.1 (omega arith) h k
