-- ===== src/Edify/Table/Order.antt =====
-- The order of strcmp on names.
use Prim.Native.Nat.{Ordering}
use sc7731_sc8830_bootable_r.Base.{ℕ, List, [], ◌∷◌, ◌≡◌, refl, arith, ◌⊎◌, inl, inr}
use sc7731_sc8830_bootable_r.Edify.Table.{strcmp}

pub strcmp_refl : (a : List ℕ) → strcmp a a ≡ Ordering.eq
unfolding strcmp
strcmp_refl [] = refl
strcmp_refl (x ∷ a) = ground (arith, strcmp_refl a)

pub strcmp_eq : (a b : List ℕ) → strcmp a b ≡ Ordering.eq → a ≡ b
unfolding strcmp
strcmp_eq [] [] h = refl
strcmp_eq [] (y ∷ b) h = cc
strcmp_eq (x ∷ a) [] h = cc
strcmp_eq (x ∷ a) (y ∷ b) h =
    let head : x ≡ y = ground arith in
    let tail : strcmp a b ≡ Ordering.eq = ground arith in cc (head, strcmp_eq a b tail)

pub strcmp_flip : (a b : List ℕ) → strcmp a b ≡ Ordering.gt → strcmp b a ≡ Ordering.lt
unfolding strcmp
strcmp_flip [] [] h = cc
strcmp_flip [] (y ∷ b) h = cc
strcmp_flip (x ∷ a) [] h = refl
strcmp_flip (x ∷ a) (y ∷ b) h = ground (arith, strcmp_flip a b)

pub strcmp_flip_lt : (a b : List ℕ) → strcmp a b ≡ Ordering.lt → strcmp b a ≡ Ordering.gt
unfolding strcmp
strcmp_flip_lt [] [] h = cc
strcmp_flip_lt [] (y ∷ b) h = refl
strcmp_flip_lt (x ∷ a) [] h = cc
strcmp_flip_lt (x ∷ a) (y ∷ b) h = ground (arith, strcmp_flip_lt a b)

pub strcmp_trans :
    (a b c : List ℕ)
    → strcmp a b ≡ Ordering.lt
    → strcmp b c ≡ Ordering.lt
    → strcmp a c ≡ Ordering.lt
unfolding strcmp
strcmp_trans a [] [] h k = cc
strcmp_trans [] [] c h k = cc
strcmp_trans (x ∷ a) [] c h k = cc
strcmp_trans a (y ∷ b) [] h k = cc
strcmp_trans [] (y ∷ b) (z ∷ c) h k = refl
strcmp_trans (x ∷ a) (y ∷ b) (z ∷ c) h k = ground (arith, strcmp_trans a b c)

pub Ordering-cases : (o : Ordering) → (o ≡ Ordering.lt) ⊎ ((o ≡ Ordering.eq) ⊎ (o ≡ Ordering.gt))
Ordering-cases Ordering.lt = inl refl
Ordering-cases Ordering.eq = inr (inl refl)
Ordering-cases Ordering.gt = inr (inr refl)
