-- ===== src/Minzip/Zip/Order.antt =====
-- The order in which parseZipArchive of minzip/Zip.c keeps the entries.
use mathlib.Core.Path.{subst}
use sc7731_sc8830_bootable_r.Base.Int.{ℤ, pos, negsuc, sub_ℕ, ltb_ℤ}
use sc7731_sc8830_bootable_r.Base.{
  ℕ, zero, suc, ◌-◌, ◌≤◌, List, [], ◌∷◌, Bool, true, false, not, ltb, ◌==◌, if◌then◌else◌, length,
  ◌≡◌, ◌⊎◌, inl, inr, refl, sym, arith, Bool-cases,
}
use sc7731_sc8830_bootable_r.Minzip.Zip.{valid_chars, strncmp, if_zero, name_diff}

-- The lexicographic order of names
abbrev pub name_leb : List ℕ → List ℕ → Bool
name_leb [] b = true
name_leb (x ∷ a) [] = false
name_leb (x ∷ a) (y ∷ b) = if x == y then name_leb a b else ltb x y

pub name_leb_trans :
    (a b c : List ℕ) → name_leb a b ≡ true → name_leb b c ≡ true → name_leb a c ≡ true
name_leb_trans [] b c h k = refl
name_leb_trans (x ∷ a) [] c h k = cc
name_leb_trans (x ∷ a) (y ∷ b) [] h k = cc
name_leb_trans (x ∷ a) (y ∷ b) (z ∷ c) h k = ground (arith, name_leb_trans a b c)

pub name_leb_total : (a b : List ℕ) → name_leb a b ≡ false → name_leb b a ≡ true
name_leb_total [] b h = cc
name_leb_total (x ∷ a) [] h = refl
name_leb_total (x ∷ a) (y ∷ b) h = ground (arith, name_leb_total a b)

-- The sign of a comparison that falls back on the lengths
abbrev Below : ℤ → List ℕ → List ℕ → Type 0
Below d a b = ltb_ℤ (if_zero d (sub_ℕ (length a) (length b))) (pos 0) ≡ not (name_leb b a)

abbrev Above : ℤ → List ℕ → List ℕ → Type 0
Above d a b = ltb_ℤ (pos 0) (if_zero d (sub_ℕ (length a) (length b))) ≡ not (name_leb a b)

abbrev Signed : ℤ → List ℕ → List ℕ → Type 0
Signed d a b = Below d a b × Above d a b

-- A comparison of two heads decides over that of the tails.
same_head :
    (x y : ℕ) (a b : List ℕ) (d : ℤ) → (x == y) ≡ true → Signed d a b → Signed d (x ∷ a) (y ∷ b)
same_head x y a b d same rest =
    let flip : (y == x) ≡ true = ground arith in
    let len : sub_ℕ (suc (length a)) (suc (length b)) ≡ sub_ℕ (length a) (length b) =
      ground arith in
    rw (same, flip, len) rest

other_head : (x y : ℕ) (a b : List ℕ) → (x == y) ≡ false → Signed (sub_ℕ x y) (x ∷ a) (y ∷ b)
unfolding if_zero
other_head x y a b other = elim (Bool-cases (ltb x y)) [
  | inl less ↦
      let flip : (y == x) ≡ false = ground arith in
      let d : (n : ℕ) × (sub_ℕ x y ≡ negsuc n) = (y - x - 1, ground arith) in
      let more : ltb y x ≡ false = ground arith in
      rw (d.1, other, flip, less, more, if_zero) (ground arith, ground arith)
  | inr more ↦
      let flip : (y == x) ≡ false = ground arith in
      let d : (n : ℕ) × (sub_ℕ x y ≡ pos (suc n)) = (x - y - 1, ground arith) in
      let less : ltb y x ≡ true = ground arith in
      rw (d.1, other, flip, less, more, if_zero) (ground arith, ground arith)
]

strncmp-Signed :
    (n : ℕ) (a b : List ℕ)
    → n ≤ length a
    → n ≤ length b
    → (n ≡ length a) ⊎ (n ≡ length b)
    → valid_chars a ≡ true
    → valid_chars b ≡ true
    → Signed (strncmp n a b) a b
unfolding strncmp if_zero valid_chars
strncmp-Signed zero [] [] h k short va vb = (refl, refl)
strncmp-Signed zero [] (y ∷ b) h k short va vb = (ground arith, ground arith)
strncmp-Signed zero (x ∷ a) [] h k short va vb = (ground arith, ground arith)
strncmp-Signed zero (x ∷ a) (y ∷ b) h k short va vb =
    absurd (elim short [ inl e ↦ omega (arith, e) | inr e ↦ omega (arith, e) ])
strncmp-Signed (suc n) [] b h k short va vb = absurd (omega arith)
strncmp-Signed (suc n) (x ∷ a) [] h k short va vb = absurd (omega arith)
strncmp-Signed (suc n) (x ∷ a) (y ∷ b) h k short va vb =
    let tail : (n ≡ length a) ⊎ (n ≡ length b) = ground arith in
    let va' : valid_chars a ≡ true = ground arith in
    let vb' : valid_chars b ≡ true = ground arith in
    let rest = strncmp-Signed n a b (omega arith) (omega arith) tail va' vb' in
    elim (Bool-cases (x == y)) [
      | inl same ↦
          let nonzero : (x == 0) ≡ false = ground arith in
          let e : strncmp (suc n) (x ∷ a) (y ∷ b) ≡ strncmp n a b =
            rw (same, nonzero, strncmp) refl in
          subst (λ d. Signed d (x ∷ a) (y ∷ b)) (sym e)
            (same_head x y a b (strncmp n a b) same rest)
      | inr other ↦
          let e : strncmp (suc n) (x ∷ a) (y ∷ b) ≡ sub_ℕ x y = rw (other, strncmp) refl in
          subst (λ d. Signed d (x ∷ a) (y ∷ b)) (sym e) (other_head x y a b other)
    ]

-- The binary search goes right from the names below the new one and left from those above it.
pub name_diff_lem :
    (a b : List ℕ)
    → valid_chars a ≡ true
    → valid_chars b ≡ true
    → (ltb_ℤ (name_diff a b) (pos 0) ≡ not (name_leb b a))
      × (ltb_ℤ (pos 0) (name_diff a b) ≡ not (name_leb a b))
unfolding name_diff
name_diff_lem a b va vb = elim (Bool-cases (ltb (length a) (length b))) [
  | inl less ↦
      rw (less, name_diff)
        (strncmp-Signed (length a) a b (ground arith) (ground arith) (inl refl) va vb)
  | inr more ↦
      rw (more, name_diff)
        (strncmp-Signed (length b) a b (ground arith) (ground arith) (inr refl) va vb)
]
