-- ===== src/Applypatch/Bspatch/Bytes.antt =====
-- "Add old data to diff string" in ApplyBSDiffPatchMem of applypatch/bspatch.c, byte by byte.
use sc7731_sc8830_bootable_r.Base.Int.{ℤ, pos, negsuc, ◌+ℤ◌}
use sc7731_sc8830_bootable_r.Base.{
  ℕ, zero, suc, ◌+◌, ◌%◌, ◌^◌, ◌≤◌, List, [], ◌∷◌, none, some, ◌≡◌, refl, ap, arith, get_elem?,
  length, Option-cases, inl, inr,
}
use sc7731_sc8830_bootable_r.Applypatch.Bspatch.{old_at, add_byte, add_old}

+ℤ_zero : (p : ℤ) → p +ℤ pos 0 ≡ p
unfolding ◌+ℤ◌
+ℤ_zero p = ground arith

+ℤ_step : (p : ℤ) (i : ℕ) → (p +ℤ pos 1) +ℤ pos i ≡ p +ℤ pos (suc i)
unfolding ◌+ℤ◌
+ℤ_step p i = ground arith

get_elem_none : (xs : List ℕ) (i : ℕ) → get_elem? xs i ≡ none → length xs ≤ i
get_elem_none [] i h = omega arith
get_elem_none (x ∷ xs) zero h = absurd (cc (h))
get_elem_none (x ∷ xs) (suc i) h = omega (arith, get_elem_none xs i h)

-- What becomes of the byte `d` of the diff string for the place `p` of the old file: the sum with the byte
-- there, modulo 256, or `d` itself outside the old file.
pub data Adds (old : List ℕ) (p : ℤ) (d b : ℕ) : Type 0 where
  within : (q o : ℕ) → p ≡ pos q → get_elem? old q ≡ some o → b ≡ (d + o) % 2 ^ 8 → Adds old p d b
  before : (n : ℕ) → p ≡ negsuc n → b ≡ d → Adds old p d b
  behind : (q : ℕ) → p ≡ pos q → length old ≤ q → b ≡ d → Adds old p d b

add_byte-Adds : (old : List ℕ) (p : ℤ) (d : ℕ) → Adds old p d (add_byte (old_at old p) d)
unfolding add_byte old_at
add_byte-Adds old (negsuc n) d = before n refl refl
add_byte-Adds old (pos q) d = elim (Option-cases (get_elem? old q)) [
  | inl e ↦
      let outside : length old ≤ q = get_elem_none old q e in
      rw (e, add_byte) (behind q refl outside refl)
  | inr z ↦ rw (z.1, add_byte) (within q z.0 refl z.1 refl)
]

add_old-add_byte :
    (old diff : List ℕ) (oldpos : ℤ) (i d : ℕ)
    → get_elem? diff i ≡ some d
    → get_elem? (add_old old oldpos diff) i ≡ some (add_byte (old_at old (oldpos +ℤ pos i)) d)
unfolding add_old
add_old-add_byte old [] oldpos i d h = cc
add_old-add_byte old (x ∷ diff) oldpos zero d h =
    let same : x ≡ d = cc (h) in rw (same, +ℤ_zero oldpos) refl
add_old-add_byte old (x ∷ diff) oldpos (suc i) d h =
    let step : (oldpos +ℤ pos 1) +ℤ pos i ≡ oldpos +ℤ pos (suc i) = +ℤ_step oldpos i in
    let next = add_old-add_byte old diff (oldpos +ℤ pos 1) i d h in rw step at next

add_old-length : (old diff : List ℕ) (oldpos : ℤ) → length (add_old old oldpos diff) ≡ length diff
unfolding add_old
add_old-length old [] oldpos = refl
add_old-length old (x ∷ diff) oldpos = ap suc (add_old-length old diff (oldpos +ℤ pos 1))

-- The diff string keeps its length, and each of its bytes becomes its sum with the byte of the old file at
-- the same distance from oldpos, modulo 256, or stays as it is where that lies outside the old file.
pub add_old-Adds :
    (old diff : List ℕ) (oldpos : ℤ) (i d : ℕ)
    → get_elem? diff i ≡ some d
    → (length (add_old old oldpos diff) ≡ length diff)
      × (b : ℕ) × (get_elem? (add_old old oldpos diff) i ≡ some b)
      × Adds old (oldpos +ℤ pos i) d b
add_old-Adds old diff oldpos i d h = (
  add_old-length old diff oldpos,
  add_byte (old_at old (oldpos +ℤ pos i)) d,
  add_old-add_byte old diff oldpos i d h,
  add_byte-Adds old (oldpos +ℤ pos i) d,
)
