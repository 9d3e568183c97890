-- ===== src/Minzip/Bits/Words.antt =====
-- The getters, readers and setters of minzip/Bits.h, of each width and byte order, together.
use sc7731_sc8830_bootable_r.Base.{
  ℕ, ◌%◌, ◌^◌, ◌≤◌, List, ◌∷◌, Option, some, ◌≡◌, refl, ap, arith, length, drop,
}
use sc7731_sc8830_bootable_r.Minzip.Bits.{
  get2_be, get4_be, get8_be, get2_le, get4_le, get8_le, read2_be, read4_be, read8_be, read2_le,
  read4_le, read8_le, set2_be, set4_be, set8_be, set2_le, set4_le, set8_le, ◌>>=◌, get1, read1,
  set1,
}

with_rest :
    {x y : ℕ} (rest : List ℕ)
    → x ≡ y
    → ◌≡◌ {A = Option (ℕ × List ℕ)} (some (x, rest)) (some (y, rest))
with_rest rest e = ap {B = Option (ℕ × List ℕ)} (λ x. some (x, rest)) e

-- What a setter stores in a buffer of eight bytes or more, the reader of the same width and byte order
-- gives back, cut to that width, and it leaves the pointer at the bytes that the setter left alone.
pub read-set :
    (buf : List ℕ) (val : ℕ)
    → 8 ≤ length buf
    → ((set1 buf val >>= read1) ≡ some (val % 2 ^ 8, drop 1 buf))
      × ((set2_be buf val >>= read2_be) ≡ some (val % 2 ^ 16, drop 2 buf))
      × ((set4_be buf val >>= read4_be) ≡ some (val % 2 ^ 32, drop 4 buf))
      × ((set8_be buf val >>= read8_be) ≡ some (val % 2 ^ 64, drop 8 buf))
      × ((set2_le buf val >>= read2_le) ≡ some (val % 2 ^ 16, drop 2 buf))
      × ((set4_le buf val >>= read4_le) ≡ some (val % 2 ^ 32, drop 4 buf))
      × ((set8_le buf val >>= read8_le) ≡ some (val % 2 ^ 64, drop 8 buf))
unfolding set1 set2_be set4_be set8_be set2_le set4_le set8_le read1 read2_be read4_be read8_be
    read2_le read4_le read8_le
read-set (a ∷ b ∷ c ∷ d ∷ e ∷ f ∷ g ∷ h ∷ buf) val room = (
  with_rest _ (omega arith),
  with_rest _ (omega arith),
  with_rest _ (omega arith),
  with_rest _ (omega arith),
  with_rest _ (omega arith),
  with_rest _ (omega arith),
  with_rest _ (omega arith),
)
read-set _ val room = absurd (omega arith)

-- The bytes that a little-endian getter reads, the big-endian getter of that width reads in reverse.
pub get_le-get_be :
    (a b c d e f g h : ℕ) (src : List ℕ)
    → (get2_le (a ∷ b ∷ src) ≡ get2_be (b ∷ a ∷ src))
      × (get4_le (a ∷ b ∷ c ∷ d ∷ src) ≡ get4_be (d ∷ c ∷ b ∷ a ∷ src))
      × (get8_le (a ∷ b ∷ c ∷ d ∷ e ∷ f ∷ g ∷ h ∷ src)
          ≡ get8_be (h ∷ g ∷ f ∷ e ∷ d ∷ c ∷ b ∷ a ∷ src))
unfolding get2_le get2_be get4_le get4_be get8_le get8_be
get_le-get_be a b c d e f g h src =
    (ap some (omega arith), ap some (omega arith), ap some (omega arith))

-- A reader gives the word that the getter of its width and byte order gives, and moves the pointer past
-- it, or both run out of the buffer.
pub read-get :
    (src : List ℕ)
    → (read1 src ≡ (get1 src >>= λ v. some (v, drop 1 src)))
      × (read2_be src ≡ (get2_be src >>= λ v. some (v, drop 2 src)))
      × (read4_be src ≡ (get4_be src >>= λ v. some (v, drop 4 src)))
      × (read8_be src ≡ (get8_be src >>= λ v. some (v, drop 8 src)))
      × (read2_le src ≡ (get2_le src >>= λ v. some (v, drop 2 src)))
      × (read4_le src ≡ (get4_le src >>= λ v. some (v, drop 4 src)))
      × (read8_le src ≡ (get8_le src >>= λ v. some (v, drop 8 src)))
unfolding get1 read1 get2_be get4_be get8_be get2_le get4_le get8_le read2_be read4_be read8_be
    read2_le read4_le read8_le
read-get (a ∷ b ∷ c ∷ d ∷ e ∷ f ∷ g ∷ h ∷ src) = (refl, refl, refl, refl, refl, refl, refl)
read-get _ = (refl, refl, refl, refl, refl, refl, refl)
