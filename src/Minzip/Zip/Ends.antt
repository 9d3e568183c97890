-- ===== src/Minzip/Zip/Ends.antt =====
-- Reads and checks of minzip/Zip.c that end in the bounds of the mapped file.
use sc7731_sc8830_bootable_r.Base.{
  ℕ, zero, suc, ◌+◌, ◌*◌, ◌^◌, ◌≤◌, ◌<◌, List, [], ◌∷◌, Option, some, Bool, true, false, ◌≡◌, refl,
  sym, ◌∙◌, arith, length, get_elem?, drop, length-drop,
}
use sc7731_sc8830_bootable_r.Minzip.Bits.{get2_le, get4_le}
use sc7731_sc8830_bootable_r.Minzip.Zip.{
  MemMapping, Parsed, ok, bail, ◌>>=◌, ◌>>◌, check, present, word2, word4,
}

-- The parse ends, with a value in `P` or with `goto bail`.
pub data Ends {A : Type 0} (P : A → Type 0) : Parsed A → Type 0 where
  value : (a : A) → P a → Ends P (ok a)
  stopped : Ends P bail

pub Ends-bind :
    {A B : Type 0} {Q : B → Type 0} (P : A → Type 0) {r : Parsed A} {f : A → Parsed B}
    → Ends P r
    → ((a : A) → P a → Ends Q (f a))
    → Ends Q (r >>= f)
unfolding ◌>>=◌
Ends-bind P (value a h) k = k a h
Ends-bind P stopped k = stopped

pub Ends-check :
    {B : Type 0} {Q : B → Type 0} {b : Bool} {r : Parsed B}
    → (b ≡ true → Ends Q r)
    → Ends Q (check b >> r)
unfolding check ◌>>◌
Ends-check {b = true} k = k refl
Ends-check {b = false} k = stopped

-- Data that is there
pub Ends-present :
    {A B : Type 0} {Q : B → Type 0} {o : Option A} (f : A → Parsed B)
    → (a : A) (e : o ≡ some a) → Ends Q (f a)
    → Ends Q (present o >>= f)
unfolding ◌>>=◌
Ends-present f a e h = rw e h

-- All bytes are below 256.
abbrev pub IsBytes : List ℕ → Type 0
IsBytes bytes = (i b : ℕ) → get_elem? bytes i ≡ some b → b < 256

get-drop : (p i : ℕ) (xs : List ℕ) → get_elem? (drop p xs) i ≡ get_elem? xs (p + i)
get-drop zero i xs = let e : 0 + i ≡ i = omega arith in rw e
get-drop (suc p) i [] = refl
get-drop (suc p) i (x ∷ xs) =
    let e : suc p + i ≡ suc (p + i) = omega arith in rw e (get-drop p i xs)

get2_le-some :
    (src : List ℕ) → 2 ≤ length src → IsBytes src → (v : ℕ) × (get2_le src ≡ some v) × (v < 2 ^ 16)
unfolding get2_le
get2_le-some [] h bytes = absurd (omega arith)
get2_le-some (a ∷ []) h bytes = absurd (omega arith)
get2_le-some (a ∷ b ∷ src) h bytes =
    (a + b * 2 ^ 8, refl, omega (arith, bytes 0 a refl, bytes 1 b refl))

get4_le-some : (src : List ℕ) → 4 ≤ length src → (v : ℕ) × (get4_le src ≡ some v)
unfolding get4_le
get4_le-some [] h = absurd (omega arith)
get4_le-some (a ∷ []) h = absurd (omega arith)
get4_le-some (a ∷ b ∷ []) h = absurd (omega arith)
get4_le-some (a ∷ b ∷ c ∷ []) h = absurd (omega arith)
get4_le-some (a ∷ b ∷ c ∷ d ∷ src) h = (_, refl)

module _ (map : MemMapping) where
  pub Ends-word4 :
      {B : Type 0} {Q : B → Type 0} (p : ℕ) (f : ℕ → Parsed B)
      → p + 4 ≤ length map.bytes
      → ((v : ℕ) → get4_le (drop p map.bytes) ≡ some v → Ends Q (f v))
      → Ends Q (word4 map p >>= f)
  unfolding word4 ◌>>=◌
  Ends-word4 p f inside k =
      let (v, e) = get4_le-some (drop p map.bytes) (omega (arith, length-drop p map.bytes)) in
      rw e (k v e)

  pub Ends-word2 :
      {B : Type 0} {Q : B → Type 0} (p : ℕ) (f : ℕ → Parsed B)
      → IsBytes map.bytes
      → p + 2 ≤ length map.bytes
      → ((v : ℕ) → get2_le (drop p map.bytes) ≡ some v → v < 2 ^ 16 → Ends Q (f v))
      → Ends Q (word2 map p >>= f)
  unfolding word2 ◌>>=◌
  Ends-word2 p f bytes inside k =
      let (v, e, below) =
        get2_le-some (drop p map.bytes) (omega (arith, length-drop p map.bytes))
          (λ i b at. bytes (p + i) b (sym (get-drop p i map.bytes) ∙ at)) in
      rw e (k v e below)

-- A part that ends with a value
pub Ends-ran :
    {A B : Type 0} {Q : B → Type 0} {r : Parsed A} (f : A → Parsed B)
    → (a : A) (e : r ≡ ok a) → Ends Q (f a)
    → Ends Q (r >>= f)
unfolding ◌>>=◌
Ends-ran f a e h = rw e h

pub Ends-weaken :
    {A : Type 0} {P Q : A → Type 0} {r : Parsed A} → ((a : A) → P a → Q a) → Ends P r → Ends Q r
Ends-weaken f (value a h) = value a (f a h)
Ends-weaken f stopped = stopped
