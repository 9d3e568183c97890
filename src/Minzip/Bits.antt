-- ===== src/Minzip/Bits.antt =====
-- Bytes and words in memory, in both byte orders, and counted strings: minzip/Bits.h.
-- A pointer is the list of the bytes from it on; `none` is an access beyond them, which C leaves
-- undefined. Where the source joins bytes by `|`, no two of them share a bit, and `|` is `+`.
pub mod Words
pub mod Text
use sc7731_sc8830_bootable_r.Base.Int.{ℤ, pos, negsuc}
use sc7731_sc8830_bootable_r.Base.{
  ℕ, ◌+◌, ◌-◌, ◌*◌, ◌/◌, ◌%◌, ◌^◌, List, [], ◌∷◌, ◌++◌, Option, none, some, Bool, ◌&&◌, ltb, leb,
  if◌then◌else◌, length, take, drop,
}

-- get1 and read1
unfoldable pub get1 : List ℕ → Option ℕ
get1 (a ∷ src) = some a
get1 [] = none

unfoldable pub read1 : List ℕ → Option (ℕ × List ℕ)
read1 (a ∷ src) = some (a, src)
read1 [] = none

unfoldable pub get2_be : List ℕ → Option ℕ
get2_be (a ∷ b ∷ src) = some (a * 2 ^ 8 + b)
get2_be _ = none

unfoldable pub get4_be : List ℕ → Option ℕ
get4_be (a ∷ b ∷ c ∷ d ∷ src) = some (a * 2 ^ 24 + b * 2 ^ 16 + c * 2 ^ 8 + d)
get4_be _ = none

unfoldable pub get8_be : List ℕ → Option ℕ
get8_be (a ∷ b ∷ c ∷ d ∷ e ∷ f ∷ g ∷ h ∷ src) =
    some
      (a * 2 ^ 56 + b * 2 ^ 48 + c * 2 ^ 40 + d * 2 ^ 32 + e * 2 ^ 24 + f * 2 ^ 16 + g * 2 ^ 8 + h)
get8_be _ = none

unfoldable pub get2_le : List ℕ → Option ℕ
get2_le (a ∷ b ∷ src) = some (a + b * 2 ^ 8)
get2_le _ = none

unfoldable pub get4_le : List ℕ → Option ℕ
get4_le (a ∷ b ∷ c ∷ d ∷ src) = some (a + b * 2 ^ 8 + c * 2 ^ 16 + d * 2 ^ 24)
get4_le _ = none

unfoldable pub get8_le : List ℕ → Option ℕ
get8_le (a ∷ b ∷ c ∷ d ∷ e ∷ f ∷ g ∷ h ∷ src) =
    some
      (a + b * 2 ^ 8 + c * 2 ^ 16 + d * 2 ^ 24 + e * 2 ^ 32 + f * 2 ^ 40 + g * 2 ^ 48 + h * 2 ^ 56)
get8_le _ = none

unfoldable pub read2_be : List ℕ → Option (ℕ × List ℕ)
read2_be (a ∷ b ∷ src) = some (a * 2 ^ 8 + b, src)
read2_be _ = none

unfoldable pub read4_be : List ℕ → Option (ℕ × List ℕ)
read4_be (a ∷ b ∷ c ∷ d ∷ src) = some (a * 2 ^ 24 + b * 2 ^ 16 + c * 2 ^ 8 + d, src)
read4_be _ = none

unfoldable pub read8_be : List ℕ → Option (ℕ × List ℕ)
read8_be (a ∷ b ∷ c ∷ d ∷ e ∷ f ∷ g ∷ h ∷ src) = some (
  a * 2 ^ 56 + b * 2 ^ 48 + c * 2 ^ 40 + d * 2 ^ 32 + e * 2 ^ 24 + f * 2 ^ 16 + g * 2 ^ 8 + h,
  src,
)
read8_be _ = none

unfoldable pub read2_le : List ℕ → Option (ℕ × List ℕ)
read2_le (a ∷ b ∷ src) = some (a + b * 2 ^ 8, src)
read2_le _ = none

unfoldable pub read4_le : List ℕ → Option (ℕ × List ℕ)
read4_le (a ∷ b ∷ c ∷ d ∷ src) = some (a + b * 2 ^ 8 + c * 2 ^ 16 + d * 2 ^ 24, src)
read4_le _ = none

unfoldable pub read8_le : List ℕ → Option (ℕ × List ℕ)
read8_le (a ∷ b ∷ c ∷ d ∷ e ∷ f ∷ g ∷ h ∷ src) = some (
  a + b * 2 ^ 8 + c * 2 ^ 16 + d * 2 ^ 24 + e * 2 ^ 32 + f * 2 ^ 40 + g * 2 ^ 48 + h * 2 ^ 56,
  src,
)
read8_le _ = none

-- (unsigned char)(val >> k)
abbrev pub byte_at : ℕ → ℕ → ℕ
byte_at val k = val / 2 ^ k % 2 ^ 8

unfoldable pub set1 : List ℕ → ℕ → Option (List ℕ)
set1 (a ∷ buf) val = some (byte_at val 0 ∷ buf)
set1 [] val = none

unfoldable pub set2_be : List ℕ → ℕ → Option (List ℕ)
set2_be (a ∷ b ∷ buf) val = some (byte_at val 8 ∷ byte_at val 0 ∷ buf)
set2_be _ val = none

unfoldable pub set4_be : List ℕ → ℕ → Option (List ℕ)
set4_be (a ∷ b ∷ c ∷ d ∷ buf) val =
    some (byte_at val 24 ∷ byte_at val 16 ∷ byte_at val 8 ∷ byte_at val 0 ∷ buf)
set4_be _ val = none

unfoldable pub set8_be : List ℕ → ℕ → Option (List ℕ)
set8_be (a ∷ b ∷ c ∷ d ∷ e ∷ f ∷ g ∷ h ∷ buf) val = some (
    byte_at val 56
    ∷ byte_at val 48
    ∷ byte_at val 40
    ∷ byte_at val 32
    ∷ byte_at val 24
    ∷ byte_at val 16
    ∷ byte_at val 8
    ∷ byte_at val 0
    ∷ buf)
set8_be _ val = none

unfoldable pub set2_le : List ℕ → ℕ → Option (List ℕ)
set2_le (a ∷ b ∷ buf) val = some (byte_at val 0 ∷ byte_at val 8 ∷ buf)
set2_le _ val = none

unfoldable pub set4_le : List ℕ → ℕ → Option (List ℕ)
set4_le (a ∷ b ∷ c ∷ d ∷ buf) val =
    some (byte_at val 0 ∷ byte_at val 8 ∷ byte_at val 16 ∷ byte_at val 24 ∷ buf)
set4_le _ val = none

unfoldable pub set8_le : List ℕ → ℕ → Option (List ℕ)
set8_le (a ∷ b ∷ c ∷ d ∷ e ∷ f ∷ g ∷ h ∷ buf) val = some (
    byte_at val 0
    ∷ byte_at val 8
    ∷ byte_at val 16
    ∷ byte_at val 24
    ∷ byte_at val 32
    ∷ byte_at val 40
    ∷ byte_at val 48
    ∷ byte_at val 56
    ∷ buf)
set8_le _ val = none

-- `*ppSrc += length`
unfoldable pub advance : ℕ → List ℕ → Option (List ℕ)
advance n src = if leb n (length src) then some (drop n src) else none

-- memcpy(buf, str, strlen(str))
unfoldable pub copy_into : List ℕ → List ℕ → Option (List ℕ)
copy_into buf str =
    if leb (length str) (length buf) then some (str ++ drop (length str) buf) else none

infixl 5 ◌>>=◌
abbrev pub ◌>>=◌ {ℓ κ} : {A : Type ℓ} {B : Type κ} → Option A → (A → Option B) → Option B
none >>= f = none
some a >>= f = f a

unfoldable pub skip_utf8_string : List ℕ → Option (List ℕ)
skip_utf8_string src = do (n, rest) ← read4_be src; advance n rest

-- An unsigned int as the int that is returned
unfoldable pub to_int : ℕ → ℤ
to_int n = if ltb n (2 ^ 31) then pos n else negsuc (2 ^ 32 - 1 - n)

-- The length as an int, the buffer with the copy and its NUL, and the advanced pointer. A bufLen of 0
-- makes bufLen-1 the largest size_t, and the copy runs out of the buffer.
unfoldable pub read_utf8_string : List ℕ → List ℕ → ℕ → Option (ℤ × List ℕ × List ℕ)
unfolding to_int
read_utf8_string src buf buf_len = do
  (n, rest) ← read4_be src
  rest' ← advance n rest
  let copy_len = if ltb n buf_len then n else (buf_len + 2 ^ 32 - 1) % 2 ^ 32
  buf' ← (if leb copy_len n then copy_into buf (take copy_len rest ++ 0 ∷ []) else none)
  some (to_int n, buf', rest')

-- The new string, its length, and the advanced pointer. length+1 is an unsigned int: where it is smaller
-- than the bytes that are copied with the NUL, these run out of the new storage.
unfoldable pub read_new_utf8_string : List ℕ → Option (List ℕ × ℕ × List ℕ)
read_new_utf8_string src = do
  (n, rest) ← read4_be src
  rest' ← advance n rest
  if leb (n + 1) ((n + 1) % 2 ^ 32) then some (take n rest ++ 0 ∷ [], n, rest') else none

-- strLen is an unsigned int.
unfoldable pub set_utf8_string : List ℕ → List ℕ → Option (List ℕ)
set_utf8_string buf str = do
  let n = length str % 2 ^ 32
  buf' ← set4_be buf n
  rest ← advance 4 buf'
  rest' ← copy_into rest (take n str)
  some (take 4 buf' ++ rest')
