-- ===== src/Edify/Strings.antt =====
-- The C library's functions on strings that edify/expr.c calls: strstr and strtol in base ten.
-- A long has 32 bits, as on the boards that this recovery is built for.
use sc7731_sc8830_bootable_r.Base.Int.{ℤ, pos, negsuc}
use sc7731_sc8830_bootable_r.Base.{
  ℕ, ◌+◌, ◌-◌, ◌*◌, ◌^◌, List, [], ◌∷◌, Bool, true, false, ◌&&◌, ◌||◌, ltb, leb, ◌==◌,
  if◌then◌else◌,
}

unfoldable pub starts_with : List ℕ → List ℕ → Bool
starts_with [] hay = true
starts_with (n ∷ needle) [] = false
starts_with (n ∷ needle) (h ∷ hay) = (n == h) && starts_with needle hay

-- strstr(haystack, needle) != NULL
unfoldable pub strstr : List ℕ → List ℕ → Bool
unfolding starts_with
strstr [] needle = starts_with needle []
strstr (h ∷ hay) needle = starts_with needle (h ∷ hay) || strstr hay needle

unfoldable pub is_space : ℕ → Bool
is_space c = (c == 32) || (leb 9 c && leb c 13)

unfoldable pub is_digit : ℕ → Bool
is_digit c = leb b'0' c && leb c b'9'

unfoldable pub skip_space : List ℕ → List ℕ
unfolding is_space
skip_space [] = []
skip_space (c ∷ s) = if is_space c then skip_space s else c ∷ s

-- The number that the digits give, started from `acc`, and what follows them.
unfoldable pub read_digits : ℕ → List ℕ → ℕ × List ℕ
unfolding is_digit
read_digits acc [] = (acc, [])
read_digits acc (c ∷ s) = if is_digit c then read_digits (acc * 10 + (c - b'0')) s else (acc, c ∷ s)

-- Clamped to LONG_MIN and LONG_MAX.
unfoldable pub clamp_long : Bool → ℕ → ℤ
clamp_long true n =
    if n == 0 then pos 0 else if ltb n (2 ^ 31) then negsuc (n - 1) else negsuc (2 ^ 31 - 1)
clamp_long false n = if ltb n (2 ^ 31) then pos n else pos (2 ^ 31 - 1)

-- The digits behind the sign; with no digit there, nothing is converted and `end` is the start.
unfoldable pub convert : Bool → List ℕ → List ℕ → ℤ × List ℕ
unfolding is_digit read_digits clamp_long
convert negative whole [] = (pos 0, whole)
convert negative whole (c ∷ s) =
    if is_digit c
    then (let (n, end) = read_digits 0 (c ∷ s) in (clamp_long negative n, end))
    else (pos 0, whole)

unfoldable pub signed : List ℕ → List ℕ → ℤ × List ℕ
unfolding convert
signed whole [] = (pos 0, whole)
signed whole (c ∷ s) =
    if c == b'-'
    then convert true whole s
    else if c == b'+'
    then convert false whole s
    else convert false whole (c ∷ s)

-- strtol(s, &end, 10): the number, and the text at `end`.
unfoldable pub strtol : List ℕ → ℤ × List ℕ
unfolding signed skip_space
strtol s = signed s (skip_space s)
