-- ===== src/Minzip/Bits/Text.antt =====
-- Counted strings of minzip/Bits.h: setUtf8String, readNewUtf8String, readUtf8String and
-- skipUtf8String together.
use sc7731_sc8830_bootable_r.Base.{
  ℕ, ◌+◌, ◌-◌, ◌%◌, ◌^◌, ◌≤◌, ◌<◌, List, [], ◌∷◌, ◌++◌, Option, some, ◌≡◌, refl, ap, arith, length,
  drop, take, true, leb, ltb, min, length-take, take-append, drop-append, length-append,
  if◌then◌else◌,
}
use sc7731_sc8830_bootable_r.Base.Int.{pos, negsuc}
use sc7731_sc8830_bootable_r.Base.{none}
use sc7731_sc8830_bootable_r.Minzip.Bits.{
  read4_be, set4_be, ◌>>=◌, byte_at, advance, copy_into, set_utf8_string, skip_utf8_string,
  read_utf8_string, read_new_utf8_string, to_int,
}

take_all : (xs : List ℕ) → take (length xs) xs ≡ xs
take_all [] = refl
take_all (x ∷ xs) = rw (take_all xs)

advance-append : (xs rest : List ℕ) → advance (length xs) (xs ++ rest) ≡ some rest
unfolding advance
advance-append xs rest =
    let fits : leb (length xs) (length (xs ++ rest)) ≡ true =
      ground (arith, length-append xs rest) in
    rw (fits, drop-append xs rest)

-- The four bytes of a length, most significant first.
abbrev pub stored : ℕ → List ℕ → List ℕ
stored n rest = byte_at n 24 ∷ byte_at n 16 ∷ byte_at n 8 ∷ byte_at n 0 ∷ rest

read4_be-stored : (n : ℕ) (rest : List ℕ) → n < 2 ^ 32 → read4_be (stored n rest) ≡ some (n, rest)
unfolding read4_be
read4_be-stored n rest h = ap {B = Option (ℕ × List ℕ)} (λ m. some (m, rest)) (omega arith)

set4_be-stored :
    (a b c d : ℕ) (buf : List ℕ) (n : ℕ) → set4_be (a ∷ b ∷ c ∷ d ∷ buf) n ≡ some (stored n buf)
unfolding set4_be
set4_be-stored a b c d buf n = refl

advance_four : (n : ℕ) (buf : List ℕ) → advance 4 (stored n buf) ≡ some buf
unfolding advance
advance_four n buf = ground arith

advance_lem : (n : ℕ) (src : List ℕ) → n ≤ length src → advance n src ≡ some (drop n src)
unfolding advance
advance_lem n src h = ground arith

copy_into_lem :
    (buf str : List ℕ)
    → length str ≤ length buf
    → copy_into buf str ≡ some (str ++ drop (length str) buf)
unfolding copy_into
copy_into_lem buf str room = ground arith

-- The store is the length and the bytes of the string, over the front of the buffer.
set_utf8_string_lem :
    (a b c d : ℕ) (buf str : List ℕ)
    → length str < 2 ^ 32
    → length str ≤ length buf
    → set_utf8_string (a ∷ b ∷ c ∷ d ∷ buf) str
      ≡ some (stored (length str) (str ++ drop (length str) buf))
unfolding set_utf8_string
set_utf8_string_lem a b c d buf str small room =
    let whole : length str % 2 ^ 32 ≡ length str = omega arith in
    rw (
      set4_be-stored a b c d buf (length str % 2 ^ 32),
      whole,
      advance_four (length str) buf,
      take_all str,
      copy_into_lem buf str room,
    )

-- A string of fewer than 2 ^ 32 bytes is stored in a buffer with room for it and its length. Skipping it ends
-- where the store ended. It reads back, with its length and a NUL, and to the same end, if it has fewer than
-- 2 ^ 32 - 1 bytes; with 2 ^ 32 - 1 bytes, length+1 wraps around to 0, and the copy runs out of the storage.
pub read-set_utf8_string :
    (buf str : List ℕ)
    → length str < 2 ^ 32
    → length str + 4 ≤ length buf
    → ((set_utf8_string buf str >>= read_new_utf8_string) ≡ (
        if ltb (length str) (2 ^ 32 - 1)
        then some (str ++ 0 ∷ [], length str, drop (length str) (drop 4 buf))
        else none))
      × ((set_utf8_string buf str >>= skip_utf8_string) ≡ some (drop (length str) (drop 4 buf)))
unfolding read_new_utf8_string skip_utf8_string
read-set_utf8_string (a ∷ b ∷ c ∷ d ∷ buf) str small room =
    let tail = drop (length str) buf in
    let set = set_utf8_string_lem a b c d buf str small (omega arith) in
    let head = read4_be-stored (length str) (str ++ tail) small in
    let fits : leb (length str + 1) ((length str + 1) % 2 ^ 32) ≡ ltb (length str) (2 ^ 32 - 1) =
      ground arith in
    (
      rw (set, head, advance-append str tail, take-append str tail, fits),
      rw (set, head, advance-append str tail),
    )
read-set_utf8_string _ str small room = absurd (omega arith)

-- A whole stored string of fewer than 2 ^ 32 bytes, read into a buffer of at least `buf_len` bytes, not
-- 0: what fits before the NUL is copied, the bytes behind the NUL are left alone, and the pointer moves
-- past the whole string. The answer is the whole length below 2 ^ 31, and from there on the length less
-- 2 ^ 32, a negative number.
pub read_utf8_string_lem :
    (n : ℕ) (rest buf : List ℕ) (buf_len : ℕ)
    → n < 2 ^ 32
    → n ≤ length rest
    → 0 < buf_len
    → buf_len < 2 ^ 32
    → buf_len ≤ length buf
    → read_utf8_string (stored n rest) buf buf_len
      ≡ some (
        (if ltb n (2 ^ 31) then pos n else negsuc (2 ^ 32 - 1 - n)),
        (take (min n (buf_len - 1)) rest ++ 0 ∷ []) ++ drop (min n (buf_len - 1) + 1) buf,
        drop n rest,
      )
unfolding read_utf8_string to_int
read_utf8_string_lem n rest buf buf_len small whole roomy wide room =
    let k = min n (buf_len - 1) in
    let chosen : (if ltb n buf_len then n else (buf_len + 2 ^ 32 - 1) % 2 ^ 32) ≡ k =
      ground arith in
    let bounded : leb k n ≡ true = ground arith in
    let copied : length (take k rest ++ 0 ∷ []) ≡ k + 1 =
      omega (arith, length-append (take k rest) (0 ∷ []), length-take k rest) in
    rw (
      read4_be-stored n rest small,
      advance_lem n rest whole,
      chosen,
      bounded,
      copy_into_lem buf (take k rest ++ 0 ∷ []) (omega arith),
      copied,
    )
