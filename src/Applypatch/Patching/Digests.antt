-- ===== src/Applypatch/Patching/Digests.antt =====
-- ParseSha1 of applypatch/applypatch.c on the digits of a digest.
use sc7731_sc8830_bootable_r.Applypatch.Patching.{digit, parse_digits, parse_sha1}
use sc7731_sc8830_bootable_r.Base.{
  ℕ, suc, ◌+◌, ◌*◌, ◌/◌, ◌%◌, ◌^◌, ◌<◌, List, [], ◌∷◌, some, ltb, length, if◌then◌else◌, ◌≡◌, refl,
  ap, arith, ◌∙◌,
}
use mathlib.Core.Path.{subst}

-- The lower-case digit of a number below 16
abbrev pub hex_digit : ℕ → ℕ
hex_digit n = if ltb n 10 then 48 + n else 87 + n

-- Two digits for each byte
abbrev pub hex : List ℕ → List ℕ
hex [] = []
hex (b ∷ bs) = hex_digit (b / 16) ∷ hex_digit (b % 16) ∷ hex bs

abbrev pub Bytes : List ℕ → Type 0
Bytes [] = Unit
Bytes (b ∷ bs) = (b < 256) × Bytes bs

digit-hex_digit : (n : ℕ) → n < 16 → digit (hex_digit n) ≡ some n
unfolding digit
digit-hex_digit n h = ground arith

parse_digits-step :
    (n a b high low : ℕ) (str : List ℕ) (r : List ℕ × List ℕ)
    → digit a ≡ some high
    → digit b ≡ some low
    → parse_digits n str ≡ some r
    → parse_digits (suc n) (a ∷ b ∷ str) ≡ some ((high * 2 ^ 4 + low) ∷ r.0, r.1)
unfolding parse_digits
parse_digits-step n a b high low str r e f g = rw (e, f, g, parse_digits) refl

parse_digits-hex : (bs : List ℕ) → Bytes bs → parse_digits (length bs) (hex bs) ≡ some (bs, [])
unfolding parse_digits
parse_digits-hex [] h = refl
parse_digits-hex (b ∷ bs) h =
    let whole : b / 16 * 2 ^ 4 + b % 16 ≡ b = omega arith in
    parse_digits-step (length bs) (hex_digit (b / 16)) (hex_digit (b % 16)) (b / 16) (b % 16)
      (hex bs) (bs, []) (digit-hex_digit (b / 16) (omega (arith, h.0)))
      (digit-hex_digit (b % 16) (omega arith)) (parse_digits-hex bs h.1)
    ∙ ap (λ x. some (x ∷ bs, [])) whole

-- The digits of a digest of 20 bytes, written in lower case, parse to that digest.
pub parse_sha1-hex :
    (sha1 : List ℕ) → Bytes sha1 → length sha1 ≡ 20 → parse_sha1 (hex sha1) ≡ some sha1
unfolding parse_sha1
parse_sha1-hex sha1 h e =
    let parsed : parse_digits 20 (hex sha1) ≡ some (sha1, []) =
      subst (λ n. parse_digits n (hex sha1) ≡ some (sha1, [])) e (parse_digits-hex sha1 h) in
    rw (parsed, parse_sha1) refl
