-- ===== src/Minzip/Hash/OrDigits.antt =====
-- The or of two numbers by their binary digits, for roundUpPower2 of minzip/Hash.c.
use Prim.Native.Nat.{bit_or, bit_or-bitwise, digits, max}
use native.Mathlib.Nat.{div-div-eq-div-mul, pow-succ', mul_assoc, mul_comm}
use sc7731_sc8830_bootable_r.Base.{
  ℕ, zero, suc, ◌+◌, ◌-◌, ◌*◌, ◌/◌, ◌%◌, ◌^◌, ◌≤◌, ◌<◌, ◌≡◌, refl, sym, ◌∙◌, ap, arith,
}

abbrev or_digits : ℕ → ℕ → ℕ → ℕ
or_digits n a b = digits (λ b. b) max n a b

-- More digits than the first number has change nothing.
or_digits_enough : (n m a b : ℕ) → a ≤ n → a ≤ m → or_digits n a b ≡ or_digits m a b
or_digits_enough zero zero a b h k = refl
or_digits_enough zero (suc m) zero b h k = refl
or_digits_enough zero m (suc a) b h k = absurd (omega arith)
or_digits_enough (suc n) zero zero b h k = refl
or_digits_enough n zero (suc a) b h k = absurd (omega arith)
or_digits_enough (suc n) (suc m) zero b h k = refl
or_digits_enough (suc n) (suc m) (suc a) b h k =
    ap (λ x. x * 2 + max (suc a % 2) (b % 2))
      (or_digits_enough n m (suc a / 2) (b / 2) (omega arith) (omega arith))

or_digits_zero : (n a : ℕ) → a ≤ n → or_digits n a 0 ≡ a
or_digits_zero zero zero h = refl
or_digits_zero zero (suc a) h = absurd (omega arith)
or_digits_zero (suc n) zero h = refl
or_digits_zero (suc n) (suc a) h =
    let e : or_digits n (suc a / 2) 0 ≡ suc a / 2 = or_digits_zero n (suc a / 2) (omega arith) in
    let e' : or_digits n (suc a / 2) (0 / 2) ≡ suc a / 2 = e in rw e' (omega arith)

pub bit_or-digits : (a b : ℕ) → bit_or a b ≡ or_digits a a b
bit_or-digits a b = λ i. bit_or-bitwise a b i

pub bit_or_zero : (a : ℕ) → bit_or a 0 ≡ a
bit_or_zero a = bit_or-digits a 0 ∙ or_digits_zero a a (omega arith)

-- The or, by its lowest digit and the others
pub bit_or_step : (a b : ℕ) → bit_or a b ≡ bit_or (a / 2) (b / 2) * 2 + max (a % 2) (b % 2)
bit_or_step zero b =
    let e : bit_or zero b ≡ b = bit_or-digits zero b in
    let e' : bit_or (zero / 2) (b / 2) ≡ b / 2 = bit_or-digits zero (b / 2) in
    rw (e, e') (omega arith)
bit_or_step (suc a) b =
    bit_or-digits (suc a) b
    ∙ ap (λ x. x * 2 + max (suc a % 2) (b % 2))
        (or_digits_enough a (suc a / 2) (suc a / 2) (b / 2) (omega arith) (omega arith)
          ∙ sym (bit_or-digits (suc a / 2) (b / 2)))

pub half_bit_or : (a b : ℕ) → bit_or a b / 2 ≡ bit_or (a / 2) (b / 2)
half_bit_or a b = omega (arith, bit_or_step a b)

pub half_pow : (x j : ℕ) → x / 2 ^ suc j ≡ x / 2 / 2 ^ j
half_pow x j = ap (λ p. x / p) (pow-succ' 2 j) ∙ sym (div-div-eq-div-mul x 2 (2 ^ j))

pub bit_or_div : (j a b : ℕ) → bit_or a b / 2 ^ j ≡ bit_or (a / 2 ^ j) (b / 2 ^ j)
bit_or_div zero a b =
    let one : (x : ℕ) → x / 2 ^ 0 ≡ x = λ x. omega arith in rw (one (bit_or a b), one a, one b)
bit_or_div (suc j) a b =
    rw (half_pow (bit_or a b) j, half_pow a j, half_pow b j, half_bit_or a b)
      (bit_or_div j (a / 2) (b / 2))

pub power_positive : (k : ℕ) → 0 < 2 ^ k
power_positive zero = omega arith
power_positive (suc k) = grind (arith, power_positive k, pow-succ' 2 k)

-- Below digits that are all ones, the or is all ones.
pub or_low_ones :
    (d h r : ℕ) → r < 2 ^ d → bit_or (h * 2 ^ d + r) (2 ^ d - 1) ≡ h * 2 ^ d + (2 ^ d - 1)
or_low_ones zero h r below =
    let z : r ≡ 0 = omega (arith, below) in
    let a : h * 2 ^ 0 + r ≡ h = omega (arith, z) in
    let b : h * 2 ^ 0 + (2 ^ 0 - 1) ≡ h = omega arith in
    ap (λ x. bit_or x 0) a ∙ bit_or_zero h ∙ sym b
or_low_ones (suc d) h r below =
    let p = pow-succ' 2 d in
    let pos = power_positive d in
    let q : h * 2 ^ suc d ≡ 2 * (h * 2 ^ d) =
      ap (λ x. h * x) p
      ∙ sym (mul_assoc h 2 (2 ^ d))
      ∙ ap (λ x. x * 2 ^ d) (mul_comm h 2)
      ∙ mul_assoc 2 h (2 ^ d) in
    let a : (h * 2 ^ suc d + r) / 2 ≡ h * 2 ^ d + r / 2 = omega (arith, q) in
    let b : (2 ^ suc d - 1) / 2 ≡ 2 ^ d - 1 = omega (arith, p, pos) in
    let one : (2 ^ suc d - 1) % 2 ≡ 1 = omega (arith, p, pos) in
    let rest = or_low_ones d h (r / 2) (omega (arith, below, p)) in
    bit_or_step (h * 2 ^ suc d + r) (2 ^ suc d - 1)
    ∙ rw (a, b, one, rest) (omega (arith, q, p, pos))

pub pow_add : (a b : ℕ) → 2 ^ (a + b) ≡ 2 ^ a * 2 ^ b
pow_add zero b = let e : 0 + b ≡ b = omega arith in rw e (omega arith)
pow_add (suc a) b =
    let e : suc a + b ≡ suc (a + b) = omega arith in
    ap (λ x. 2 ^ x) e
    ∙ pow-succ' 2 (a + b)
    ∙ ap (λ x. 2 * x) (pow_add a b)
    ∙ sym (mul_assoc 2 (2 ^ a) (2 ^ b))
    ∙ ap (λ x. x * 2 ^ b) (sym (pow-succ' 2 a))

pub div_pow_add : (a b x : ℕ) → x / 2 ^ (a + b) ≡ x / 2 ^ a / 2 ^ b
div_pow_add a b x = ap (λ p. x / p) (pow_add a b) ∙ sym (div-div-eq-div-mul x (2 ^ a) (2 ^ b))

-- Ones without their lowest `c` digits
pub ones_div : (c d : ℕ) → (2 ^ (c + d) - 1) / 2 ^ c ≡ 2 ^ d - 1
ones_div zero d = let e : 0 + d ≡ d = omega arith in rw e (omega arith)
ones_div (suc c) d =
    let e : suc c + d ≡ suc (c + d) = omega arith in
    let half : (2 ^ (suc c + d) - 1) / 2 ≡ 2 ^ (c + d) - 1 =
      rw e (omega (arith, pow-succ' 2 (c + d), power_positive (c + d))) in
    half_pow (2 ^ (suc c + d) - 1) c ∙ ap (λ x. x / 2 ^ c) half ∙ ones_div c d
