-- ===== src/Minzip/Hash/Rounding.antt =====
-- roundUpPower2 of minzip/Hash.c against the least power of two that is not below its argument.
use Prim.Native.Nat.{bit_or}
use mathlib.Core.Path.{subst}
use native.Mathlib.Nat.{
  pow-succ', mul_comm, div-add-mod, mod-lt, zero-div, pow-le-pow_right, lt-mul-div-succ, mul-div-le,
  mod-eq_of_lt,
}
use sc7731_sc8830_bootable_r.Base.{
  ℕ, zero, suc, ◌+◌, ◌-◌, ◌*◌, ◌/◌, ◌%◌, ◌^◌, ◌≤◌, ◌<◌, ◌≡◌, refl, sym, ◌∙◌, ap, arith, min, leb,
  ltb, Bool-cases, length-replicate, inl, inr,
}
use sc7731_sc8830_bootable_r.Minzip.Hash.Create.{smear, round_up_power2, mz_hash_table_create}
use sc7731_sc8830_bootable_r.Minzip.Hash.Slots.{count-replicate, get-replicate}
use sc7731_sc8830_bootable_r.Minzip.Hash.Valid.{Has, IsTable}
use sc7731_sc8830_bootable_r.Minzip.Hash.{Entry, vacant, used}
use sc7731_sc8830_bootable_r.Minzip.Hash.OrDigits.{
  bit_or_zero, half_pow, bit_or_div, power_positive, or_low_ones, pow_add, div_pow_add, ones_div,
}

-- The highest `k` of `n` digits are ones.
abbrev Top : ℕ → ℕ → ℕ → Type 0
Top k n y = y / 2 ^ (n - k) ≡ 2 ^ (min k n) - 1

-- Where `d` more of at most `s` ones are to come
smear_more :
    (s d j y : ℕ)
    → d ≤ s
    → y / 2 ^ (j + d) ≡ 2 ^ s - 1
    → bit_or y (y / 2 ^ s) / 2 ^ j ≡ 2 ^ (s + d) - 1
smear_more s d j y le top =
    let high : y / 2 ^ j / 2 ^ d ≡ 2 ^ s - 1 = sym (div_pow_add j d y) ∙ top in
    let swap : j + s ≡ s + j = omega arith in
    let split : (s - d) + d ≡ s = omega (arith, le) in
    let split' : d + (s - d) ≡ s = omega (arith, le) in
    let low : y / 2 ^ s / 2 ^ j ≡ 2 ^ d - 1 =
      sym (div_pow_add s j y)
      ∙ ap (λ x. y / 2 ^ x) (sym swap)
      ∙ div_pow_add j s y
      ∙ ap (λ x. y / 2 ^ j / 2 ^ x) (sym split')
      ∙ div_pow_add d (s - d) (y / 2 ^ j)
      ∙ ap (λ x. x / 2 ^ (s - d)) (high ∙ ap (λ x. 2 ^ x - 1) (sym split))
      ∙ ones_div (s - d) d in
    let whole : y / 2 ^ j ≡ (2 ^ s - 1) * 2 ^ d + y / 2 ^ j % 2 ^ d =
      sym (div-add-mod (y / 2 ^ j) (2 ^ d))
      ∙ ap (λ x. x + y / 2 ^ j % 2 ^ d) (ap (λ x. 2 ^ d * x) high ∙ mul_comm (2 ^ d) (2 ^ s - 1)) in
    let sum : (2 ^ s - 1) * 2 ^ d + (2 ^ d - 1) ≡ 2 ^ (s + d) - 1 =
      let one : 2 ^ s ≡ (2 ^ s - 1) + 1 = omega (arith, power_positive s) in
      let all : 2 ^ (s + d) ≡ ((2 ^ s - 1) + 1) * 2 ^ d = pow_add s d ∙ ap (λ x. x * 2 ^ d) one in
      omega (arith, all, power_positive d) in
    bit_or_div j y (y / 2 ^ s)
    ∙ ap (λ x. bit_or (y / 2 ^ j) x) low
    ∙ ap (λ x. bit_or x (2 ^ d - 1)) whole
    ∙ or_low_ones d (2 ^ s - 1) (y / 2 ^ j % 2 ^ d) (mod-lt (y / 2 ^ j) (power_positive d))
    ∙ sum

smear-Top : (k n y : ℕ) → Top k n y → Top (k + k) n (smear k y)
unfolding smear
smear-Top k n y top = elim (Bool-cases (ltb k n)) [
  | inl less ↦
      let d = min k (n - k) in
      let j = n - k - d in
      let a : n - k ≡ j + d = ground arith in
      let b : min k n ≡ k = ground arith in
      let c : n - (k + k) ≡ j = ground arith in
      let e : min (k + k) n ≡ k + d = ground arith in
      let top' : y / 2 ^ (j + d) ≡ 2 ^ k - 1 =
        ap (λ x. y / 2 ^ x) (sym a) ∙ top ∙ ap (λ x. 2 ^ x - 1) b in
      rw (c, e) (smear_more k d j y (omega arith) top')
  | inr more ↦
      let a : n - k ≡ 0 = ground arith in
      let b : min k n ≡ n = ground arith in
      let c : n - (k + k) ≡ 0 = ground arith in
      let e : min (k + k) n ≡ n = ground arith in
      let one : (x : ℕ) → x / 2 ^ 0 ≡ x = λ x. omega arith in
      let full : y ≡ 2 ^ n - 1 =
        sym (one y) ∙ ap (λ x. y / 2 ^ x) (sym a) ∙ top ∙ ap (λ x. 2 ^ x - 1) b in
      let zero_pad : n + 0 ≡ n = omega arith in
      let split : n + (k - n) ≡ k = ground arith in
      let gone : y / 2 ^ k ≡ 0 =
        ap (λ x. y / 2 ^ x) (sym split)
        ∙ div_pow_add n (k - n) y
        ∙ ap (λ x. x / 2 ^ n / 2 ^ (k - n)) (full ∙ ap (λ x. 2 ^ x - 1) (sym zero_pad))
        ∙ ap (λ x. x / 2 ^ (k - n)) (ones_div n 0)
        ∙ zero-div (2 ^ (k - n)) in
      rw (c, e) (one (bit_or y (y / 2 ^ k)) ∙ ap (λ x. bit_or y x) gone ∙ bit_or_zero y ∙ full)
]

-- The number of digits of a positive number
digits_of : (m v : ℕ) → v < 2 ^ m → 0 < v → (n : ℕ) × (n < m) × (v / 2 ^ n ≡ 1)
digits_of zero v below pos = absurd (omega arith)
digits_of (suc m) v below pos = elim (Bool-cases (ltb v 2)) [
  | inl small ↦ let e : v ≡ 1 = ground arith in (0, omega arith, omega (arith, e))
  | inr large ↦
      let h : v / 2 < 2 ^ m = omega (arith, pow-succ' 2 m) in
      let (n, less, e) = digits_of m (v / 2) h (ground arith) in
      (suc n, omega (arith, less), half_pow v n ∙ e)
]

smears :
    (n v : ℕ)
    → n < 31
    → v / 2 ^ n ≡ 1
    → smear 16 (smear 8 (smear 4 (smear 2 (smear 1 v)))) ≡ 2 ^ (n + 1) - 1
smears n v less e =
    let a : n + 1 - 1 ≡ n = omega arith in
    let b : min 1 (n + 1) ≡ 1 = omega arith in
    let top : Top 1 (n + 1) v = rw (a, b) e in
    let v5 = smear 16 (smear 8 (smear 4 (smear 2 (smear 1 v)))) in
    let all : Top 32 (n + 1) v5 = smear-Top 16 (n + 1) _ (
      smear-Top 8 (n + 1) _
        (smear-Top 4 (n + 1) _ (smear-Top 2 (n + 1) _ (smear-Top 1 (n + 1) v top)))) in
    let c : n + 1 - 32 ≡ 0 = omega (arith, less) in
    let d : min 32 (n + 1) ≡ n + 1 = omega (arith, less) in
    let one : v5 / 2 ^ 0 ≡ v5 = omega arith in
    sym one ∙ ap (λ x. v5 / 2 ^ x) (sym c) ∙ all ∙ ap (λ x. 2 ^ x - 1) d

abbrev spread : ℕ → ℕ
spread v = smear 16 (smear 8 (smear 4 (smear 2 (smear 1 v))))

round_up_power2-digits :
    (val n : ℕ)
    → 2 ≤ val
    → val ≤ 2 ^ 31
    → n < 31
    → (val - 1) / 2 ^ n ≡ 1
    → round_up_power2 val ≡ 2 ^ (n + 1)
unfolding round_up_power2
round_up_power2-digits val n lo hi less one =
    let v : (val + (2 ^ 32 - 1)) % 2 ^ 32 ≡ val - 1 = ground arith in
    let short : n + 1 ≤ 31 = omega (arith, less) in
    let fits : 2 ^ (n + 1) ≤ 2 ^ 31 = pow-le-pow_right {n = 2} (omega arith) short in
    let whole : 2 ^ (n + 1) - 1 + 1 ≡ 2 ^ (n + 1) = omega (arith, power_positive (n + 1)) in
    ap (λ x. (spread x + 1) % 2 ^ 32) v
    ∙ ap (λ x. (x + 1) % 2 ^ 32) (smears n (val - 1) less one)
    ∙ ap (λ x. x % 2 ^ 32) whole
    ∙ mod-eq_of_lt (omega (arith, fits))

-- For an argument from 1 to 2^31, roundUpPower2 gives the least power of two that is not below it.
pub round_up_power2_lem :
    (val : ℕ)
    → 1 ≤ val
    → val ≤ 2 ^ 31
    → (k : ℕ) × (round_up_power2 val ≡ 2 ^ k) × (val ≤ 2 ^ k) × ((m : ℕ) → val ≤ 2 ^ m → k ≤ m)
unfolding round_up_power2
round_up_power2_lem val lo hi = elim (Bool-cases (leb val 1)) [
  | inl small ↦
      let e : val ≡ 1 = ground arith in (0, rw e refl, omega (arith, e), λ m h. omega arith)
  | inr large ↦
      let two : 2 ≤ val = ground arith in
      let (n, less, one) = digits_of 31 (val - 1) (omega (arith, hi)) (omega (arith, two)) in
      let above : val - 1 < 2 ^ n * ((val - 1) / 2 ^ n + 1) =
        lt-mul-div-succ (val - 1) (power_positive n) in
      let under : 2 ^ n * ((val - 1) / 2 ^ n) ≤ val - 1 = mul-div-le (val - 1) (2 ^ n) in
      let above' : val - 1 < 2 ^ n * 2 = subst (λ x. val - 1 < 2 ^ n * (x + 1)) one above in
      let under' : 2 ^ n * 1 ≤ val - 1 = subst (λ x. 2 ^ n * x ≤ val - 1) one under in
      let double = pow-succ' 2 n in
      let next : n + 1 ≡ suc n = omega arith in
      (
        n + 1,
        round_up_power2-digits val n two hi less one,
        rw next (omega (arith, above', double)),
        λ m h. elim (Bool-cases (leb (n + 1) m)) [
          | inl fine ↦ ground arith
          | inr over ↦
              let lower : m ≤ n = ground arith in
              let le : 2 ^ m ≤ 2 ^ n = pow-le-pow_right {n = 2} (omega arith) lower in
              absurd (omega (arith, le, h, under', two))
        ],
      )
]

-- A new table is in order.
pub mz_hash_table_create-IsTable : (n : ℕ) → 1 ≤ n → n ≤ 2 ^ 31 → IsTable (mz_hash_table_create n)
unfolding mz_hash_table_create
mz_hash_table_create-IsTable n lo hi =
    let size = round_up_power2 n in
    let (k, e, up, least) = round_up_power2_lem n lo hi in
    let (live, dead) = count-replicate size in
    record {
      sized = length-replicate {A = Entry} size vacant;
      power = (k, e);
      live = live;
      dead = dead;
      loaded = omega arith;
      reached = λ j h d at. absurd (cc (get-replicate size j (used h d) at));
    }

pub mz_hash_table_create-empty : (n h d : ℕ) → ¬ Has (mz_hash_table_create n).entries h d
unfolding mz_hash_table_create
mz_hash_table_create-empty n h d k = cc (get-replicate (round_up_power2 n) k.0 (used h d) k.1)
