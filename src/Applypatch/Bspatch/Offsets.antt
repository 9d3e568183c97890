-- ===== src/Applypatch/Bspatch/Offsets.antt =====
-- The numbers of a binary patch: offtin of applypatch/bspatch.c and offtout of applypatch/bsdiff.c.
use sc7731_sc8830_bootable_r.Base.Int.{ℤ, pos, negsuc, pos_part, neg_part}
use sc7731_sc8830_bootable_r.Base.{suc, ◌^◌, ◌<◌, true, false, ◌≡◌, refl, arith, ap, length}
use sc7731_sc8830_bootable_r.Applypatch.Bspatch.{magnitude, is_negative, offtin, offtout}

-- offtin reads what offtout writes for every number between -2 ^ 63 and 2 ^ 63, both excluded.
pub offtin-offtout : (x : ℤ) → pos_part x < 2 ^ 63 → neg_part x < 2 ^ 63 → offtin (offtout x) ≡ x
unfolding offtin offtout
offtin-offtout (pos y) h k =
    let sign : is_negative (offtout (pos y)) ≡ false = ground arith in
    let size : magnitude (offtout (pos y)) ≡ y = omega arith in rw sign (ap pos size)
offtin-offtout (negsuc n) h k =
    let sign : is_negative (offtout (negsuc n)) ≡ true = ground arith in
    let size : magnitude (offtout (negsuc n)) ≡ suc n = omega arith in rw (sign, size)

pub length-offtout : (x : ℤ) → length (offtout x) ≡ 8
unfolding offtout
length-offtout (pos y) = refl
length-offtout (negsuc n) = refl
