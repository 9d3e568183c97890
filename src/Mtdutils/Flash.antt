-- ===== src/Mtdutils/Flash.antt =====
-- The MTD character device behind a file descriptor, which the kernel implements.
use sc7731_sc8830_bootable_r.Base.{ℕ, List, Bool, Option}

-- What MEMGETBADBLOCK returns: 0, a positive number, -1 with EOPNOTSUPP, or -1 with another errno.
pub data BadBlock : Type 0 where
  good bad unsupported failed : BadBlock

-- `tell` is lseek(fd, 0, SEEK_CUR), and `none` is -1; `seek` tells whether lseek(fd, pos, SEEK_SET)
-- gave pos; `read` gives the bytes of a complete read; `write` tells whether all was written;
-- `erase` is MEMERASE, and `ecc_failed` the counter `failed` of ECCGETSTATS.
pub record Flash : Type 1 where
  pub Dev : Type 0
  pub tell : Dev → Option ℕ
  pub seek : Dev → ℕ → Bool × Dev
  pub read : Dev → ℕ → Option (List ℕ) × Dev
  pub write : Dev → List ℕ → Bool × Dev
  pub bad_block : Dev → ℕ → BadBlock × Dev
  pub erase : Dev → ℕ → ℕ → Bool × Dev
  pub ecc_failed : Dev → Option ℕ
  pub close : Dev → Bool

-- MtdPartition, as far as its contents depend on it. The driver reports sizes below 2 ^ 31.
pub record Partition : Type 0 where
  pub size : ℕ
  pub erase_size : ℕ
