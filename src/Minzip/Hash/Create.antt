-- ===== src/Minzip/Hash/Create.antt =====
-- How a hash table of minzip/Hash.c is made: mzHashSize, roundUpPower2 and mzHashTableCreate.
use Prim.Native.Nat.{bit_or}
use sc7731_sc8830_bootable_r.Base.{ℕ, ◌+◌, ◌-◌, ◌*◌, ◌/◌, ◌%◌, ◌^◌, replicate}
use sc7731_sc8830_bootable_r.Minzip.Hash.{vacant, HashTable}

-- LOAD_NUMER is 5 and LOAD_DENOM 8; a size_t has 32 bits.
unfoldable pub mz_hash_size : ℕ → ℕ
mz_hash_size size = (size * 8 % 2 ^ 32 / 5 + 1) % 2 ^ 32

-- val |= val >> k
unfoldable pub smear : ℕ → ℕ → ℕ
smear k val = bit_or val (val / 2 ^ k)

-- `val--` is written for an unsigned int, as the subtraction on the numbers stops at 0.
unfoldable pub round_up_power2 : ℕ → ℕ
unfolding smear
round_up_power2 val =
    let v = (val + (2 ^ 32 - 1)) % 2 ^ 32 in
    (smear 16 (smear 8 (smear 4 (smear 2 (smear 1 v)))) + 1) % 2 ^ 32

unfoldable pub mz_hash_table_create : ℕ → HashTable
unfolding round_up_power2
mz_hash_table_create initial_size =
    let size = round_up_power2 initial_size in
    record {
      table_size = size;
      num_entries = 0;
      num_dead_entries = 0;
      entries = replicate size vacant;
    }
