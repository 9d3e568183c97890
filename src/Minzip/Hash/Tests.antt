-- ===== src/Minzip/Hash/Tests.antt =====
-- Runs of minzip/Hash.c on a table of four entries with one item and one tombstone.
use sc7731_sc8830_bootable_r.Base.{
  ◌^◌, ◌≤◌, ℕ, zero, suc, List, [], ◌∷◌, true, ◌≡◌, refl, sym, arith, ◌==◌, length,
}
use sc7731_sc8830_bootable_r.Minzip.Hash.{
  Entry, vacant, tombstone, used, HashTable, mz_hash_table_lookup, mz_hash_table_remove,
  mz_hash_table_clear,
}
use sc7731_sc8830_bootable_r.Minzip.Hash.Create.{round_up_power2}
use sc7731_sc8830_bootable_r.Minzip.Hash.Rounding.{round_up_power2_lem}
use sc7731_sc8830_bootable_r.Minzip.Hash.Contract.{Looked, mz_hash_table_lookup-Looked}
use sc7731_sc8830_bootable_r.Minzip.Hash.Reach.{here, past}
use sc7731_sc8830_bootable_r.Minzip.Hash.Removal.{
  Removed, mz_hash_table_remove-Removed, mz_hash_table_clear-IsTable,
}
use sc7731_sc8830_bootable_r.Minzip.Hash.Valid.{Has, IsTable, AllReached, tombstone-full}

abbrev slots : List Entry
slots = vacant ∷ tombstone ∷ used 5 100 ∷ vacant ∷ []

abbrev table : HashTable
table = record { table_size = 4; num_entries = 1; num_dead_entries = 1; entries = slots }

slots-AllReached : AllReached slots
slots-AllReached zero h d at = cc
slots-AllReached (suc zero) h d at = cc
slots-AllReached (suc (suc zero)) h d at =
    let hash : 5 ≡ h = cc (at) in rw (sym hash) (past 1 2 tombstone refl tombstone-full (here 2))
slots-AllReached (suc (suc (suc zero))) h d at = cc
slots-AllReached (suc (suc (suc (suc j)))) h d at = cc

abbrev table-IsTable : IsTable table
table-IsTable = record {
  sized = refl;
  power = (2, refl);
  live = refl;
  dead = refl;
  loaded = omega arith;
  reached = slots-AllReached;
}

mz_hash_table_lookup-Looked_example :
    Looked table 9 200 (λ a b. a == b) true (mz_hash_table_lookup table 9 200 (λ a b. a == b) true)
mz_hash_table_lookup-Looked_example =
    mz_hash_table_lookup-Looked table 9 200 (λ a b. a == b) true table-IsTable

mz_hash_table_remove-Removed_example : Removed table 5 100 (mz_hash_table_remove table 5 100)
mz_hash_table_remove-Removed_example = mz_hash_table_remove-Removed table 5 100 table-IsTable

mz_hash_table_clear-IsTable_example :
    IsTable (mz_hash_table_clear true table).1
    × ((mz_hash_table_clear true table).1.table_size ≡ 4)
    × ((h d : ℕ) → ¬ Has (mz_hash_table_clear true table).1.entries h d)
    × (length (mz_hash_table_clear true table).0 ≡ 1)
mz_hash_table_clear-IsTable_example = mz_hash_table_clear-IsTable table true table-IsTable

round_up_power2_lem_example :
    (k : ℕ) × (round_up_power2 100 ≡ 2 ^ k) × (100 ≤ 2 ^ k) × ((m : ℕ) → 100 ≤ 2 ^ m → k ≤ m)
round_up_power2_lem_example = round_up_power2_lem 100 (omega arith) (omega arith)
