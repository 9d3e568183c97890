-- ===== src/Minzip/Tests.antt =====
-- Runs of minzip/Bits.h on concrete buffers.
use sc7731_sc8830_bootable_r.Base.{ℕ, ◌^◌, ◌%◌, List, [], ◌∷◌, ◌≡◌, arith, some, drop}
use sc7731_sc8830_bootable_r.Base.Int.{pos}
use sc7731_sc8830_bootable_r.Minzip.Bits.Words.{read-set}
use sc7731_sc8830_bootable_r.Minzip.Bits.Text.{stored, read-set_utf8_string, read_utf8_string_lem}
use sc7731_sc8830_bootable_r.Minzip.Bits.{
  ◌>>=◌, read1, read2_be, read4_be, read8_be, read2_le, read4_le, read8_le, set1, set2_be, set4_be,
  set8_be, set2_le, set4_le, set8_le, set_utf8_string, read_new_utf8_string, skip_utf8_string,
  read_utf8_string,
}

abbrev bytes : List ℕ
bytes = 1 ∷ 2 ∷ 3 ∷ 4 ∷ 5 ∷ 6 ∷ 7 ∷ 8 ∷ 9 ∷ []

read-set_example :
    ((set1 bytes 70000 >>= read1) ≡ some (70000 % 2 ^ 8, drop 1 bytes))
    × ((set2_be bytes 70000 >>= read2_be) ≡ some (70000 % 2 ^ 16, drop 2 bytes))
    × ((set4_be bytes 70000 >>= read4_be) ≡ some (70000 % 2 ^ 32, drop 4 bytes))
    × ((set8_be bytes 70000 >>= read8_be) ≡ some (70000 % 2 ^ 64, drop 8 bytes))
    × ((set2_le bytes 70000 >>= read2_le) ≡ some (70000 % 2 ^ 16, drop 2 bytes))
    × ((set4_le bytes 70000 >>= read4_le) ≡ some (70000 % 2 ^ 32, drop 4 bytes))
    × ((set8_le bytes 70000 >>= read8_le) ≡ some (70000 % 2 ^ 64, drop 8 bytes))
read-set_example = read-set bytes 70000 (omega arith)

read-set_utf8_string_example :
    ((set_utf8_string bytes (65 ∷ 66 ∷ []) >>= read_new_utf8_string)
      ≡ some (65 ∷ 66 ∷ 0 ∷ [], 2, 7 ∷ 8 ∷ 9 ∷ []))
    × ((set_utf8_string bytes (65 ∷ 66 ∷ []) >>= skip_utf8_string) ≡ some (7 ∷ 8 ∷ 9 ∷ []))
read-set_utf8_string_example = read-set_utf8_string bytes (65 ∷ 66 ∷ []) (omega arith) (omega arith)

read_utf8_string_lem_example :
    read_utf8_string (stored 3 (65 ∷ 66 ∷ 67 ∷ 68 ∷ [])) bytes 3
    ≡ some (pos 3, 65 ∷ 66 ∷ 0 ∷ 4 ∷ 5 ∷ 6 ∷ 7 ∷ 8 ∷ 9 ∷ [], 68 ∷ [])
read_utf8_string_lem_example =
    read_utf8_string_lem 3 (65 ∷ 66 ∷ 67 ∷ 68 ∷ []) bytes 3 (omega arith) (omega arith)
      (omega arith) (omega arith) (omega arith)
