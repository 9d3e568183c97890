-- ===== src/Minzip/Zip/Tests.antt =====
-- Runs of minzip/Zip.c on an archive of two stored entries, b and a.
use mathlib.Core.Path.{subst}
use sc7731_sc8830_bootable_r.Base.Int.{ℤ, pos, negsuc}
use sc7731_sc8830_bootable_r.Base.{
  ◌≤◌, ◌++◌, ◌==◌, take, ℕ, zero, suc, ◌+◌, ◌<◌, ◌^◌, List, [], ◌∷◌, Option, none, some, Bool, true,
  false, ◌&&◌, ltb, if◌then◌else◌, ◌≡◌, refl, arith, drop,
}
use sc7731_sc8830_bootable_r.Minzip.Bits.{get2_le, get4_le}
use sc7731_sc8830_bootable_r.Minzip.Hash.{
  vacant, used, mz_hash_table_lookup, answer_lookup, probe, add_at, data_of, free_slot, is_vacant,
  matches, rehash, resize_hash, set_at, with_item,
}
use sc7731_sc8830_bootable_r.Minzip.Hash.Create.{
  mz_hash_table_create, mz_hash_size, round_up_power2, smear,
}
use sc7731_sc8830_bootable_r.Minzip.Zip.Contents.{
  z_failed, Inflated, to_size, mz_read_zip_entry, mz_is_zip_entry_intact,
}
use sc7731_sc8830_bootable_r.Minzip.Zip.Stored.{stored_entry_lem}
use sc7731_sc8830_bootable_r.Minzip.Zip.Extract.{Host, Options, refused, mz_extract_recursive}
use sc7731_sc8830_bootable_r.Minzip.Zip.Index.{Finds, mz_find_zip_entry-Finds}
use sc7731_sc8830_bootable_r.Minzip.Zip.Ends.{Ends, value, IsBytes}
use sc7731_sc8830_bootable_r.Minzip.Zip.Format.{IsMapped}
use sc7731_sc8830_bootable_r.Minzip.Zip.Opened.{IsArchive, mz_open_zip_archive-Ends}
use sc7731_sc8830_bootable_r.Minzip.Zip.{
  MemMapping, ZipEntry, ZipArchive, ok, mz_find_zip_entry, ◌>>◌, check, ◌>>=◌, word4, word2,
  valid_filename, to_long, name_diff, compute_hash, add_entry_to_hash_table, hash_from,
  hashcmp_zip_entry, if_zero, strncmp, valid_chars,
}
use sc7731_sc8830_bootable_r.Minzip.Zip.Parse.{
  mz_open_zip_archive, add_entries, compatible, data_end, find_end, insert_at, is_end,
  parse_entries, parse_entry, parse_fields, parse_header, parse_local, parse_zip_archive, search,
  search_target,
}

abbrev two_files : MemMapping
two_files = record {
  addr = 4096;
  bytes =
      80 ∷ 75 ∷ 3 ∷ 4 ∷ 20 ∷ 0 ∷ 0 ∷ 0 ∷ 0 ∷ 0 ∷ 0 ∷ 0 ∷ 33 ∷ 0 ∷ 172 ∷ 42 ∷ 147 ∷ 216 ∷ 2 ∷ 0 ∷ 0
      ∷ 0 ∷ 2 ∷ 0 ∷ 0 ∷ 0 ∷ 1 ∷ 0 ∷ 0 ∷ 0 ∷ 98 ∷ 104 ∷ 105 ∷ 80 ∷ 75 ∷ 3 ∷ 4 ∷ 20 ∷ 0 ∷ 0 ∷ 0 ∷ 0
      ∷ 0 ∷ 0 ∷ 0 ∷ 33 ∷ 0 ∷ 61 ∷ 247 ∷ 170 ∷ 118 ∷ 3 ∷ 0 ∷ 0 ∷ 0 ∷ 3 ∷ 0 ∷ 0 ∷ 0 ∷ 1 ∷ 0 ∷ 0 ∷ 0
      ∷ 97 ∷ 111 ∷ 107 ∷ 33 ∷ 80 ∷ 75 ∷ 1 ∷ 2 ∷ 20 ∷ 3 ∷ 20 ∷ 0 ∷ 0 ∷ 0 ∷ 0 ∷ 0 ∷ 0 ∷ 0 ∷ 33 ∷ 0
      ∷ 172 ∷ 42 ∷ 147 ∷ 216 ∷ 2 ∷ 0 ∷ 0 ∷ 0 ∷ 2 ∷ 0 ∷ 0 ∷ 0 ∷ 1 ∷ 0 ∷ 0 ∷ 0 ∷ 0 ∷ 0 ∷ 0 ∷ 0 ∷ 0 ∷ 0
      ∷ 0 ∷ 0 ∷ 164 ∷ 1 ∷ 0 ∷ 0 ∷ 0 ∷ 0 ∷ 98 ∷ 80 ∷ 75 ∷ 1 ∷ 2 ∷ 20 ∷ 3 ∷ 20 ∷ 0 ∷ 0 ∷ 0 ∷ 0 ∷ 0 ∷ 0
      ∷ 0 ∷ 33 ∷ 0 ∷ 61 ∷ 247 ∷ 170 ∷ 118 ∷ 3 ∷ 0 ∷ 0 ∷ 0 ∷ 3 ∷ 0 ∷ 0 ∷ 0 ∷ 1 ∷ 0 ∷ 0 ∷ 0 ∷ 0 ∷ 0
      ∷ 0 ∷ 0 ∷ 0 ∷ 0 ∷ 0 ∷ 0 ∷ 164 ∷ 1 ∷ 33 ∷ 0 ∷ 0 ∷ 0 ∷ 97 ∷ 80 ∷ 75 ∷ 5 ∷ 6 ∷ 0 ∷ 0 ∷ 0 ∷ 0 ∷ 2
      ∷ 0 ∷ 2 ∷ 0 ∷ 94 ∷ 0 ∷ 0 ∷ 0 ∷ 67 ∷ 0 ∷ 0 ∷ 0 ∷ 0 ∷ 0 ∷ [];
}

abbrev add_uintptr : ℕ → ℕ → Option ℕ
add_uintptr a b = if ltb (a + b) (2 ^ 32) then some (a + b) else none

abbrev add_long : ℤ → ℤ → Bool
add_long a b = true

abbrev all_bytes : List ℕ → Bool
all_bytes [] = true
all_bytes (x ∷ xs) = ltb x 256 && all_bytes xs

all_bytes-IsBytes : (xs : List ℕ) → all_bytes xs ≡ true → IsBytes xs
all_bytes-IsBytes [] h i b at = cc
all_bytes-IsBytes (x ∷ xs) h zero b at = ground arith
all_bytes-IsBytes (x ∷ xs) h (suc i) b at = all_bytes-IsBytes xs (ground arith) i b at

abbrev apart_at : ℕ → Option ℕ → Bool
apart_at addr none = true
apart_at addr (some w) = if ltb (addr + w) (2 ^ 32) then ltb (addr + w + 30) (2 ^ 32) else true

abbrev all_apart : ℕ → List ℕ → Bool
unfolding get4_le
all_apart addr [] = true
all_apart addr (x ∷ xs) = apart_at addr (get4_le (x ∷ xs)) && all_apart addr xs

get4_le_nil : (p : ℕ) → get4_le (drop {A = ℕ} p []) ≡ none
unfolding get4_le
get4_le_nil zero = refl
get4_le_nil (suc p) = refl

all_apart_lem :
    (addr : ℕ) (xs : List ℕ)
    → all_apart addr xs ≡ true
    → (p w : ℕ) → get4_le (drop p xs) ≡ some w
    → addr + w < 2 ^ 32
    → addr + w + 30 < 2 ^ 32
unfolding all_apart
all_apart_lem addr [] h p w at inside = absurd (cc (at, get4_le_nil p))
all_apart_lem addr (x ∷ xs) h zero w at inside = ground arith
all_apart_lem addr (x ∷ xs) h (suc p) w at inside =
    all_apart_lem addr xs (ground arith) p w at inside

two_files-IsMapped : IsMapped add_uintptr two_files
unfolding all_apart get4_le
two_files-IsMapped = record {
  are_bytes = all_bytes-IsBytes two_files.bytes refl;
  in_memory = omega arith;
  small = omega arith;
  safe = λ a b c e. (ground arith, ground arith);
  apart = all_apart_lem 4096 two_files.bytes refl;
}

mz_open_zip_archive-Ends_example :
    Ends (IsArchive two_files) (mz_open_zip_archive add_uintptr add_long two_files)
mz_open_zip_archive-Ends_example =
    mz_open_zip_archive-Ends add_uintptr add_long two_files two_files-IsMapped

ended : {A : Type 0} {P : A → Type 0} {a : A} → Ends P (ok a) → P a
ended (value a p) = p

abbrev entry_a : ZipEntry
entry_a = record {
  file_name = 97 ∷ [];
  offset = pos 64;
  comp_len = pos 3;
  uncomp_len = pos 3;
  compression = 0;
  mod_time = pos 2162688;
  crc32 = pos 1990915901;
  version_made_by = 788;
  external_file_attributes = pos 27525120;
}

abbrev entry_b : ZipEntry
entry_b = record {
  file_name = 98 ∷ [];
  offset = pos 31;
  comp_len = pos 2;
  uncomp_len = pos 2;
  compression = 0;
  mod_time = pos 2162688;
  crc32 = negsuc 661443923;
  version_made_by = 788;
  external_file_attributes = pos 27525120;
}

abbrev archive : ZipArchive
archive = record {
  num_entries = 2;
  entries = entry_a ∷ entry_b ∷ [];
  hash = record {
    table_size = 4;
    num_entries = 2;
    num_dead_entries = 0;
    entries = used 160 1 ∷ vacant ∷ vacant ∷ used 159 0 ∷ [];
  };
}

archive_opened : mz_open_zip_archive add_uintptr add_long two_files ≡ ok archive
unfolding mz_open_zip_archive ◌>>◌ check ◌>>=◌ word4 get4_le word2 get2_le valid_filename to_long
    name_diff mz_hash_table_lookup answer_lookup probe mz_hash_table_create mz_hash_size
    compute_hash round_up_power2 smear add_at data_of free_slot is_vacant matches rehash resize_hash
    set_at with_item add_entries compatible data_end find_end insert_at is_end parse_entries
    parse_entry parse_fields parse_header parse_local parse_zip_archive search search_target
    add_entry_to_hash_table hash_from hashcmp_zip_entry if_zero strncmp valid_chars
archive_opened = refl

archive-IsArchive : IsArchive two_files archive
archive-IsArchive = ended (
    subst (Ends (IsArchive two_files)) archive_opened
      (mz_open_zip_archive-Ends add_uintptr add_long two_files two_files-IsMapped))

mz_find_zip_entry-Finds_example :
    Finds (entry_a ∷ entry_b ∷ []) (98 ∷ []) (mz_find_zip_entry archive (98 ∷ []))
mz_find_zip_entry-Finds_example = mz_find_zip_entry-Finds archive (98 ∷ []) archive-IsArchive.index

-- A read of the file of the archive, an inflate that fails, and a sum in place of crc32
abbrev read_file : ℕ → ℕ → Option (List ℕ)
read_file at count = some (take count (drop at two_files.bytes))

abbrev no_inflate : Bool → List ℕ → ℕ → Inflated Bool
no_inflate z input room = record { status = z_failed; rest = input; output = []; stream = z }

abbrev sum : ℕ → List ℕ → ℕ
sum crc [] = crc
sum crc (x ∷ xs) = sum (crc + x) xs

sum_joins : (crc : ℕ) (xs ys : List ℕ) → sum (sum crc xs) ys ≡ sum crc (xs ++ ys)
sum_joins crc [] ys = refl
sum_joins crc (x ∷ xs) ys = sum_joins (crc + x) xs ys

stored_entry_lem_example :
    (3 ≤ 5
      → mz_read_zip_entry read_file none no_inflate 0 0 entry_a 5
        ≡ ok (true, take 3 (drop 64 two_files.bytes)))
    × (5 < 3
        → (buf : List ℕ) × (mz_read_zip_entry read_file none no_inflate 0 0 entry_a 5
            ≡ ok (false, buf)))
    × (mz_is_zip_entry_intact read_file none no_inflate sum 0 0 entry_a
        ≡ ok (sum 0 (take 3 (drop 64 two_files.bytes)) == to_size (pos 1990915901)))
unfolding to_size
stored_entry_lem_example =
    stored_entry_lem read_file none no_inflate sum two_files.bytes 0 0 entry_a 64 3 5
      (λ at count. refl) (λ crc. refl) sum_joins refl refl refl (omega arith)

-- A system that keeps the paths of the callback, last one first
abbrev log_host : Host (List (List ℕ))
log_host = record {
  create_hierarchy = λ path strip w. (true, w);
  symlink = λ target path w. (true, w);
  creat = λ path w. (none, w);
  write = λ fd bytes w. (refused, w);
  close = λ fd w. w;
  utime = λ path w. (true, w);
  callback = some (λ path w. path ∷ w);
}

abbrev dry_run : Options
dry_run = record { files_only = false; dry_run = true; timestamp = false }

extracted :
    mz_extract_recursive log_host read_file none no_inflate 0 0 archive []
      (47 ∷ 116 ∷ [])
      dry_run
      []
    ≡ ok (true, (47 ∷ 116 ∷ 47 ∷ 98 ∷ []) ∷ (47 ∷ 116 ∷ 47 ∷ 97 ∷ []) ∷ [])
unfolding mz_extract_recursive ◌>>=◌
extracted = refl
