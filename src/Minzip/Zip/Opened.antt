-- ===== src/Minzip/Zip/Opened.antt =====
-- Opening an archive: parseZipArchive and mzOpenZipArchive of minzip/Zip.c as a whole.
use mathlib.Core.List.Perm
use sc7731_sc8830_bootable_r.Base.Int.{ℤ}
use sc7731_sc8830_bootable_r.Base.{
  ℕ, ◌+◌, ◌-◌, ◌^◌, ◌≤◌, ◌<◌, List, [], Option, Bool, ◌≡◌, arith, length, leb→le,
}
use sc7731_sc8830_bootable_r.Minzip.Hash.Create.{mz_hash_size, mz_hash_table_create}
use sc7731_sc8830_bootable_r.Minzip.Hash.Rounding.{
  mz_hash_table_create-IsTable, mz_hash_table_create-empty,
}
use sc7731_sc8830_bootable_r.Minzip.Zip.{MemMapping, ZipEntry, ZipArchive}
use sc7731_sc8830_bootable_r.Minzip.Zip.Directory.{IsDirectory, parse_entries-Ends, find_end-Ends}
use sc7731_sc8830_bootable_r.Minzip.Zip.Ends.{
  Ends, value, Ends-bind, Ends-check, Ends-ran, Ends-word2, Ends-word4,
}
use sc7731_sc8830_bootable_r.Minzip.Zip.Format.{IsMapped, Word2, Word4, first_header}
use sc7731_sc8830_bootable_r.Minzip.Zip.Index.{Indexes, add_entries-Indexes}
use sc7731_sc8830_bootable_r.Minzip.Zip.Parse.{parse_zip_archive, mz_open_zip_archive}

-- An archive in order: the end record of the file tells its number of entries and where its directory
-- is; its entries are those of the headers there, sorted by name; and its hash table indexes them.
pub record IsArchive (map : MemMapping) (a : ZipArchive) : Type 0 where
  pub end_record : ℕ
  pub signed : Word4 map end_record 101010256
  pub number : Word2 map (end_record + 8) a.num_entries
  pub some_entry : 0 < a.num_entries
  pub counted : length a.entries ≡ a.num_entries
  pub cd_offset : ℕ
  pub directory_at : Word4 map (end_record + 16) cd_offset
  pub next : ℕ
  pub directory : IsDirectory map cd_offset a.entries next
  pub index : Indexes a.entries (length a.entries) a.hash

new_index :
    (n : ℕ) (es : List ZipEntry) → n < 2 ^ 16 → Indexes es 0 (mz_hash_table_create (mz_hash_size n))
unfolding mz_hash_size
new_index n es hi = record {
  table = mz_hash_table_create-IsTable (mz_hash_size n) (omega arith) (omega arith);
  items = λ h d has. absurd (mz_hash_table_create-empty (mz_hash_size n) h d has);
  all = λ i e less at. absurd (omega (arith, less));
}

module _ (safe_add_uintptr : ℕ → ℕ → Option ℕ) (safe_add_long : ℤ → ℤ → Bool) (map : MemMapping)
    (m : IsMapped safe_add_uintptr map) where
  parse_zip_archive-Ends :
      22 ≤ length map.bytes
      → Ends (IsArchive map) (parse_zip_archive safe_add_uintptr safe_add_long map)
  unfolding parse_zip_archive
  parse_zip_archive-Ends room = Ends-word4 map _ _ (omega (arith, room)) λ val at.
      Ends-check λ not_empty. Ends-check λ signed.
        Ends-bind _
          (find_end-Ends safe_add_uintptr safe_add_long map m (length map.bytes - 22)
            (omega (arith, room)))
          λ ptr found. Ends-word2 map _ _ m.are_bytes (omega (arith, found.0)) λ n at_number below.
            Ends-word4 map _ _ (omega (arith, found.0)) λ cd_offset at_offset.
              Ends-check λ some_entry. Ends-check λ inside.
                let positive : 0 < n = ground arith in
                Ends-bind _
                  (parse_entries-Ends safe_add_uintptr safe_add_long map m n cd_offset [] cd_offset
                    (record {
                      sorted = λ i j a b less k l. absurd (cc (k));
                      printable = λ i e k. absurd (cc (k));
                      listed = [];
                      headers = first_header;
                      same = Perm.rfl;
                    }))
                  λ es parsed.
                    let (hash, run, x) =
                      add_entries-Indexes es 0 es _
                        (λ j e k. let zero_add : 0 + j ≡ j = omega arith in rw zero_add k)
                        (new_index n es below) in
                    let zero_len : 0 + length es ≡ length es = omega arith in
                    let count : length es ≡ n = omega (arith, parsed.1) in
                    Ends-ran _ hash run (
                      value _ (record {
                        end_record = ptr;
                        signed = found.1;
                        number = at_number;
                        some_entry = positive;
                        counted = count;
                        cd_offset = cd_offset;
                        directory_at = at_offset;
                        next = parsed.0.0;
                        directory = parsed.0.1;
                        index = rw⁻¹ zero_len x;
                      }))

  -- For a file of less than 2^31 - 2^17 bytes of which no word leads to one of the last 30 addresses of
  -- the memory, and additions that answer the sum if it is in range, mzOpenZipArchive reads nothing
  -- outside the map, fails no assert and ends, be it with an error. If there is none, the entries are
  -- those of as many headers as the end record says, one or more, from where it says on, with the words
  -- that the headers have; they are sorted by name; each has a valid name, which ends in the file, and
  -- data that starts behind its local header and, unless its length came out negative, ends in the
  -- file; and the hash table has the names of the entries, and no others.
  pub mz_open_zip_archive-Ends :
      Ends (IsArchive map) (mz_open_zip_archive safe_add_uintptr safe_add_long map)
  unfolding mz_open_zip_archive
  mz_open_zip_archive-Ends = Ends-check λ room. parse_zip_archive-Ends (leb→le _ _ room)
