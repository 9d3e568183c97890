-- ===== src/Minzip/Zip/Parse.antt =====
-- parseZipArchive of minzip/Zip.c. `safe_add` stands for the additions of safe_iop.h, which is not a
-- part of the repository: that of two uintptr_t answers the sum or nothing, that of two `long` tells
-- whether the sum is in range.
use sc7731_sc8830_bootable_r.Base.Int.{ℤ, pos, ltb_ℤ, pos_part, neg_part}
use sc7731_sc8830_bootable_r.Base.{
  ℕ, zero, suc, ◌+◌, ◌-◌, ◌/◌, ◌%◌, ◌^◌, List, [], ◌∷◌, Option, none, some, Bool, false, not, ◌||◌,
  ltb, leb, ◌==◌, if◌then◌else◌, length, get_elem?, take, drop,
}
use sc7731_sc8830_bootable_r.Minzip.Hash.{HashTable, done, undefined, endless}
use sc7731_sc8830_bootable_r.Minzip.Hash.Create.{mz_hash_size, mz_hash_table_create}
use sc7731_sc8830_bootable_r.Minzip.Zip.{
  MemMapping, ZipEntry, ZipArchive, Parsed, ok, bail, unspecified, ◌>>=◌, ◌>>◌, check, present,
  word2, word4, to_long, add_entry_to_hash_table, valid_filename, name_diff,
}

-- `*ptr == (ENDSIG & 0xff) && get4LE(ptr) == ENDSIG`; ENDSIG is 0x06054b50.
unfoldable pub is_end : MemMapping → ℕ → Parsed Bool
is_end map p = do
  b ← present (get_elem? map.bytes p)
  (if b == 80 then (word4 map p >>= λ v. ok (v == 101010256)) else ok false)

-- The scan for the end-of-central-directory record from `p` down
unfoldable pub find_end : MemMapping → ℕ → Parsed ℕ
unfolding is_end
find_end map zero = do e ← is_end map zero; if e then ok zero else bail
find_end map (suc p) =
    let rest = find_end map p in do e ← is_end map (suc p); if e then ok (suc p) else rest

-- The binary search for the place of a new entry, with `top` for high + 1; the result is high + 1.
unfoldable pub search : ℕ → List ZipEntry → List ℕ → ℕ → ℕ → Parsed ℕ
search zero es name low top = unspecified
search (suc rounds) es name low top =
    let mid = low + (top - 1 - low) / 2 in
    let right = search rounds es name (mid + 1) top in
    let left = search rounds es name low mid in
    if ltb low top
    then (do
      e ← present (get_elem? es mid)
      (if ltb_ℤ (name_diff e.file_name name) (pos 0)
          then right
          else if ltb_ℤ (pos 0) (name_diff e.file_name name)
          then left
          else ok (mid + 1)))
    else ok top

-- The search has at most one round more than there are entries.
unfoldable pub search_target : List ZipEntry → List ℕ → Parsed ℕ
unfolding search
search_target es name = do
  target ← search (length es + 1) es name 0 (length es)
  (if leb target (length es) then ok target else unspecified)

-- The memmove and the new entry at `target`
unfoldable pub insert_at : ℕ → ZipEntry → List ZipEntry → List ZipEntry
insert_at zero e es = e ∷ es
insert_at (suc n) e [] = []
insert_at (suc n) e (x ∷ es) = x ∷ insert_at n e es

-- What a central directory header says of its entry: the name, the offset of the local header, and the
-- length of the header.
pub record Header : Type 0 where
  pub file_name : List ℕ
  pub local_hdr_offset : ℕ
  pub size : ℕ

-- The header at `ptr` up to its name. CENHDR is 46, CENSIG 0x02014b50, CENOFF 42, CENNAM 28, CENEXT 30
-- and CENCOM 32.
unfoldable pub parse_header : MemMapping → ℕ → Parsed Header
parse_header map ptr = do
  check (leb (ptr + 46) (length map.bytes))
  sig ← word4 map ptr
  check (sig == 33639248)
  local_hdr_offset ← word4 map (ptr + 42)
  file_name_len ← word2 map (ptr + 28)
  extra_len ← word2 map (ptr + 30)
  comment_len ← word2 map (ptr + 32)
  check (leb (ptr + 46 + file_name_len) (length map.bytes))
  check (valid_filename (take file_name_len (drop (ptr + 46) map.bytes)))
  ok (record {
    file_name = take file_name_len (drop (ptr + 46) map.bytes);
    local_hdr_offset = local_hdr_offset;
    size = 46 + file_name_len + extra_len + comment_len;
  })

-- (pEntry->versionMadeBy & 0xff00) is 0 or CENVEM_UNIX
unfoldable pub compatible : ℕ → Bool
compatible version_made_by =
    ((version_made_by / 2 ^ 8 % 2 ^ 8) == 0) || ((version_made_by / 2 ^ 8 % 2 ^ 8) == 3)

-- The fields of the header at `ptr`, save `offset`. CENSIZ is 20, CENLEN 24, CENHOW 10, CENTIM 12,
-- CENCRC 16, CENVEM 4 and CENATX 38.
unfoldable pub parse_fields : MemMapping → ℕ → List ℕ → Parsed ZipEntry
unfolding compatible
parse_fields map ptr file_name = do
  comp_len ← word4 map (ptr + 20)
  uncomp_len ← word4 map (ptr + 24)
  compression ← word2 map (ptr + 10)
  mod_time ← word4 map (ptr + 12)
  crc32 ← word4 map (ptr + 16)
  version_made_by ← word2 map (ptr + 4)
  check (compatible version_made_by)
  external_file_attributes ← word4 map (ptr + 38)
  ok (record {
    file_name = file_name;
    offset = pos 0;
    comp_len = to_long comp_len;
    uncomp_len = to_long uncomp_len;
    compression = compression;
    mod_time = to_long mod_time;
    crc32 = to_long crc32;
    version_made_by = version_made_by;
    external_file_attributes = to_long external_file_attributes;
  })

-- (size_t)pEntry->offset + pEntry->compLen
unfoldable pub data_end : ℤ → ℤ → ℕ
data_end offset comp_len =
    (pos_part offset
      + (2 ^ 32 - neg_part offset)
      + pos_part comp_len
      + (2 ^ 32 - neg_part comp_len))
    % 2 ^ 32

-- The entries from pEntries[i] on enter the hash table.
unfoldable pub add_entries : HashTable → List ZipEntry → ℕ → List ZipEntry → Parsed HashTable
unfolding add_entry_to_hash_table
add_entries hash es i [] = ok hash
add_entries hash es i (e ∷ rest) = elim (add_entry_to_hash_table hash es i e) [
  | done r ↦ add_entries r.1 es (i + 1) rest
  | undefined ↦ unspecified
  | endless ↦ unspecified
]

module _ (safe_add_uintptr : ℕ → ℕ → Option ℕ) (safe_add_long : ℤ → ℤ → Bool) where
  -- pEntry->offset, from the local header. LOCHDR is 30, LOCSIG 0x04034b50, LOCNAM 26 and LOCEXT 28. A
  -- read at `local_hdr` is one at its distance from the map's start, which `safe_add` made
  -- `local_hdr_offset`.
  unfoldable pub parse_local : MemMapping → ℕ → ℤ → Parsed ℤ
  unfolding data_end
  parse_local map local_hdr_offset comp_len = elim (safe_add_uintptr map.addr local_hdr_offset) [
    | none ↦ bail
    | some local_hdr ↦ (do
      check (leb ((local_hdr + 30) % 2 ^ 32) ((map.addr + length map.bytes) % 2 ^ 32))
      sig ← word4 map (local_hdr - map.addr)
      check (sig == 67324752)
      name_len ← word2 map (local_hdr - map.addr + 26)
      extra_len ← word2 map (local_hdr - map.addr + 28)
      let offset = to_long ((local_hdr_offset + 30 + name_len + extra_len) % 2 ^ 32)
      check (safe_add_long offset comp_len)
      check (leb (data_end offset comp_len) (length map.bytes))
      ok offset)
  ]

  -- One round of the loop: the entries with the new one, and the next header.
  unfoldable pub parse_entry : MemMapping → List ZipEntry → ℕ → Parsed (List ZipEntry × ℕ)
  unfolding parse_header search_target parse_fields parse_local insert_at
  parse_entry map es ptr = do
    header ← parse_header map ptr
    target ← search_target es header.file_name
    e ← parse_fields map ptr header.file_name
    offset ← parse_local map header.local_hdr_offset e.comp_len
    ok (insert_at target (record e { offset = offset }) es, ptr + header.size)

  -- `n` more rounds
  unfoldable pub parse_entries : ℕ → MemMapping → List ZipEntry → ℕ → Parsed (List ZipEntry)
  unfolding parse_entry
  parse_entries zero map es ptr = ok es
  parse_entries (suc n) map es ptr = parse_entry map es ptr >>= λ r. parse_entries n map r.0 r.1

  -- ENDHDR is 22, ENDSUB 8 and ENDOFF 16.
  unfoldable pub parse_zip_archive : MemMapping → Parsed ZipArchive
  unfolding find_end parse_entries add_entries
  parse_zip_archive map = do
    val ← word4 map 0
    check (not (val == 101010256))
    check (val == 67324752)
    ptr ← find_end map (length map.bytes - 22)
    num_entries ← word2 map (ptr + 8)
    cd_offset ← word4 map (ptr + 16)
    check (not (num_entries == 0))
    check (ltb cd_offset (length map.bytes))
    entries ← parse_entries num_entries map [] cd_offset
    hash ← add_entries (mz_hash_table_create (mz_hash_size num_entries)) entries 0 entries
    ok (record { num_entries = num_entries; entries = entries; hash = hash })

  -- mzOpenZipArchive on a file that could be opened and mapped; `bail` is an error.
  unfoldable pub mz_open_zip_archive : MemMapping → Parsed ZipArchive
  unfolding parse_zip_archive
  mz_open_zip_archive map = do check (leb 22 (length map.bytes)); parse_zip_archive map
