-- ===== src/Minzip/Zip.antt =====
-- The archive reader of minzip/Zip.c: its entries, their names and hash codes, and the reads of the
-- mapped file. The machine is the 32-bit ARM of these devices: `long`, `size_t` and pointers have 32
-- bits. A pointer into the map is its distance from the map's start, save where the source computes
-- with an uintptr_t.
pub mod Parse
pub mod Order
pub mod Search
pub mod Ends
pub mod Contents
pub mod Chunks
pub mod Stored
pub mod Extract
pub mod Under
pub mod Format
pub mod Entries
pub mod Directory
pub mod Index
pub mod Opened
mod Tests
use sc7731_sc8830_bootable_r.Base.Int.{ℤ, pos, negsuc, sub_ℕ}
use sc7731_sc8830_bootable_r.Base.{
  ℕ, zero, suc, ◌+◌, ◌-◌, ◌*◌, ◌/◌, ◌%◌, ◌^◌, List, [], ◌∷◌, Option, none, some, Bool, true, false,
  not, ◌&&◌, ltb, leb, ◌==◌, if◌then◌else◌, length, get_elem?, drop, bytes_eq,
}
use sc7731_sc8830_bootable_r.Minzip.Bits.{get2_le, get4_le}
use sc7731_sc8830_bootable_r.Minzip.Hash.{
  HashTable, Result, done, undefined, endless, mz_hash_table_lookup,
}

-- The start of the mapped file in memory, and its bytes.
pub record MemMapping : Type 0 where
  pub addr : ℕ
  pub bytes : List ℕ

-- fileNameLen is the length of `file_name`.
pub record ZipEntry : Type 0 where
  pub file_name : List ℕ
  pub offset : ℤ
  pub comp_len : ℤ
  pub uncomp_len : ℤ
  pub compression : ℕ
  pub mod_time : ℤ
  pub crc32 : ℤ
  pub version_made_by : ℕ
  pub external_file_attributes : ℤ

pub record ZipArchive : Type 0 where
  pub num_entries : ℕ
  pub entries : List ZipEntry
  pub hash : HashTable

-- A word as a `long`
unfoldable pub to_long : ℕ → ℤ
to_long v = if ltb v (2 ^ 31) then pos v else negsuc (2 ^ 32 - 1 - v)

-- What reading an archive comes to: a value, `goto bail`, or what C leaves open: a read outside the map
-- or an array, a failed assert, a loop that does not end.
pub data Parsed (A : Type 0) : Type 0 where
  ok : A → Parsed A
  bail unspecified : Parsed A

infixl 5 ◌>>=◌
unfoldable pub ◌>>=◌ : {A B : Type 0} → Parsed A → (A → Parsed B) → Parsed B
ok a >>= f = f a
bail >>= f = bail
unspecified >>= f = unspecified

infixl 5 ◌>>◌
unfoldable pub ◌>>◌ : {B : Type 0} → Parsed Unit → Parsed B → Parsed B
ok u >> r = r
bail >> r = bail
unspecified >> r = unspecified

unfoldable pub check : Bool → Parsed Unit
check true = ok tt
check false = bail

abbrev pub present : {A : Type 0} → Option A → Parsed A
present none = unspecified
present (some a) = ok a

-- get2LE(pMap->addr + p) and get4LE(pMap->addr + p)
unfoldable pub word2 : MemMapping → ℕ → Parsed ℕ
word2 map p = present (get2_le (drop p map.bytes))

unfoldable pub word4 : MemMapping → ℕ → Parsed ℕ
word4 map p = present (get4_le (drop p map.bytes))

-- An entry is named by its index in pEntries.
unfoldable pub hashcmp_zip_entry : List ZipEntry → ℕ → ℕ → Bool
hashcmp_zip_entry es a b = elim (get_elem? es a) [
  | none ↦ false
  | some e ↦ elim (get_elem? es b) [ none ↦ false | some f ↦ bytes_eq e.file_name f.file_name ]
]

-- Whether hashcmpZipName answers 0.
unfoldable pub hashcmp_zip_name : List ZipEntry → ℕ → List ℕ → Bool
hashcmp_zip_name es a name = elim (get_elem? es a) [
  | none ↦ false
  | some e ↦ bytes_eq e.file_name name
]

unfoldable pub hash_from : ℕ → List ℕ → ℕ
hash_from hash [] = hash
hash_from hash (c ∷ name) = hash_from ((hash * 31 + c) % 2 ^ 32) name

unfoldable pub compute_hash : List ℕ → ℕ
unfolding hash_from
compute_hash name = hash_from 2 name

-- `e` is pEntries[i].
unfoldable pub add_entry_to_hash_table :
    HashTable → List ZipEntry → ℕ → ZipEntry → Result (Option ℕ × HashTable)
add_entry_to_hash_table hash es i e =
    mz_hash_table_lookup hash (compute_hash e.file_name) i (hashcmp_zip_entry es) true

-- The characters of validFilename
unfoldable pub valid_chars : List ℕ → Bool
valid_chars [] = true
valid_chars (c ∷ name) = if ltb c 32 then false else if leb 127 c then false else valid_chars name

-- PATH_MAX is 4096.
unfoldable pub valid_filename : List ℕ → Bool
unfolding valid_chars
valid_filename name = if leb 4096 (length name) then false else valid_chars name

-- strncmp of the first `n` bytes; both names have them.
unfoldable pub strncmp : ℕ → List ℕ → List ℕ → ℤ
strncmp zero a b = pos 0
strncmp (suc n) [] b = pos 0
strncmp (suc n) (x ∷ a) [] = pos 0
strncmp (suc n) (x ∷ a) (y ∷ b) =
    let rest = strncmp n a b in if x == y then (if x == 0 then pos 0 else rest) else sub_ℕ x y

-- `if (diff == 0) diff = d;`
unfoldable pub if_zero : ℤ → ℤ → ℤ
if_zero (pos zero) d = d
if_zero (pos (suc n)) d = pos (suc n)
if_zero (negsuc n) d = negsuc n

-- `diff` in the binary search of parseZipArchive
unfoldable pub name_diff : List ℕ → List ℕ → ℤ
unfolding strncmp if_zero
name_diff a b =
    if_zero (strncmp (if ltb (length a) (length b) then length a else length b) a b)
      (sub_ℕ (length a) (length b))

-- The result of a lookup without its table
unfoldable pub found_item : Result (Option ℕ × HashTable) → Result (Option ℕ)
found_item (done r) = done r.0
found_item undefined = undefined
found_item endless = endless

-- The index of the entry, or `none` for NULL. The name itself is the item that is looked up.
unfoldable pub mz_find_zip_entry : ZipArchive → List ℕ → Result (Option ℕ)
unfolding compute_hash hashcmp_zip_name found_item
mz_find_zip_entry archive name =
    let cmp : ℕ → ℕ → Bool = λ a n. hashcmp_zip_name archive.entries a name in
    found_item (mz_hash_table_lookup archive.hash (compute_hash name) 0 cmp false)
