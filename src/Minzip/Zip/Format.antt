-- ===== src/Minzip/Zip/Format.antt =====
-- The format of an archive that minzip/Zip.c reads: what its headers say, and the file they are in.
use sc7731_sc8830_bootable_r.Base.Int.{ℤ, pos}
use sc7731_sc8830_bootable_r.Base.{
  ℕ, ◌+◌, ◌^◌, ◌≤◌, ◌<◌, List, [], ◌∷◌, Option, some, true, ◌≡◌, length, take, drop,
}
use sc7731_sc8830_bootable_r.Minzip.Bits.{get2_le, get4_le}
use sc7731_sc8830_bootable_r.Minzip.Zip.{MemMapping, ZipEntry, to_long, valid_filename}
use sc7731_sc8830_bootable_r.Minzip.Zip.Ends.{IsBytes}
use sc7731_sc8830_bootable_r.Minzip.Zip.Parse.{Header, compatible}

-- A mapping of this machine with less than 2^31 - 2^17 bytes, and additions of safe_iop.h that answer
-- the sum if it is in range. `apart`: no word of the file comes from `addr` to one of the last 30
-- addresses of the memory.
pub record IsMapped (safe_add_uintptr : ℕ → ℕ → Option ℕ) (map : MemMapping) : Type 0 where
  pub are_bytes : IsBytes map.bytes
  pub in_memory : map.addr + length map.bytes < 2 ^ 32
  pub small : length map.bytes + 2 ^ 17 < 2 ^ 31
  pub safe : (a b c : ℕ) → safe_add_uintptr a b ≡ some c → (c ≡ a + b) × (c < 2 ^ 32)
  pub apart :
      (p w : ℕ)
      → get4_le (drop p map.bytes) ≡ some w
      → map.addr + w < 2 ^ 32
      → map.addr + w + 30 < 2 ^ 32

-- The words that the file has at `p`
abbrev pub Word2 : MemMapping → ℕ → ℕ → Type 0
Word2 map p w = get2_le (drop p map.bytes) ≡ some w

abbrev pub Word4 : MemMapping → ℕ → ℕ → Type 0
Word4 map p w = get4_le (drop p map.bytes) ≡ some w

-- A word that came out as a `long`
abbrev pub Long4 : MemMapping → ℕ → ℤ → Type 0
Long4 map p v = (w : ℕ) × Word4 map p w × (v ≡ to_long w)

-- A central directory header at `ptr`, with a valid name behind it that ends in the file
pub record IsHeader (map : MemMapping) (ptr : ℕ) (h : Header) : Type 0 where
  pub signed : Word4 map ptr 33639248
  pub inside : ptr + 46 + length h.file_name ≤ length map.bytes
  pub name_len : Word2 map (ptr + 28) (length h.file_name)
  pub name : h.file_name ≡ take (length h.file_name) (drop (ptr + 46) map.bytes)
  pub valid : valid_filename h.file_name ≡ true
  pub local_hdr : Word4 map (ptr + 42) h.local_hdr_offset
  pub extra_len : ℕ
  pub extra : Word2 map (ptr + 30) extra_len
  pub comment_len : ℕ
  pub comment : Word2 map (ptr + 32) comment_len
  pub sized : h.size ≡ 46 + length h.file_name + extra_len + comment_len

-- The other fields of the header at `ptr`
pub record HasFields (map : MemMapping) (ptr : ℕ) (e : ZipEntry) : Type 0 where
  pub comp_len : Long4 map (ptr + 20) e.comp_len
  pub uncomp_len : Long4 map (ptr + 24) e.uncomp_len
  pub compression : Word2 map (ptr + 10) e.compression
  pub mod_time : Long4 map (ptr + 12) e.mod_time
  pub crc32 : Long4 map (ptr + 16) e.crc32
  pub version_made_by : Word2 map (ptr + 4) e.version_made_by
  pub made : compatible e.version_made_by ≡ true
  pub attributes : Long4 map (ptr + 38) e.external_file_attributes

-- Data that starts behind the local header, its name and its extra field, and, unless its length is
-- negative, ends in the file.
pub record IsData (map : MemMapping) (local_hdr : ℕ) (offset comp_len : ℤ) : Type 0 where
  pub signed : Word4 map local_hdr 67324752
  pub name_len : ℕ
  pub name : Word2 map (local_hdr + 26) name_len
  pub extra_len : ℕ
  pub extra : Word2 map (local_hdr + 28) extra_len
  pub placed : offset ≡ pos (local_hdr + 30 + name_len + extra_len)
  pub inside :
      (n : ℕ) → comp_len ≡ pos n → local_hdr + 30 + name_len + extra_len + n ≤ length map.bytes

-- The entry of the header at `ptr`; the one behind it starts at `next`.
pub record IsEntry (map : MemMapping) (ptr : ℕ) (e : ZipEntry) (next : ℕ) : Type 0 where
  pub header : Header
  pub described : IsHeader map ptr header
  pub named : e.file_name ≡ header.file_name
  pub fields : HasFields map ptr e
  pub contents : IsData map header.local_hdr_offset e.offset e.comp_len
  pub follows : next ≡ ptr + header.size

-- The entries from the header at `cd` on to `ptr`, the last one first
pub data Listed (map : MemMapping) (cd : ℕ) : List ZipEntry → ℕ → Type 0 where
  first_header : Listed map cd [] cd
  next_header :
      (es : List ZipEntry) (ptr : ℕ) (e : ZipEntry) (next : ℕ)
      → Listed map cd es ptr
      → IsEntry map ptr e next
      → Listed map cd (e ∷ es) next
