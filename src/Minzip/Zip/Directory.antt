-- ===== src/Minzip/Zip/Directory.antt =====
-- The loop of parseZipArchive in minzip/Zip.c over the central directory.
use mathlib.Core.Path.{subst}
use mathlib.Core.List.{Perm}
use mathlib.Core.List.Perm
use sc7731_sc8830_bootable_r.Base.Int.{ℤ}
use sc7731_sc8830_bootable_r.Base.{
  ℕ, zero, suc, ◌+◌, ◌-◌, ◌≤◌, List, [], ◌∷◌, Option, some, Bool, true, ◌≡◌, refl, sym, arith,
  length, drop, leb, ◌==◌, Bool-cases, inl, inr, get_elem_some, ==_iff, ap, ◌∙◌,
}
use sc7731_sc8830_bootable_r.Minzip.Bits.{get4_le}
use sc7731_sc8830_bootable_r.Minzip.Zip.{MemMapping, ZipEntry, valid_filename, valid_chars}
use sc7731_sc8830_bootable_r.Minzip.Zip.Ends.{
  Ends, Ends-weaken, value, stopped, Ends-bind, Ends-ran, Ends-present, Ends-word4,
}
use sc7731_sc8830_bootable_r.Minzip.Zip.Format.{IsMapped, IsEntry, IsData, Listed, next_header}
use sc7731_sc8830_bootable_r.Minzip.Zip.Entries.{
  parse_header-Ends, parse_fields-Ends, parse_local-Ends,
}
use sc7731_sc8830_bootable_r.Minzip.Zip.Parse.{
  insert_at, parse_local, parse_entry, parse_entries, is_end, find_end,
}
use sc7731_sc8830_bootable_r.Minzip.Zip.Search.{
  Sorted, Printable, Between, search_target-Between, insert_at-Sorted, get-insert_at,
  length-insert_at,
}

-- What the loop has at `ptr`: the entries of the headers from `cd` on, sorted by name.
pub record IsDirectory (map : MemMapping) (cd : ℕ) (es : List ZipEntry) (ptr : ℕ) : Type 0 where
  pub sorted : Sorted es
  pub printable : Printable es
  pub listed : List ZipEntry
  pub headers : Listed map cd listed ptr
  pub same : Perm es listed

valid_filename-chars : (name : List ℕ) → valid_filename name ≡ true → valid_chars name ≡ true
unfolding valid_filename
valid_filename-chars name h = elim (Bool-cases (leb 4096 (length name))) [
  | inl long ↦ absurd (cc (long, h))
  | inr short ↦ ground arith
]

insert_at-perm :
    (t : ℕ) (e : ZipEntry) (es : List ZipEntry) → t ≤ length es → Perm (insert_at t e es) (e ∷ es)
unfolding insert_at
insert_at-perm zero e es h = Perm.rfl
insert_at-perm (suc t) e [] h = absurd (omega arith)
insert_at-perm (suc t) e (x ∷ es) h =
    Perm.trans (Perm.cons x (insert_at-perm t e es (omega arith))) (Perm.swap e x es)

insert_at-IsDirectory :
    (map : MemMapping) (cd : ℕ) (es : List ZipEntry) (ptr : ℕ) (e : ZipEntry) (next t : ℕ)
    → IsDirectory map cd es ptr
    → IsEntry map ptr e next
    → Between es e.file_name t t
    → IsDirectory map cd (insert_at t e es) next
insert_at-IsDirectory map cd es ptr e next t d new place = record {
  sorted = insert_at-Sorted es e t d.sorted place;
  printable = λ i x at. elim (get-insert_at t e es i x place.inside at) [
    | inl old ↦ d.printable i x old.1
    | inr (inl mine) ↦
        let valid = valid_filename-chars new.header.file_name new.described.valid in
        subst (λ n. valid_chars n ≡ true) (sym new.named ∙ ap (λ z. z.file_name) (sym (mine.1)))
          valid
    | inr (inr old) ↦ d.printable (i - 1) x old.1
  ];
  listed = e ∷ d.listed;
  headers = next_header d.listed ptr e next d.headers new;
  same = Perm.trans (insert_at-perm t e es place.inside) (Perm.cons e d.same);
}

module _ (safe_add_uintptr : ℕ → ℕ → Option ℕ) (safe_add_long : ℤ → ℤ → Bool) (map : MemMapping)
    (m : IsMapped safe_add_uintptr map) where
  parse_entry-Ends :
      (cd : ℕ) (es : List ZipEntry) (ptr : ℕ)
      → IsDirectory map cd es ptr
      → Ends
          (λ r. IsDirectory map cd r.0 r.1 × (length r.0 ≡ length es + 1))
          (parse_entry safe_add_uintptr safe_add_long map es ptr)
  unfolding parse_entry
  parse_entry-Ends cd es ptr d =
      Ends-bind _ (parse_header-Ends safe_add_uintptr map m ptr) λ header h.
        let described = h.0 in
        let (t, run, place) =
          search_target-Between es d.sorted header.file_name d.printable
            (valid_filename-chars header.file_name described.valid) in
        Ends-ran _ t run (
          Ends-bind _ (parse_fields-Ends safe_add_uintptr map m ptr header.file_name h.1) λ e f.
            let (same, fields) = f in
            let (w, at, word) = fields.comp_len in
            let ends =
              parse_local-Ends safe_add_uintptr map m safe_add_long (ptr + 42)
                header.local_hdr_offset w described.local_hdr in
            Ends-bind _
              (subst
                (λ c.
                  Ends (λ o. IsData map header.local_hdr_offset o c)
                    (parse_local safe_add_uintptr safe_add_long map header.local_hdr_offset c))
                (sym word) ends)
              λ offset contents.
                let whole : IsEntry map ptr (record e { offset = offset }) (ptr + header.size) =
                  record {
                    header = header;
                    described = described;
                    named = same;
                    fields = record {
                      comp_len = fields.comp_len;
                      uncomp_len = fields.uncomp_len;
                      compression = fields.compression;
                      mod_time = fields.mod_time;
                      crc32 = fields.crc32;
                      version_made_by = fields.version_made_by;
                      made = fields.made;
                      attributes = fields.attributes;
                    };
                    contents = contents;
                    follows = refl;
                  } in
                let place' : Between es e.file_name t t =
                  subst (λ n. Between es n t t) (sym same) place in
                value _ (
                  insert_at-IsDirectory map cd es ptr (record e { offset = offset })
                      (ptr + header.size) t d whole place',
                  length-insert_at t (record e { offset = offset }) es place.inside,
                ))

  pub parse_entries-Ends :
      (n cd : ℕ) (es : List ZipEntry) (ptr : ℕ)
      → IsDirectory map cd es ptr
      → Ends
          (λ r. ((next : ℕ) × IsDirectory map cd r next) × (length r ≡ length es + n))
          (parse_entries safe_add_uintptr safe_add_long n map es ptr)
  unfolding parse_entries
  parse_entries-Ends zero cd es ptr d = value _ ((ptr, d), omega arith)
  parse_entries-Ends (suc n) cd es ptr d = Ends-bind _ (parse_entry-Ends cd es ptr d) λ r one.
      Ends-weaken (λ q rest. (rest.0, omega (arith, rest.1, one.1)))
        (parse_entries-Ends n cd r.0 r.1 one.0)

  is_end-Ends :
      (p : ℕ)
      → p + 22 ≤ length map.bytes
      → Ends (λ b. b ≡ true → get4_le (drop p map.bytes) ≡ some 101010256) (is_end map p)
  unfolding is_end
  is_end-Ends p inside =
      let (b, at) = get_elem_some map.bytes p (omega (arith, inside)) in
      Ends-present _ b at (elim (Bool-cases (b == 80)) [
        | inl same ↦ rw same (
            Ends-word4 map _ _ (omega (arith, inside))
              λ v at'. value _ (λ e. at' ∙ ap some ((==_iff v 101010256).0 e)))
        | inr other ↦ rw other (value _ (λ e. absurd (cc (e))))
      ])

  -- The record that the scan stops at is whole.
  pub find_end-Ends :
      (p : ℕ)
      → p + 22 ≤ length map.bytes
      → Ends
          (λ q. (q + 22 ≤ length map.bytes) × (get4_le (drop q map.bytes) ≡ some 101010256))
          (find_end map p)
  unfolding find_end
  find_end-Ends zero inside = Ends-bind _ (is_end-Ends zero inside) λ e found. elim (Bool-cases e) [
    | inl yes_end ↦ rw yes_end (value _ (inside, found yes_end))
    | inr no_end ↦ rw no_end stopped
  ]
  find_end-Ends (suc p) inside = Ends-bind _ (is_end-Ends (suc p) inside) λ e found.
      elim (Bool-cases e) [
        | inl yes_end ↦ rw yes_end (value _ (inside, found yes_end))
        | inr no_end ↦ rw no_end (find_end-Ends p (omega (arith, inside)))
      ]
