-- ===== src/Minzip/Zip/Index.antt =====
-- The entries of an archive in its hash table: addEntryToHashTable and mzFindZipEntry of minzip/Zip.c.
use mathlib.Core.Path.{subst}
use sc7731_sc8830_bootable_r.Base.{
  ℕ, suc, ◌+◌, ◌<◌, List, [], ◌∷◌, Option, none, some, true, false, ◌≡◌, ◌≢◌, refl, sym, ◌∙◌, ap,
  arith, length, get_elem?, get_elem_lt, bytes_eq, bytes_eq_iff, Option-cases, Bool-cases, ltb,
  ltb→lt, inl, inr,
}
use sc7731_sc8830_bootable_r.Minzip.Hash.{HashTable, Result, done}
use sc7731_sc8830_bootable_r.Minzip.Hash.Contract.{
  Looked, hit, missing, added, mz_hash_table_lookup-Looked,
}
use sc7731_sc8830_bootable_r.Minzip.Hash.Valid.{Has, IsTable}
use sc7731_sc8830_bootable_r.Minzip.Zip.{
  ZipEntry, ZipArchive, ok, compute_hash, hashcmp_zip_entry, hashcmp_zip_name,
  add_entry_to_hash_table, found_item, mz_find_zip_entry,
}
use sc7731_sc8830_bootable_r.Minzip.Zip.Parse.{add_entries}

-- The entry at an index
abbrev pub At : List ZipEntry → ℕ → ZipEntry → Type 0
At es i e = get_elem? es i ≡ some e

-- A table in order, whose items are entries of the array under their hash codes, and which has for each
-- of the first `k` entries one of the same name.
pub record Indexes (es : List ZipEntry) (k : ℕ) (hash : HashTable) : Type 0 where
  pub table : IsTable hash
  pub items :
      (h d : ℕ) → Has hash.entries h d → (e : ZipEntry) × At es d e × (h ≡ compute_hash e.file_name)
  pub all :
      (i : ℕ) (e : ZipEntry)
      → i < k
      → At es i e
      → (d : ℕ) × (f : ZipEntry) × Has hash.entries (compute_hash e.file_name) d
        × At es d f
        × (f.file_name ≡ e.file_name)

hashcmp_zip_entry_lem :
    (es : List ZipEntry) (d i : ℕ) (e : ZipEntry)
    → At es i e
    → hashcmp_zip_entry es d i ≡ true
    → (f : ZipEntry) × At es d f × (f.file_name ≡ e.file_name)
unfolding hashcmp_zip_entry
hashcmp_zip_entry_lem es d i e at same = elim (Option-cases (get_elem? es d)) [
  | inl gone ↦ absurd (ground arith)
  | inr z ↦
      let (f, at') = z in
      let eq : bytes_eq f.file_name e.file_name ≡ true = ground arith in
      (f, at', (bytes_eq_iff f.file_name e.file_name).0 eq)
]

-- What one lookup that may add makes of the index
abbrev Indexed : (es : List ZipEntry) (i : ℕ) → Result (Option ℕ × HashTable) → Type 0
Indexed es i r = (p : Option ℕ × HashTable) × (r ≡ done p) × Indexes es (i + 1) p.1

add_entry-Indexed :
    (es : List ZipEntry) (i : ℕ) (e : ZipEntry) (hash : HashTable)
    → At es i e
    → Indexes es i hash
    → (r : Result (Option ℕ × HashTable))
    → Looked hash (compute_hash e.file_name) i (hashcmp_zip_entry es) true r
    → Indexed es i r
add_entry-Indexed es i e hash at x _ (hit d has same) =
    let (f, at', eq) = hashcmp_zip_entry_lem es d i e at same in
    (
      (some d, hash),
      refl,
      record {
        table = x.table;
        items = x.items;
        all = λ j g less at_j. elim (Bool-cases (ltb j i)) [
          | inl before ↦ x.all j g (ltb→lt j i before) at_j
          | inr other ↦
              let here : j ≡ i = ground arith in
              let one : e ≡ g = cc (here, at, at_j) in
              subst
                (λ g.
                  (d : ℕ) × (f : ZipEntry) × Has hash.entries (compute_hash g.file_name) d
                  × At es d f
                  × (f.file_name ≡ g.file_name))
                one (d, f, has, at', eq)
        ];
      },
    )
add_entry-Indexed es i e hash at x _ (missing no_add absent) = absurd (cc (no_add))
add_entry-Indexed es i e hash at x _ (added t' add absent adds) = (
  (some i, t'),
  refl,
  record {
    table = adds.valid;
    items = λ h d has. elim ((adds.items h d).0 has) [
      | inl new ↦ (e, subst (λ n. At es n e) (sym new.1) at, new.0)
      | inr old ↦ x.items h d old
    ];
    all = λ j g less at_j. elim (Bool-cases (ltb j i)) [
      | inl before ↦
          let (d, f, has, at', eq) = x.all j g (ltb→lt j i before) at_j in
          (d, f, (adds.items _ d).1 (inr has), at', eq)
      | inr other ↦
          let here : j ≡ i = ground arith in
          let one : e ≡ g = cc (here, at, at_j) in
          (
            i,
            e,
            (adds.items _ i).1 (inl (ap (λ z. compute_hash z.file_name) (sym one), refl)),
            at,
            ap (λ z. z.file_name) one,
          )
    ];
  },
)

pub add_entries-Indexes :
    (es : List ZipEntry) (i : ℕ) (rest : List ZipEntry) (hash : HashTable)
    → ((j : ℕ) (e : ZipEntry) → At rest j e → At es (i + j) e)
    → Indexes es i hash
    → (hash' : HashTable) × (add_entries hash es i rest ≡ ok hash')
      × Indexes es (i + length rest) hash'
unfolding add_entries add_entry_to_hash_table
add_entries-Indexes es i [] hash part x =
    let e : i + 0 ≡ i = omega arith in (hash, refl, subst (λ k. Indexes es k hash) (sym e) x)
add_entries-Indexes es i (e ∷ rest) hash part x =
    let here : i + 0 ≡ i = omega arith in
    let at : At es i e = subst (λ k. At es k e) here (part 0 e refl) in
    let looked =
      mz_hash_table_lookup-Looked hash (compute_hash e.file_name) i (hashcmp_zip_entry es) true
        x.table in
    let (p, run, next) = add_entry-Indexed es i e hash at x _ looked in
    let (hash', run', result) =
      add_entries-Indexes es (i + 1) rest p.1
        (λ j f at'.
          let shift : i + suc j ≡ i + 1 + j = omega arith in
          subst (λ k. At es k f) shift (part (suc j) f at'))
        next in
    let sum : i + 1 + length rest ≡ i + suc (length rest) = omega arith in
    (
      hash',
      rw (run, add_entries, add_entry_to_hash_table) run',
      subst (λ k. Indexes es k hash') sum result,
    )

-- What a search by name may answer: NULL if no entry has the name, or an entry that has it.
pub data Finds (es : List ZipEntry) (name : List ℕ) : Result (Option ℕ) → Type 0 where
  nothing : ((i : ℕ) (e : ZipEntry) → At es i e → e.file_name ≢ name) → Finds es name (done none)
  entry : (i : ℕ) (e : ZipEntry) → At es i e → e.file_name ≡ name → Finds es name (done (some i))

found_item-Finds :
    (es : List ZipEntry) (name : List ℕ) (hash : HashTable)
    → Indexes es (length es) hash
    → (r : Result (Option ℕ × HashTable))
    → Looked hash (compute_hash name) 0 (λ a n. hashcmp_zip_name es a name) false r
    → Finds es name (found_item r)
unfolding found_item hashcmp_zip_name
found_item-Finds es name hash x _ (hit d has same) =
    let (e, at, code) = x.items _ d has in
    let eq : bytes_eq e.file_name name ≡ true = ground arith in
    entry d e at ((bytes_eq_iff e.file_name name).0 eq)
found_item-Finds es name hash x _ (missing no_add absent) = nothing λ i e at same.
    let (d, f, has, at', eq) = x.all i e (get_elem_lt es i e at) at in
    let no : hashcmp_zip_name es d name ≡ false =
      absent d (subst (λ n. Has hash.entries (compute_hash n) d) same has) in
    let yes_eq : bytes_eq f.file_name name ≡ true = (bytes_eq_iff f.file_name name).1 (eq ∙ same) in
    absurd (ground arith)
found_item-Finds es name hash x _ (added t' add absent adds) = absurd (cc (add))

-- On an archive whose table indexes its entries, mzFindZipEntry ends, and answers NULL only if no entry
-- has the name that is looked for, and else an entry that has it.
pub mz_find_zip_entry-Finds :
    (a : ZipArchive) (name : List ℕ)
    → Indexes a.entries (length a.entries) a.hash
    → Finds a.entries name (mz_find_zip_entry a name)
unfolding mz_find_zip_entry
mz_find_zip_entry-Finds a name x =
    found_item-Finds a.entries name a.hash x _
      (mz_hash_table_lookup-Looked a.hash (compute_hash name) 0 _ false x.table)
