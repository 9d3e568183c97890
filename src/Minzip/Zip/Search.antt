-- ===== src/Minzip/Zip/Search.antt =====
-- The binary search and the insertion of parseZipArchive in minzip/Zip.c.
use sc7731_sc8830_bootable_r.Base.Int.{pos, ltb_ℤ}
use sc7731_sc8830_bootable_r.Base.{
  ℕ, zero, suc, ◌+◌, ◌-◌, ◌/◌, ◌≤◌, ◌<◌, List, [], ◌∷◌, some, true, false, not, ltb, leb, length,
  get_elem?, get_elem_lt, get_elem_some, ◌≡◌, ◌⊎◌, inl, inr, refl, sym, ◌∙◌, ap, arith, Bool-cases,
}
use sc7731_sc8830_bootable_r.Minzip.Zip.{◌>>=◌, ZipEntry, ok, valid_chars, name_diff}
use sc7731_sc8830_bootable_r.Minzip.Zip.Order.{
  name_leb, name_leb_trans, name_leb_total, name_diff_lem,
}
use sc7731_sc8830_bootable_r.Minzip.Zip.Parse.{search, search_target, insert_at}

-- The entries are in the order of their names.
abbrev pub Sorted : List ZipEntry → Type 0
Sorted es =
    (i j : ℕ) (a b : ZipEntry)
    → i < j
    → get_elem? es i ≡ some a
    → get_elem? es j ≡ some b
    → name_leb a.file_name b.file_name ≡ true

-- The names have no character that validFilename refuses.
abbrev pub Printable : List ZipEntry → Type 0
Printable es = (i : ℕ) (a : ZipEntry) → get_elem? es i ≡ some a → valid_chars a.file_name ≡ true

-- The names before `low` are not above `name`, those from `top` on not below it.
pub record Between (es : List ZipEntry) (name : List ℕ) (low top : ℕ) : Type 0 where
  pub inside : top ≤ length es
  pub below :
      (i : ℕ) (a : ZipEntry) → i < low → get_elem? es i ≡ some a → name_leb a.file_name name ≡ true
  pub above :
      (i : ℕ) (a : ZipEntry) → top ≤ i → get_elem? es i ≡ some a → name_leb name a.file_name ≡ true

module _ (es : List ZipEntry) (sorted : Sorted es) (name : List ℕ) where
  below_mid :
      (mid : ℕ) (e : ZipEntry)
      → get_elem? es mid ≡ some e
      → name_leb e.file_name name ≡ true
      → (i : ℕ) (a : ZipEntry) → i < mid + 1
      → get_elem? es i ≡ some a
      → name_leb a.file_name name ≡ true
  below_mid mid e at le i a less k = elim (Bool-cases (ltb i mid)) [
    | inl before ↦
        name_leb_trans a.file_name e.file_name name (sorted i mid a e (ground arith) k at) le
    | inr same ↦
        let eq : i ≡ mid = ground arith in let one : e ≡ a = cc (eq, at, k) in rw (sym one) le
  ]

  above_mid :
      (mid : ℕ) (e : ZipEntry)
      → get_elem? es mid ≡ some e
      → name_leb name e.file_name ≡ true
      → (i : ℕ) (a : ZipEntry) → mid ≤ i
      → get_elem? es i ≡ some a
      → name_leb name a.file_name ≡ true
  above_mid mid e at le i a more k = elim (Bool-cases (ltb mid i)) [
    | inl before ↦
        name_leb_trans name e.file_name a.file_name le (sorted mid i e a (ground arith) at k)
    | inr same ↦
        let eq : i ≡ mid = ground arith in let one : e ≡ a = cc (eq, at, k) in rw (sym one) le
  ]

  search-Between :
      (rounds low top : ℕ)
      → Printable es
      → valid_chars name ≡ true
      → low ≤ top
      → top < low + rounds
      → Between es name low top
      → (t : ℕ) × (search rounds es name low top ≡ ok t) × Between es name t t
  unfolding search ◌>>=◌
  search-Between zero low top fine valid le enough b = absurd (omega arith)
  search-Between (suc rounds) low top fine valid le enough b = elim (Bool-cases (ltb low top)) [
    | inr over ↦
        let eq : low ≡ top = ground arith in
        (
          top,
          rw (over, search) refl,
          record {
            inside = b.inside;
            below = λ i a h k. b.below i a (omega arith) k;
            above = b.above;
          },
        )
    | inl on ↦
        let mid = low + (top - 1 - low) / 2 in
        let lo : low ≤ mid = omega arith in
        let hi : mid < top = ground arith in
        let room = b.inside in
        let (e, at) = get_elem_some es mid (omega arith) in
        let d = name_diff_lem e.file_name name (fine mid e at) valid in
        elim (Bool-cases (name_leb name e.file_name)) [
          | inr lower ↦
              let le' = name_leb_total name e.file_name lower in
              let test : ltb_ℤ (name_diff e.file_name name) (pos 0) ≡ true = d.0 ∙ ap not lower in
              let (t, run, result) =
                search-Between rounds (mid + 1) top fine valid (omega arith) (omega arith)
                  (record { inside = b.inside; below = below_mid mid e at le'; above = b.above }) in
              (t, rw (on, at, test, search, ◌>>=◌) run, result)
          | inl reaches ↦
              let test : ltb_ℤ (name_diff e.file_name name) (pos 0) ≡ false =
                d.0 ∙ ap not reaches in
              elim (Bool-cases (name_leb e.file_name name)) [
                | inr higher ↦
                    let test' : ltb_ℤ (pos 0) (name_diff e.file_name name) ≡ true =
                      d.1 ∙ ap not higher in
                    let (t, run, result) =
                      search-Between rounds low mid fine valid lo (omega arith) (record {
                        inside = omega arith;
                        below = b.below;
                        above = above_mid mid e at reaches;
                      }) in
                    (t, rw (on, at, test, test', search, ◌>>=◌) run, result)
                | inl equal ↦
                    let test' : ltb_ℤ (pos 0) (name_diff e.file_name name) ≡ false =
                      d.1 ∙ ap not equal in
                    (
                      mid + 1,
                      rw (on, at, test, test', search, ◌>>=◌) refl,
                      record {
                        inside = omega arith;
                        below = below_mid mid e at equal;
                        above = λ i a h k. above_mid mid e at reaches i a (omega arith) k;
                      },
                    )
              ]
        ]
  ]

  -- The search ends, at a place that keeps the order.
  pub search_target-Between :
      Printable es
      → valid_chars name ≡ true
      → (t : ℕ) × (search_target es name ≡ ok t) × Between es name t t
  unfolding search_target ◌>>=◌
  search_target-Between fine valid =
      let (t, run, place) =
        search-Between (length es + 1) 0 (length es) fine valid (omega arith) (omega arith)
          (record {
            inside = omega arith;
            below = λ i a h k. absurd (omega arith);
            above = λ i a h k. absurd (let lt = get_elem_lt es i a k in omega arith);
          }) in
      let room = place.inside in
      let test : leb t (length es) ≡ true = ground arith in
      (t, rw (run, test, search_target, ◌>>=◌) refl, place)

pub length-insert_at :
    (t : ℕ) (e : ZipEntry) (es : List ZipEntry)
    → t ≤ length es
    → length (insert_at t e es) ≡ length es + 1
unfolding insert_at
length-insert_at zero e es h = omega arith
length-insert_at (suc t) e [] h = absurd (omega arith)
length-insert_at (suc t) e (x ∷ es) h = omega (arith, length-insert_at t e es (omega arith))

-- Where the entries after an insertion come from
pub get-insert_at :
    (t : ℕ) (e : ZipEntry) (es : List ZipEntry) (i : ℕ) (x : ZipEntry)
    → t ≤ length es
    → get_elem? (insert_at t e es) i ≡ some x
    → ((i < t) × (get_elem? es i ≡ some x))
      ⊎ (((i ≡ t) × (x ≡ e)) ⊎ ((t < i) × (get_elem? es (i - 1) ≡ some x)))
unfolding insert_at
get-insert_at zero e es zero x h k = inr (inl (refl, cc (k)))
get-insert_at zero e es (suc i) x h k =
    inr (inr (omega arith, (let s : suc i - 1 ≡ i = omega arith in rw s k)))
get-insert_at (suc t) e [] i x h k = cc
get-insert_at (suc t) e (y ∷ es) zero x h k = inl (omega arith, k)
get-insert_at (suc t) e (y ∷ es) (suc i) x h k = elim (get-insert_at t e es i x (omega arith) k) [
  | inl z ↦ inl (omega (arith, z.0), z.1)
  | inr (inl z) ↦ inr (inl (omega (arith, z.0), z.1))
  | inr (inr z) ↦
      let s : suc i - 1 ≡ suc (i - 1) = omega (arith, z.0) in
      inr (inr (omega (arith, z.0), rw s (z.1)))
]

-- An insertion at the place that was found keeps the order.
pub insert_at-Sorted :
    (es : List ZipEntry) (e : ZipEntry) (t : ℕ)
    → Sorted es
    → Between es e.file_name t t
    → Sorted (insert_at t e es)
insert_at-Sorted es e t sorted place i j a b less k l =
    elim (get-insert_at t e es i a place.inside k) [
      | inl p ↦ elim (get-insert_at t e es j b place.inside l) [
        | inl q ↦ sorted i j a b less (p.1) (q.1)
        | inr (inl q) ↦ rw (q.1) (place.below i a (p.0) (p.1))
        | inr (inr q) ↦ sorted i (j - 1) a b (omega (arith, p.0, q.0)) (p.1) (q.1)
      ]
      | inr (inl p) ↦ elim (get-insert_at t e es j b place.inside l) [
        | inl q ↦ absurd (omega (arith, p.0, q.0))
        | inr (inl q) ↦ absurd (omega (arith, p.0, q.0))
        | inr (inr q) ↦ rw (p.1) (place.above (j - 1) b (omega (arith, q.0)) (q.1))
      ]
      | inr (inr p) ↦ elim (get-insert_at t e es j b place.inside l) [
        | inl q ↦ absurd (omega (arith, p.0, q.0))
        | inr (inl q) ↦ absurd (omega (arith, p.0, q.0))
        | inr (inr q) ↦ sorted (i - 1) (j - 1) a b (omega (arith, p.0, q.0)) (p.1) (q.1)
      ]
    ]
