-- ===== src/Minzip/Hash/Contract.antt =====
-- The operations of minzip/Hash.c against the view of a table as a set of items with hash values.
use sc7731_sc8830_bootable_r.Base.{
  ℕ, suc, ◌+◌, ◌*◌, ◌%◌, Option, none, some, Bool, true, false, ◌≡◌, refl, sym, ◌∙◌, ap, arith,
  length, get_elem?, replicate, length-replicate, ltb, Bool-cases, ◌⊎◌, inl, inr, ◌↔◌,
}
use sc7731_sc8830_bootable_r.Minzip.Hash.{
  Entry, vacant, tombstone, used, HashTable, Probe, found, free, outside, running, Result, done,
  set_at, probe, resize_hash, matches, data_of, add_at, with_item, answer_lookup,
  mz_hash_table_lookup,
}
use sc7731_sc8830_bootable_r.Minzip.Hash.Probing.{Stops, probe-Stops, probe-found, IsFree}
use sc7731_sc8830_bootable_r.Minzip.Hash.Reach.{Reaches}
use sc7731_sc8830_bootable_r.Minzip.Hash.Rehash.{rehash-Filled}
use sc7731_sc8830_bootable_r.Minzip.Hash.Slots.{
  length-set_at, count_live-set_at, count_dead-set_at, count-replicate, get-replicate, get_lt,
}
use sc7731_sc8830_bootable_r.Minzip.Hash.Valid.{
  Has, IsTable, size_positive, has_vacant, AllReached-set_used, Has-set_used, used-full,
}
use native.Mathlib.Nat.{mod-lt}

-- `t'` is `t` with one more item.
pub record Adds (t : HashTable) (h d : ℕ) (t' : HashTable) : Type 0 where
  pub valid : IsTable t'
  pub counted : t'.num_entries ≡ t.num_entries + 1
  pub items : (h' d' : ℕ) → Has t'.entries h' d' ↔ (((h' ≡ h) × (d' ≡ d)) ⊎ Has t.entries h' d')

add_at-Adds :
    (t : HashTable) (h d i : ℕ)
    → IsTable t
    → get_elem? t.entries i ≡ some vacant
    → Reaches (length t.entries) t.entries (h % length t.entries) i
    → (t' : HashTable) × (add_at t h d i ≡ done t') × Adds t h d t'
unfolding add_at resize_hash
add_at-Adds t h d i v empty way =
    let es = set_at i (used h d) t.entries in
    let live = count_live-set_at i (used h d) vacant t.entries empty in
    let dead = count_dead-set_at i (used h d) vacant t.entries empty in
    let long = length-set_at i (used h d) t.entries in
    let pos = size_positive t v in
    let reached = AllReached-set_used t.entries i h d empty way v.reached in
    let items : (h' d' : ℕ) → Has es h' d' ↔ (((h' ≡ h) × (d' ≡ d)) ⊎ Has t.entries h' d') =
      λ h' d'. Has-set_used t.entries i h d h' d' empty in
    elim (Bool-cases (ltb (t.table_size * 5) ((t.num_entries + 1 + t.num_dead_entries) * 8))) [
      | inr fits ↦
          rw (fits, add_at)
            (
              record t { entries = es; num_entries = t.num_entries + 1 },
              refl,
              record {
                valid = record {
                  sized = long ∙ v.sized;
                  power = v.power;
                  live = omega (arith, live, v.live);
                  dead = omega (arith, dead, v.dead);
                  loaded = ground arith;
                  reached = reached;
                };
                counted = refl;
                items = items;
              },
            )
      | inl over ↦
          let n = t.table_size * 2 in
          let fresh = replicate n vacant in
          let width = length-replicate {A = Entry} n vacant in
          let (none_live, none_dead) = count-replicate n in
          let (result, run, f) =
            rehash-Filled es fresh (omega (arith, live, v.live, v.loaded, width, none_live))
              none_dead (λ j h' d' at. absurd (cc (get-replicate n j (used h' d') at))) in
          rw (over, run, add_at, resize_hash)
            (
              record {
                entries = result;
                table_size = n;
                num_entries = t.num_entries + 1;
                num_dead_entries = 0;
              },
              refl,
              record {
                valid = record {
                  sized = f.sized ∙ width;
                  power = (suc v.power.0, grind (arith, v.power.1));
                  live = omega (arith, f.live, none_live, live, v.live);
                  dead = f.dead;
                  loaded = omega (arith, v.loaded);
                  reached = f.reached;
                };
                counted = refl;
                items = λ h' d'. (
                  (λ k. elim ((f.items h' d').0 k) [
                    | inl o ↦ (items h' d').0 o
                    | inr z ↦ absurd (cc (get-replicate n z.0 (used h' d') z.1))
                  ]),
                  (λ k. (f.items h' d').1 (inl ((items h' d').1 k))),
                );
              },
            )
    ]

-- What mzHashTableLookup may answer: an item of the table with this hash value that compares equal;
-- NULL, or the item, now added, if there is no such item.
pub data Looked (t : HashTable) (h item : ℕ) (cmp : ℕ → ℕ → Bool) (do_add : Bool)
    : Result (Option ℕ × HashTable) → Type 0 where
  hit :
      (d : ℕ)
      → Has t.entries h d
      → cmp d item ≡ true
      → Looked t h item cmp do_add (done (some d, t))
  missing :
      do_add ≡ false
      → ((d : ℕ) → Has t.entries h d → cmp d item ≡ false)
      → Looked t h item cmp do_add (done (none, t))
  added :
      (t' : HashTable)
      → do_add ≡ true
      → ((d : ℕ) → Has t.entries h d → cmp d item ≡ false)
      → Adds t h item t'
      → Looked t h item cmp do_add (done (some item, t'))

matches-used :
    (cmp : ℕ → ℕ → Bool) (h item : ℕ) (e : Entry)
    → matches cmp h item e ≡ true
    → (d : ℕ) × (e ≡ used h d) × (cmp d item ≡ true)
unfolding matches
matches-used cmp h item vacant k = cc
matches-used cmp h item tombstone k = cc
matches-used cmp h item (used h' d) k =
    let same : h' ≡ h = ground arith in (d, ap (λ x. used x d) same, ground arith)

module _ (t : HashTable) (v : IsTable t) (hits : Entry → Bool) (h : ℕ) where
  -- The probe that an operation makes.
  abbrev pub run : Probe
  run = probe t.table_size hits t.entries (h % t.table_size)

  pub run-Stops : Stops hits t.entries (h % length t.entries) run
  run-Stops =
      let (w, hole) = has_vacant t v in
      let bound = get_lt w vacant t.entries hole in
      let inside = mod-lt h {m = length t.entries} (omega arith) in
      rw (sym v.sized) (
        probe-Stops hits t.entries (length t.entries) (h % length t.entries) w inside hole
          (ground arith))

  pub run-found : (d : ℕ) → Has t.entries h d → hits (used h d) ≡ true → ¬ IsFree hits t.entries run
  run-found d k passes = rw (sym v.sized) (
      probe-found hits t.entries (length t.entries) (used h d) (v.reached k.0 h d k.1) k.1
        (used-full h d) passes)

hit-false : (b : Bool) → ¬ (b ≡ true) → b ≡ false
hit-false true k = absurd (k refl)
hit-false false k = refl

matches_self :
    (cmp : ℕ → ℕ → Bool) (h item d : ℕ) → cmp d item ≡ true → matches cmp h item (used h d) ≡ true
unfolding matches
matches_self cmp h item d e = ground arith

free-Looked :
    (t : HashTable) (h item : ℕ) (cmp : ℕ → ℕ → Bool) (do_add : Bool) (i : ℕ)
    → IsTable t
    → get_elem? t.entries i ≡ some vacant
    → Reaches (length t.entries) t.entries (h % length t.entries) i
    → ((d : ℕ) → Has t.entries h d → cmp d item ≡ false)
    → Looked t h item cmp do_add (answer_lookup t h item do_add (free i))
unfolding answer_lookup with_item
free-Looked t h item cmp false i v empty way none_equal = missing refl none_equal
free-Looked t h item cmp true i v empty way none_equal =
    let (t', run, adds) = add_at-Adds t h item i v empty way in
    rw (run, with_item) (added t' refl none_equal adds)

answer_lookup-Looked :
    (t : HashTable) (h item : ℕ) (cmp : ℕ → ℕ → Bool) (do_add : Bool) (p : Probe)
    → IsTable t
    → Stops (matches cmp h item) t.entries (h % length t.entries) p
    → (IsFree (matches cmp h item) t.entries p → (d : ℕ) → Has t.entries h d → cmp d item ≡ false)
    → Looked t h item cmp do_add (answer_lookup t h item do_add p)
unfolding answer_lookup data_of
answer_lookup-Looked t h item cmp do_add (found i e) v s q =
    let (d, eq, same) = matches-used cmp h item e s.1 in
    rw (eq, data_of) (hit d (i, s.0 ∙ ap some eq) same)
answer_lookup-Looked t h item cmp do_add (free i) v s q =
    free-Looked t h item cmp do_add i v s.0 s.1 (q tt)
answer_lookup-Looked t h item cmp do_add outside v s q = absurd s
answer_lookup-Looked t h item cmp do_add running v s q = absurd s

-- On a table in order, whatever the comparison, mzHashTableLookup ends in the table's bounds. It
-- answers an item of the table with this hash value that compares equal; if there is none, it answers
-- NULL and changes nothing, or, with doAdd, adds the item and answers it: the table is in order again,
-- also where it was resized, and has just the items it had and the new one.
pub mz_hash_table_lookup-Looked :
    (t : HashTable) (item_hash item : ℕ) (cmp : ℕ → ℕ → Bool) (do_add : Bool)
    → IsTable t
    → Looked t item_hash item cmp do_add (mz_hash_table_lookup t item_hash item cmp do_add)
unfolding mz_hash_table_lookup
mz_hash_table_lookup-Looked t h item cmp do_add v =
    let hits = matches cmp h item in
    let stops = run-Stops t v hits h in
    let none_equal : IsFree hits t.entries (run t v hits h)
        → (d : ℕ) → Has t.entries h d
        → cmp d item ≡ false =
      λ f d k.
        hit-false (cmp d item) (λ e. run-found t v hits h d k (matches_self cmp h item d e) f) in
    answer_lookup-Looked t h item cmp do_add (run t v hits h) v stops none_equal
