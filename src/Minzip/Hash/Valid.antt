-- ===== src/Minzip/Hash/Valid.antt =====
-- The invariant of the table of minzip/Hash.c: its counts, its load, and the path to each item from its
-- hash value.
use sc7731_sc8830_bootable_r.Base.{
  ℕ, zero, suc, ◌+◌, ◌*◌, ◌%◌, ◌^◌, ◌≤◌, ◌<◌, List, some, ◌≡◌, ◌≢◌, sym, ◌∙◌, arith, length,
  get_elem?, ◌==◌, Bool-cases, ◌⊎◌, inl, inr, ◌↔◌,
}
use sc7731_sc8830_bootable_r.Minzip.Hash.{Entry, vacant, tombstone, used, HashTable, set_at}
use sc7731_sc8830_bootable_r.Minzip.Hash.Reach.{Reaches, Reaches-set_at}
use sc7731_sc8830_bootable_r.Minzip.Hash.Slots.{
  length-set_at, get-set_at, get-set_at_other, count_live, count_dead, vacant_slot,
}

-- An item with its hash value is in the array.
abbrev pub Has : List Entry → ℕ → ℕ → Type 0
Has es h d = (j : ℕ) × (get_elem? es j ≡ some (used h d))

-- A probe for an item comes to it from the entry that its hash value names.
abbrev pub AllReached : List Entry → Type 0
AllReached es =
    (j h d : ℕ) → get_elem? es j ≡ some (used h d) → Reaches (length es) es (h % length es) j

-- The table's invariant.
pub record IsTable (t : HashTable) : Type 0 where
  pub sized : length t.entries ≡ t.table_size
  pub power : (k : ℕ) × (t.table_size ≡ 2 ^ k)
  pub live : count_live t.entries ≡ t.num_entries
  pub dead : count_dead t.entries ≡ t.num_dead_entries
  pub loaded : (t.num_entries + t.num_dead_entries) * 8 ≤ t.table_size * 5
  pub reached : AllReached t.entries

power_positive : (k : ℕ) → 0 < 2 ^ k
power_positive zero = omega arith
power_positive (suc k) = grind (arith, power_positive k)

pub size_positive : (t : HashTable) → IsTable t → 0 < t.table_size
size_positive t v = let (k, e) = v.power in omega (arith, e, power_positive k)

pub has_vacant : (t : HashTable) → IsTable t → (i : ℕ) × (get_elem? t.entries i ≡ some vacant)
has_vacant t v =
    let pos = size_positive t v in
    vacant_slot t.entries (omega (arith, v.live, v.dead, v.loaded, v.sized))

pub used-full : (h d : ℕ) → used h d ≢ vacant
used-full h d = λ e. cc

pub tombstone-full : tombstone ≢ vacant
tombstone-full = λ e. cc

module _ (es : List Entry) (i : ℕ) where
  -- An item put at a vacant entry on its path leaves all items reached.
  pub AllReached-set_used :
      (h d : ℕ)
      → get_elem? es i ≡ some vacant
      → Reaches (length es) es (h % length es) i
      → AllReached es
      → AllReached (set_at i (used h d) es)
  AllReached-set_used h d empty way all j h' d' at =
      let keep : (a b : ℕ)
          → Reaches (length es) es a b
          → Reaches (length es) (set_at i (used h d) es) a b =
        λ a b r. Reaches-set_at i (used h d) vacant (used-full h d) empty r in
      rw (length-set_at i (used h d) es) (elim (Bool-cases (i == j)) [
        | inl same ↦
            let eq : i ≡ j = ground arith in
            let mine : used h d ≡ used h' d' =
              cc (get-set_at i (used h d) vacant es empty, eq, at) in
            let hash : h ≡ h' = cc (mine) in rw (sym hash, sym eq) (keep _ _ way)
        | inr other ↦
            keep _ _ (all j h' d' (sym (get-set_at_other i j (used h d) es (ground arith)) ∙ at))
      ])

  -- So does a tombstone put in place of an item.
  pub AllReached-set_tombstone :
      (x : Entry) → get_elem? es i ≡ some x → AllReached es → AllReached (set_at i tombstone es)
  AllReached-set_tombstone x old all j h' d' at =
      rw (length-set_at i tombstone es) (elim (Bool-cases (i == j)) [
        | inl same ↦
            let eq : i ≡ j = ground arith in absurd (cc (get-set_at i tombstone x es old, eq, at))
        | inr other ↦
            Reaches-set_at i tombstone x tombstone-full old
              (all j h' d' (sym (get-set_at_other i j tombstone es (ground arith)) ∙ at))
      ])

  -- The items after an assignment to a vacant entry are the items before and the new one.
  pub Has-set_used :
      (h d h' d' : ℕ)
      → get_elem? es i ≡ some vacant
      → Has (set_at i (used h d) es) h' d' ↔ (((h' ≡ h) × (d' ≡ d)) ⊎ Has es h' d')
  Has-set_used h d h' d' empty = (
    (λ k.
        let (j, at) = k in
        elim (Bool-cases (i == j)) [
          | inl same ↦
              let eq : i ≡ j = ground arith in
              let mine : used h d ≡ used h' d' =
                cc (get-set_at i (used h d) vacant es empty, eq, at) in
              inl (cc (mine), cc (mine))
          | inr other ↦ inr (j, sym (get-set_at_other i j (used h d) es (ground arith)) ∙ at)
        ]),
    (λ k. elim k [
      | inl new ↦ (i, rw (new.0, new.1) (get-set_at i (used h d) vacant es empty))
      | inr old ↦
          let ne : i ≢ old.0 = λ e. absurd (cc (e, empty, old.1)) in
          (old.0, get-set_at_other i old.0 (used h d) es ne ∙ old.1)
    ]),
  )
