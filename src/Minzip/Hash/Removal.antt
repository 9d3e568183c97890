-- ===== src/Minzip/Hash/Removal.antt =====
-- mzHashTableRemove and mzHashTableClear of minzip/Hash.c against the view of a table as a set of items.
use sc7731_sc8830_bootable_r.Base.{
  ℕ, zero, suc, ◌+◌, ◌-◌, ◌%◌, List, [], ◌∷◌, some, Bool, true, false, ◌≡◌, ◌≢◌, refl, sym, ◌∙◌, ap,
  arith, length, get_elem?, ◌==◌, Bool-cases, inl, inr, if◌then◌else◌,
}
use sc7731_sc8830_bootable_r.Minzip.Hash.{
  Entry, vacant, tombstone, used, HashTable, Probe, found, free, outside, running, Result, done,
  set_at, is_item, answer_remove, mz_hash_table_remove, clear_entries, mz_hash_table_clear,
}
use sc7731_sc8830_bootable_r.Minzip.Hash.Contract.{run, run-Stops, run-found}
use sc7731_sc8830_bootable_r.Minzip.Hash.Probing.{Stops, IsFree}
use sc7731_sc8830_bootable_r.Minzip.Hash.Slots.{
  length-set_at, get-set_at, get-set_at_other, count_live, count_dead, count_live-set_at,
  count_dead-set_at,
}
use sc7731_sc8830_bootable_r.Minzip.Hash.Valid.{Has, IsTable, AllReached-set_tombstone}

-- What mzHashTableRemove may answer: true, with one entry of the item gone from the table and all
-- other items left; or false, if the table does not have the item with this hash value.
pub data Removed (t : HashTable) (h item : ℕ) : Result (Bool × HashTable) → Type 0 where
  gone :
      (t' : HashTable) (hash : ℕ)
      → Has t.entries hash item
      → IsTable t'
      → t'.num_entries + 1 ≡ t.num_entries
      → ((h' d' : ℕ) → Has t'.entries h' d' → Has t.entries h' d')
      → ((h' d' : ℕ) → d' ≢ item → Has t.entries h' d' → Has t'.entries h' d')
      → Removed t h item (done (true, t'))
  absent : ¬ Has t.entries h item → Removed t h item (done (false, t))

is_item-used : (item : ℕ) (e : Entry) → is_item item e ≡ true → (hash : ℕ) × (e ≡ used hash item)
unfolding is_item
is_item-used item vacant k = cc
is_item-used item tombstone k = cc
is_item-used item (used h d) k = let same : d ≡ item = ground arith in (h, ap (λ x. used h x) same)

is_item_self : (item h : ℕ) → is_item item (used h item) ≡ true
unfolding is_item
is_item_self item h = ground arith

found-Removed :
    (t : HashTable) (h item i hash : ℕ)
    → IsTable t
    → get_elem? t.entries i ≡ some (used hash item)
    → Removed t h item (answer_remove t (found i (used hash item)))
unfolding answer_remove
found-Removed t h item i hash v at =
    let es = set_at i tombstone t.entries in
    let live = count_live-set_at i tombstone (used hash item) t.entries at in
    let dead = count_dead-set_at i tombstone (used hash item) t.entries at in
    let one : (t.num_entries - 1) + 1 ≡ t.num_entries = omega (arith, live, v.live) in
    gone
      (record t {
        entries = es;
        num_entries = t.num_entries - 1;
        num_dead_entries = t.num_dead_entries + 1;
      })
      hash (i, at)
      (record {
        sized = length-set_at i tombstone t.entries ∙ v.sized;
        power = v.power;
        live = omega (arith, live, v.live);
        dead = omega (arith, dead, v.dead);
        loaded = omega (arith, one, v.loaded);
        reached = AllReached-set_tombstone t.entries i (used hash item) at v.reached;
      })
      one
      (λ h' d' k. elim (Bool-cases (i == k.0)) [
        | inl same ↦
            let eq : i ≡ k.0 = ground arith in
            absurd (cc (get-set_at i tombstone (used hash item) t.entries at, eq, k.1))
        | inr other ↦ (k.0, sym (get-set_at_other i k.0 tombstone t.entries (ground arith)) ∙ k.1)
      ])
      (λ h' d' ne k.
        let apart : i ≢ k.0 = λ eq. ne (cc (eq, at, k.1)) in
        (k.0, get-set_at_other i k.0 tombstone t.entries apart ∙ k.1))

answer_remove-Removed :
    (t : HashTable) (h item : ℕ) (p : Probe)
    → IsTable t
    → Stops (is_item item) t.entries (h % length t.entries) p
    → (IsFree (is_item item) t.entries p → ¬ Has t.entries h item)
    → Removed t h item (answer_remove t p)
unfolding answer_remove
answer_remove-Removed t h item (found i e) v s q =
    let (hash, eq) = is_item-used item e s.1 in found-Removed t h item i hash v (s.0 ∙ ap some eq)
answer_remove-Removed t h item (free i) v s q = absent (q tt)
answer_remove-Removed t h item outside v s q = absurd s
answer_remove-Removed t h item running v s q = absurd s

-- On a table in order mzHashTableRemove ends in the table's bounds. It answers true, and one entry of
-- the item is gone, the table is in order and all other items are left; or it answers false, the
-- table is as it was and does not have the item with this hash value.
pub mz_hash_table_remove-Removed :
    (t : HashTable) (item_hash item : ℕ)
    → IsTable t
    → Removed t item_hash item (mz_hash_table_remove t item_hash item)
unfolding mz_hash_table_remove
mz_hash_table_remove-Removed t h item v =
    let hits = is_item item in
    answer_remove-Removed t h item (run t v hits h) v (run-Stops t v hits h)
      (λ f k. run-found t v hits h item k (is_item_self item h) f)

-- What clear_entries gives: vacant entries only, and every item freed.
record Cleared (es : List Entry) : Type 0 where
  same_length : length (clear_entries es).1 ≡ length es
  live : count_live (clear_entries es).1 ≡ 0
  dead : count_dead (clear_entries es).1 ≡ 0
  empty : (h d : ℕ) → ¬ Has (clear_entries es).1 h d
  freed : length (clear_entries es).0 ≡ count_live es

Cleared-cons_vacant :
    (es : List Entry) (rest : List Entry)
    → ((h d : ℕ) → ¬ Has rest h d)
    → (h d : ℕ) → ¬ Has (vacant ∷ rest) h d
Cleared-cons_vacant es rest no_item h d (zero, at) = cc
Cleared-cons_vacant es rest no_item h d (suc j, at) = no_item h d (j, at)

clear_entries-Cleared : (es : List Entry) → Cleared es
unfolding clear_entries
clear_entries-Cleared [] = record {
  same_length = refl;
  live = refl;
  dead = refl;
  empty = λ h d k. cc (k.1);
  freed = refl;
}
clear_entries-Cleared (e ∷ es) =
    let c = clear_entries-Cleared es in
    elim e as (λ e. Cleared (e ∷ es)) [
      | vacant ↦ record {
        same_length = ap suc c.same_length;
        live = omega (arith, c.live);
        dead = omega (arith, c.dead);
        empty = Cleared-cons_vacant es _ c.empty;
        freed = omega (arith, c.freed);
      }
      | tombstone ↦ record {
        same_length = ap suc c.same_length;
        live = omega (arith, c.live);
        dead = omega (arith, c.dead);
        empty = Cleared-cons_vacant es _ c.empty;
        freed = omega (arith, c.freed);
      }
      | used h d ↦ record {
        same_length = ap suc c.same_length;
        live = omega (arith, c.live);
        dead = omega (arith, c.dead);
        empty = Cleared-cons_vacant es _ c.empty;
        freed = omega (arith, c.freed);
      }
    ]

-- mzHashTableClear of a table in order leaves a table in order, of the same size, with no item; and
-- where there is a freeFunc, it is called as often as there were items.
pub mz_hash_table_clear-IsTable :
    (t : HashTable) (free_func : Bool)
    → IsTable t
    → IsTable (mz_hash_table_clear free_func t).1
      × ((mz_hash_table_clear free_func t).1.table_size ≡ t.table_size)
      × ((h d : ℕ) → ¬ Has (mz_hash_table_clear free_func t).1.entries h d)
      × (length (mz_hash_table_clear free_func t).0 ≡ (if free_func then t.num_entries else 0))
unfolding mz_hash_table_clear
mz_hash_table_clear-IsTable t free_func v =
    let c = clear_entries-Cleared t.entries in
    (
      record {
        sized = c.same_length ∙ v.sized;
        power = v.power;
        live = c.live;
        dead = c.dead;
        loaded = omega arith;
        reached = λ j h d at. absurd (c.empty h d (j, at));
      },
      refl,
      c.empty,
      elim free_func
          as (λ b.
            length (if b then (clear_entries t.entries).0 else [])
            ≡ (if b then t.num_entries else 0)) [ true ↦ c.freed ∙ v.live | false ↦ refl ],
    )
