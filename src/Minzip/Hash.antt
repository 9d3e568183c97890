-- ===== src/Minzip/Hash.antt =====
-- The open-addressing hash table of minzip/Hash.c, which holds the entries of an archive by name.
-- A pointer to an item is a number; `cmp a b` is whether cmpFunc answers 0. The size is a power of
-- two, so `& (size - 1)` is `% size`. Memory is never short.
mod Slots
pub mod Create
mod OrDigits
pub mod Rounding
pub mod Reach
pub mod Probing
pub mod Valid
pub mod Rehash
pub mod Contract
pub mod Removal
mod Tests
use sc7731_sc8830_bootable_r.Base.Int.{ℤ, pos, negsuc}
use sc7731_sc8830_bootable_r.Base.{
  ◌-◌, ℕ, zero, suc, ◌+◌, ◌*◌, ◌%◌, List, [], ◌∷◌, Option, none, some, Bool, true, false, ◌&&◌, ltb,
  ◌==◌, if◌then◌else◌, length, get_elem?, replicate,
}

-- HashEntry: `data` is NULL, HASH_TOMBSTONE, or an item with its hash value.
pub data Entry : Type 0 where
  vacant tombstone : Entry
  used : ℕ → ℕ → Entry

pub record HashTable : Type 0 where
  pub table_size : ℕ
  pub num_entries : ℕ
  pub num_dead_entries : ℕ
  pub entries : List Entry

-- Where a probe ends: at an entry that was looked for, at a vacant one, behind the last one (the
-- way out of a table of one entry), or never.
pub data Probe : Type 0 where
  found : ℕ → Entry → Probe
  free : ℕ → Probe
  outside running : Probe

-- What an operation comes to; `undefined` is a read behind the table.
pub data Result {ℓ} (A : Type ℓ) : Type ℓ where
  done : A → Result A
  undefined endless : Result A

unfoldable pub is_vacant : Entry → Bool
is_vacant vacant = true
is_vacant tombstone = false
is_vacant (used h d) = false

unfoldable pub data_of : Entry → Option ℕ
data_of vacant = none
data_of tombstone = none
data_of (used h d) = some d

-- pEntries[i] = e
unfoldable pub set_at : ℕ → Entry → List Entry → List Entry
set_at i e [] = []
set_at zero e (x ∷ es) = e ∷ es
set_at (suc i) e (x ∷ es) = x ∷ set_at i e es

-- The loop of mzHashTableLookup and of mzHashTableRemove from entry `i` on, up to an entry that
-- passes `hit`.
unfoldable pub probe : ℕ → (Entry → Bool) → List Entry → ℕ → Probe
unfolding is_vacant
probe zero hit es i = running
probe (suc fuel) hit es i =
    let first = probe fuel hit es 0 in
    let next = probe fuel hit es (i + 1) in
    elim (get_elem? es i) [
      | none ↦ outside
      | some e ↦
          if is_vacant e
          then free i
          else if hit e
          then found i e
          else if (i + 1) == length es
          then (if length es == 1 then outside else first)
          else next
    ]

-- `while (pNewEntries[newIdx].data != NULL) newIdx = (newIdx + 1) & (newSize-1);`
unfoldable pub free_slot : ℕ → List Entry → ℕ → Option ℕ
unfolding is_vacant
free_slot zero es i = none
free_slot (suc fuel) es i =
    let next = free_slot fuel es ((i + 1) % length es) in
    elim (get_elem? es i) [ none ↦ none | some e ↦ if is_vacant e then some i else next ]

-- The loop of resizeHash over the old entries.
unfoldable pub rehash : List Entry → List Entry → Option (List Entry)
rehash [] new = some new
rehash (vacant ∷ es) new = rehash es new
rehash (tombstone ∷ es) new = rehash es new
rehash (used h d ∷ es) new = elim (free_slot (length new) new (h % length new)) [
  | none ↦ none
  | some i ↦ rehash es (set_at i (used h d) new)
]

unfoldable pub resize_hash : HashTable → ℕ → Result HashTable
resize_hash t new_size = elim (rehash t.entries (replicate new_size vacant)) [
  | none ↦ endless
  | some new ↦ done (record t { entries = new; table_size = new_size; num_dead_entries = 0 })
]

-- The comparison of mzHashTableLookup, and that of mzHashTableRemove.
unfoldable pub matches : (ℕ → ℕ → Bool) → ℕ → ℕ → Entry → Bool
matches cmp item_hash item vacant = false
matches cmp item_hash item tombstone = false
matches cmp item_hash item (used h d) = (h == item_hash) && cmp d item

unfoldable pub is_item : ℕ → Entry → Bool
is_item item vacant = false
is_item item tombstone = false
is_item item (used h d) = d == item

-- What mzHashTableLookup does at the vacant entry `i` if doAdd is set; LOAD_NUMER is 5 and LOAD_DENOM 8.
unfoldable pub add_at : HashTable → ℕ → ℕ → ℕ → Result HashTable
add_at t item_hash item i =
    let t' : HashTable = record t {
      entries = set_at i (used item_hash item) t.entries;
      num_entries = t.num_entries + 1;
    } in
    if ltb (t'.table_size * 5) ((t'.num_entries + t'.num_dead_entries) * 8)
    then resize_hash t' (t'.table_size * 2)
    else done t'

unfoldable pub with_item : ℕ → Result HashTable → Result (Option ℕ × HashTable)
with_item item (done t) = done (some item, t)
with_item item undefined = undefined
with_item item endless = endless

-- What mzHashTableLookup does where its probe ends: the result (`none` is NULL) and the table.
unfoldable pub answer_lookup : HashTable → ℕ → ℕ → Bool → Probe → Result (Option ℕ × HashTable)
unfolding data_of with_item
answer_lookup t item_hash item do_add (found i e) = done (data_of e, t)
answer_lookup t item_hash item do_add (free i) =
    if do_add then with_item item (add_at t item_hash item i) else done (none, t)
answer_lookup t item_hash item do_add outside = undefined
answer_lookup t item_hash item do_add running = endless

-- A probe has as many rounds as there are entries.
unfoldable pub mz_hash_table_lookup :
    HashTable → ℕ → ℕ → (ℕ → ℕ → Bool) → Bool → Result (Option ℕ × HashTable)
mz_hash_table_lookup t item_hash item cmp do_add =
    answer_lookup t item_hash item do_add
      (probe t.table_size (matches cmp item_hash item) t.entries (item_hash % t.table_size))

-- What mzHashTableRemove does where its probe ends; the way out of a table of one entry is false.
unfoldable pub answer_remove : HashTable → Probe → Result (Bool × HashTable)
answer_remove t (found i e) = done (
  true,
  record t {
    entries = set_at i tombstone t.entries;
    num_entries = t.num_entries - 1;
    num_dead_entries = t.num_dead_entries + 1;
  },
)
answer_remove t (free i) = done (false, t)
answer_remove t outside = done (false, t)
answer_remove t running = endless

unfoldable pub mz_hash_table_remove : HashTable → ℕ → ℕ → Result (Bool × HashTable)
mz_hash_table_remove t item_hash item =
    answer_remove t (probe t.table_size (is_item item) t.entries (item_hash % t.table_size))

-- mzHashTableClear: the items handed to freeFunc, if there is one, and the table.
unfoldable pub clear_entries : List Entry → List ℕ × List Entry
clear_entries [] = ([], [])
clear_entries (vacant ∷ es) = let (freed, rest) = clear_entries es in (freed, vacant ∷ rest)
clear_entries (tombstone ∷ es) = let (freed, rest) = clear_entries es in (freed, vacant ∷ rest)
clear_entries (used h d ∷ es) = let (freed, rest) = clear_entries es in (d ∷ freed, vacant ∷ rest)

unfoldable pub mz_hash_table_clear : Bool → HashTable → List ℕ × HashTable
mz_hash_table_clear free_func t =
    let (freed, es) = clear_entries t.entries in
    (
      (if free_func then freed else []),
      record t { entries = es; num_entries = 0; num_dead_entries = 0 },
    )

-- mzHashForeach: `func` answers a number, and the first that is not 0 ends the walk.
unfoldable pub foreach_entries : {Ctx : Type 0} → (ℕ → Ctx → ℤ × Ctx) → List Entry → Ctx → ℤ × Ctx
foreach_entries func [] arg = (pos 0, arg)
foreach_entries func (vacant ∷ es) arg = foreach_entries func es arg
foreach_entries func (tombstone ∷ es) arg = foreach_entries func es arg
foreach_entries func (used h d ∷ es) arg =
    let (val, arg') = func d arg in
    let rest = foreach_entries func es arg' in
    elim val [ pos n ↦ if n == 0 then rest else (pos n, arg') | negsuc n ↦ (negsuc n, arg') ]
