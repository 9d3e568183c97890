-- ===== src/Minzip/Hash/Slots.antt =====
-- The array of the hash table of minzip/Hash.c: an assignment to an entry, and the numbers of live,
-- dead and vacant entries.
use sc7731_sc8830_bootable_r.Base.{
  ℕ, zero, suc, ◌+◌, ◌<◌, List, [], ◌∷◌, some, ◌≡◌, ◌≢◌, refl, arith, ap, length, get_elem?,
  replicate,
}
use sc7731_sc8830_bootable_r.Minzip.Hash.{Entry, vacant, tombstone, used, set_at}

pub length-set_at : (i : ℕ) (e : Entry) (es : List Entry) → length (set_at i e es) ≡ length es
unfolding set_at
length-set_at i e [] = refl
length-set_at zero e (x ∷ es) = refl
length-set_at (suc i) e (x ∷ es) = ap suc (length-set_at i e es)

pub get-set_at :
    (i : ℕ) (e x : Entry) (es : List Entry)
    → get_elem? es i ≡ some x
    → get_elem? (set_at i e es) i ≡ some e
unfolding set_at
get-set_at i e x [] h = cc
get-set_at zero e x (y ∷ es) h = refl
get-set_at (suc i) e x (y ∷ es) h = get-set_at i e x es h

pub get-set_at_other :
    (i j : ℕ) (e : Entry) (es : List Entry) → i ≢ j → get_elem? (set_at i e es) j ≡ get_elem? es j
unfolding set_at
get-set_at_other i j e [] h = refl
get-set_at_other zero zero e (y ∷ es) h = absurd (h refl)
get-set_at_other zero (suc j) e (y ∷ es) h = refl
get-set_at_other (suc i) zero e (y ∷ es) h = refl
get-set_at_other (suc i) (suc j) e (y ∷ es) h = get-set_at_other i j e es (λ k. h (ap suc k))

pub get_lt : (i : ℕ) (x : Entry) (es : List Entry) → get_elem? es i ≡ some x → i < length es
get_lt i x [] h = cc
get_lt zero x (y ∷ es) h = omega arith
get_lt (suc i) x (y ∷ es) h = omega (arith, get_lt i x es h)

pub get_some : (i : ℕ) (es : List Entry) → i < length es → (x : Entry) × (get_elem? es i ≡ some x)
get_some i [] h = absurd (omega arith)
get_some zero (y ∷ es) h = (y, refl)
get_some (suc i) (y ∷ es) h = get_some i es (omega arith)

abbrev live_one : Entry → ℕ
live_one vacant = 0
live_one tombstone = 0
live_one (used h d) = 1

abbrev dead_one : Entry → ℕ
dead_one vacant = 0
dead_one tombstone = 1
dead_one (used h d) = 0

abbrev pub count_live : List Entry → ℕ
count_live [] = 0
count_live (e ∷ es) = live_one e + count_live es

abbrev pub count_dead : List Entry → ℕ
count_dead [] = 0
count_dead (e ∷ es) = dead_one e + count_dead es

pub count_live-set_at :
    (i : ℕ) (e x : Entry) (es : List Entry)
    → get_elem? es i ≡ some x
    → count_live (set_at i e es) + live_one x ≡ count_live es + live_one e
unfolding set_at
count_live-set_at i e x [] h = cc
count_live-set_at zero e x (y ∷ es) h = ground arith
count_live-set_at (suc i) e x (y ∷ es) h = omega (arith, count_live-set_at i e x es h)

pub count_dead-set_at :
    (i : ℕ) (e x : Entry) (es : List Entry)
    → get_elem? es i ≡ some x
    → count_dead (set_at i e es) + dead_one x ≡ count_dead es + dead_one e
unfolding set_at
count_dead-set_at i e x [] h = cc
count_dead-set_at zero e x (y ∷ es) h = ground arith
count_dead-set_at (suc i) e x (y ∷ es) h = omega (arith, count_dead-set_at i e x es h)

-- With fewer entries in use than the table has, one is vacant.
pub vacant_slot :
    (es : List Entry)
    → count_live es + count_dead es < length es
    → (v : ℕ) × (get_elem? es v ≡ some vacant)
vacant_slot [] h = absurd (omega arith)
vacant_slot (vacant ∷ es) h = (0, refl)
vacant_slot (tombstone ∷ es) h = let (v, e) = vacant_slot es (omega arith) in (suc v, e)
vacant_slot (used k d ∷ es) h = let (v, e) = vacant_slot es (omega arith) in (suc v, e)

pub count-replicate :
    (n : ℕ) → (count_live (replicate n vacant) ≡ 0) × (count_dead (replicate n vacant) ≡ 0)
count-replicate zero = (refl, refl)
count-replicate (suc n) =
    let (live, dead) = count-replicate n in (omega (arith, live), omega (arith, dead))

pub get-replicate : (n i : ℕ) (x : Entry) → get_elem? (replicate n vacant) i ≡ some x → x ≡ vacant
get-replicate zero i x h = cc
get-replicate (suc n) zero x h = cc
get-replicate (suc n) (suc i) x h = get-replicate n i x h
