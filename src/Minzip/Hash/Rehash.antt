-- ===== src/Minzip/Hash/Rehash.antt =====
-- The array that resizeHash of minzip/Hash.c fills.
use sc7731_sc8830_bootable_r.Base.{
  ℕ, zero, suc, ◌+◌, ◌%◌, ◌<◌, List, [], ◌∷◌, some, ◌≡◌, refl, ◌∙◌, arith, length, get_elem?, ◌⊎◌,
  inl, inr, ◌↔◌,
}
use sc7731_sc8830_bootable_r.Minzip.Hash.{Entry, vacant, tombstone, used, set_at, rehash}
use sc7731_sc8830_bootable_r.Minzip.Hash.Probing.{free_slot_lem}
use sc7731_sc8830_bootable_r.Minzip.Hash.Slots.{
  length-set_at, count_live, count_dead, count_live-set_at, count_dead-set_at, vacant_slot, get_lt,
}
use sc7731_sc8830_bootable_r.Minzip.Hash.Valid.{Has, AllReached, AllReached-set_used, Has-set_used}

-- What holds of the array that is being filled.
pub record Filled (old new result : List Entry) : Type 0 where
  pub sized : length result ≡ length new
  pub live : count_live result ≡ count_live old + count_live new
  pub dead : count_dead result ≡ 0
  pub reached : AllReached result
  pub items : (h d : ℕ) → Has result h d ↔ (Has old h d ⊎ Has new h d)

Has-later : (e : Entry) (es : List Entry) (h d : ℕ) → Has es h d → Has (e ∷ es) h d
Has-later e es h d k = (suc k.0, k.1)

Has-split : (e : Entry) (es : List Entry) (h d : ℕ) → Has (e ∷ es) h d → (e ≡ used h d) ⊎ Has es h d
Has-split e es h d (zero, at) = inl (cc (at))
Has-split e es h d (suc j, at) = inr (j, at)

Filled-skip :
    (e : Entry) (es new result : List Entry)
    → count_live (e ∷ es) ≡ count_live es
    → ((h d : ℕ) → ¬ (e ≡ used h d))
    → Filled es new result
    → Filled (e ∷ es) new result
Filled-skip e es new result live other f = record {
  sized = f.sized;
  live = omega (arith, f.live, live);
  dead = f.dead;
  reached = f.reached;
  items = λ h d. (
    (λ k. elim ((f.items h d).0 k) [ inl o ↦ inl (Has-later e es h d o) | inr n ↦ inr n ]),
    (λ k. elim k [
      | inl o ↦ elim (Has-split e es h d o) [
        | inl eq ↦ absurd (other h d eq)
        | inr o' ↦ (f.items h d).1 (inl o')
      ]
      | inr n ↦ (f.items h d).1 (inr n)
    ]),
  );
}

Filled-put :
    (h d i : ℕ) (es new result : List Entry)
    → get_elem? new i ≡ some vacant
    → Filled es (set_at i (used h d) new) result
    → Filled (used h d ∷ es) new result
Filled-put h d i es new result empty f = record {
  sized = f.sized ∙ length-set_at i (used h d) new;
  live = omega (arith, f.live, count_live-set_at i (used h d) vacant new empty);
  dead = f.dead;
  reached = f.reached;
  items = λ h' d'. (
    (λ k. elim ((f.items h' d').0 k) [
      | inl o ↦ inl (Has-later (used h d) es h' d' o)
      | inr n ↦ elim ((Has-set_used new i h d h' d' empty).0 n) [
        | inl mine ↦ inl (zero, rw (mine.0, mine.1) refl)
        | inr old ↦ inr old
      ]
    ]),
    (λ k. elim k [
      | inl o ↦ elim (Has-split (used h d) es h' d' o) [
        | inl eq ↦
            (f.items h' d').1
              (inr ((Has-set_used new i h d h' d' empty).1 (inl (cc (eq), cc (eq)))))
        | inr o' ↦ (f.items h' d').1 (inl o')
      ]
      | inr n ↦ (f.items h' d').1 (inr ((Has-set_used new i h d h' d' empty).1 (inr n)))
    ]),
  );
}

-- With room for the live items of both arrays and one vacant entry, rehash ends, and fills.
pub rehash-Filled :
    (old new : List Entry)
    → count_live old + count_live new < length new
    → count_dead new ≡ 0
    → AllReached new
    → (result : List Entry) × (rehash old new ≡ some result) × Filled old new result
unfolding rehash
rehash-Filled [] new room dead reached = (
  new,
  refl,
  record {
    sized = refl;
    live = omega arith;
    dead = dead;
    reached = reached;
    items = λ h d. ((λ k. inr k), (λ k. elim k [ inl o ↦ absurd (cc (o.1)) | inr n ↦ n ]));
  },
)
rehash-Filled (vacant ∷ es) new room dead reached =
    let (result, run, f) = rehash-Filled es new (omega arith) dead reached in
    (result, run, Filled-skip vacant es new result (omega arith) (λ h d e. cc) f)
rehash-Filled (tombstone ∷ es) new room dead reached =
    let (result, run, f) = rehash-Filled es new (omega arith) dead reached in
    (result, run, Filled-skip tombstone es new result (omega arith) (λ h d e. cc) f)
rehash-Filled (used h d ∷ es) new room dead reached =
    let n = length new in
    let (v, hole) = vacant_slot new (omega arith) in
    let bound = get_lt v vacant new hole in
    let inside : h % n < n = omega arith in
    let (i, run, empty, way) = free_slot_lem new n (h % n) v inside hole (ground arith) in
    let live = count_live-set_at i (used h d) vacant new empty in
    let gone = count_dead-set_at i (used h d) vacant new empty in
    let long = length-set_at i (used h d) new in
    let (result, run', f) =
      rehash-Filled es (set_at i (used h d) new) (omega arith) (omega arith)
        (AllReached-set_used new i h d empty way reached) in
    (result, rw (run, rehash) run', Filled-put h d i es new result empty f)
