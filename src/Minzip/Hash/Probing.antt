-- ===== src/Minzip/Hash/Probing.antt =====
-- Where the probing loops of minzip/Hash.c end.
use native.Mathlib.Nat.{mod-eq_of_lt, mod_self}
use sc7731_sc8830_bootable_r.Base.{
  ℕ, zero, suc, ◌+◌, ◌-◌, ◌%◌, ◌<◌, List, some, Bool, true, false, ◌≡◌, ◌≢◌, refl, ◌∙◌, ap, arith,
  length, get_elem?, ◌==◌, leb, if◌then◌else◌, Bool-cases, inl, inr,
}
use sc7731_sc8830_bootable_r.Minzip.Hash.{
  Entry, vacant, tombstone, used, Probe, found, free, outside, running, is_vacant, probe, free_slot,
}
use sc7731_sc8830_bootable_r.Minzip.Hash.Reach.{Reaches, here, past, next_index}
use sc7731_sc8830_bootable_r.Minzip.Hash.Slots.{get_lt, get_some}

-- How far the vacant entry `v` is from entry `i`.
abbrev pub distance : ℕ → ℕ → ℕ → ℕ
distance n i v = if leb i v then v - i else v + n - i

is_vacant-vacant : (e : Entry) → is_vacant e ≡ true → e ≡ vacant
unfolding is_vacant
is_vacant-vacant vacant h = refl
is_vacant-vacant tombstone h = cc
is_vacant-vacant (used k d) h = cc

is_vacant-full : (e : Entry) → is_vacant e ≡ false → e ≢ vacant
unfolding is_vacant
is_vacant-full vacant h = cc
is_vacant-full tombstone h = λ e. cc
is_vacant-full (used k d) h = λ e. cc

next_index-mod : (n i : ℕ) → i < n → (i + 1) % n ≡ next_index n i
next_index-mod n i inside = elim (Bool-cases ((i + 1) == n)) [
  | inl e ↦ let eq : i + 1 ≡ n = ground arith in rw (e, eq) (mod_self n)
  | inr e ↦ rw e (mod-eq_of_lt (ground arith))
]

module _ (hit : Entry → Bool) (es : List Entry) where
  -- The probe from `i` on ended at an entry that passes, or at a vacant one on its path.
  abbrev pub Stops : ℕ → Probe → Type 0
  Stops i (found j e) = (get_elem? es j ≡ some e) × (hit e ≡ true)
  Stops i (free j) = (get_elem? es j ≡ some vacant) × Reaches (length es) es i j
  Stops i outside = ⊥
  Stops i running = ⊥

  Stops-past :
      (i : ℕ) (e : Entry) (p : Probe)
      → get_elem? es i ≡ some e
      → e ≢ vacant
      → Stops (next_index (length es) i) p
      → Stops i p
  Stops-past i e (found j x) at full s = s
  Stops-past i e (free j) at full s = (s.0, past i j e at full s.1)
  Stops-past i e outside at full s = s
  Stops-past i e running at full s = s

  -- With a vacant entry in the table, the probe ends within as many rounds as there are entries.
  pub probe-Stops :
      (fuel i v : ℕ)
      → i < length es
      → get_elem? es v ≡ some vacant
      → distance (length es) i v < fuel
      → Stops i (probe fuel hit es i)
  unfolding probe
  probe-Stops zero i v inside hole near = absurd (omega arith)
  probe-Stops (suc fuel) i v inside hole near =
      let (e, at) = get_some i es inside in
      let bound = get_lt v vacant es hole in
      elim (Bool-cases (is_vacant e)) [
        | inl a ↦ let eq = is_vacant-vacant e a in rw (at, a, probe) (at ∙ ap some eq, here i)
        | inr a ↦
            let full = is_vacant-full e a in
            let ne : i ≢ v = λ k. full (cc) in
            elim (Bool-cases (hit e)) [
              | inl b ↦ rw (at, a, b, probe) (at, b)
              | inr b ↦ elim (Bool-cases ((i + 1) == length es)) [
                | inl c ↦
                    let many : (length es == 1) ≡ false = ground arith in
                    let rest = probe-Stops fuel 0 v (omega arith) hole (ground arith) in
                    let wrap : next_index (length es) i ≡ 0 = rw c refl in
                    rw (at, a, b, probe, c, many) (Stops-past i e _ at full (rw wrap rest))
                | inr c ↦
                    let rest = probe-Stops fuel (i + 1) v (ground arith) hole (ground arith) in
                    let step : next_index (length es) i ≡ i + 1 = rw c refl in
                    rw (at, a, b, probe, c) (Stops-past i e _ at full (rw step rest))
              ]
            ]
      ]

  abbrev pub IsFree : Probe → Type 0
  IsFree (free j) = Unit
  IsFree (found j e) = ⊥
  IsFree outside = ⊥
  IsFree running = ⊥

  -- A probe does not end at a vacant entry when an entry on its path passes.
  pub probe-found :
      (fuel : ℕ) {i k : ℕ} (x : Entry)
      → Reaches (length es) es i k
      → get_elem? es k ≡ some x
      → x ≢ vacant
      → hit x ≡ true
      → ¬ IsFree (probe fuel hit es i)
  unfolding probe
  probe-found zero x r at full passes = λ e. e
  probe-found (suc fuel) x (here i) at full passes =
      let solid : is_vacant x ≡ false = elim (Bool-cases (is_vacant x)) [
        | inl a ↦ absurd (full (is_vacant-vacant x a))
        | inr a ↦ a
      ] in
      rw (at, solid, passes, probe) (λ e. e)
  probe-found (suc fuel) x (past i k e here_at solid r) at full passes =
      let s : is_vacant e ≡ false = elim (Bool-cases (is_vacant e)) [
        | inl a ↦ absurd (solid (is_vacant-vacant e a))
        | inr a ↦ a
      ] in
      elim (Bool-cases (hit e)) [
        | inl b ↦ rw (here_at, s, b, probe) (λ z. z)
        | inr b ↦ elim (Bool-cases ((i + 1) == length es)) [
          | inl c ↦ elim (Bool-cases (length es == 1)) [
            | inl one ↦ rw (here_at, s, b, probe, c, one) (λ z. z)
            | inr one ↦
                rw (here_at, s, b, probe, c, one) (probe-found fuel x (rw c at r) at full passes)
          ]
          | inr c ↦ rw (here_at, s, b, probe, c) (probe-found fuel x (rw c at r) at full passes)
        ]
      ]

-- The loop of resizeHash ends at a vacant entry on the path.
pub free_slot_lem :
    (es : List Entry) (fuel i v : ℕ)
    → i < length es
    → get_elem? es v ≡ some vacant
    → distance (length es) i v < fuel
    → (j : ℕ) × (free_slot fuel es i ≡ some j)
      × (get_elem? es j ≡ some vacant)
      × Reaches (length es) es i j
unfolding free_slot
free_slot_lem es zero i v inside hole near = absurd (omega arith)
free_slot_lem es (suc fuel) i v inside hole near =
    let (e, at) = get_some i es inside in
    let bound = get_lt v vacant es hole in
    elim (Bool-cases (is_vacant e)) [
      | inl a ↦ rw (at, a, free_slot) (i, refl, at ∙ ap some (is_vacant-vacant e a), here i)
      | inr a ↦
          let full = is_vacant-full e a in
          let ne : i ≢ v = λ k. full (cc) in
          let step : (i + 1) % length es ≡ next_index (length es) i =
            next_index-mod (length es) i inside in
          let (j, run, empty, r) =
            free_slot_lem es fuel (next_index (length es) i) v (ground arith) hole (ground arith) in
          rw (at, a, step, free_slot) (j, run, empty, past i j e at full r)
    ]
