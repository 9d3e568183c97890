-- ===== src/Minzip/Hash/Reach.antt =====
-- The path of a probe in the table of minzip/Hash.c: the entries that are not vacant, one behind the
-- other, with the first behind the last.
use sc7731_sc8830_bootable_r.Base.{
  ℕ, ◌+◌, List, some, ◌≡◌, ◌≢◌, sym, ◌∙◌, arith, get_elem?, ◌==◌, if◌then◌else◌, Bool-cases, inl,
  inr,
}
use sc7731_sc8830_bootable_r.Minzip.Hash.{Entry, vacant, set_at}
use sc7731_sc8830_bootable_r.Minzip.Hash.Slots.{get-set_at, get-set_at_other}

abbrev pub next_index : ℕ → ℕ → ℕ
next_index n i = if (i + 1) == n then 0 else i + 1

-- From entry `i` the probe comes to entry `j`, through entries that are not vacant.
pub data Reaches (n : ℕ) (es : List Entry) : ℕ → ℕ → Type 0 where
  here : (i : ℕ) → Reaches n es i i
  past :
      (i j : ℕ) (e : Entry)
      → get_elem? es i ≡ some e
      → e ≢ vacant
      → Reaches n es (next_index n i) j
      → Reaches n es i j

-- An assignment of an entry that is not vacant cuts no path.
pub Reaches-set_at :
    {n : ℕ} {es : List Entry} (k : ℕ) (e x : Entry)
    → e ≢ vacant
    → get_elem? es k ≡ some x
    → {i j : ℕ} → Reaches n es i j
    → Reaches n (set_at k e es) i j
Reaches-set_at k e x solid old (here i) = here i
Reaches-set_at {n = n} {es = es} k e x solid old (past i j y at full r) =
    elim (Bool-cases (k == i)) [
      | inl same ↦
          let eq : k ≡ i = ground arith in
          let at' : get_elem? (set_at k e es) i ≡ some e = rw (sym eq) (get-set_at k e x es old) in
          past i j e at' solid (Reaches-set_at k e x solid old r)
      | inr other ↦
          let ne : k ≢ i = ground arith in
          past i j y (get-set_at_other k i e es ne ∙ at) full (Reaches-set_at k e x solid old r)
    ]
