-- ===== src/Mtdutils/Write/Blocks.antt =====
-- write_block of mtdutils/mtdutils.c: the block it chooses, and the blocks it passes over.
use sc7731_sc8830_bootable_r.Base.{
  ℕ, zero, suc, ◌+◌, ◌*◌, ◌≤◌, ◌<◌, List, [], ◌∷◌, ◌++◌, true, false, some, ◌≡◌, ◌≢◌, refl, sym, ap,
  ◌∙◌, arith, leb, length, bytes_eq_iff, Bool-cases, Option-cases, inl, inr, append-nil,
  append_assoc,
}
use sc7731_sc8830_bootable_r.Mtdutils.Flash.{Flash, Partition}
use sc7731_sc8830_bootable_r.Mtdutils.Write.{
  ok, running, WriteContext, is_factory_bad, add_bad_block_offset, try_block, verify_there,
  write_there, place_block, write_loop, write_block,
}

-- The offsets of `k` blocks from `pos` on.
abbrev pub block_run : ℕ → ℕ → ℕ → List ℕ
block_run erase_size pos zero = []
block_run erase_size pos (suc k) = pos ∷ block_run erase_size (pos + erase_size) k

module _ (f : Flash) where
  open f use {Dev, seek, read}

  -- A read of the block at `pos`, on some state that the device was in, gave `bytes`.
  pub record ReadsBack (pos : ℕ) (bytes : List ℕ) (after : Dev) : Type 0 where
    pub before : Dev
    pub there : (seek before pos).0 ≡ true
    pub reads : read (seek before pos).1 (length bytes) ≡ (some bytes, after)

  verify-ReadsBack :
      (d : Dev) (pos : ℕ) (bytes : List ℕ)
      → (verify_there f d pos bytes).0 ≡ true
      → ReadsBack pos bytes (verify_there f d pos bytes).1
  unfolding verify_there
  verify-ReadsBack d pos bytes h =
      let r = read (seek d pos).1 (length bytes) in
      let there : (seek d pos).0 ≡ true = ground arith in
      elim (Option-cases r.0) [
        | inl e ↦ absurd (ground arith)
        | inr (v, e) ↦
            let same : bytes ≡ v = (bytes_eq_iff bytes v).0 (ground arith) in
            record {
              before = d;
              there = there;
              reads = rw (there, e) (λ i. (ap some (sym same) i, r.1));
            }
      ]

  try-ReadsBack :
      (d : Dev) (pos : ℕ) (bytes : List ℕ)
      → (try_block f d pos bytes).0 ≡ true
      → ReadsBack pos bytes (try_block f d pos bytes).1
  unfolding try_block
  try-ReadsBack d pos bytes h = elim (Bool-cases (f.erase d pos (length bytes)).0) [
    | inl e ↦ rw e (
        verify-ReadsBack (write_there f (f.erase d pos (length bytes)).1 pos bytes) pos bytes
          (rw e at h))
    | inr e ↦ absurd (ground arith)
  ]

  module _ (p : Partition) where
    -- The block went to `k` blocks behind `pos`, within the partition, and the blocks passed over are
    -- noted, in order. The buffer is as it was.
    pub record Placed (ctx : WriteContext f) (pos : ℕ) (bytes : List ℕ) (after : WriteContext f)
        : Type 0 where
      pub skipped : ℕ
      pub inside : pos + skipped * p.erase_size + p.erase_size ≤ p.size
      pub noted :
          after.bad_block_offsets ≡ ctx.bad_block_offsets ++ block_run p.erase_size pos skipped
      pub kept : after.buffer ≡ ctx.buffer
      pub reads : ReadsBack (pos + skipped * p.erase_size) bytes after.dev

    place_true :
        (ctx : WriteContext f) (pos : ℕ) (bytes : List ℕ)
        → (place_block f p ctx pos bytes).0 ≡ true
        → ReadsBack pos bytes (place_block f p ctx pos bytes).1.dev
          × ((place_block f p ctx pos bytes).1.bad_block_offsets ≡ ctx.bad_block_offsets)
          × ((place_block f p ctx pos bytes).1.buffer ≡ ctx.buffer)
    unfolding place_block
    place_true ctx pos bytes h =
        let d = (f.bad_block ctx.dev pos).1 in
        let t = try_block f d pos bytes in
        let t' = try_block f t.1 pos bytes in
        elim (Bool-cases (is_factory_bad (f.bad_block ctx.dev pos).0)) [
          | inl e ↦ absurd (ground arith)
          | inr e ↦ elim (Bool-cases t.0) [
            | inl a ↦ rw (e, a) (try-ReadsBack d pos bytes a, refl, refl)
            | inr a ↦ elim (Bool-cases t'.0) [
              | inl b ↦ rw (e, a, b) (try-ReadsBack t.1 pos bytes b, refl, refl)
              | inr b ↦ absurd (ground arith)
            ]
          ]
        ]

    place_false :
        (ctx : WriteContext f) (pos : ℕ) (bytes : List ℕ)
        → (place_block f p ctx pos bytes).0 ≡ false
        → ((place_block f p ctx pos bytes).1.bad_block_offsets ≡ ctx.bad_block_offsets ++ pos ∷ [])
          × ((place_block f p ctx pos bytes).1.buffer ≡ ctx.buffer)
    unfolding place_block add_bad_block_offset
    place_false ctx pos bytes h = ground arith

    write_loop-Placed :
        (fuel : ℕ) (ctx : WriteContext f) (pos : ℕ) (bytes : List ℕ)
        → (write_loop f p fuel ctx pos bytes).0 ≡ ok
        → Placed ctx pos bytes (write_loop f p fuel ctx pos bytes).1
    unfolding write_loop
    write_loop-Placed zero ctx pos bytes h = cc
    write_loop-Placed (suc fuel) ctx pos bytes h =
        elim (Bool-cases (leb (pos + p.erase_size) p.size)) [
          | inr e ↦ absurd (ground arith)
          | inl e ↦ elim (Bool-cases (place_block f p ctx pos bytes).0) [
            | inl a ↦
                let (back, same, kept) = place_true ctx pos bytes a in
                rw (e, a)
                  (record {
                    skipped = 0;
                    inside = ground arith;
                    noted = same ∙ sym (append-nil ctx.bad_block_offsets);
                    kept = kept;
                    reads = (let z : pos + 0 * p.erase_size ≡ pos = omega arith in rw z back);
                  })
            | inr a ↦
                let (one, kept) = place_false ctx pos bytes a in
                let v =
                  write_loop-Placed fuel (place_block f p ctx pos bytes).1 (pos + p.erase_size)
                    bytes (ground arith) in
                let far : pos + suc v.skipped * p.erase_size
                    ≡ pos + p.erase_size + v.skipped * p.erase_size =
                  grind arith in
                rw (e, a)
                  (record {
                    skipped = suc v.skipped;
                    inside = rw far v.inside;
                    noted =
                        v.noted
                        ∙ ap (λ l. l ++ block_run p.erase_size (pos + p.erase_size) v.skipped) one
                        ∙ append_assoc ctx.bad_block_offsets (pos ∷ []) _;
                    kept = v.kept ∙ kept;
                    reads = rw far v.reads;
                  })
          ]
        ]

    -- A write_block that succeeds, with the device at `pos`, put the data some whole blocks behind
    -- `pos`: that block lies in the partition, a read of it gave the data, and exactly the blocks
    -- passed over before it were added to the bad ones, in order. The buffer is as it was.
    pub write_block-Placed :
        (ctx : WriteContext f) (pos : ℕ) (bytes : List ℕ)
        → f.tell ctx.dev ≡ some pos
        → (write_block f p ctx bytes).0 ≡ ok
        → Placed ctx pos bytes (write_block f p ctx bytes).1
    unfolding write_block
    write_block-Placed ctx pos bytes here h =
        rw (here, write_block)
          (write_loop-Placed (p.size + 1) ctx pos bytes (rw (here, write_block) at h))

    write_loop_ends :
        (fuel : ℕ) (ctx : WriteContext f) (pos : ℕ) (bytes : List ℕ)
        → 0 < p.erase_size
        → 0 < fuel
        → p.size < pos + fuel
        → (write_loop f p fuel ctx pos bytes).0 ≢ running
    unfolding write_loop
    write_loop_ends zero ctx pos bytes e some_left enough = absurd (omega arith)
    write_loop_ends (suc fuel) ctx pos bytes e some_left enough =
        ground
          (arith, write_loop_ends fuel (place_block f p ctx pos bytes).1 (pos + p.erase_size) bytes)

    -- write_block comes to an end where the erase size is not 0: the rounds given to its loop are
    -- enough.
    pub write_block_ends :
        (ctx : WriteContext f) (bytes : List ℕ)
        → 0 < p.erase_size
        → (write_block f p ctx bytes).0 ≢ running
    unfolding write_block
    write_block_ends ctx bytes e = elim (Option-cases (f.tell ctx.dev)) [
      | inl none_left ↦ rw (none_left, write_block) cc
      | inr (pos, here) ↦
          rw (here, write_block)
            (write_loop_ends (p.size + 1) ctx pos bytes e (omega arith) (omega arith))
    ]
