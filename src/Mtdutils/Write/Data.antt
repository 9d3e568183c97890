-- ===== src/Mtdutils/Write/Data.antt =====
-- mtd_write_data of mtdutils/mtdutils.c as a whole, and the padding before the partition is closed.
use mathlib.Core.List.{flatten}
use sc7731_sc8830_bootable_r.Base.{
  ℕ, zero, suc, ◌+◌, ◌-◌, ◌≤◌, ◌<◌, List, [], ◌∷◌, ◌++◌, ◌≡◌, ◌≢◌, refl, sym, ap, ◌∙◌, arith, ltb,
  length, take, drop, replicate, Bool-cases, inl, inr, append-nil, append_assoc, length-drop,
  length-append, length-replicate,
}
use sc7731_sc8830_bootable_r.Mtdutils.Flash.{Flash, Partition}
use sc7731_sc8830_bootable_r.Mtdutils.Write.Blocks.{write_block_ends}
use sc7731_sc8830_bootable_r.Mtdutils.Write.Stream.{
  All-append_one, flatten-append_one, wrote, held, Holds, Holds-refl, write_round-Holds,
}
use sc7731_sc8830_bootable_r.Mtdutils.Write.{
  Status-cases, ok, running, WriteContext, write_block, write_whole, coalesce, flush_full,
  write_round, write_rounds, mtd_write_data, pad_pending,
}

module _ (f : Flash) (p : Partition) where
  write_rounds-Holds :
      (fuel : ℕ) (start ctx : WriteContext f) (given bytes : List ℕ)
      → 0 < p.erase_size
      → Holds f p start given ctx
      → length ctx.buffer < p.erase_size
      → (write_rounds f p fuel ctx bytes).0 ≡ ok
      → Holds f p start (given ++ bytes) (write_rounds f p fuel ctx bytes).1
        × (length (write_rounds f p fuel ctx bytes).1.buffer < p.erase_size)
  unfolding write_rounds
  write_rounds-Holds zero start ctx given [] pos h small done = (rw (append-nil given) h, small)
  write_rounds-Holds (suc fuel) start ctx given [] pos h small done =
      (rw (append-nil given) h, small)
  write_rounds-Holds zero start ctx given (b ∷ bytes) pos h small done = cc
  write_rounds-Holds (suc fuel) start ctx given (b ∷ bytes) pos h small done =
      let r = write_round f p ctx (b ∷ bytes) in
      let went : r.0 ≡ ok = ground arith in
      let (fed, whole, h₁, small₁, _) =
        write_round-Holds f p start ctx given (b ∷ bytes) pos (omega arith) h small went in
      let (h₂, small₂) =
        write_rounds-Holds fuel start r.1 (given ++ fed) r.2 pos h₁ small₁
          (rw (went, write_rounds) at done) in
      let all : (given ++ fed) ++ r.2 ≡ given ++ b ∷ bytes =
        append_assoc given fed r.2 ∙ ap (λ l. given ++ l) whole in
      rw (went, write_rounds) (rw all at h₂, small₂)

  -- Where the erase size is not 0 and the buffer holds less than a block, a mtd_write_data that
  -- succeeds extends the stream by exactly its data: if what was given so far is the whole blocks
  -- written by successful calls of write_block, in order, and then the buffer, so it is with the data
  -- added, and the buffer again holds less than a block.
  pub mtd_write_data-Holds :
      (start ctx : WriteContext f) (given bytes : List ℕ)
      → 0 < p.erase_size
      → Holds f p start given ctx
      → length ctx.buffer < p.erase_size
      → (mtd_write_data f p ctx bytes).0 ≡ ok
      → Holds f p start (given ++ bytes) (mtd_write_data f p ctx bytes).1
        × (length (mtd_write_data f p ctx bytes).1.buffer < p.erase_size)
  unfolding mtd_write_data
  mtd_write_data-Holds start ctx given bytes =
      write_rounds-Holds (length bytes) start ctx given bytes

  write_whole_ends :
      (fuel : ℕ) (ctx : WriteContext f) (bytes : List ℕ)
      → 0 < p.erase_size
      → length bytes < fuel
      → (write_whole f p fuel ctx bytes).0 ≢ running
  unfolding write_whole
  write_whole_ends zero ctx bytes e enough = absurd (omega arith)
  write_whole_ends (suc fuel) ctx bytes e enough =
      let block = take p.erase_size bytes in
      let next = write_block f p ctx block in
      let ended = write_block_ends f p ctx block e in
      ground (
        arith,
        write_whole_ends fuel next.1 (drop p.erase_size bytes),
        length-drop p.erase_size bytes,
      )

  write_round_ends :
      (ctx : WriteContext f) (bytes : List ℕ)
      → 0 < p.erase_size
      → (write_round f p ctx bytes).0 ≢ running
  unfolding write_round flush_full
  write_round_ends ctx bytes e =
      let c = coalesce f p ctx bytes in
      let ended = write_block_ends f p c.0 c.0.buffer e in
      ground (arith, write_whole_ends (length c.1 + 1) (flush_full f p c.0).1 c.1)

  write_rounds_ends :
      (fuel : ℕ) (ctx : WriteContext f) (bytes : List ℕ)
      → 0 < p.erase_size
      → length ctx.buffer < p.erase_size
      → length bytes ≤ fuel
      → (write_rounds f p fuel ctx bytes).0 ≢ running
  unfolding write_rounds
  write_rounds_ends zero ctx [] e small enough = cc
  write_rounds_ends (suc fuel) ctx [] e small enough = cc
  write_rounds_ends zero ctx (b ∷ bytes) e small enough = absurd (omega arith)
  write_rounds_ends (suc fuel) ctx (b ∷ bytes) e small enough =
      let r = write_round f p ctx (b ∷ bytes) in
      let ended = write_round_ends ctx (b ∷ bytes) e in
      elim (Status-cases r.0) [
        | inl went ↦
            let fresh = Holds-refl f p ctx in
            let (fed, whole, _, small₁, some_fed) =
              write_round-Holds f p ctx ctx ctx.buffer (b ∷ bytes) e (omega arith) fresh small
                went in
            let shorter : length r.2 ≤ fuel =
              (let sum : length fed + length r.2 ≡ suc (length bytes) =
                  sym (length-append fed r.2) ∙ ap length whole in
                omega arith) in
            rw (went, write_rounds) (write_rounds_ends fuel r.1 r.2 e small₁ shorter)
        | inr stopped ↦ ground arith
      ]

  -- mtd_write_data comes to an end: with an erase size that is not 0 and less than a block in the
  -- buffer, the rounds given to its loops are enough.
  pub mtd_write_data_ends :
      (ctx : WriteContext f) (bytes : List ℕ)
      → 0 < p.erase_size
      → length ctx.buffer < p.erase_size
      → (mtd_write_data f p ctx bytes).0 ≢ running
  unfolding mtd_write_data
  mtd_write_data_ends ctx bytes e small =
      write_rounds_ends (length bytes) ctx bytes e small (omega arith)

  -- After a padding that succeeds, from a buffer with less than a block, the stream is whole blocks
  -- only, and the buffer is empty: the stream is what was given and fewer zeros than a block has.
  pub pad_pending-Holds :
      (start ctx : WriteContext f) (given : List ℕ)
      → Holds f p start given ctx
      → length ctx.buffer < p.erase_size
      → (pad_pending f p ctx).0 ≡ ok
      → (k : ℕ) × (k < p.erase_size)
        × Holds f p start (given ++ replicate k 0) (pad_pending f p ctx).1
        × ((pad_pending f p ctx).1.buffer ≡ [])
  unfolding pad_pending
  pad_pending-Holds start ctx given h small done = elim (Bool-cases (ltb 0 (length ctx.buffer))) [
    | inr e ↦ rw e (0, omega arith, rw (append-nil given) h, ground arith)
    | inl e ↦
        let k = p.erase_size - length ctx.buffer in
        let block = ctx.buffer ++ replicate k 0 in
        let wrote_it : (write_block f p ctx block).0 ≡ ok = ground arith in
        let full : length block ≡ p.erase_size =
          omega (arith, length-append ctx.buffer (replicate k 0), length-replicate {A = ℕ} k 0) in
        rw (e, wrote_it)
          (
            k,
            ground arith,
            record {
              blocks = h.blocks ++ block ∷ [];
              trace = held (wrote h.trace block wrote_it) [];
              stream =
                  append-nil _
                  ∙ flatten-append_one h.blocks block
                  ∙ sym (append_assoc (flatten h.blocks) ctx.buffer (replicate k 0))
                  ∙ ap (λ l. l ++ replicate k 0) h.stream;
              whole = All-append_one _ h.blocks block h.whole full;
            },
            refl,
          )
  ]
