-- ===== src/Mtdutils/Read/Round.antt =====
-- One round of the loop of mtd_read_data in mtdutils/mtdutils.c.
use sc7731_sc8830_bootable_r.Base.{
  ℕ, zero, suc, ◌+◌, ◌-◌, ◌≤◌, ◌<◌, [], ◌++◌, true, none, some, ◌≡◌, ◌≢◌, arith, ltb, min, length,
  drop, Option-cases, ◌⊎◌, inl, inr, length-take, length-drop, length-append, append-nil,
}
use sc7731_sc8830_bootable_r.Mtdutils.Flash.{Flash, Partition}
use sc7731_sc8830_bootable_r.Mtdutils.Write.{ok, running}
use sc7731_sc8830_bootable_r.Mtdutils.Read.{
  ReadContext, read_there, bad_at, next_pos, in_partition, read_loop, read_block, take_pending,
  read_whole, refill, read_round,
}
use sc7731_sc8830_bootable_r.Mtdutils.Read.Stream.{
  IsComplete, Ready, Delivers, Delivers-append, take_pending-Delivers, refill-Delivers,
  read_whole-Delivers,
}

module _ (f : Flash) (p : Partition) where
  read_loop_ends :
      (fuel : ℕ) (d : f.Dev) (before pos : ℕ)
      → 0 < p.erase_size
      → 0 < fuel
      → p.size < pos + fuel
      → (read_loop f p fuel d before (some pos)).0 ≢ running
  unfolding read_loop in_partition next_pos
  read_loop_ends zero d before pos e some_left enough = absurd (omega arith)
  read_loop_ends (suc fuel) d before pos e some_left enough =
      let r = read_there f d (some pos) p.erase_size in
      let m = bad_at f r.1 (some pos) in
      elim (Option-cases (f.ecc_failed r.1)) [
        | inl n ↦ ground (arith, read_loop_ends fuel r.1 before (pos + p.erase_size))
        | inr (after, n) ↦ ground (
          arith,
          read_loop_ends fuel r.1 before (pos + p.erase_size),
          read_loop_ends fuel r.1 after (pos + p.erase_size),
          read_loop_ends fuel m.1 before (pos + p.erase_size),
        )
      ]

  read_loop_ends_none :
      (fuel : ℕ) (d : f.Dev) (before : ℕ)
      → 0 < p.erase_size
      → p.size < fuel
      → (read_loop f p (suc fuel) d before none).0 ≢ running
  unfolding read_loop in_partition next_pos
  read_loop_ends_none fuel d before e enough =
      let r = read_there f d none p.erase_size in
      let m = bad_at f r.1 none in
      elim (Option-cases (f.ecc_failed r.1)) [
        | inl n ↦ ground (arith, read_loop_ends fuel r.1 before (p.erase_size - 1))
        | inr (after, n) ↦ ground (
          arith,
          read_loop_ends fuel r.1 before (p.erase_size - 1),
          read_loop_ends fuel r.1 after (p.erase_size - 1),
          read_loop_ends fuel m.1 before (p.erase_size - 1),
        )
      ]

  read_block_ends : (d : f.Dev) → 0 < p.erase_size → (read_block f p d).0 ≢ running
  unfolding read_block
  read_block_ends d e = elim (Option-cases (f.ecc_failed d)) [
    | inl n ↦ rw (n, read_block) (λ z. cc)
    | inr (before, n) ↦ elim (Option-cases (f.tell d)) [
      | inr (pos, at) ↦
          rw (n, at, read_block)
            (read_loop_ends (p.size + 2) d before pos e (omega arith) (omega arith))
      | inl lost ↦
          let two : p.size + 2 ≡ suc (p.size + 1) = omega arith in
          rw (n, lost, two, read_block) (read_loop_ends_none (p.size + 1) d before e (omega arith))
    ]
  ]

  read_whole_ends :
      (fuel : ℕ) (ctx : ReadContext f) (want : ℕ)
      → 0 < p.erase_size
      → want < fuel
      → (read_whole f p fuel ctx want).0 ≢ running
  unfolding read_whole
  read_whole_ends zero ctx want e enough = absurd (omega arith)
  read_whole_ends (suc fuel) ctx want e enough =
      let b = read_block f p ctx.dev in
      let ended = read_block_ends ctx.dev e in
      ground (arith, read_whole_ends fuel (record ctx { dev = b.2 }) (want - p.erase_size))

  pub read_round_ends :
      (ctx : ReadContext f) (want : ℕ) → 0 < p.erase_size → (read_round f p ctx want).0 ≢ running
  unfolding read_round refill
  read_round_ends ctx want e =
      let t = take_pending f p ctx want in
      let w = read_whole f p (want + 1) t.1 (want - length t.0) in
      let ended = read_block_ends w.2.dev e in
      ground (arith, read_whole_ends (want + 1) t.1 (want - length t.0))

  take_pending-progress :
      (ctx : ReadContext f) (want : ℕ)
      → Ready f p ctx
      → ctx.consumed < p.erase_size
      → 0 < want
      → 0 < length (take_pending f p ctx want).0
  unfolding take_pending
  take_pending-progress ctx want r left some_want =
      let copy = min want (p.erase_size - ctx.consumed) in
      let open_still : ltb ctx.consumed p.erase_size ≡ true = ground arith in
      let full = r.whole left in
      rw (open_still, take_pending)
        (omega (
          arith,
          length-take copy (drop ctx.consumed ctx.buffer),
          length-drop ctx.consumed ctx.buffer,
          full,
        ))

  refill-filled :
      (ctx : ReadContext f) (want : ℕ)
      → 0 < p.erase_size
      → Ready f p ctx
      → (refill f p ctx want).0 ≡ ok
      → (want ≡ 0) ⊎ ((refill f p ctx want).1.consumed < p.erase_size)
  unfolding refill
  refill-filled ctx want e r h = let le = r.consumed_le in ground arith

  module _ (complete : IsComplete f) where
    -- A round that succeeds delivers no more than is wanted, something if the buffer had something,
    -- and leaves something in the buffer unless all was delivered.
    pub read_round-Delivers :
        (ctx : ReadContext f) (want : ℕ)
        → 0 < p.erase_size
        → Ready f p ctx
        → (read_round f p ctx want).0 ≡ ok
        → Delivers f p ctx (read_round f p ctx want).1 (read_round f p ctx want).2
          × (length (read_round f p ctx want).1 ≤ want)
          × (ctx.consumed < p.erase_size → 0 < want → 0 < length (read_round f p ctx want).1)
          × ((want ≤ length (read_round f p ctx want).1)
              ⊎ ((read_round f p ctx want).2.consumed < p.erase_size))
    unfolding read_round
    read_round-Delivers ctx want e r h =
        let t = take_pending f p ctx want in
        let (first, bound₁) = take_pending-Delivers f p ctx want r in
        let w = read_whole f p (want + 1) t.1 (want - length t.0) in
        let whole_ok : w.0 ≡ ok = ground arith in
        let (second, bound₂) =
          read_whole-Delivers f p complete (want + 1) t.1 (want - length t.0) first.ready
            whole_ok in
        let left = want - length t.0 - length w.1 in
        let refill_ok : (refill f p w.2 left).0 ≡ ok = ground arith in
        let third = refill-Delivers f p complete w.2 left second.ready refill_ok in
        let both = length-append t.0 w.1 in
        let stream = Delivers-append f p ctx t.1 w.2 t.0 w.1 first second in
        let all =
          Delivers-append f p ctx w.2 (refill f p w.2 left).1 (t.0 ++ w.1) [] stream third in
        rw (whole_ok, read_round)
          (
            rw (append-nil (t.0 ++ w.1)) at all,
            omega arith,
            (λ some_left some_want.
                let some_taken = take_pending-progress ctx want r some_left some_want in
                omega arith),
            elim (refill-filled w.2 left e second.ready refill_ok) [
              | inl none_left ↦ inl (omega arith)
              | inr filled ↦ inr filled
            ],
          )
