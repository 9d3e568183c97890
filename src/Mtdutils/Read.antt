-- ===== src/Mtdutils/Read.antt =====
-- Reading: mtd_read_partition, mtd_read_skip_to, read_block and mtd_read_data of mtdutils/mtdutils.c.
pub mod Stream
pub mod Round
pub mod Data
use sc7731_sc8830_bootable_r.Base.{
  ℕ, zero, suc, ◌+◌, ◌-◌, List, [], ◌∷◌, ◌++◌, Bool, true, false, ◌&&◌, Option, none, some, ltb,
  leb, ◌==◌, if◌then◌else◌, length, take, drop, min,
}
use sc7731_sc8830_bootable_r.Mtdutils.Flash.{
  Flash, BadBlock, good, unsupported, bad, failed, Partition,
}
use sc7731_sc8830_bootable_r.Mtdutils.Write.{Status, ok, error, running}

-- MtdReadContext. `buffer` has erase_size bytes, or none before the first block is read into it.
pub record ReadContext (f : Flash) : Type 0 where
  pub dev : f.Dev
  pub buffer : List ℕ
  pub consumed : ℕ

-- `if ((mgbb = ioctl(fd, MEMGETBADBLOCK, &pos)))` is passed by a 0 only.
unfoldable pub is_good : BadBlock → Bool
is_good good = true
is_good unsupported = false
is_good bad = false
is_good failed = false

module _ (f : Flash) where
  open f use {Dev, tell, seek, read, bad_block, ecc_failed}

  -- mtd_read_partition, with memory at hand; `none` is a device that cannot be opened.
  unfoldable pub mtd_read_partition : Partition → Option Dev → Option (ReadContext f)
  mtd_read_partition p none = none
  mtd_read_partition p (some d) = some (record { dev = d; buffer = []; consumed = p.erase_size })

  unfoldable pub mtd_read_skip_to : ReadContext f → ℕ → ReadContext f
  mtd_read_skip_to ctx offset = record ctx { dev = (seek ctx.dev offset).1 }

  -- `none` is the position -1 that a failed lseek64 leaves in `pos`. A seek to it fails as well, and its
  -- answer -1 is the position asked for, so that the read goes on where the device stands; the
  -- driver refuses MEMGETBADBLOCK at a negative offset.
  unfoldable pub seek_pos : Dev → Option ℕ → Bool × Dev
  seek_pos d none = (true, d)
  seek_pos d (some pos) = seek d pos

  unfoldable pub bad_at : Dev → Option ℕ → BadBlock × Dev
  bad_at d none = (failed, d)
  bad_at d (some pos) = bad_block d pos

  -- `lseek64(...) != pos || read(...) != size`
  unfoldable pub read_there : Dev → Option ℕ → ℕ → Option (List ℕ) × Dev
  unfolding seek_pos
  read_there d pos size =
      let (there, d₁) = seek_pos d pos in if there then read d₁ size else (none, d₁)

  module _ (p : Partition) where
    -- `pos + size <= (int) partition->size`
    unfoldable pub in_partition : Option ℕ → Bool
    in_partition none = leb p.erase_size (p.size + 1)
    in_partition (some pos) = leb (pos + p.erase_size) p.size

    unfoldable pub next_pos : Option ℕ → Option ℕ
    next_pos none = if p.erase_size == 0 then none else some (p.erase_size - 1)
    next_pos (some pos) = some (pos + p.erase_size)

    -- The loop of read_block; `before` is the failure counter to compare with.
    unfoldable pub read_loop : ℕ → Dev → ℕ → Option ℕ → Status × List ℕ × Dev
    read_loop zero d before pos = (running, [], d)
    read_loop (suc fuel) d before pos =
        let (got, d₁) = read_there d pos p.erase_size in
        let (mgbb, d₂) = bad_at d₁ pos in
        let unread = read_loop fuel d₁ before (next_pos pos) in
        let passed = read_loop fuel d₂ before (next_pos pos) in
        if in_partition pos
        then (elim got [
          | none ↦ unread
          | some bytes ↦ elim (ecc_failed d₁) [
            | none ↦ (error, [], d₁)
            | some after ↦
                let counted = read_loop fuel d₁ after (next_pos pos) in
                if after == before
                then (if is_good mgbb then (ok, bytes, d₂) else passed)
                else counted
          ]
        ])
        else (error, [], d)

    -- read_block: the block, if it answers 0. The fuel is two more than the partition has bytes.
    unfoldable pub read_block : Dev → Status × List ℕ × Dev
    read_block d = elim (ecc_failed d) [
      | none ↦ (error, [], d)
      | some before ↦ read_loop (p.size + 2) d before (tell d)
    ]

    -- What is left of the block in the buffer goes to the caller: the bytes, and the context.
    unfoldable pub take_pending : ReadContext f → ℕ → List ℕ × ReadContext f
    take_pending ctx want =
        let copy = min want (p.erase_size - ctx.consumed) in
        if ltb ctx.consumed p.erase_size
        then (
          take copy (drop ctx.consumed ctx.buffer),
          record ctx { consumed = ctx.consumed + copy },
        )
        else ([], ctx)

    -- "Read complete blocks directly into the user's buffer"
    unfoldable pub read_whole : ℕ → ReadContext f → ℕ → Status × List ℕ × ReadContext f
    read_whole zero ctx want = (running, [], ctx)
    read_whole (suc fuel) ctx want =
        let (status, block, d) = read_block ctx.dev in
        let (status', rest, ctx') =
          read_whole fuel (record ctx { dev = d }) (want - p.erase_size) in
        if (ctx.consumed == p.erase_size) && leb p.erase_size want
        then elim status [
          | ok ↦ (status', block ++ rest, ctx')
          | other ↦ (other, [], record ctx { dev = d })
        ]
        else (ok, [], ctx)

    -- "Read the next block into the buffer", if more is wanted.
    unfoldable pub refill : ReadContext f → ℕ → Status × ReadContext f
    refill ctx want =
        let (status, block, d) = read_block ctx.dev in
        if (ctx.consumed == p.erase_size) && ltb 0 want
        then (elim status [
          | ok ↦ (ok, record { dev = d; buffer = block; consumed = 0 })
          | other ↦ (other, record ctx { dev = d })
        ])
        else (ok, ctx)

    -- One round of the loop of mtd_read_data: the bytes it delivers of the `want` that are missing.
    unfoldable pub read_round : ReadContext f → ℕ → Status × List ℕ × ReadContext f
    read_round ctx want =
        let (first, ctx₁) = take_pending ctx want in
        let (status, blocks, ctx₂) = read_whole (want + 1) ctx₁ (want - length first) in
        let (status', ctx₃) = refill ctx₂ (want - length first - length blocks) in
        elim status [
          | ok ↦ (status', first ++ blocks, ctx₃)
          | other ↦ (other, first ++ blocks, ctx₂)
        ]

    unfoldable pub read_rounds : ℕ → ReadContext f → ℕ → Status × List ℕ × ReadContext f
    read_rounds fuel ctx zero = (ok, [], ctx)
    read_rounds zero ctx (suc want) = (running, [], ctx)
    read_rounds (suc fuel) ctx (suc want) =
        let (status, now, ctx₁) = read_round ctx (suc want) in
        let (status', more, ctx₂) = read_rounds fuel ctx₁ (suc want - length now) in
        elim status [ ok ↦ (status', now ++ more, ctx₂) | other ↦ (other, now, ctx₁) ]

    -- mtd_read_data; `ok` is the return of `len`, and the data are those put into the caller's buffer. A
    -- round that delivers nothing fills the buffer, so one more than there are bytes are enough.
    unfoldable pub mtd_read_data : ReadContext f → ℕ → Status × List ℕ × ReadContext f
    mtd_read_data ctx len = read_rounds (len + 1) ctx len
