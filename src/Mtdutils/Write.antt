-- ===== src/Mtdutils/Write.antt =====
-- Writing: write_block, mtd_write_data, mtd_erase_blocks, mtd_write_close,
-- mtd_write_partition and mtd_find_write_start of
-- mtdutils/mtdutils.c.
pub mod Blocks
pub mod Stream
pub mod Data
pub mod Start
use sc7731_sc8830_bootable_r.Base.{
  ℕ, zero, suc, ◌+◌, ◌-◌, ◌*◌, ◌/◌, ◌%◌, ◌^◌, List, [], ◌∷◌, ◌++◌, Bool, true, false, ◌||◌, ◌&&◌,
  Option, none, some, ltb, leb, ◌==◌, if◌then◌else◌, length, take, drop, replicate, bytes_eq, min,
  ◌≡◌, ◌≢◌, ◌⊎◌, inl, inr, refl,
}
use sc7731_sc8830_bootable_r.Mtdutils.Flash.{
  Flash, BadBlock, good, unsupported, bad, failed, Partition,
}

-- How a call ended: its success, the return of -1 (or 1), or rounds without end.
pub data Status : Type 0 where
  ok error running : Status

pub Status-cases : (s : Status) → (s ≡ ok) ⊎ (s ≢ ok)
Status-cases ok = inl refl
Status-cases error = inr (λ e. cc)
Status-cases running = inr (λ e. cc)

-- MtdWriteContext. `buffer` is the first `stored` bytes of the C buffer, and `bad_block_offsets` the
-- first `bad_block_count` entries of the array.
pub record WriteContext (f : Flash) : Type 0 where
  pub dev : f.Dev
  pub buffer : List ℕ
  pub bad_block_offsets : List ℕ
  pub bad_block_alloc : ℕ

-- Whether write_block passes over a block without erasing it.
unfoldable pub is_factory_bad : BadBlock → Bool
is_factory_bad good = false
is_factory_bad unsupported = false
is_factory_bad bad = true
is_factory_bad failed = true

module _ (f : Flash) where
  open f use {Dev, tell, seek, read, write, bad_block, erase, close}

  -- mtd_write_partition, with memory at hand; `none` is a device that cannot be opened.
  unfoldable pub mtd_write_partition : Option Dev → Option (WriteContext f)
  mtd_write_partition none = none
  mtd_write_partition (some d) =
      some (record { dev = d; buffer = []; bad_block_offsets = []; bad_block_alloc = 0 })

  unfoldable pub add_bad_block_offset : WriteContext f → ℕ → WriteContext f
  add_bad_block_offset ctx pos = record ctx {
    bad_block_alloc =
        (if ltb ctx.bad_block_alloc (length ctx.bad_block_offsets + 1)
          then ctx.bad_block_alloc * 2 + 1
          else ctx.bad_block_alloc);
    bad_block_offsets = ctx.bad_block_offsets ++ pos ∷ [];
  }

  -- `lseek(...) != pos || write(...) != size`: a failure is reported, and the verification follows.
  unfoldable pub write_there : Dev → ℕ → List ℕ → Dev
  write_there d pos bytes = let (there, d₁) = seek d pos in if there then (write d₁ bytes).1 else d₁

  -- `lseek(...) != pos || read(...) != size`, then memcmp
  unfoldable pub verify_there : Dev → ℕ → List ℕ → Bool × Dev
  verify_there d pos bytes =
      let (there, d₁) = seek d pos in
      if there
      then (let (verify, d₂) = read d₁ (length bytes) in
          elim verify [ none ↦ (false, d₂) | some v ↦ (bytes_eq bytes v, d₂) ])
      else (false, d₁)

  -- One of the two rounds over `retry`.
  unfoldable pub try_block : Dev → ℕ → List ℕ → Bool × Dev
  try_block d pos bytes =
      let (erased, d₁) = erase d pos (length bytes) in
      if erased then verify_there (write_there d₁ pos bytes) pos bytes else (false, d₁)

  module _ (p : Partition) where
    -- What one pass of the loop in write_block does with the block at `pos`: whether it was written.
    unfoldable pub place_block : WriteContext f → ℕ → List ℕ → Bool × WriteContext f
    unfolding is_factory_bad add_bad_block_offset
    place_block ctx pos bytes =
        let (ret, d) = bad_block ctx.dev pos in
        if is_factory_bad ret
        then (false, add_bad_block_offset (record ctx { dev = d }) pos)
        else (let (done, d₁) = try_block d pos bytes in
            if done
            then (true, record ctx { dev = d₁ })
            else (let (done', d₂) = try_block d₁ pos bytes in
                if done' then (true, record ctx { dev = d₂ }) else (
                  false,
                  add_bad_block_offset (record ctx { dev = (erase d₂ pos p.erase_size).1 }) pos,
                )))

    -- `while (pos + size <= (int) partition->size)`
    unfoldable pub write_loop : ℕ → WriteContext f → ℕ → List ℕ → Status × WriteContext f
    write_loop zero ctx pos bytes = (running, ctx)
    write_loop (suc fuel) ctx pos bytes =
        let (placed, ctx₁) = place_block ctx pos bytes in
        let rest = write_loop fuel ctx₁ (pos + p.erase_size) bytes in
        if leb (pos + p.erase_size) p.size
        then (if placed then (ok, ctx₁) else rest)
        else (error, ctx)

    -- write_block; a block is passed over at most once, so the rounds are fewer than the fuel.
    unfoldable pub write_block : WriteContext f → List ℕ → Status × WriteContext f
    write_block ctx bytes = elim (tell ctx.dev) [
      | none ↦ (error, ctx)
      | some pos ↦ write_loop (p.size + 1) ctx pos bytes
    ]

    -- "Write complete blocks directly from the user's buffer": what is left of the data afterwards.
    unfoldable pub write_whole : ℕ → WriteContext f → List ℕ → Status × WriteContext f × List ℕ
    write_whole zero ctx bytes = (running, ctx, bytes)
    write_whole (suc fuel) ctx bytes =
        let (status, ctx₁) = write_block ctx (take p.erase_size bytes) in
        let rest = write_whole fuel ctx₁ (drop p.erase_size bytes) in
        if (length ctx.buffer == 0) && leb p.erase_size (length bytes)
        then elim status [ ok ↦ rest | other ↦ (other, ctx₁, bytes) ]
        else (ok, ctx, bytes)

    -- "Coalesce partial writes into complete blocks"
    unfoldable pub coalesce : WriteContext f → List ℕ → WriteContext f × List ℕ
    coalesce ctx bytes =
        let copy = min (length bytes) (p.erase_size - length ctx.buffer) in
        if ltb 0 (length ctx.buffer) || ltb (length bytes) p.erase_size
        then (record ctx { buffer = ctx.buffer ++ take copy bytes }, drop copy bytes)
        else (ctx, bytes)

    -- "If a complete block was accumulated, write it"
    unfoldable pub flush_full : WriteContext f → Status × WriteContext f
    flush_full ctx =
        if length ctx.buffer == p.erase_size
        then (let (status, ctx₁) = write_block ctx ctx.buffer in
            elim status [ ok ↦ (ok, record ctx₁ { buffer = [] }) | other ↦ (other, ctx₁) ])
        else (ok, ctx)

    -- One round of the loop in mtd_write_data, for the bytes not yet written.
    unfoldable pub write_round : WriteContext f → List ℕ → Status × WriteContext f × List ℕ
    write_round ctx bytes =
        let (ctx₁, left) = coalesce ctx bytes in
        let (status, ctx₂) = flush_full ctx₁ in
        elim status [ ok ↦ write_whole (length left + 1) ctx₂ left | other ↦ (other, ctx₂, left) ]

    unfoldable pub write_rounds : ℕ → WriteContext f → List ℕ → Status × WriteContext f
    write_rounds fuel ctx [] = (ok, ctx)
    write_rounds zero ctx (b ∷ bytes) = (running, ctx)
    write_rounds (suc fuel) ctx (b ∷ bytes) =
        let (status, ctx₁, left) = write_round ctx (b ∷ bytes) in
        let rest = write_rounds fuel ctx₁ left in elim status [ ok ↦ rest | other ↦ (other, ctx₁) ]

    -- mtd_write_data; `ok` is the return of the length of the data. A round takes a byte at least.
    unfoldable pub mtd_write_data : WriteContext f → List ℕ → Status × WriteContext f
    mtd_write_data ctx bytes = write_rounds (length bytes) ctx bytes

    -- "Zero-pad and write any pending data to get us to a block boundary"
    unfoldable pub pad_pending : WriteContext f → Status × WriteContext f
    pad_pending ctx =
        if ltb 0 (length ctx.buffer)
        then (let (status, ctx₁) =
              write_block ctx (ctx.buffer ++ replicate (p.erase_size - length ctx.buffer) 0) in
            elim status [ ok ↦ (ok, record ctx₁ { buffer = [] }) | other ↦ (other, ctx₁) ])
        else (ok, ctx)

    -- `while (blocks-- > 0)`: the device and the position after it
    unfoldable pub erase_loop : ℕ → Dev → ℕ → Dev × ℕ
    erase_loop zero d pos = (d, pos)
    erase_loop (suc blocks) d pos =
        let (ret, d₁) = bad_block d pos in
        let d₂ : Dev = elim ret [ bad ↦ d₁ | _ ↦ (erase d₁ pos p.erase_size).1 ] in
        erase_loop blocks d₂ (pos + p.erase_size)

    -- `none` for `blocks` is a negative number: to the end of the partition. The result is the
    -- position, or `none` for -1.
    unfoldable pub mtd_erase_blocks : WriteContext f → Option ℕ → Option ℕ × WriteContext f
    unfolding pad_pending erase_loop
    mtd_erase_blocks ctx blocks =
        let (status, ctx₁) = pad_pending ctx in
        elim status [
          | ok ↦ elim (tell ctx₁.dev) [
            | none ↦ (none, ctx₁)
            | some pos ↦
                let total = (p.size + 2 ^ 32 - pos) % 2 ^ 32 / p.erase_size in
                let count : ℕ = elim blocks [ none ↦ total | some n ↦ n ] in
                let (d, pos') = erase_loop count ctx₁.dev pos in
                if ltb total count then (none, ctx₁) else (some pos', record ctx₁ { dev = d })
          ]
          | _ ↦ (none, ctx₁)
        ]

    -- Whether mtd_write_close returns 0.
    unfoldable pub mtd_write_close : WriteContext f → Bool
    mtd_write_close ctx =
        let (pos, ctx₁) = mtd_erase_blocks ctx (some 0) in
        elim pos [ none ↦ false | some _ ↦ close ctx₁.dev ]

-- The loop of mtd_find_write_start over the offsets of the bad blocks.
unfoldable pub find_start : ℕ → List ℕ → ℕ → ℕ
find_start erase_size [] pos = pos
find_start erase_size (b ∷ offsets) pos =
    let rest = find_start erase_size offsets (if b == pos then pos + erase_size else pos) in
    if b == pos then rest else if ltb pos b then pos else rest

unfoldable pub mtd_find_write_start : (f : Flash) → Partition → WriteContext f → ℕ → ℕ
unfolding find_start
mtd_find_write_start f p ctx pos = find_start p.erase_size ctx.bad_block_offsets pos
