-- ===== src/Mtdutils/Write/Start.antt =====
-- mtd_find_write_start of mtdutils/mtdutils.c, on the offsets that write_block notes.
use sc7731_sc8830_bootable_r.Base.{
  some, ℕ, zero, suc, ◌+◌, ◌*◌, ◌<◌, List, [], ◌∷◌, ◌++◌, ◌≡◌, refl, ap, ◌∙◌, arith,
}
use sc7731_sc8830_bootable_r.Mtdutils.Flash.{Flash, Partition}
use sc7731_sc8830_bootable_r.Mtdutils.Write.{
  WriteContext, find_start, mtd_find_write_start, write_block, ok,
}
use sc7731_sc8830_bootable_r.Mtdutils.Write.Blocks.{block_run, ReadsBack, write_block-Placed}
use sc7731_sc8830_bootable_r.Mtdutils.Write.Stream.{All}

find_start-earlier :
    (e : ℕ) (earlier offsets : List ℕ) (pos : ℕ)
    → All (λ b. b < pos) earlier
    → find_start e (earlier ++ offsets) pos ≡ find_start e offsets pos
unfolding find_start
find_start-earlier e [] offsets pos h = refl
find_start-earlier e (b ∷ earlier) offsets pos h =
    let below = h.0 in ground (arith, find_start-earlier e earlier offsets pos h.1)

find_start-run : (e k pos : ℕ) → find_start e (block_run e pos k) pos ≡ pos + k * e
unfolding find_start
find_start-run e zero pos = omega arith
find_start-run e (suc k) pos =
    let next = find_start-run e k (pos + e) in
    let far : pos + e + k * e ≡ pos + suc k * e = grind arith in ground arith

module _ (f : Flash) (p : Partition) where
  -- A write_block that succeeds, with the device at an offset `pos` behind every bad block noted so
  -- far, put its data where mtd_find_write_start, asked for `pos` afterwards, says: a read of the
  -- block there gave the data.
  pub find_write_start-write_block :
      (ctx : WriteContext f) (pos : ℕ) (bytes : List ℕ)
      → f.tell ctx.dev ≡ some pos
      → All (λ b. b < pos) ctx.bad_block_offsets
      → (write_block f p ctx bytes).0 ≡ ok
      → ReadsBack f
          (mtd_find_write_start f p (write_block f p ctx bytes).1 pos)
          bytes
          (write_block f p ctx bytes).1.dev
  unfolding mtd_find_write_start
  find_write_start-write_block ctx pos bytes here earlier done =
      let v = write_block-Placed f p ctx pos bytes here done in
      let found : find_start p.erase_size (write_block f p ctx bytes).1.bad_block_offsets pos
          ≡ pos + v.skipped * p.erase_size =
        ap (λ l. find_start p.erase_size l pos) v.noted
        ∙ find_start-earlier p.erase_size ctx.bad_block_offsets _ pos earlier
        ∙ find_start-run p.erase_size v.skipped pos in
      rw found v.reads
