-- ===== src/Mtdutils/Tests.antt =====
-- Runs of mtdutils/mtdutils.c on devices of sixteen bytes, whose first block is bad.
use sc7731_sc8830_bootable_r.Mtdutils.Read.{
  ReadContext, mtd_read_data, read_rounds, read_round, refill, read_whole, take_pending, read_block,
  read_loop, in_partition, bad_at, is_good, next_pos, read_there, seek_pos,
}
use sc7731_sc8830_bootable_r.Mtdutils.Read.Stream.{IsComplete, Ready, Delivers}
use sc7731_sc8830_bootable_r.Mtdutils.Read.Data.{mtd_read_data-Delivers, mtd_read_data_ends}
use sc7731_sc8830_bootable_r.Base.{length-replicate}
use sc7731_sc8830_bootable_r.Base.{
  ℕ, ◌+◌, ◌<◌, List, [], ◌∷◌, ◌++◌, true, some, ◌≡◌, ◌≢◌, refl, sym, arith, ◌==◌, if◌then◌else◌,
  take, drop, replicate, length,
}
use sc7731_sc8830_bootable_r.Mtdutils.Flash.{Flash, good, bad, Partition}
use sc7731_sc8830_bootable_r.Mtdutils.Write.Blocks.{ReadsBack, Placed, write_block-Placed}
use sc7731_sc8830_bootable_r.Mtdutils.Write.Stream.{Holds, Holds-refl}
use sc7731_sc8830_bootable_r.Mtdutils.Write.Data.{
  mtd_write_data-Holds, mtd_write_data_ends, pad_pending-Holds,
}
use sc7731_sc8830_bootable_r.Mtdutils.Write.Start.{find_write_start-write_block}
use sc7731_sc8830_bootable_r.Mtdutils.Write.{
  write_rounds, write_round, flush_full, coalesce, write_loop, place_block, try_block, verify_there,
  write_there, write_whole, ok, running, WriteContext, write_block, mtd_write_data, pad_pending,
  mtd_find_write_start,
}

abbrev splice : ℕ → List ℕ → List ℕ → List ℕ
splice at new old = take at old ++ new ++ drop (at + length new) old

-- The position and the contents.
abbrev flash : Flash
flash = record {
  Dev = ℕ × List ℕ;
  tell = λ d. some d.0;
  seek = λ d pos. (true, (pos, d.1));
  read = λ d n. (some (take n (drop d.0 d.1)), (d.0 + n, d.1));
  write = λ d bytes. (true, (d.0 + length bytes, splice d.0 bytes d.1));
  bad_block = λ d pos. ((if pos == 0 then bad else good), d);
  erase = λ d pos n. (true, (d.0, splice pos (replicate n 255) d.1));
  ecc_failed = λ d. some 0;
  close = λ d. true;
}

abbrev partition : Partition
partition = record { size = 16; erase_size = 4 }

abbrev fresh : List ℕ → WriteContext flash
fresh buffer = record {
  dev = (0, replicate 16 0);
  buffer = buffer;
  bad_block_offsets = [];
  bad_block_alloc = 0;
}

abbrev block : List ℕ
block = 1 ∷ 2 ∷ 3 ∷ 4 ∷ []

written : (write_block flash partition (fresh []) block).0 ≡ ok
unfolding write_block write_loop place_block try_block verify_there write_there
written = refl

write_block-Placed_example :
    Placed flash partition (fresh []) 0 block (write_block flash partition (fresh []) block).1
write_block-Placed_example = write_block-Placed flash partition (fresh []) 0 block refl written

find_write_start-write_block_example :
    ReadsBack flash
      (mtd_find_write_start flash partition (write_block flash partition (fresh []) block).1 0)
      block
      (write_block flash partition (fresh []) block).1.dev
find_write_start-write_block_example =
    find_write_start-write_block flash partition (fresh []) 0 block refl tt written

data_written : (mtd_write_data flash partition (fresh (9 ∷ [])) (1 ∷ 2 ∷ 3 ∷ 4 ∷ 5 ∷ [])).0 ≡ ok
unfolding mtd_write_data write_rounds write_round flush_full coalesce write_block write_loop
    place_block try_block verify_there write_there write_whole
data_written = refl

mtd_write_data-Holds_example :
    Holds flash partition
      (fresh (9 ∷ []))
      (9 ∷ 1 ∷ 2 ∷ 3 ∷ 4 ∷ 5 ∷ [])
      (mtd_write_data flash partition (fresh (9 ∷ [])) (1 ∷ 2 ∷ 3 ∷ 4 ∷ 5 ∷ [])).1
    × (length (mtd_write_data flash partition (fresh (9 ∷ [])) (1 ∷ 2 ∷ 3 ∷ 4 ∷ 5 ∷ [])).1.buffer
        < 4)
mtd_write_data-Holds_example =
    mtd_write_data-Holds flash partition (fresh (9 ∷ [])) (fresh (9 ∷ [])) (9 ∷ [])
      (1 ∷ 2 ∷ 3 ∷ 4 ∷ 5 ∷ []) (omega arith) (Holds-refl flash partition (fresh (9 ∷ [])))
      (omega arith) data_written

mtd_write_data_ends_example :
    (mtd_write_data flash partition (fresh (9 ∷ [])) (1 ∷ 2 ∷ 3 ∷ 4 ∷ 5 ∷ [])).0 ≢ running
mtd_write_data_ends_example =
    mtd_write_data_ends flash partition (fresh (9 ∷ [])) (1 ∷ 2 ∷ 3 ∷ 4 ∷ 5 ∷ []) (omega arith)
      (omega arith)

padded : (pad_pending flash partition (fresh (9 ∷ []))).0 ≡ ok
unfolding pad_pending write_block write_loop place_block try_block verify_there write_there
padded = refl

pad_pending-Holds_example :
    (k : ℕ) × (k < 4)
    × Holds flash partition
        (fresh (9 ∷ []))
        ((9 ∷ []) ++ replicate k 0)
        (pad_pending flash partition (fresh (9 ∷ []))).1
    × ((pad_pending flash partition (fresh (9 ∷ []))).1.buffer ≡ [])
pad_pending-Holds_example =
    pad_pending-Holds flash partition (fresh (9 ∷ [])) (fresh (9 ∷ [])) (9 ∷ [])
      (Holds-refl flash partition (fresh (9 ∷ []))) (omega arith) padded

-- A device that reads zeros, whose first block is bad.
abbrev zeros : Flash
zeros = record {
  Dev = ℕ;
  tell = λ d. some d;
  seek = λ d pos. (true, pos);
  read = λ d n. (some (replicate n 0), d + n);
  write = λ d bytes. (true, d + length bytes);
  bad_block = λ d pos. ((if pos == 0 then bad else good), d);
  erase = λ d pos n. (true, d);
  ecc_failed = λ d. some 0;
  close = λ d. true;
}

zeros-IsComplete : IsComplete zeros
zeros-IsComplete d n v e =
    let same : replicate n 0 ≡ v = cc (e) in rw (sym same) (length-replicate {A = ℕ} n 0)

abbrev at_start : ReadContext zeros
at_start = record { dev = 0; buffer = []; consumed = 4 }

at_start-Ready : Ready zeros partition at_start
at_start-Ready = record {
  consumed_le = omega arith;
  buffer_le = omega arith;
  whole = λ k. absurd (omega (arith, k));
}

data_read : (mtd_read_data zeros partition at_start 6).0 ≡ ok
unfolding mtd_read_data read_rounds read_round refill read_whole take_pending read_block read_loop
    in_partition bad_at is_good next_pos read_there seek_pos
data_read = refl

mtd_read_data-Delivers_example :
    Delivers zeros partition at_start
      (mtd_read_data zeros partition at_start 6).1
      (mtd_read_data zeros partition at_start 6).2
    × (length (mtd_read_data zeros partition at_start 6).1 ≡ 6)
mtd_read_data-Delivers_example =
    mtd_read_data-Delivers zeros partition zeros-IsComplete at_start 6 (omega arith) at_start-Ready
      data_read

mtd_read_data_ends_example : (mtd_read_data zeros partition at_start 6).0 ≢ running
mtd_read_data_ends_example =
    mtd_read_data_ends zeros partition zeros-IsComplete at_start 6 (omega arith) at_start-Ready
