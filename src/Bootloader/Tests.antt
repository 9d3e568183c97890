-- ===== src/Bootloader/Tests.antt =====
-- A run of set_bootloader_message_mtd of bootloader.c, on a device that holds one block.
use sc7731_sc8830_bootable_r.Bootloader.Message.{get_bootloader_message_mtd-Delivers}
use sc7731_sc8830_bootable_r.Bootloader.{get_bootloader_message_mtd, message_in}
use sc7731_sc8830_bootable_r.Base.{◌*◌, length, drop, take}
use sc7731_sc8830_bootable_r.Mtdutils.Read.Stream.{Delivers}
use sc7731_sc8830_bootable_r.Mtdutils.Read.{ReadContext}
use sc7731_sc8830_bootable_r.Base.{
  ℕ, List, [], ◌∷◌, ◌++◌, true, some, ◌≡◌, refl, sym, arith, take, replicate, length-take,
  length-append, length-replicate,
}
use sc7731_sc8830_bootable_r.Bootloader.Message.{
  Opened, MessageSet, set_bootloader_message_mtd-MessageSet,
}
use sc7731_sc8830_bootable_r.Bootloader.{
  done, set_bootloader_message_mtd, read_pages, write_pages, with_message, status_answer,
}
use sc7731_sc8830_bootable_r.Mtdutils.Flash.{Flash, good, Partition}
use sc7731_sc8830_bootable_r.Mtdutils.Read.Stream.{IsComplete}
use sc7731_sc8830_bootable_r.Mtdutils.Read.{
  mtd_read_partition, mtd_read_data, read_rounds, read_round, refill, read_whole, take_pending,
  read_block, read_loop, in_partition, bad_at, is_good, next_pos, read_there, seek_pos,
}
use sc7731_sc8830_bootable_r.Mtdutils.Write.{
  mtd_write_partition, mtd_write_data, write_rounds, write_round, flush_full, coalesce, write_whole,
  write_block, write_loop, place_block, try_block, verify_there, write_there, mtd_write_close,
  mtd_erase_blocks, pad_pending,
}

-- What was written last, and zeros behind it.
abbrev one_block : Flash
one_block = record {
  Dev = List ℕ;
  tell = λ d. some 0;
  seek = λ d pos. (true, d);
  read = λ d n. (some (take n (d ++ replicate n 0)), d);
  write = λ d bytes. (true, bytes);
  bad_block = λ d pos. (good, d);
  erase = λ d pos n. (true, d);
  ecc_failed = λ d. some 0;
  close = λ d. true;
}

one_block-IsComplete : IsComplete one_block
one_block-IsComplete d n v e =
    let same : take n (d ++ replicate n 0) ≡ v = cc (e) in
    rw (sym same) (
      omega (
        arith,
        length-take n (d ++ replicate n 0),
        length-append d (replicate n 0),
        length-replicate {A = ℕ} n 0,
      ))

abbrev misc : Partition
misc = record { size = 1632; erase_size = 1632 }

abbrev message : List ℕ
message = 98 ∷ 111 ∷ 111 ∷ 116 ∷ replicate 1084 0

message_was_set :
    set_bootloader_message_mtd one_block (some (misc, 544)) (some []) (λ d. some d) message
    ≡ done tt
unfolding set_bootloader_message_mtd read_pages write_pages with_message status_answer
    mtd_read_partition mtd_read_data read_rounds read_round refill read_whole take_pending
    read_block read_loop in_partition bad_at is_good next_pos read_there seek_pos
    mtd_write_partition mtd_write_data write_rounds write_round flush_full coalesce write_whole
    write_block write_loop place_block try_block verify_there write_there mtd_write_close
    mtd_erase_blocks pad_pending
message_was_set = refl

set_bootloader_message_mtd-MessageSet_example :
    MessageSet one_block misc 544 (some []) (λ d. some d) message
set_bootloader_message_mtd-MessageSet_example =
    set_bootloader_message_mtd-MessageSet one_block misc 544 (some []) (λ d. some d) message
      one_block-IsComplete (omega arith) (omega arith) message_was_set

message_was_got :
    get_bootloader_message_mtd one_block (some (misc, 544)) (some []) ≡ done (replicate 1088 0)
unfolding get_bootloader_message_mtd read_pages message_in status_answer mtd_read_partition
    mtd_read_data read_rounds read_round refill read_whole take_pending read_block read_loop
    in_partition bad_at is_good next_pos read_there seek_pos
message_was_got = refl

get_bootloader_message_mtd-Delivers_example :
    (bytes : List ℕ) × (start : ReadContext one_block) × (now : ReadContext one_block) × Opened
      one_block misc
      (some [])
      start
    × Delivers one_block misc start bytes now
    × (length bytes ≡ 544 * 3)
    × (replicate 1088 0 ≡ take 1088 (drop (544 * 1) bytes))
get_bootloader_message_mtd-Delivers_example =
    get_bootloader_message_mtd-Delivers one_block misc 544 (some []) (replicate 1088 0)
      one_block-IsComplete (omega arith) message_was_got
