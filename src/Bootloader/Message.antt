-- ===== src/Bootloader/Message.antt =====
-- What set_bootloader_message_mtd of bootloader.c leaves on the partition.
use sc7731_sc8830_bootable_r.Base.{
  ℕ, ◌+◌, ◌*◌, ◌<◌, List, [], ◌++◌, true, Option, none, some, ◌≡◌, refl, sym, arith, length,
  replicate, take, drop, ◌⊎◌, inl, inr,
}
use sc7731_sc8830_bootable_r.Bootloader.Pages.{with_message-message_in}
use sc7731_sc8830_bootable_r.Bootloader.{
  Answer, done, failed, undefined, endless, ◌>>=◌, message_in, with_message, message_size,
  misc_pages, misc_command_page, get_bootloader_message_mtd, read_pages, write_pages, status_answer,
  set_bootloader_message_mtd,
}
use sc7731_sc8830_bootable_r.Mtdutils.Flash.{Flash, Partition}
use sc7731_sc8830_bootable_r.Mtdutils.Read.Data.{mtd_read_data-Delivers}
use sc7731_sc8830_bootable_r.Mtdutils.Read.Stream.{IsComplete, Ready, Delivers}
use sc7731_sc8830_bootable_r.Mtdutils.Read.{ReadContext, mtd_read_partition, mtd_read_data}
use sc7731_sc8830_bootable_r.Mtdutils.Write.Data.{mtd_write_data-Holds, pad_pending-Holds}
use sc7731_sc8830_bootable_r.Mtdutils.Write.Stream.{Holds, Holds-refl}
use sc7731_sc8830_bootable_r.Mtdutils.Write.{
  Status-cases, ok, WriteContext, mtd_write_partition, mtd_write_data, mtd_write_close,
  mtd_erase_blocks, pad_pending,
}

-- An answer is done, or whatever follows it is not.
Answer-cases :
    {A B : Type 0} (m : Answer A)
    → ((a : A) × (m ≡ done a)) ⊎ ((b : B) (k : A → Answer B) → ¬ ((m >>= k) ≡ done b))
Answer-cases (done a) = inl (a, refl)
Answer-cases failed = inr (λ b k e. cc)
Answer-cases undefined = inr (λ b k e. cc)
Answer-cases endless = inr (λ b k e. cc)

module _ (f : Flash) (p : Partition) where
  -- A context as it is when its device was just opened for reading, or for writing
  pub record Opened (opened : Option f.Dev) (ctx : ReadContext f) : Type 0 where
    pub device : opened ≡ some ctx.dev
    pub unread : ctx.buffer ≡ []
    pub spent : ctx.consumed ≡ p.erase_size

  pub record OpenedToWrite (opened : Option f.Dev) (ctx : WriteContext f) : Type 0 where
    pub device : opened ≡ some ctx.dev
    pub unwritten : ctx.buffer ≡ []
    pub none_bad : ctx.bad_block_offsets ≡ []

  -- The whole blocks that a context came to hold are `bytes` and then fewer zeros than a block has.
  pub record Wrote (start : WriteContext f) (bytes : List ℕ) : Type 0 where
    pub zeros : ℕ
    pub now : WriteContext f
    pub fill : zeros < p.erase_size
    pub holds : Holds f p start (bytes ++ replicate zeros 0) now
    pub flushed : now.buffer ≡ []

  write_close-padded :
      (ctx : WriteContext f) → mtd_write_close f p ctx ≡ true → (pad_pending f p ctx).0 ≡ ok
  unfolding mtd_write_close mtd_erase_blocks
  write_close-padded ctx h = ground arith

  write_pages-Wrote :
      (opened : Option f.Dev) (bytes : List ℕ)
      → 0 < p.erase_size
      → write_pages f p opened bytes ≡ done tt
      → (start : WriteContext f) × OpenedToWrite opened start × Wrote start bytes
  unfolding write_pages mtd_write_partition
  write_pages-Wrote none bytes e h = cc
  write_pages-Wrote (some d) bytes e h =
      let start : WriteContext f = record {
        dev = d;
        buffer = [];
        bad_block_offsets = [];
        bad_block_alloc = 0;
      } in
      let w = mtd_write_data f p start bytes in
      elim (Status-cases w.0) [
        | inr stopped ↦ absurd (ground arith)
        | inl went ↦
            let closed : mtd_write_close f p w.1 ≡ true = ground arith in
            let (holds, small) =
              mtd_write_data-Holds f p start start [] bytes e (Holds-refl f p start) e went in
            let (k, less, padded, flushed) =
              pad_pending-Holds f p start w.1 bytes holds small (write_close-padded w.1 closed) in
            (
              start,
              record { device = refl; unwritten = refl; none_bad = refl },
              record {
                zeros = k;
                now = (pad_pending f p w.1).1;
                fill = less;
                holds = padded;
                flushed = flushed;
              },
            )
      ]

  read_pages-Delivers :
      (write_size : ℕ) (opened : Option f.Dev) (r : List ℕ × f.Dev)
      → IsComplete f
      → 0 < p.erase_size
      → read_pages f (some (p, write_size)) opened ≡ done r
      → (start now : ReadContext f) × Opened opened start
        × Delivers f p start r.0 now
        × (r.1 ≡ now.dev)
        × (length r.0 ≡ write_size * misc_pages)
  unfolding read_pages mtd_read_partition status_answer
  read_pages-Delivers w none r complete e h = cc
  read_pages-Delivers w (some d) r complete e h =
      let start : ReadContext f = record { dev = d; buffer = []; consumed = p.erase_size } in
      let g = mtd_read_data f p start (w * misc_pages) in
      let ready : Ready f p start = record {
        consumed_le = omega arith;
        buffer_le = omega arith;
        whole = λ k. absurd (omega arith);
      } in
      elim (Status-cases g.0) [
        | inr stopped ↦ absurd (ground arith)
        | inl went ↦
            let (delivers, exact) =
              mtd_read_data-Delivers f p complete start (w * misc_pages) e ready went in
            let eq : g.1 ≡ r.0 = ground arith in
            let left : r.1 ≡ g.2.dev = ground arith in
            (
              start,
              g.2,
              record { device = refl; unread = refl; spent = refl },
              rw eq at delivers,
              left,
              rw (sym eq) exact,
            )
      ]

  -- The three pages that were read, and those with the message that were written.
  -- The pages are read from `opened`, and written to what `reopen` makes of the device after that.
  pub record MessageSet (write_size : ℕ) (opened : Option f.Dev) (reopen : f.Dev → Option f.Dev)
      (message : List ℕ) : Type 0 where
    pub old : List ℕ
    pub new : List ℕ
    pub reader : ReadContext f
    pub read : ReadContext f
    pub fresh : Opened opened reader
    pub delivers : Delivers f p reader old read
    pub old_size : length old ≡ write_size * misc_pages
    pub replaced :
        new
        ≡ take (write_size * misc_command_page) old
          ++ (message ++ drop (write_size * misc_command_page + message_size) old)
    pub found : message_in write_size new ≡ done message
    pub writer : WriteContext f
    pub empty : OpenedToWrite (reopen read.dev) writer
    pub wrote : Wrote writer new

  -- Where the erase size is not 0, complete reads of the device give as many bytes as they are asked for,
  -- and the message has its size, a set_bootloader_message_mtd that succeeds read three pages as the
  -- stream of blocks from where the device stands when it is opened, and wrote, from where the device
  -- stands when it is opened again after that, whole blocks that are these pages with the message in
  -- its page and every other byte as it was, and then fewer zeros than a block has; what
  -- get_bootloader_message_mtd takes from the pages written is the message.
  pub set_bootloader_message_mtd-MessageSet :
      (write_size : ℕ) (opened : Option f.Dev) (reopen : f.Dev → Option f.Dev) (message : List ℕ)
      → IsComplete f
      → 0 < p.erase_size
      → length message ≡ message_size
      → set_bootloader_message_mtd f (some (p, write_size)) opened reopen message ≡ done tt
      → MessageSet write_size opened reopen message
  unfolding set_bootloader_message_mtd
  set_bootloader_message_mtd-MessageSet w opened reopen message complete e size h =
      elim (Answer-cases (read_pages f (some (p, w)) opened)) [
        | inr stopped ↦ absurd (stopped tt _ h)
        | inl (r, got) ↦
            let (reader, read, fresh, delivers, left, exact) =
              read_pages-Delivers w opened r complete e got in
            let h₁ = rw (got, set_bootloader_message_mtd) at h in
            elim (Answer-cases (with_message w message r.0)) [
              | inr stopped ↦ absurd (stopped tt _ h₁)
              | inl (new, put) ↦
                  let (found, replaced) = with_message-message_in w message r.0 new size put in
                  let (writer, empty, wrote) =
                    write_pages-Wrote (reopen r.1) new e (rw put at h₁) in
                  record {
                    old = r.0;
                    new = new;
                    reader = reader;
                    read = read;
                    fresh = fresh;
                    delivers = delivers;
                    old_size = exact;
                    replaced = replaced;
                    found = found;
                    writer = writer;
                    empty = rw left at empty;
                    wrote = wrote;
                  }
            ]
      ]

  -- Where the erase size is not 0 and complete reads of the device give as many bytes as they are asked
  -- for, a message that get_bootloader_message_mtd answers stands in the command page of three pages
  -- that were read as the stream of blocks from where the device stands when it is opened.
  pub get_bootloader_message_mtd-Delivers :
      (write_size : ℕ) (opened : Option f.Dev) (message : List ℕ)
      → IsComplete f
      → 0 < p.erase_size
      → get_bootloader_message_mtd f (some (p, write_size)) opened ≡ done message
      → (bytes : List ℕ) × (start : ReadContext f) × (now : ReadContext f) × Opened opened start
        × Delivers f p start bytes now
        × (length bytes ≡ write_size * misc_pages)
        × (message ≡ take message_size (drop (write_size * misc_command_page) bytes))
  unfolding get_bootloader_message_mtd message_in
  get_bootloader_message_mtd-Delivers w opened message complete e h =
      elim (Answer-cases (read_pages f (some (p, w)) opened)) [
        | inr stopped ↦ absurd (stopped message _ h)
        | inl (r, got) ↦
            let (start, now, fresh, delivers, left, exact) =
              read_pages-Delivers w opened r complete e got in
            let h₁ = rw (got, get_bootloader_message_mtd) at h in
            (r.0, start, now, fresh, delivers, exact, ground arith)
      ]
