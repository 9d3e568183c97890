-- ===== src/Bootloader.antt =====
-- The message to the bootloader in the misc partition on raw flash: get_bootloader_message_mtd and
-- set_bootloader_message_mtd of bootloader.c.
mod Pages
pub mod Message
mod Tests
use sc7731_sc8830_bootable_r.Base.{
  ℕ, ◌+◌, ◌*◌, List, ◌++◌, Bool, true, false, Option, none, some, leb, if◌then◌else◌, length, take,
  drop,
}
use sc7731_sc8830_bootable_r.Mtdutils.Flash.{Flash, Partition}
use sc7731_sc8830_bootable_r.Mtdutils.Read.{mtd_read_partition, mtd_read_data}
use sc7731_sc8830_bootable_r.Mtdutils.Write.{
  Status, ok, error, running, mtd_write_partition, mtd_write_data, mtd_write_close,
}

-- A result, the return of -1, an access outside `data`, or rounds without end.
pub data Answer (A : Type 0) : Type 0 where
  done : A → Answer A
  failed undefined endless : Answer A

infixl 5 ◌>>=◌
abbrev pub ◌>>=◌ : {A B : Type 0} → Answer A → (A → Answer B) → Answer B
done a >>= k = k a
failed >>= k = failed
undefined >>= k = undefined
endless >>= k = endless

abbrev pub misc_pages : ℕ
misc_pages = 3

abbrev pub misc_command_page : ℕ
misc_command_page = 1

-- sizeof(struct bootloader_message): 32 + 32 + 1024
abbrev pub message_size : ℕ
message_size = 1088

-- memcpy(out, &data[write_size * MISC_COMMAND_PAGE], sizeof(*out))
unfoldable pub message_in : ℕ → List ℕ → Answer (List ℕ)
message_in write_size bytes =
    if leb (write_size * misc_command_page + message_size) (length bytes)
    then done (take message_size (drop (write_size * misc_command_page) bytes))
    else undefined

-- memcpy(&data[write_size * MISC_COMMAND_PAGE], in, sizeof(*in)); `message` has message_size bytes.
unfoldable pub with_message : ℕ → List ℕ → List ℕ → Answer (List ℕ)
with_message write_size message bytes =
    if leb (write_size * misc_command_page + message_size) (length bytes)
    then done (
        take (write_size * misc_command_page) bytes
        ++ (message ++ drop (write_size * misc_command_page + message_size) bytes))
    else undefined

unfoldable pub status_answer : {A : Type 0} → Status → A → Answer A
status_answer ok a = done a
status_answer error a = failed
status_answer running a = endless

-- mtd_partition_info's write size stands beside the partition; `none` is a partition that is not
-- found, or whose device cannot be opened. The device of an open call is its argument.
module _ (f : Flash) where
  unfoldable pub read_pages : Option (Partition × ℕ) → Option f.Dev → Answer (List ℕ × f.Dev)
  unfolding status_answer
  read_pages none opened = failed
  read_pages (some (p, write_size)) opened = elim (mtd_read_partition f p opened) [
    | none ↦ failed
    | some ctx ↦
        let (status, bytes, ctx₁) = mtd_read_data f p ctx (write_size * misc_pages) in
        status_answer status (bytes, ctx₁.dev)
  ]

  unfoldable pub get_bootloader_message_mtd :
      Option (Partition × ℕ) → Option f.Dev → Answer (List ℕ)
  get_bootloader_message_mtd none opened = failed
  get_bootloader_message_mtd (some (p, write_size)) opened =
      read_pages (some (p, write_size)) opened >>= λ (bytes, d). message_in write_size bytes

  unfoldable pub write_pages : Partition → Option f.Dev → List ℕ → Answer (Unit {0})
  write_pages p opened bytes = elim (mtd_write_partition f opened) [
    | none ↦ failed
    | some ctx ↦
        let (status, ctx₁) = mtd_write_data f p ctx bytes in
        elim status [
          | ok ↦ if mtd_write_close f p ctx₁ then done tt else failed
          | error ↦ failed
          | running ↦ endless
        ]
  ]

  -- `reopen` is the second open call, on what the first left of the device.
  unfoldable pub set_bootloader_message_mtd :
      Option (Partition × ℕ) → Option f.Dev → (f.Dev → Option f.Dev) → List ℕ → Answer (Unit {0})
  set_bootloader_message_mtd none opened reopen message = failed
  set_bootloader_message_mtd (some (p, write_size)) opened reopen message =
      read_pages (some (p, write_size)) opened >>= λ (bytes, d).
      with_message write_size message bytes >>= λ new. write_pages p (reopen d) new
