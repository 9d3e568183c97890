-- ===== src/Minzip/Zip/Contents.antt =====
-- The contents of an entry, handed piece by piece to a function: minzip/Zip.c from processStoredEntry to
-- mzExtractZipEntryToBuffer. `read pos count` is a read of the archive's file descriptor at `pos`, with
-- `none` for an error; `inflate` and `crc32` are zlib's.
use sc7731_sc8830_bootable_r.Base.Int.{ℤ, pos, negsuc, ◌+ℤ◌, pos_part, neg_part, sub_ℕ}
use sc7731_sc8830_bootable_r.Base.{
  ℕ, zero, suc, ◌+◌, ◌-◌, ◌%◌, ◌^◌, List, [], ◌∷◌, ◌++◌, Option, none, some, Bool, true, false,
  ◌&&◌, ltb, leb, ◌==◌, if◌then◌else◌, length,
}
use sc7731_sc8830_bootable_r.Minzip.Zip.{ZipEntry, Parsed, ok, unspecified, ◌>>=◌, to_long}

-- What a call of inflate returns: Z_OK, Z_STREAM_END, or an error
pub data InflateStatus : Type 0 where
  z_ok z_stream_end z_failed : InflateStatus

-- The rest of the input, the output, and the stream after a call of inflate
pub record Inflated (Z : Type 0) : Type 0 where
  pub status : InflateStatus
  pub rest : List ℕ
  pub output : List ℕ
  pub stream : Z

-- (size_t)v
unfoldable pub to_size : ℤ → ℕ
to_size v = (pos_part v + (2 ^ 32 - neg_part v)) % 2 ^ 32

-- processFunction: whether to go on, and its cookie
abbrev pub ProcessFunction : Type 0 → Type 0
ProcessFunction S = List ℕ → S → Parsed (Bool × S)

-- What one read asks for of the bytes that are left
unfoldable pub piece : ℕ → ℕ
piece left = if ltb 32768 left then 32768 else left

-- Whether two `long` are the same
unfoldable pub same_long : ℤ → ℤ → Bool
same_long a b = (pos_part a == pos_part b) && (neg_part a == neg_part b)

-- CopyProcessArgs: the bytes in `buf`, and `bufLen`
unfoldable pub copy_process_function : ProcessFunction (List ℕ × ℕ)
copy_process_function dat args =
    if leb (length dat) args.1
    then ok (true, (args.0 ++ dat, args.1 - length dat))
    else ok (false, args)

-- BufferExtractCookie: the bytes in `buffer`, which has room for `room` more, and `len`. A write
-- behind the buffer is left open.
unfoldable pub buffer_process_function : ProcessFunction (List ℕ × (ℕ × ℤ))
buffer_process_function dat bec =
    if leb (length dat) bec.1.0
    then ok (true, (bec.0 ++ dat, (bec.1.0 - length dat, bec.1.1 +ℤ sub_ℕ 0 (length dat))))
    else unspecified

unfoldable pub crc_process_function : (ℕ → List ℕ → ℕ) → ProcessFunction ℕ
crc_process_function crc32 dat crc = ok (true, crc32 crc dat)

module _ (read : ℕ → ℕ → Option (List ℕ)) where
  -- The loop of processStoredEntry from `at` on; a round for each byte that is left is enough.
  unfoldable pub stored_loop : {S : Type 0} → ℕ → ProcessFunction S → ℕ → ℕ → S → Parsed (Bool × S)
  unfolding piece
  stored_loop zero f at left s = if left == 0 then ok (true, s) else unspecified
  stored_loop (suc rounds) f at left s =
      if left == 0
      then ok (true, s)
      else (let count = piece left in
          elim (read at count) [
            | none ↦ ok (false, s)
            | some buf ↦
                if length buf == count
                then (do
                  r ← f buf s
                  (if r.0
                      then stored_loop rounds f (at + count) (left - count) r.1
                      else ok (false, r.1)))
                else ok (false, s)
          ])

  unfoldable pub process_stored_entry :
      {S : Type 0} → ZipEntry → ℕ → ProcessFunction S → S → Parsed (Bool × S)
  unfolding stored_loop to_size
  process_stored_entry e at f s = stored_loop (to_size e.comp_len) f at (to_size e.comp_len) s

  module _ {Z : Type 0} (inflate_init2 : Option Z) (inflate : Z → List ℕ → ℕ → Inflated Z) where
    -- What processDeflatedEntry does with the output that inflate has written: `some out` is what stays
    -- in procBuf, `none` that the process function elected to fail.
    unfoldable pub flush :
        {S : Type 0} → ProcessFunction S → InflateStatus → List ℕ → S → Parsed (Option (List ℕ) × S)
    flush f z_ok out s =
        if leb 32768 (length out)
        then (f out s >>= λ r. ok ((if r.0 then some [] else none), r.1))
        else ok (some out, s)
    flush f z_stream_end out s =
        if leb 1 (length out)
        then (f out s >>= λ r. ok ((if r.0 then some [] else none), r.1))
        else ok (some out, s)
    flush f z_failed out s = ok (none, s)

    -- The input of a round: what is left of readBuf, or a new piece of the file, with the place and the
    -- number of the bytes to come; `none` is a read that failed. A read of a negative length is left
    -- open.
    unfoldable pub next_input : List ℕ → ℕ → ℤ → Parsed (Option (List ℕ × (ℕ × ℤ)))
    unfolding piece
    next_input (x ∷ input) at remaining = ok (some (x ∷ input, (at, remaining)))
    next_input [] at (negsuc n) = unspecified
    next_input [] at (pos n) =
        let size = piece n in
        elim (read at size) [
          | none ↦ ok none
          | some buf ↦
              if length buf == size then ok (some (buf, (at + size, pos (n - size)))) else ok none
        ]

    -- The loop of processDeflatedEntry: `total` is zstream.total_out, and the result the value of
    -- `result`.
    unfoldable pub inflate_loop :
        {S : Type 0} → ℕ → ProcessFunction S → Z → List ℕ → ℕ → ℤ → List ℕ → ℕ → S → Parsed (ℤ × S)
    unfolding next_input flush
    inflate_loop zero f z input at remaining out total s = unspecified
    inflate_loop (suc rounds) f z input at remaining out total s = do
      given ← next_input input at remaining
      elim given [
        | none ↦ ok (negsuc 0, s)
        | some g ↦
            let i = inflate z g.0 (32768 - length out) in
            let total' = (total + length i.output) % 2 ^ 32 in
            (do
              flushed ← flush f i.status (out ++ i.output) s
              elim flushed.0 [
                | none ↦ ok (negsuc 0, flushed.1)
                | some out' ↦ elim i.status [
                  | z_ok ↦ inflate_loop rounds f i.stream i.rest g.1.0 g.1.1 out' total' flushed.1
                  | _ ↦ ok (to_long total', flushed.1)
                ]
              ])
      ]

    -- The number of rounds is a parameter, as only zlib bounds it.
    unfoldable pub process_deflated_entry :
        {S : Type 0} → ℕ → ZipEntry → ℕ → ProcessFunction S → S → Parsed (Bool × S)
    unfolding inflate_loop same_long
    process_deflated_entry rounds e at f s = elim inflate_init2 [
      | none ↦ ok (same_long (negsuc 0) e.uncomp_len, s)
      | some z ↦
          (inflate_loop rounds f z [] at e.comp_len [] 0 s >>= λ r.
          ok (same_long r.0 e.uncomp_len, r.1))
    ]

    -- `old` is the offset of the file descriptor, which an lseek to a negative one leaves alone. STORED
    -- is 0 and DEFLATED 8.
    unfoldable pub mz_process_zip_entry_contents :
        {S : Type 0} → ℕ → ℕ → ZipEntry → ProcessFunction S → S → Parsed (Bool × S)
    unfolding process_stored_entry process_deflated_entry
    mz_process_zip_entry_contents rounds old e f s =
        let at : ℕ = elim e.offset [ pos n ↦ n | negsuc n ↦ old ] in
        if e.compression == 0
        then process_stored_entry e at f s
        else if e.compression == 8
        then process_deflated_entry rounds e at f s
        else ok (false, s)

    -- The result, and the bytes in `buf`
    unfoldable pub mz_read_zip_entry : ℕ → ℕ → ZipEntry → ℕ → Parsed (Bool × List ℕ)
    unfolding mz_process_zip_entry_contents copy_process_function
    mz_read_zip_entry rounds old e buf_len =
        mz_process_zip_entry_contents rounds old e copy_process_function ([], buf_len) >>= λ r.
        ok (r.0, r.1.0)

    -- `room` is the size of the buffer that the caller gave.
    unfoldable pub mz_extract_zip_entry_to_buffer : ℕ → ℕ → ZipEntry → ℕ → Parsed (Bool × List ℕ)
    unfolding mz_process_zip_entry_contents buffer_process_function same_long
    mz_extract_zip_entry_to_buffer rounds old e room =
        mz_process_zip_entry_contents rounds old e buffer_process_function
          ([], (room, e.uncomp_len))
        >>= λ r. ok (r.0 && same_long r.1.1.1 (pos 0), r.1.0)

    module _ (crc32 : ℕ → List ℕ → ℕ) where
      -- An unsigned long has 32 bits; crc32(0, Z_NULL, 0) is 0.
      unfoldable pub mz_is_zip_entry_intact : ℕ → ℕ → ZipEntry → Parsed Bool
      unfolding mz_process_zip_entry_contents crc_process_function to_size
      mz_is_zip_entry_intact rounds old e =
          mz_process_zip_entry_contents rounds old e (crc_process_function crc32) 0 >>= λ r.
          ok (if r.0 then r.1 == to_size e.crc32 else false)
