-- ===== src/Minzip/Zip/Stored.antt =====
-- Reading, checking and extracting a stored entry: minzip/Zip.c with its process functions.
use sc7731_sc8830_bootable_r.Base.Int.{pos}
use sc7731_sc8830_bootable_r.Base.{
  ℕ, ◌+◌, ◌-◌, ◌≤◌, ◌<◌, List, [], ◌∷◌, ◌++◌, Option, true, false, ◌≡◌, refl, ◌∙◌, ap, arith, leb,
  ◌==◌, length, take, drop, length-take, length-drop, append_assoc, Bool-cases, inl, inr,
  length-append, append-nil,
}
use sc7731_sc8830_bootable_r.Minzip.Zip.{ZipEntry, ok, ◌>>=◌}
use sc7731_sc8830_bootable_r.Minzip.Zip.Chunks.{
  chunks, concat, concat-chunks, feed, IsFile, process_stored_entry-feed,
}
use sc7731_sc8830_bootable_r.Minzip.Zip.Contents.{
  Inflated, to_size, process_stored_entry, mz_process_zip_entry_contents, copy_process_function,
  mz_read_zip_entry, crc_process_function, mz_is_zip_entry_intact,
}

feed-copy_fits :
    (cs : List (List ℕ)) (buf : List ℕ) (room : ℕ)
    → length (concat cs) ≤ room
    → feed copy_process_function cs (buf, room)
      ≡ ok (true, (buf ++ concat cs, room - length (concat cs)))
unfolding feed copy_process_function ◌>>=◌
feed-copy_fits [] buf room h = let e : room - 0 ≡ room = omega arith in rw (append-nil buf, e) refl
feed-copy_fits (c ∷ cs) buf room h =
    let sum = length-append c (concat cs) in
    let fits : leb (length c) room ≡ true = ground arith in
    let less : room - length c - length (concat cs) ≡ room - length (c ++ concat cs) =
      omega (arith, sum) in
    rw (fits, feed, copy_process_function, ◌>>=◌)
      (feed-copy_fits cs (buf ++ c) (room - length c) (omega (arith, h, sum))
        ∙ rw (append_assoc buf c (concat cs), less) refl)

feed-copy_over :
    (cs : List (List ℕ)) (buf : List ℕ) (room : ℕ)
    → room < length (concat cs)
    → (args : List ℕ × ℕ) × (feed copy_process_function cs (buf, room) ≡ ok (false, args))
unfolding feed copy_process_function ◌>>=◌
feed-copy_over [] buf room h = absurd (omega arith)
feed-copy_over (c ∷ cs) buf room h =
    let sum = length-append c (concat cs) in
    elim (Bool-cases (leb (length c) room)) [
      | inl fits ↦
          let le : length c ≤ room = ground arith in
          let (args, e) =
            feed-copy_over cs (buf ++ c) (room - length c) (omega (arith, h, sum, le)) in
          (args, rw (fits, feed, copy_process_function, ◌>>=◌) e)
      | inr over ↦ ((buf, room), rw (over, feed, copy_process_function, ◌>>=◌) refl)
    ]

feed-crc :
    (crc32 : ℕ → List ℕ → ℕ)
    → ((crc : ℕ) → crc32 crc [] ≡ crc)
    → ((crc : ℕ) (xs ys : List ℕ) → crc32 (crc32 crc xs) ys ≡ crc32 crc (xs ++ ys))
    → (cs : List (List ℕ)) (crc : ℕ)
    → feed (crc_process_function crc32) cs crc ≡ ok (true, crc32 crc (concat cs))
unfolding feed crc_process_function ◌>>=◌
feed-crc crc32 stays joins [] crc = rw (stays crc) refl
feed-crc crc32 stays joins (c ∷ cs) crc =
    feed-crc crc32 stays joins cs (crc32 crc c) ∙ rw (joins crc c (concat cs)) refl

module _ {Z : Type 0} (read : ℕ → ℕ → Option (List ℕ)) (inflate_init2 : Option Z)
    (inflate : Z → List ℕ → ℕ → Inflated Z) (crc32 : ℕ → List ℕ → ℕ) where
  -- For a stored entry whose data are `n` bytes of a regular file, from `start` on, and a crc32 that
  -- takes its data in pieces: mzReadZipEntry succeeds with just these bytes if the buffer has room for
  -- them, and else fails; and mzIsZipEntryIntact tells whether their checksum is that of the entry.
  pub stored_entry_lem :
      (bytes : List ℕ) (rounds old : ℕ) (e : ZipEntry) (start n buf_len : ℕ)
      → IsFile read bytes
      → ((crc : ℕ) → crc32 crc [] ≡ crc)
      → ((crc : ℕ) (xs ys : List ℕ) → crc32 (crc32 crc xs) ys ≡ crc32 crc (xs ++ ys))
      → e.compression ≡ 0
      → e.offset ≡ pos start
      → to_size e.comp_len ≡ n
      → start + n ≤ length bytes
      → (n ≤ buf_len
          → mz_read_zip_entry read inflate_init2 inflate rounds old e buf_len
            ≡ ok (true, take n (drop start bytes)))
        × (buf_len < n
            → (buf : List ℕ) × (mz_read_zip_entry read inflate_init2 inflate rounds old e buf_len
                ≡ ok (false, buf)))
        × (mz_is_zip_entry_intact read inflate_init2 inflate crc32 rounds old e
            ≡ ok (crc32 0 (take n (drop start bytes)) == to_size e.crc32))
  unfolding mz_read_zip_entry mz_is_zip_entry_intact mz_process_zip_entry_contents ◌>>=◌
  stored_entry_lem bytes rounds old e start n buf_len file stays joins how at size inside =
      let d = take n (drop start bytes) in
      let len : length d ≡ n =
        length-take n (drop start bytes) ∙ omega (arith, length-drop start bytes, inside) in
      let whole : concat (chunks n d) ≡ d = concat-chunks n d (omega (arith, len)) in
      let f = copy_process_function in
      let copy = process_stored_entry-feed read bytes file f e start n ([], buf_len) size inside in
      let copied : n ≤ buf_len
          → process_stored_entry read e start f ([], buf_len)
            ≡ ok (true, ([] ++ concat (chunks n d), buf_len - length (concat (chunks n d)))) =
        λ fits.
          copy ∙ feed-copy_fits (chunks n d) [] buf_len (rw whole (omega (arith, len, fits))) in
      let sum : process_stored_entry read e start (crc_process_function crc32) 0
          ≡ ok (true, crc32 0 d) =
        process_stored_entry-feed read bytes file (crc_process_function crc32) e start n 0 size
          inside
        ∙ feed-crc crc32 stays joins (chunks n d) 0
        ∙ ap (λ z. ok (true, crc32 0 z)) whole in
      (
        λ fits.
            rw
              (how, at, copied fits, whole, mz_read_zip_entry, mz_process_zip_entry_contents, ◌>>=◌)
              refl,
        λ over.
            let (args, failed) =
              feed-copy_over (chunks n d) [] buf_len (rw whole (omega (arith, len, over))) in
            let stops : process_stored_entry read e start f ([], buf_len) ≡ ok (false, args) =
              copy ∙ failed in
            (
              args.0,
              rw (how, at, stops, mz_read_zip_entry, mz_process_zip_entry_contents, ◌>>=◌) refl,
            ),
        rw (how, at, sum, mz_is_zip_entry_intact, mz_process_zip_entry_contents, ◌>>=◌) refl,
      )
