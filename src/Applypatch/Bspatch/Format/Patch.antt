-- ===== src/Applypatch/Bspatch/Format/Patch.antt =====
-- ApplyBSDiffPatchMem of applypatch/bspatch.c on a whole patch.
use sc7731_sc8830_bootable_r.Base.Int.{pos}
use sc7731_sc8830_bootable_r.Base.{
  ℕ, ◌+◌, ◌^◌, ◌≤◌, ◌<◌, List, ◌++◌, false, ◌≡◌, refl, sym, ap, ◌∙◌, arith, codes, length, take,
  drop, length-append, take-append_of_eq, drop-append_of_eq, take-append, drop-append, drop-drop,
  ltb,
}
use sc7731_sc8830_bootable_r.Applypatch.Bspatch.Bzlib.{Bzip, Delivers}
use sc7731_sc8830_bootable_r.Applypatch.Bspatch.Format.Round.{loop_lem}
use sc7731_sc8830_bootable_r.Applypatch.Bspatch.Format.{
  Entry, control_bytes, diff_size, extra_size, rebuild, Fills, patch_bytes,
}
use sc7731_sc8830_bootable_r.Applypatch.Bspatch.Offsets.{offtin-offtout, length-offtout}
use sc7731_sc8830_bootable_r.Applypatch.Bspatch.{
  done, offtout, count_of, read_lengths, apply_blocks, apply_bsdiff_patch_mem,
}

-- The four fields and the three blocks of a patch, at the offsets at which the code reads them.
record Layout (ctrl diffs extra : List ℕ) (new_size : ℕ) (header : List ℕ) : Type 0 where
  magic : take 8 header ≡ codes "BSDIFF40"
  ctrl_len : take 8 (drop 8 header) ≡ offtout (pos (length ctrl))
  data_len : take 8 (drop 16 header) ≡ offtout (pos (length diffs))
  size : take 8 (drop 24 header) ≡ offtout (pos new_size)
  ctrl_at : take (length ctrl) (drop 32 header) ≡ ctrl
  data_at : take (length diffs) (drop (32 + length ctrl) header) ≡ diffs
  extra_at : drop (32 + length ctrl + length diffs) header ≡ extra
  total : length header ≡ 32 + length ctrl + length diffs + length extra

module _ (ctrl diffs extra : List ℕ) (new_size : ℕ) where
  patch_bytes-Layout : Layout ctrl diffs extra new_size (patch_bytes ctrl diffs extra new_size)
  unfolding patch_bytes
  patch_bytes-Layout =
      let a = offtout (pos (length ctrl)) in
      let b = offtout (pos (length diffs)) in
      let c = offtout (pos new_size) in
      let t3 = ctrl ++ (diffs ++ extra) in
      let h = codes "BSDIFF40" ++ (a ++ (b ++ (c ++ t3))) in
      let d8 : drop 8 h ≡ a ++ (b ++ (c ++ t3)) = refl in
      let d16 : drop 16 h ≡ b ++ (c ++ t3) =
        sym (drop-drop 8 8 h) ∙ drop-append_of_eq 8 a (b ++ (c ++ t3)) (length-offtout _) in
      let d24 : drop 24 h ≡ c ++ t3 =
        sym (drop-drop 16 8 h)
        ∙ ap (drop 8) d16
        ∙ drop-append_of_eq 8 b (c ++ t3) (length-offtout _) in
      let d32 : drop 32 h ≡ t3 =
        sym (drop-drop 24 8 h) ∙ ap (drop 8) d24 ∙ drop-append_of_eq 8 c t3 (length-offtout _) in
      let dd : drop (32 + length ctrl) h ≡ diffs ++ extra =
        sym (drop-drop 32 (length ctrl) h)
        ∙ ap (drop (length ctrl)) d32
        ∙ drop-append ctrl (diffs ++ extra) in
      record {
        magic = refl;
        ctrl_len = take-append_of_eq 8 a (b ++ (c ++ t3)) (length-offtout _);
        data_len = ap (take 8) d16 ∙ take-append_of_eq 8 b (c ++ t3) (length-offtout _);
        size = ap (take 8) d24 ∙ take-append_of_eq 8 c t3 (length-offtout _);
        ctrl_at = ap (take (length ctrl)) d32 ∙ take-append ctrl (diffs ++ extra);
        data_at = ap (take (length diffs)) dd ∙ take-append diffs extra;
        extra_at =
            sym (drop-drop (32 + length ctrl) (length diffs) h)
            ∙ ap (drop (length diffs)) dd
            ∙ drop-append diffs extra;
        total = omega (
          arith,
          length-append a (b ++ (c ++ t3)),
          length-append b (c ++ t3),
          length-append c t3,
          length-append ctrl (diffs ++ extra),
          length-append diffs extra,
          length-offtout (pos (length ctrl)),
          length-offtout (pos (length diffs)),
          length-offtout (pos new_size),
        );
      }

  read_lengths_lem :
      (header : List ℕ)
      → Layout ctrl diffs extra new_size header
      → length ctrl < 2 ^ 63
      → length diffs < 2 ^ 63
      → new_size < 2 ^ 63
      → read_lengths header ≡ done (length ctrl, length diffs, new_size)
  unfolding read_lengths count_of
  read_lengths_lem header l hc hd hn = rw (
    l.ctrl_len,
    l.data_len,
    l.size,
    offtin-offtout (pos (length ctrl)) hc (omega arith),
    offtin-offtout (pos (length diffs)) hd (omega arith),
    offtin-offtout (pos new_size) hn (omega arith),
  )

module _ (bz : Bzip) (d : Delivers bz) (old front ctrl diffs extra : List ℕ) (new_size : ℕ) where
  open bz use {open_stream}
  open d use {contents}

  -- A patch whose lengths are below 2 ^ 63, whose control block delivers its entries, whose other two
  -- blocks deliver the bytes that these ask for, and whose entries fill the new file, is applied as the
  -- format says, also behind other bytes: the new file is what the entries rebuild from the old file,
  -- the diff block and the extra block. The fuel need only pass the number of entries, the size of the
  -- new file and 24 together.
  pub apply_bsdiff_patch_mem_lem :
      (es : List Entry) (fuel : ℕ)
      → length ctrl < 2 ^ 63
      → length diffs < 2 ^ 63
      → new_size < 2 ^ 63
      → contents (open_stream ctrl) ≡ control_bytes es
      → diff_size es ≤ length (contents (open_stream diffs))
      → extra_size es ≤ length (contents (open_stream extra))
      → Fills new_size 0 (pos 0) es
      → length es + 24 + new_size < fuel
      → apply_bsdiff_patch_mem bz fuel old
          (front ++ patch_bytes ctrl diffs extra new_size)
          (length front)
        ≡ done
            (rebuild old es (pos 0) (contents (open_stream diffs)) (contents (open_stream extra)))
  unfolding apply_bsdiff_patch_mem apply_blocks
  apply_bsdiff_patch_mem_lem es fuel hc hd hn ctl dl el f enough =
      let header = patch_bytes ctrl diffs extra new_size in
      let l = patch_bytes-Layout ctrl diffs extra new_size in
      let whole : ltb (length header) 8 ≡ false = ground (arith, l.total) in
      let fields : ltb (length header) 32 ≡ false = ground (arith, l.total) in
      let blocks : ltb (length header) (32 + length ctrl + length diffs) ≡ false =
        ground (arith, l.total) in
      rw
        (
          drop-append front header,
          whole,
          l.magic,
          fields,
          read_lengths_lem ctrl diffs extra new_size header l hc hd hn,
          blocks,
          l.ctrl_at,
          l.data_at,
          l.extra_at,
        )
        (loop_lem bz d old new_size hn fuel es _ enough ctl dl el f)
