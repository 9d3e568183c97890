-- ===== src/Applypatch/Bspatch/Tests.antt =====
-- Runs of applypatch/bspatch.c, with streams that are stored as they are.
use sc7731_sc8830_bootable_r.Base.{get_elem?, some}
use sc7731_sc8830_bootable_r.Applypatch.Bspatch.Bytes.{Adds, add_old-Adds}
use sc7731_sc8830_bootable_r.Base.Int.{pos, negsuc, ◌+ℤ◌}
use sc7731_sc8830_bootable_r.Base.{
  ℕ, ◌<◌, List, [], ◌∷◌, Bool, true, false, ◌≡◌, ◌≢◌, refl, arith, leb, take, drop, length,
  length-take, take-append-drop, if◌then◌else◌,
}
use sc7731_sc8830_bootable_r.Applypatch.Bspatch.Bzlib.{ok, stream_end, Bzip, IsError, Delivers}
use sc7731_sc8830_bootable_r.Applypatch.Bspatch.Fill.{fill_buffer_lem}
use sc7731_sc8830_bootable_r.Applypatch.Bspatch.Offsets.{offtin-offtout}
use sc7731_sc8830_bootable_r.Applypatch.Bspatch.Format.Patch.{apply_bsdiff_patch_mem_lem}
use sc7731_sc8830_bootable_r.Applypatch.Bspatch.Format.{
  Entry, control_bytes, patch_bytes, rebuild, Fills,
}
use sc7731_sc8830_bootable_r.Applypatch.Bspatch.{
  done, add_old, offtin, offtout, fill_buffer, apply_bsdiff_patch_mem, in_off_t,
}

abbrev stored : Bzip
stored = record {
  Stream = List ℕ;
  open_stream = λ bytes. bytes;
  decompress =
      λ s avail. ((if leb (length s) avail then stream_end else ok), take avail s, drop avail s);
}

no-IsError : (b : Bool) → ¬ IsError (if b then stream_end else ok)
no-IsError true = λ e. e
no-IsError false = λ e. e

positive : (s : List ℕ) → s ≢ [] → 0 < length s
positive [] h = absurd (h refl)
positive (b ∷ s) h = omega arith

abbrev delivers : Delivers stored
delivers = record {
  contents = λ s. s;
  no_error = λ s avail room left. no-IsError (leb (length s) avail);
  next_bytes = λ s avail room left. take-append-drop avail s;
  progress = λ s avail room left.
      let some_left = positive s left in
      (omega (arith, length-take avail s), omega (arith, length-take avail s));
}

offtin-offtout_example : offtin (offtout (negsuc 299)) ≡ negsuc 299
offtin-offtout_example = offtin-offtout (negsuc 299) (omega arith) (omega arith)

fill_buffer_lem_example :
    (s' : List ℕ) × (fill_buffer stored 3 2 (4 ∷ 5 ∷ 6 ∷ []) ≡ done (4 ∷ 5 ∷ [], s'))
    × (s' ≡ 6 ∷ [])
fill_buffer_lem_example =
    fill_buffer_lem stored delivers 3 2 (4 ∷ 5 ∷ 6 ∷ []) (omega arith) (omega arith)

-- Three bytes of the old file, two new ones, then back by four, and two of the old file again.
abbrev entries : List Entry
entries =
    record { add = 3; copy = 2; seek = negsuc 3 } ∷ record { add = 2; copy = 0; seek = pos 0 } ∷ []

entries-Fills : Fills 7 0 (pos 0) entries
unfolding in_off_t ◌+ℤ◌
entries-Fills = (
  omega arith,
  omega arith,
  omega arith,
  omega arith,
  omega arith,
  omega arith,
  refl,
  refl,
  (omega arith, omega arith, omega arith, omega arith, omega arith, omega arith, refl, refl, refl),
)

length-control : length (control_bytes entries) ≡ 48
unfolding control_bytes offtout
length-control = refl

apply_bsdiff_patch_mem_lem_example :
    apply_bsdiff_patch_mem stored 40
      (10 ∷ 20 ∷ 30 ∷ 40 ∷ [])
      (0 ∷ patch_bytes (control_bytes entries) (1 ∷ 1 ∷ 1 ∷ 0 ∷ 0 ∷ []) (8 ∷ 9 ∷ []) 7)
      1
    ≡ done (rebuild (10 ∷ 20 ∷ 30 ∷ 40 ∷ []) entries (pos 0) (1 ∷ 1 ∷ 1 ∷ 0 ∷ 0 ∷ []) (8 ∷ 9 ∷ []))
apply_bsdiff_patch_mem_lem_example =
    apply_bsdiff_patch_mem_lem stored delivers (10 ∷ 20 ∷ 30 ∷ 40 ∷ []) (0 ∷ [])
      (control_bytes entries) (1 ∷ 1 ∷ 1 ∷ 0 ∷ 0 ∷ []) (8 ∷ 9 ∷ []) 7 entries 40
      (omega (arith, length-control)) (omega arith) (omega arith) refl (omega arith) (omega arith)
      entries-Fills (omega arith)

rebuild_example :
    rebuild (10 ∷ 20 ∷ 30 ∷ 40 ∷ []) entries (pos 0) (1 ∷ 1 ∷ 1 ∷ 0 ∷ 0 ∷ []) (8 ∷ 9 ∷ [])
    ≡ 11 ∷ 21 ∷ 31 ∷ 8 ∷ 9 ∷ 0 ∷ 10 ∷ []
unfolding rebuild add_old ◌+ℤ◌
rebuild_example = refl

add_old-Adds_example :
    (length (add_old (10 ∷ 20 ∷ 30 ∷ []) (negsuc 0) (1 ∷ 250 ∷ 3 ∷ [])) ≡ 3)
    × (b : ℕ) × (get_elem? (add_old (10 ∷ 20 ∷ 30 ∷ []) (negsuc 0) (1 ∷ 250 ∷ 3 ∷ [])) 1 ≡ some b)
    × Adds (10 ∷ 20 ∷ 30 ∷ []) (negsuc 0 +ℤ pos 1) 250 b
add_old-Adds_example = add_old-Adds (10 ∷ 20 ∷ 30 ∷ []) (1 ∷ 250 ∷ 3 ∷ []) (negsuc 0) 1 250 refl
