-- ===== src/Applypatch/Bspatch/Format.antt =====
-- What a binary patch means, as the comment in ApplyBSDiffPatchMem of applypatch/bspatch.c tells it,
-- with no streams and no buffers.
pub mod Round
pub mod Patch
use sc7731_sc8830_bootable_r.Base.Int.{ℤ, pos, ◌+ℤ◌, pos_part, neg_part}
use sc7731_sc8830_bootable_r.Base.{
  ℕ, ◌+◌, ◌^◌, ◌≤◌, ◌<◌, List, [], ◌∷◌, ◌++◌, Bool, true, length, codes, ◌≡◌, take, drop,
}
use sc7731_sc8830_bootable_r.Applypatch.Bspatch.{offtout, add_old, in_off_t}

-- A triple of the control block.
pub record Entry : Type 0 where
  pub add : ℕ
  pub copy : ℕ
  pub seek : ℤ

unfoldable pub entry_bytes : Entry → List ℕ
entry_bytes e = offtout (pos e.add) ++ (offtout (pos e.copy) ++ offtout e.seek)

unfoldable pub control_bytes : List Entry → List ℕ
unfolding entry_bytes
control_bytes [] = []
control_bytes (e ∷ es) = entry_bytes e ++ control_bytes es

-- The bytes that the entries ask of the diff block and of the extra block.
abbrev pub diff_size : List Entry → ℕ
diff_size [] = 0
diff_size (e ∷ es) = e.add + diff_size es

abbrev pub extra_size : List Entry → ℕ
extra_size [] = 0
extra_size (e ∷ es) = e.copy + extra_size es

-- "Add x bytes from oldfile to x bytes from the diff block; copy y bytes from the extra block; seek
-- forwards in oldfile by z bytes."
unfoldable pub rebuild : List ℕ → List Entry → ℤ → List ℕ → List ℕ → List ℕ
rebuild old [] oldpos diff extra = []
rebuild old (e ∷ es) oldpos diff extra =
    add_old old oldpos (take e.add diff)
    ++ (take e.copy extra
        ++ rebuild old es ((oldpos +ℤ pos e.add) +ℤ e.seek) (drop e.add diff) (drop e.copy extra))

-- The entries fill the new file exactly, with `written` bytes of it there already, each before the
-- file is full; and the positions in the old file are off_ts.
abbrev pub Fills : ℕ → ℕ → ℤ → List Entry → Type 0
Fills new_size written oldpos [] = written ≡ new_size
Fills new_size written oldpos (e ∷ es) =
    (written < new_size)
    × (written + e.add + e.copy ≤ new_size)
    × (e.add < 2 ^ 31)
    × (e.copy < 2 ^ 32)
    × (pos_part e.seek < 2 ^ 63)
    × (neg_part e.seek < 2 ^ 63)
    × (in_off_t (oldpos +ℤ pos e.add) ≡ true)
    × (in_off_t ((oldpos +ℤ pos e.add) +ℤ e.seek) ≡ true)
    × Fills new_size (written + e.add + e.copy) ((oldpos +ℤ pos e.add) +ℤ e.seek) es

-- A whole patch: magic, the two block lengths and the size of the new file, then the three blocks.
unfoldable pub patch_bytes : List ℕ → List ℕ → List ℕ → ℕ → List ℕ
patch_bytes ctrl diffs extra new_size =
    codes "BSDIFF40"
    ++ (offtout (pos (length ctrl))
        ++ (offtout (pos (length diffs)) ++ (offtout (pos new_size) ++ (ctrl ++ (diffs ++ extra)))))
