-- ===== src/Applypatch/Bspatch/Format/Round.antt =====
-- The rounds of the loop of ApplyBSDiffPatchMem in applypatch/bspatch.c, one for each entry.
use sc7731_sc8830_bootable_r.Base.Int.{ℤ, pos, pos_part, neg_part, ◌+ℤ◌}
use sc7731_sc8830_bootable_r.Base.{
  ℕ, zero, suc, ◌+◌, ◌^◌, ◌≤◌, ◌<◌, List, [], ◌∷◌, ◌++◌, true, false, ◌≡◌, refl, sym, ap, ◌∙◌,
  arith, length, take, drop, length-append, length-take, length-drop, take-append_of_eq,
  drop-append_of_eq, append_assoc, append-nil, drop-drop, ltb,
}
use sc7731_sc8830_bootable_r.Applypatch.Bspatch.Bzlib.{Bzip, Delivers}
use sc7731_sc8830_bootable_r.Applypatch.Bspatch.Fill.{fill_buffer_lem}
use sc7731_sc8830_bootable_r.Applypatch.Bspatch.Format.{
  Entry, entry_bytes, control_bytes, diff_size, extra_size, rebuild, Fills,
}
use sc7731_sc8830_bootable_r.Applypatch.Bspatch.Offsets.{offtin-offtout, length-offtout}
use sc7731_sc8830_bootable_r.Applypatch.Bspatch.{
  done, offtout, add_old, in_off_t, check_off_t, check_run, count_of, Progress, apply_round,
  apply_loop,
}

length-entry_bytes : (e : Entry) → length (entry_bytes e) ≡ 24
unfolding entry_bytes
length-entry_bytes e = omega (
  arith,
  length-append (offtout (pos e.add)) (offtout (pos e.copy) ++ offtout e.seek),
  length-append (offtout (pos e.copy)) (offtout e.seek),
  length-offtout (pos e.add),
  length-offtout (pos e.copy),
  length-offtout e.seek,
)

-- The three numbers of an entry, as the round reads them.
entry_numbers :
    (e : Entry)
    → (take 8 (entry_bytes e) ≡ offtout (pos e.add))
      × (take 8 (drop 8 (entry_bytes e)) ≡ offtout (pos e.copy))
      × (drop 16 (entry_bytes e) ≡ offtout e.seek)
unfolding entry_bytes
entry_numbers e =
    let a = offtout (pos e.add) in
    let b = offtout (pos e.copy) in
    let c = offtout e.seek in
    let behind : drop 8 (a ++ (b ++ c)) ≡ b ++ c =
      drop-append_of_eq 8 a (b ++ c) (length-offtout _) in
    (
      take-append_of_eq 8 a (b ++ c) (length-offtout _),
      ap (take 8) behind ∙ take-append_of_eq 8 b c (length-offtout _),
      sym (drop-drop 8 8 (a ++ (b ++ c)))
          ∙ ap (drop 8) behind
          ∙ drop-append_of_eq 8 b c (length-offtout _),
    )

length-add_old : (old : List ℕ) (o : ℤ) (diff : List ℕ) → length (add_old old o diff) ≡ length diff
unfolding add_old
length-add_old old o [] = refl
length-add_old old o (d ∷ diff) = ap suc (length-add_old old (o +ℤ pos 1) diff)

length_round :
    (old new : List ℕ) (o : ℤ) (n m : ℕ) (diff extra : List ℕ)
    → n ≤ length diff
    → m ≤ length extra
    → length ((new ++ add_old old o (take n diff)) ++ take m extra) ≡ length new + n + m
length_round old new o n m diff extra h k = omega (
  arith,
  length-append (new ++ add_old old o (take n diff)) (take m extra),
  length-append new (add_old old o (take n diff)),
  length-add_old old o (take n diff),
  length-take n diff,
  length-take m extra,
)

check_run_lem :
    (limit newpos n new_size : ℕ)
    → new_size < 2 ^ 63
    → newpos + n ≤ new_size
    → n < limit
    → check_run limit newpos n new_size ≡ done tt
unfolding check_run
check_run_lem limit newpos n new_size small fits short = ground arith

check_off_t_lem : (z : ℤ) → in_off_t z ≡ true → check_off_t z ≡ done z
unfolding check_off_t
check_off_t_lem z h = ground arith

module _ (bz : Bzip) (d : Delivers bz) (old : List ℕ) (new_size : ℕ)
    (small : new_size < 2 ^ 63) where
  open d use {contents}

  -- A round in which the streams still hold what the entry asks for.
  round_lem :
      (fuel : ℕ) (p : Progress bz) (e : Entry) (rest : List ℕ)
      → 24 ≤ fuel
      → new_size ≤ fuel
      → contents p.control ≡ entry_bytes e ++ rest
      → e.add ≤ length (contents p.diff)
      → e.copy ≤ length (contents p.extra)
      → length p.new_data + e.add + e.copy ≤ new_size
      → e.add < 2 ^ 31
      → e.copy < 2 ^ 32
      → pos_part e.seek < 2 ^ 63
      → neg_part e.seek < 2 ^ 63
      → in_off_t (p.oldpos +ℤ pos e.add) ≡ true
      → in_off_t ((p.oldpos +ℤ pos e.add) +ℤ e.seek) ≡ true
      → (q : Progress bz) × (apply_round bz fuel old new_size p ≡ done q)
        × (contents q.control ≡ rest)
        × (contents q.diff ≡ drop e.add (contents p.diff))
        × (contents q.extra ≡ drop e.copy (contents p.extra))
        × (q.oldpos ≡ (p.oldpos +ℤ pos e.add) +ℤ e.seek)
        × (q.new_data
            ≡ (p.new_data ++ add_old old p.oldpos (take e.add (contents p.diff)))
              ++ take e.copy (contents p.extra))
  unfolding apply_round count_of
  round_lem fuel p e rest many big ctl dl el fits ha hc hs hn here next =
      let size : length (contents p.control) ≡ 24 + length rest =
        ap length ctl ∙ length-append (entry_bytes e) rest ∙ omega (arith, length-entry_bytes e) in
      let (control, run, left) = fill_buffer_lem bz d fuel 24 p.control many (omega arith) in
      let buf : take 24 (contents p.control) ≡ entry_bytes e =
        ap (take 24) ctl ∙ take-append_of_eq 24 (entry_bytes e) rest (length-entry_bytes e) in
      let after : drop 24 (contents p.control) ≡ rest =
        ap (drop 24) ctl ∙ drop-append_of_eq 24 (entry_bytes e) rest (length-entry_bytes e) in
      let (n0, n1, n2) = entry_numbers e in
      let (diff, run_diff, left_diff) = fill_buffer_lem bz d fuel e.add p.diff (omega arith) dl in
      let (extra, run_extra, left_extra) =
        fill_buffer_lem bz d fuel e.copy p.extra (omega arith) el in
      let bytes = take e.add (contents p.diff) in
      let added = p.new_data ++ add_old old p.oldpos bytes in
      let grown : length added ≡ length p.new_data + e.add = omega (
        arith,
        length-append p.new_data (add_old old p.oldpos bytes),
        length-add_old old p.oldpos bytes,
        length-take e.add (contents p.diff),
      ) in
      (
        record {
          control = control;
          diff = diff;
          extra = extra;
          oldpos = (p.oldpos +ℤ pos e.add) +ℤ e.seek;
          new_data = added ++ take e.copy (contents p.extra);
        },
        rw (
          run,
          buf,
          n0,
          n1,
          n2,
          offtin-offtout (pos e.add) (omega arith) (omega arith),
          offtin-offtout (pos e.copy) (omega arith) (omega arith),
          offtin-offtout e.seek hs hn,
          check_run_lem (2 ^ 31) (length p.new_data) e.add new_size small (omega arith) ha,
          run_diff,
          check_off_t_lem _ here,
          check_run_lem (2 ^ 32) (length added) e.copy new_size small (omega arith) hc,
          run_extra,
          check_off_t_lem _ next,
        ),
        left ∙ after,
        left_diff,
        left_extra,
        refl,
        refl,
      )

  pub loop_lem :
      (fuel : ℕ) (es : List Entry) (p : Progress bz)
      → length es + 24 + new_size < fuel
      → contents p.control ≡ control_bytes es
      → diff_size es ≤ length (contents p.diff)
      → extra_size es ≤ length (contents p.extra)
      → Fills new_size (length p.new_data) p.oldpos es
      → apply_loop bz fuel old new_size p
        ≡ done (p.new_data ++ rebuild old es p.oldpos (contents p.diff) (contents p.extra))
  unfolding apply_loop control_bytes rebuild
  loop_lem zero es p enough ctl dl el f = absurd (omega arith)
  loop_lem (suc fuel) [] p enough ctl dl el f =
      let full : ltb (length p.new_data) new_size ≡ false = ground arith in
      rw (full, append-nil p.new_data)
  loop_lem (suc fuel) (e ∷ es) p enough ctl dl el f =
      let more : ltb (length p.new_data) new_size ≡ true = ground arith in
      let (q, run, ctl', diff', extra', pos', data') =
        round_lem fuel p e (control_bytes es) (omega arith) (omega arith) ctl (omega arith)
          (omega arith) f.1 f.2 f.3 f.4 f.5 f.6 f.7 in
      let bytes = take e.add (contents p.diff) in
      let copied = take e.copy (contents p.extra) in
      let grown : length q.new_data ≡ length p.new_data + e.add + e.copy =
        ap length data'
        ∙ length_round old p.new_data p.oldpos e.add e.copy _ _ (omega arith) (omega arith) in
      let ih =
        loop_lem fuel es q (omega arith) ctl'
          (rw diff' (omega (arith, length-drop e.add (contents p.diff))))
          (rw extra' (omega (arith, length-drop e.copy (contents p.extra))))
          (rw (grown, pos') f.8) in
      rw (more, run, ih, diff', extra', pos', data')
        (ap done (
          append_assoc (p.new_data ++ add_old old p.oldpos bytes) copied _
          ∙ append_assoc p.new_data (add_old old p.oldpos bytes) (copied ++ _)))
