-- ===== src/Applypatch/Patching/Tries.antt =====
-- A try with a patch in GenerateTarget of applypatch/applypatch.c, for a target that is a file: it changes
-- only the file that the patch is written to.
use sc7731_sc8830_bootable_r.Applypatch.Patching.Keeps.{
  unlink-Triple, create-Triple, file_sink-Triple,
}
use sc7731_sc8830_bootable_r.Applypatch.Patching.Logic.{
  Triple, Triple-call, Triple-put, Triple-return, Triple-bind, Triple-then, Triple-weaken,
  Triple-if,
}
use sc7731_sc8830_bootable_r.Applypatch.Patching.Target.{
  Job, answer, again, patched, deliver, settle, patch_target, patch_from, outname, run_patch,
}
use sc7731_sc8830_bootable_r.Applypatch.Patching.{FilePath, FileMap, System, return}
use sc7731_sc8830_bootable_r.Base.{
  ℕ, List, Option, none, some, Bool, true, false, leb, if◌then◌else◌, ◌≡◌, refl, ◌∙◌, arith,
}
use sc7731_sc8830_bootable_r.Edify.State.{Value, str, blob}
use sc7731_sc8830_bootable_r.Applypatch.Patching.Setting.{
  Setting, Startable, Elsewhere, Stable, outname-Off, Tried,
}

module _ (system : System) (strs : List (List ℕ)) (patches : List Value) (j : Job)
    (s : Setting system j.source_filename j.target_filename) where
  abbrev Inv : FileMap → Type 0
  Inv = Startable system j.source_filename j.target_filename strs patches j.target_sha1

  abbrev Off : FilePath → Type 0
  Off = Elsewhere j.source_filename j.target_filename

  abbrev Kept : (FileMap → Type 0) → Type 0
  Kept P = Stable j.source_filename j.target_filename P

  abbrev out : FilePath
  out = outname j.target_filename

  module _ (P : FileMap → Type 0) (before : (m : FileMap) → P m → Inv m) (kept : Kept P) where
    deliver-Triple :
        (result : Option (List ℕ))
        → Triple Inv P
            (deliver system j result)
            (λ o m. P m × ((bytes : List ℕ) → o ≡ some bytes → m out ≡ some bytes))
    unfolding deliver
    deliver-Triple none = rw s.target_file (
        Triple-bind Inv (λ n. P) _ _ (Triple-call Inv)
          λ n.
            Triple-then Inv (λ u. P) _ _
              (Triple-put Inv out (some (system.stray n)) (λ m h. (
                before m h,
                kept out (some (system.stray n)) m (outname-Off system strs patches j s) h,
              )))
              λ u. Triple-return Inv none (λ m h. (h, λ bytes e. absurd (cc (e)))))
    deliver-Triple (some bytes) =
        rw (s.target_file, deliver)
          (Triple-bind Inv (λ b m. P m × (b ≡ true → m out ≡ some bytes)) _ _
            (file_sink-Triple Inv P Off system before kept out bytes
              (outname-Off system strs patches j s))
            λ wrote. go wrote)
      where
        go :
            (wrote : Bool)
            → Triple Inv
                (λ m. P m × (wrote ≡ true → m out ≡ some bytes))
                (return (if wrote then some bytes else none))
                (λ o m. P m × ((b : List ℕ) → o ≡ some b → m out ≡ some b))
        go true = Triple-return Inv (some bytes) (λ m h. (h.0, λ b e. h.1 refl ∙ e))
        go false = Triple-return Inv none (λ m h. (h.0, λ b e. absurd (cc (e))))

    stops : (retry : ℕ) → Triple Inv P (return (answer 1)) (Tried P out retry)
    stops retry = Triple-return Inv (answer 1) (λ m h. (h, λ e. omega (arith, e)))

    settle-Triple :
        (retry : ℕ) (made_copy : Bool) (o : Option (List ℕ))
        → Triple Inv
            (λ m. P m × ((bytes : List ℕ) → o ≡ some bytes → m out ≡ some bytes))
            (settle system j retry made_copy o)
            (Tried P out retry)
    unfolding settle
    settle-Triple retry made_copy (some bytes) =
        Triple-return Inv (patched bytes made_copy) (λ m h. (h.0, h.1 bytes refl))
    settle-Triple retry made_copy none =
        Triple-weaken Inv (λ m h. h.0) (λ r m h. h)
          (Triple-if Inv (leb retry 0) (λ e. stops retry)
            (λ e. rw s.target_file (
              Triple-then Inv (λ u. P) _ _
                (unlink-Triple Inv P Off system before kept out
                  (outname-Off system strs patches j s))
                λ u. Triple-return Inv (again made_copy) (λ m h. (h, (h, e))))))

    patch_target-Triple :
        (retry : ℕ) (made_copy : Bool) (o : Option (Option (List ℕ)))
        → Triple Inv P (patch_target system j retry made_copy o) (Tried P out retry)
    unfolding patch_target
    patch_target-Triple retry made_copy none = stops retry
    patch_target-Triple retry made_copy (some result) =
        Triple-bind Inv _ _ _ (deliver-Triple result)
          λ delivered. settle-Triple retry made_copy delivered

    -- A patch that is tried leaves the three files alone.
    pub patch_from-Triple :
        (retry : ℕ) (made_copy : Bool) (source : List ℕ) (v : Value)
        → Triple Inv P (patch_from system j retry made_copy source v) (Tried P out retry)
    unfolding patch_from
    patch_from-Triple retry made_copy source (str text) = stops retry
    patch_from-Triple retry made_copy source (blob patch) = rw s.target_file (
        Triple-bind Inv (λ b. P) _ _
          (create-Triple Inv P Off system before kept out (outname-Off system strs patches j s))
          λ opened.
            Triple-if Inv opened
              (λ e.
                patch_target-Triple retry made_copy (run_patch system source patch j.bonus_data))
              (λ e. stops retry))
