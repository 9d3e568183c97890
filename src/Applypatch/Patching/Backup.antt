-- ===== src/Applypatch/Patching/Backup.antt =====
-- The copy of the source to the cache in GenerateTarget of applypatch/applypatch.c.
use sc7731_sc8830_bootable_r.Applypatch.Patching.Keeps.{
  create-Triple, file_sink-Triple, make_free_space_on_cache-Triple,
}
use sc7731_sc8830_bootable_r.Applypatch.Patching.Logic.{
  Triple, Triple-return, Triple-bind, Triple-weaken, Triple-if, Triple-succeeds, set_file,
  set_file_other,
}
use sc7731_sc8830_bootable_r.Applypatch.Patching.Sources.{patch_for}
use sc7731_sc8830_bootable_r.Applypatch.Patching.Target.{Job, back_up, outname}
use sc7731_sc8830_bootable_r.Applypatch.Patching.{
  FilePath, FileMap, System, return, cache_temp_source, save_file_contents,
}
use sc7731_sc8830_bootable_r.Base.{
  ℕ, List, Option, none, some, Bool, true, false, if◌then◌else◌, ◌≡◌, ◌≢◌, refl, sym, ◌∙◌, arith,
  inl, inr,
}
use sc7731_sc8830_bootable_r.Edify.State.{Value}
use sc7731_sc8830_bootable_r.Applypatch.Patching.Setting.{
  Setting, Startable, Elsewhere, Stable, regular_files-Off, SourceIs, CopyIs,
}

module _ (system : System) (strs : List (List ℕ)) (patches : List Value) (j : Job)
    (s : Setting system j.source_filename j.target_filename) where
  abbrev Inv : FileMap → Type 0
  Inv = Startable system j.source_filename j.target_filename strs patches j.target_sha1

  abbrev Off : FilePath → Type 0
  Off = Elsewhere j.source_filename j.target_filename

  abbrev Kept : (FileMap → Type 0) → Type 0
  Kept P = Stable j.source_filename j.target_filename P

  abbrev out : FilePath
  out = outname j.target_filename

  module _ (c : List ℕ) (v : Value) (file : j.source_file ≡ some c)
      (masked : system.retouch_mask c ≡ some c)
      (usable : patch_for strs patches (some (c, system.sha_hash c)) ≡ some v) where
    abbrev SrcIs : FileMap → Type 0
    SrcIs = SourceIs system j.source_filename c

    pub SrcIs-Inv : (m : FileMap) → SrcIs m → Inv m
    SrcIs-Inv m h = inl (h.0, c, v, h.1, h.2, usable)

    pub CopyIs-Inv : (m : FileMap) → CopyIs c m → Inv m
    CopyIs-Inv m h = inr (inl (c, c, v, h, masked, usable))

    pub SrcIs-set_file :
        (p : FilePath) (x : Option (List ℕ)) (m : FileMap)
        → p ≢ j.source_filename
        → SrcIs m
        → SrcIs (set_file p x m)
    SrcIs-set_file p x m ne h =
        (h.0, set_file_other m p j.source_filename x (λ e. ne (sym e)) ∙ h.1, h.2)

    pub CopyIs-set_file :
        (p : FilePath) (x : Option (List ℕ)) (m : FileMap)
        → p ≢ cache_temp_source
        → CopyIs c m
        → CopyIs c (set_file p x m)
    CopyIs-set_file p x m ne h = set_file_other m p cache_temp_source x (λ e. ne (sym e)) ∙ h

    save-Triple :
        Triple Inv SrcIs
          (save_file_contents system cache_temp_source (some c))
          (λ b m. SrcIs m × (b ≡ true → CopyIs c m))
    unfolding save_file_contents
    save-Triple =
        let ne : cache_temp_source ≢ j.source_filename = λ e. s.cache_source (sym e) in
        Triple-bind Inv (λ b. SrcIs) _ _
          (create-Triple Inv SrcIs (λ p. p ≢ j.source_filename) system SrcIs-Inv SrcIs-set_file
            cache_temp_source ne)
          λ opened.
            Triple-if Inv opened
              (λ e.
                Triple-bind Inv (λ b m. SrcIs m × (b ≡ true → CopyIs c m)) _ _
                  (file_sink-Triple Inv SrcIs (λ p. p ≢ j.source_filename) system SrcIs-Inv
                    SrcIs-set_file cache_temp_source c ne)
                  λ wrote.
                    Triple-if Inv wrote
                      (λ w.
                        Triple-bind Inv (λ b m. SrcIs m × (wrote ≡ true → CopyIs c m)) _ _
                          (Triple-succeeds Inv system)
                          λ modes.
                            Triple-if Inv modes
                              (λ e.
                                Triple-weaken Inv (λ m h. h) (λ b m h. (h.0, λ t. h.1 w))
                                  (Triple-succeeds Inv
                                    {P = λ m. SrcIs m × (wrote ≡ true → CopyIs c m)} system))
                              (λ e. Triple-return Inv false (λ m h. (h.0, λ e. absurd (cc (e))))))
                      (λ w. Triple-return Inv false (λ m h. (h.0, λ e. absurd (cc (e))))))
              (λ e. Triple-return Inv false (λ m h. (h, λ e. absurd (cc (e)))))

    pub back_up-Triple :
        Triple Inv SrcIs
          (back_up system j)
          (λ o m. SrcIs m × (o ≡ none → CopyIs c m) × ((a : ℕ) → o ≡ some a → a ≢ 0))
    unfolding back_up
    back_up-Triple =
        Triple-bind Inv (λ b. SrcIs) _ _
          (make_free_space_on_cache-Triple Inv SrcIs Off system SrcIs-Inv
            (λ p x m off h. SrcIs-set_file p x m off.0 h)
            (regular_files-Off system strs patches j s) _)
          λ room.
            Triple-if Inv room
              (λ e. rw file (
                Triple-bind Inv (λ b m. SrcIs m × (b ≡ true → CopyIs c m)) _ _ save-Triple
                  λ saved. settled saved))
              (λ e.
                Triple-return Inv (some 1)
                  (λ m h. (h, (λ e. absurd (cc (e))), (λ a e z. omega (arith, some_one a e, z)))))
      where
        some_one : (a : ℕ) → ◌≡◌ {A = Option ℕ} (some 1) (some a) → a ≡ 1
        some_one a e = cc (e)

        settled :
            (saved : Bool)
            → Triple Inv
                (λ m. SrcIs m × (saved ≡ true → CopyIs c m))
                (return (if saved then none else some 1))
                (λ o m. SrcIs m × (o ≡ none → CopyIs c m) × ((a : ℕ) → o ≡ some a → a ≢ 0))
        settled true =
            Triple-return Inv none (λ m h. (h.0, (λ e. h.1 refl), (λ a e. absurd (cc (e)))))
        settled false =
            Triple-return Inv (some 1)
              (λ m h. (h.0, (λ e. absurd (cc (e))), (λ a e z. omega (arith, some_one a e, z))))
