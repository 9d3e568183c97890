-- ===== src/Applypatch/Patching/Generate.antt =====
-- GenerateTarget of applypatch/applypatch.c, for a target that is a file, from the source and from the copy.
use sc7731_sc8830_bootable_r.Applypatch.Patching.Keeps.{unlink-Triple}
use sc7731_sc8830_bootable_r.Applypatch.Patching.Logic.{
  Triple, Triple-return, Triple-bind, Triple-then, Triple-weaken, Triple-if, Triple-call, set_file,
  set_file_other,
}
use sc7731_sc8830_bootable_r.Applypatch.Patching.Space.{free_space_for_file}
use sc7731_sc8830_bootable_r.Applypatch.Patching.Sources.{patch_for}
use sc7731_sc8830_bootable_r.Applypatch.Patching.Target.{
  Job, enough_space, make_room, generate_target, target_fs,
}
use sc7731_sc8830_bootable_r.Applypatch.Patching.{
  FilePath, FileMap, System, ◌>>=◌, ◌>>◌, return, unlink, cache_temp_source,
}
use sc7731_sc8830_bootable_r.Base.{
  ℕ, zero, suc, List, Option, none, some, Bool, true, false, leb, ◌≡◌, ◌≢◌, refl, sym, ◌∙◌, arith,
  ◌⊎◌, inl, inr,
}
use sc7731_sc8830_bootable_r.Edify.State.{Value}
use sc7731_sc8830_bootable_r.Applypatch.Patching.Setting.{
  Setting, Usable, IsDone, Startable, Stable, SourceIs, CopyIs, Ready, Outcome,
}
use sc7731_sc8830_bootable_r.Applypatch.Patching.Rounds.{rounds-Triple, generate_target-Triple}
use sc7731_sc8830_bootable_r.Applypatch.Patching.Backup.{
  back_up-Triple, SrcIs-Inv, CopyIs-Inv, SrcIs-set_file, CopyIs-set_file,
}

module _ (system : System) (strs : List (List ℕ)) (patches : List Value) (j : Job)
    (s : Setting system j.source_filename j.target_filename) where
  abbrev Inv : FileMap → Type 0
  Inv = Startable system j.source_filename j.target_filename strs patches j.target_sha1

  abbrev Done : FileMap → Type 0
  Done = IsDone system j.source_filename j.target_filename strs patches j.target_sha1

  enough_space-Triple :
      (P : FileMap → Type 0) (retry : ℕ) → Triple Inv P (enough_space system j retry) (λ b. P)
  unfolding enough_space free_space_for_file
  enough_space-Triple P zero = Triple-return Inv false (λ m h. h)
  enough_space-Triple P (suc retry) =
      Triple-bind Inv (λ n. P) _ _
        (Triple-bind Inv (λ n. P) _ _ (Triple-call Inv) λ n. Triple-return Inv _ (λ m h. h))
        λ free_space. Triple-return Inv _ (λ m h. h)

  abbrev CopyUsable : FileMap → Type 0
  CopyUsable =
      Usable system j.source_filename j.target_filename strs patches j.target_sha1 cache_temp_source

  copy_room-Triple :
      j.source_patch_value ≡ none
      → (retry : ℕ) (made_copy : Bool)
      → Triple Inv CopyUsable (make_room system j retry made_copy) (Ready Inv (λ r. CopyUsable))
  unfolding make_room
  copy_room-Triple e retry made_copy = rw s.target_file (
      Triple-bind Inv (λ b. CopyUsable) _ _ (enough_space-Triple CopyUsable retry)
        λ enough.
          Triple-if Inv enough (λ k. Triple-return Inv _ (λ m h. (inr (inl h), λ z. h)))
            (λ k. rw e (Triple-return Inv _ (λ m h. (inr (inl h), λ z. h)))))

  pub copy-Triple :
      j.source_patch_value ≡ none
      → Triple Inv CopyUsable (generate_target system j) (Outcome Inv Done)
  copy-Triple e = generate_target-Triple system strs patches j s CopyUsable (
      rounds-Triple system strs patches j s CopyUsable (λ r. CopyUsable) (λ r m h. inr (inl h))
        (λ r p c m off h. (
          h.0,
          h.1,
          h.2,
          set_file_other m p cache_temp_source c (λ q. off.2 (sym q)) ∙ h.3,
          h.4,
          h.5,
        ))
        (λ r m h k. h) (copy_room-Triple e) 1 false)

  module _ (c : List ℕ) (v : Value) (file : j.source_file ≡ some c)
      (masked : system.retouch_mask c ≡ some c)
      (usable : patch_for strs patches (some (c, system.sha_hash c)) ≡ some v) where
    abbrev SrcIs : FileMap → Type 0
    SrcIs = SourceIs system j.source_filename c

    -- The source or its copy is there, and the source if there may be another try.
    abbrev Held : ℕ → FileMap → Type 0
    Held retry m = (SrcIs m ⊎ CopyIs c m) × (leb retry 0 ≡ false → SrcIs m)

    source-Inv : (m : FileMap) → SrcIs m → Inv m
    source-Inv = SrcIs-Inv system strs patches j s c v file masked usable

    copy-Inv : (m : FileMap) → CopyIs c m → Inv m
    copy-Inv = CopyIs-Inv system strs patches j s c v file masked usable

    Held-Inv : (r : ℕ) (m : FileMap) → Held r m → Inv m
    Held-Inv r m h = elim h.0 [ inl a ↦ source-Inv m a | inr b ↦ copy-Inv m b ]

    source_kept :
        (p : FilePath) (x : Option (List ℕ)) (m : FileMap)
        → p ≢ j.source_filename
        → SrcIs m
        → SrcIs (set_file p x m)
    source_kept = SrcIs-set_file system strs patches j s c v file masked usable

    copy_kept :
        (p : FilePath) (x : Option (List ℕ)) (m : FileMap)
        → p ≢ cache_temp_source
        → CopyIs c m
        → CopyIs c (set_file p x m)
    copy_kept = CopyIs-set_file system strs patches j s c v file masked usable

    Held-Stable : (r : ℕ) → Stable j.source_filename j.target_filename (Held r)
    Held-Stable r p x m off h = (
      elim h.0 [ inl a ↦ inl (source_kept p x m off.0 a) | inr b ↦ inr (copy_kept p x m off.2 b) ],
      λ k. source_kept p x m off.0 (h.1 k),
    )

    -- The source is removed only once its copy is there.
    make_room-Triple :
        (patch : Value)
        → j.source_patch_value ≡ some patch
        → (retry : ℕ) (made_copy : Bool)
        → Triple Inv SrcIs (make_room system j retry made_copy) (Ready Inv Held)
    unfolding make_room free_space_for_file
    make_room-Triple patch e retry made_copy = rw s.target_file (
        Triple-bind Inv (λ b. SrcIs) _ _ (enough_space-Triple SrcIs retry)
          λ enough.
            Triple-if Inv enough
              (λ k. Triple-return Inv _ (λ m h. (source-Inv m h, λ z. (inl h, λ k. h))))
              (λ k.
                rw (e, s.source_file)
                  (Triple-bind Inv _ _ _
                    (back_up-Triple system strs patches j s c v file masked usable)
                    λ stop. go stop)))
      where
        go :
            (stop : Option ℕ)
            → Triple Inv
                (λ m. SrcIs m × (stop ≡ none → CopyIs c m) × ((a : ℕ) → stop ≡ some a → a ≢ 0))
                (elim stop [
                  | some a ↦ return (a, (0, made_copy))
                  | none ↦ (do
                    unlink system j.source_filename
                    free_space ← free_space_for_file system (target_fs j.target_filename)
                    return (0, (0, true)))
                ])
                (Ready Inv Held)
        go (some a) =
            Triple-return Inv _
              (λ m h. (source-Inv m h.0, λ z. absurd (h.2 a refl (ground (arith, z)))))
        go none =
            Triple-then Inv (λ u. CopyIs c) _ _
              (Triple-weaken Inv (λ m h. h.1 refl) (λ u m h. h)
                (unlink-Triple Inv (CopyIs c) (λ p. p ≢ cache_temp_source) system copy-Inv copy_kept
                  j.source_filename s.cache_source))
              λ u.
                Triple-bind Inv (λ n. CopyIs c) _ _
                  (Triple-bind Inv (λ n. CopyIs c) _ _ (Triple-call Inv)
                    λ n. Triple-return Inv _ (λ m h. h))
                  λ free_space.
                    Triple-return Inv _
                      (λ m h. (copy-Inv m h, λ z. (inr h, λ k. absurd (ground (arith, k)))))

    pub source-Triple :
        (patch : Value)
        → j.source_patch_value ≡ some patch
        → Triple Inv SrcIs (generate_target system j) (Outcome Inv Done)
    source-Triple patch e = generate_target-Triple system strs patches j s SrcIs (
        rounds-Triple system strs patches j s SrcIs Held Held-Inv Held-Stable (λ r m h k. h.1 k)
          (make_room-Triple patch e) 1 false)
