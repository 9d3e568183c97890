-- ===== src/Applypatch/Patching/Answers.antt =====
-- applypatch of applypatch/applypatch.c, for a target that is a file, when no call fails and there is room:
-- the answer is 0.
use mathlib.Core.Path.{subst}
use sc7731_sc8830_bootable_r.Applypatch.Patching.Steady.{generate_target-Returns}
use sc7731_sc8830_bootable_r.Applypatch.Patching.Setting.{Usable, copy_job, source_job}
use sc7731_sc8830_bootable_r.Applypatch.Patching.Sources.{
  contents_of, data_of_file, patch_for, load_source, from_copy, from_source, has_sha1, applypatch,
  resolved,
}
use sc7731_sc8830_bootable_r.Applypatch.Patching.Target.{
  chosen, run_patch, generate_target, target_fs,
}
use sc7731_sc8830_bootable_r.Applypatch.Patching.{
  FilePath, FileMap, Disk, System, M, ◌>>=◌, return, call, get_files, succeeds, enoent, failed,
  load_file_contents, masked, cache_temp_source, parse_sha1, is_partition,
}
use sc7731_sc8830_bootable_r.Base.{
  ℕ, List, Option, none, some, Bool, true, false, not, ◌&&◌, ◌*◌, ◌/◌, ◌%◌, ◌^◌, ltb, if◌then◌else◌,
  ◌≡◌, refl, sym, ◌∙◌, ap, bytes_eq, bytes_eq_iff, Bool-cases, Option-cases, ◌⊎◌, inl, inr,
}
use sc7731_sc8830_bootable_r.Edify.State.{Value, blob}

-- The masked data of a file, and their digest, if they can be read
abbrev pub look : System → FilePath → FileMap → Option (List ℕ × List ℕ)
look system p m = elim (m p) [
  | none ↦ none
  | some raw ↦ elim (system.retouch_mask raw) [
    | none ↦ none
    | some contents ↦ some (contents, system.sha_hash contents)
  ]
]

-- What is seen of a file is what it holds.
pub look-raw :
    (system : System) (p : FilePath) (m : FileMap) (f : List ℕ × List ℕ)
    → look system p m ≡ some f
    → (raw : List ℕ) × (m p ≡ some raw)
      × (system.retouch_mask raw ≡ some f.0)
      × (system.sha_hash f.0 ≡ f.1)
look-raw system p m f e = elim (Option-cases (m p)) [
  | inl k ↦ let h : look system p m ≡ none = rw (k, look) refl in absurd (cc (e, h))
  | inr z ↦ elim (Option-cases (system.retouch_mask z.0)) [
    | inl k ↦ let h : look system p m ≡ none = rw (z.1, k, look) refl in absurd (cc (e, h))
    | inr y ↦
        let h : look system p m ≡ some (y.0, system.sha_hash y.0) = rw (z.1, y.1, look) refl in
        let same : (y.0, system.sha_hash y.0) ≡ f = cc (e, h) in
        subst
          (λ g.
            (raw : List ℕ) × (m p ≡ some raw)
            × (system.retouch_mask raw ≡ some g.0)
            × (system.sha_hash g.0 ≡ g.1))
          same (z.0, z.1, y.1, refl)
  ]
]

-- A patch for some data makes a target of the right digest.
abbrev pub Right : System → List (List ℕ) → List Value → Option (List ℕ) → List ℕ → Type 0
Right system strs patches bonus target_sha1 =
    (contents : List ℕ) (v : Value)
    → patch_for strs patches (some (contents, system.sha_hash contents)) ≡ some v
    → (patch : List ℕ) × (bytes : List ℕ) × (v ≡ blob patch)
      × (run_patch system contents patch bonus ≡ some (some bytes))
      × (system.sha_hash bytes ≡ target_sha1)

-- `m` answers `a`, and keeps the files.
abbrev Reads : {A : Type 0} → M A → A → Disk → Type 0
Reads m a d = ((m d).0 ≡ a) × ((m d).1.files ≡ d.files)

module _ (system : System) (steady : (n : ℕ) → system.fails n ≡ false) where
  pub load_file_contents-look :
      (p : FilePath) (d : Disk)
      → is_partition p ≡ false
      → (contents_of (load_file_contents system p d).0 ≡ look system p d.files)
        × ((load_file_contents system p d).1.files ≡ d.files)
  unfolding load_file_contents contents_of ◌>>=◌ call return get_files succeeds masked
  load_file_contents-look p d e =
      rw e (same (d.files p) (not (system.fails d.calls)) (rw (steady d.calls) refl), refl)
    where
      same :
          (raw : Option (List ℕ)) (read : Bool)
          → read ≡ true
          → contents_of
              (elim raw [ none ↦ enoent | some r ↦ if read then masked system r else failed ])
            ≡ elim raw [
              | none ↦ none
              | some r ↦ elim (system.retouch_mask r) [
                | none ↦ none
                | some contents ↦ some (contents, system.sha_hash contents)
              ]
            ]
      same none read k = refl
      same (some r) false k = absurd (cc (k))
      same (some r) true k = elim (Option-cases (system.retouch_mask r)) [
        | inl k ↦ rw (k, masked) refl
        | inr z ↦ rw (z.1, masked) refl
      ]

  load_source-look :
      (source target : FilePath) (first : Option (List ℕ × List ℕ)) (d : Disk)
      → is_partition source ≡ false
      → first ≡ look system target d.files
      → Reads (load_source system source target first) (look system source d.files) d
  unfolding load_source ◌>>=◌ return
  load_source-look source target none d e k = load_file_contents-look source d e
  load_source-look source target (some f) d e k = elim (Bool-cases (bytes_eq target source)) [
    | inl same ↦
        rw same (
          subst (λ p. some f ≡ look system p d.files) ((bytes_eq_iff target source).0 same) k,
          refl,
        )
    | inr other ↦ rw other (load_file_contents-look source d e)
  ]

  module _ (source target : FilePath) (strs : List (List ℕ)) (patches : List Value)
      (target_sha1 : List ℕ) (target_size : ℕ) (bonus : Option (List ℕ))
      (file : is_partition target ≡ false)
      (room : (n : ℕ)
        → ltb (2 ^ 18) (system.free_space n (target_fs target))
            && ltb (target_size * 3 % 2 ^ 32 / 2) (system.free_space n (target_fs target))
          ≡ true)
      (good : Right system strs patches bonus target_sha1) where
    abbrev CopyUsable : FileMap → Type 0
    CopyUsable = Usable system source target strs patches target_sha1 cache_temp_source

    Usable-look :
        (p : FilePath) (m : FileMap)
        → (u : Usable system source target strs patches target_sha1 p m)
        → look system p m ≡ some (u.1, system.sha_hash u.1)
    Usable-look p m u = rw (u.3, u.4, look) refl

    from_copy-Answers :
        (d : Disk)
        → CopyUsable d.files
        → (from_copy system source target target_sha1 target_size strs patches bonus d).0 ≡ 0
    unfolding from_copy ◌>>=◌ chosen
    from_copy-Answers d u =
        let (r, kept) = load_file_contents-look cache_temp_source d refl in
        go d.files _ (load_file_contents system cache_temp_source d).1 u
          (r ∙ Usable-look cache_temp_source d.files u)
      where
        go :
            (m : FileMap) (copy : Option (List ℕ × List ℕ)) (d : Disk) (u : CopyUsable m)
            → copy ≡ some (u.1, system.sha_hash u.1)
            → let rest : M ℕ = elim copy [
              | none ↦ return 1
              | some c ↦ elim (patch_for strs patches (some c)) [
                | none ↦ return 1
                | some patch ↦
                    generate_target system
                      (copy_job source target target_sha1 target_size bonus c.0 patch)
              ]
            ] in
              (rest d).0 ≡ 0
        go m copy d u e =
            let g = good u.1 u.2 u.5 in
            rw (e, u.5)
              ((generate_target-Returns system steady
                  (copy_job source target target_sha1 target_size bonus u.1 u.2) room file u.1 g.0
                  g.1 (ap (λ v. (u.1, v)) g.2) g.3 g.4).run
                d)

    from_source-Answers :
        (f : Option (List ℕ × List ℕ)) (d : Disk)
        → f ≡ look system source d.files
        → Usable system source target strs patches target_sha1 source d.files ⊎ CopyUsable d.files
        → (from_source system source target target_sha1 target_size strs patches bonus f d).0 ≡ 0
    unfolding from_source data_of_file chosen
    from_source-Answers none d e (inl u) = absurd (cc (e ∙ Usable-look source d.files u))
    from_source-Answers none d e (inr u) = from_copy-Answers d u
    from_source-Answers (some f) d e start = elim (Option-cases (patch_for strs patches (some f))) [
      | inl n ↦
          rw (n, from_source)
            (elim start [
              | inl u ↦ absurd (cc (u.5, n, e ∙ Usable-look source d.files u))
              | inr u ↦ from_copy-Answers d u
            ])
      | inr z ↦
          let g = good f.0 z.0 (
            subst (λ h. patch_for strs patches (some (f.0, h)) ≡ some z.0)
              (sym ((look-raw system source d.files f (sym e)).3)) z.1) in
          rw (z.1, from_source)
            ((generate_target-Returns system steady
                (source_job source target target_sha1 target_size bonus f.0 z.0) room file f.0 g.0
                g.1 (ap (λ v. (f.0, v)) g.2) g.3 g.4).run
              d)
    ]

-- If no call fails and there is room for the target, and each patch whose digest fits some data makes of them
-- a target of the right digest, then applypatch answers 0 from every disk that holds a source or a copy in the
-- cache that there is a patch for. The source and the target are files.
pub applypatch-Answers :
    (system : System)
    → ((n : ℕ) → system.fails n ≡ false)
    → (source target : FilePath) (strs : List (List ℕ)) (patches : List Value)
      (target_sha1_str target_sha1 : List ℕ)
    → parse_sha1 target_sha1_str ≡ some target_sha1
    → (target_size : ℕ) (bonus : Option (List ℕ)) → is_partition source ≡ false
    → is_partition (resolved source target) ≡ false
    → ((n : ℕ)
        → let free_space = system.free_space n (target_fs (resolved source target)) in
          ltb (2 ^ 18) free_space && ltb (target_size * 3 % 2 ^ 32 / 2) free_space ≡ true)
    → Right system strs patches bonus target_sha1
    → (d : Disk)
    → Usable system source (resolved source target) strs patches target_sha1 source d.files
      ⊎ Usable system source
          (resolved source target)
          strs
          patches
          target_sha1
          cache_temp_source
          d.files
    → (applypatch system source target target_sha1_str target_size strs patches bonus d).0 ≡ 0
unfolding applypatch ◌>>=◌ return
applypatch-Answers system steady source target strs patches str sha1 e size bonus sf tf room good d
      start =
    let to = resolved source target in
    let (first, kept) = load_file_contents-look system steady to d tf in
    let d₁ = (load_file_contents system to d).1 in
    rw (e, applypatch)
      (elim (Bool-cases (has_sha1 sha1 (contents_of (load_file_contents system to d).0))) [
        | inl done ↦ rw done refl
        | inr todo ↦
            let (file, kept₁) =
              load_source-look system steady source to
                (contents_of (load_file_contents system to d).0) d₁ sf
                (first ∙ ap (look system to) (sym kept)) in
            rw todo (
              from_source-Answers system steady source to strs patches sha1 size bonus tf room good
                _ _ (file ∙ ap (look system source) (sym kept₁))
                (subst
                  (λ m.
                    Usable system source to strs patches sha1 source m
                    ⊎ Usable system source to strs patches sha1 cache_temp_source m)
                  (sym (kept₁ ∙ kept)) start))
      ])
