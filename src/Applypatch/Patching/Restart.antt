-- ===== src/Applypatch/Patching/Restart.antt =====
-- applypatch of applypatch/applypatch.c, for a target that is a file: it may be cut off at every moment, and
-- started again.
use mathlib.Core.Path.{subst}
use sc7731_sc8830_bootable_r.Applypatch.Patching.Generate.{copy-Triple, source-Triple}
use sc7731_sc8830_bootable_r.Applypatch.Patching.Logic.{
  Always, Triple, Triple-return, Triple-bind, Triple-weaken, Triple-if, Triple-succeeds, Triple-get,
}
use sc7731_sc8830_bootable_r.Applypatch.Patching.Setting.{
  Setting, IsDone, Startable, Outcome, copy_job, source_job,
}
use sc7731_sc8830_bootable_r.Applypatch.Patching.Sources.{
  contents_of, data_of_file, patch_for, load_source, from_copy, from_source, has_sha1, applypatch,
  resolved,
}
use sc7731_sc8830_bootable_r.Applypatch.Patching.Target.{generate_target}
use sc7731_sc8830_bootable_r.Applypatch.Patching.{
  FilePath, FileMap, Disk, System, ◌>>=◌, return, enoent, failed, load_file_contents, masked,
  cache_temp_source, parse_sha1, is_partition,
}
use sc7731_sc8830_bootable_r.Base.{
  ℕ, List, Option, none, some, Bool, true, false, if◌then◌else◌, ◌≡◌, refl, sym, ◌∙◌, ap, arith,
  bytes_eq, bytes_eq_iff, Bool-cases, Option-cases, inl, inr,
}
use sc7731_sc8830_bootable_r.Edify.State.{Value}

-- What was loaded is the masked data of the file, with their digest.
abbrev From : System → FilePath → Option (List ℕ × List ℕ) → FileMap → Type 0
From system p none m = Unit
From system p (some f) m =
    (raw : List ℕ) × (m p ≡ some raw)
    × (system.retouch_mask raw ≡ some f.0)
    × (system.sha_hash f.0 ≡ f.1)

masked-From :
    (system : System) (p : FilePath) (m : FileMap) (raw : List ℕ)
    → m p ≡ some raw
    → From system p (contents_of (masked system raw)) m
unfolding contents_of masked
masked-From system p m raw e = elim (Option-cases (system.retouch_mask raw)) [
  | inl k ↦ rw (k, From) tt
  | inr z ↦ rw (z.1, From) (raw, e, z.1, refl)
]

load_file_contents-Triple :
    (system : System) (I P : FileMap → Type 0) (p : FilePath)
    → is_partition p ≡ false
    → Triple I P (load_file_contents system p) (λ l m. P m × From system p (contents_of l) m)
unfolding load_file_contents contents_of
load_file_contents-Triple system I P p e = rw e (
    Triple-bind I (λ files m. P m × (files ≡ m)) _ _ (Triple-get I)
      λ files.
        Triple-bind I (λ b m. P m × (files ≡ m)) _ _ (Triple-succeeds I system)
          λ read. Triple-return I _ (λ m h. (h.0, fact files read m h.1)))
  where
    fact :
        (files : FileMap) (read : Bool) (m : FileMap)
        → files ≡ m
        → From system p
            (contents_of (elim (files p) [
              | none ↦ enoent
              | some raw ↦ if read then masked system raw else failed
            ]))
            m
    fact files read m same = elim (Option-cases (files p)) [
      | inl k ↦ rw k tt
      | inr z ↦ rw (z.1) (elim (Bool-cases read) [
        | inl y ↦ rw y (masked-From system p m z.0 (sym (ap (λ f. f p) same) ∙ z.1))
        | inr n ↦ rw n tt
      ])
    ]

module _ (system : System) (source target : FilePath) (strs : List (List ℕ)) (patches : List Value)
    (target_sha1 : List ℕ) (s : Setting system source target) (target_size : ℕ)
    (bonus : Option (List ℕ)) where
  abbrev Inv : FileMap → Type 0
  Inv = Startable system source target strs patches target_sha1

  abbrev Done : FileMap → Type 0
  Done = IsDone system source target strs patches target_sha1

  refuse : Triple Inv Inv (return 1) (Outcome Inv Done)
  refuse = Triple-return Inv 1 (λ m h. (h, λ z. absurd (omega (arith, z))))

  -- The digest of a file finds its patch.
  usable :
      (f : List ℕ × List ℕ) (v : Value)
      → system.sha_hash f.0 ≡ f.1
      → patch_for strs patches (some f) ≡ some v
      → patch_for strs patches (some (f.0, system.sha_hash f.0)) ≡ some v
  usable f v e k = subst (λ h. patch_for strs patches (some (f.0, h)) ≡ some v) (sym e) k

  from_copy-Triple :
      Triple Inv Inv
        (from_copy system source target target_sha1 target_size strs patches bonus)
        (Outcome Inv Done)
  unfolding from_copy
  from_copy-Triple =
      Triple-bind Inv _ _ _ (load_file_contents-Triple system Inv Inv cache_temp_source refl)
        λ copy. go (contents_of copy)
    where
      go :
          (file : Option (List ℕ × List ℕ))
          → Triple Inv
              (λ m. Inv m × From system cache_temp_source file m)
              (elim file [
                | none ↦ return 1
                | some c ↦ elim (patch_for strs patches (some c)) [
                  | none ↦ return 1
                  | some patch ↦
                      generate_target system
                        (copy_job source target target_sha1 target_size bonus c.0 patch)
                ]
              ])
              (Outcome Inv Done)
      go none = Triple-weaken Inv (λ m h. h.0) (λ a m h. h) refuse
      go (some c) = elim (Option-cases (patch_for strs patches (some c))) [
        | inl e ↦ rw e (Triple-weaken Inv (λ m h. h.0) (λ a m h. h) refuse)
        | inr z ↦ rw (z.1) (
            Triple-weaken Inv (λ m h. (h.1.0, c.0, z.0, h.1.1, h.1.2, usable c z.0 h.1.3 z.1))
              (λ a m h. h)
              (copy-Triple system strs patches
                (copy_job source target target_sha1 target_size bonus c.0 z.0) s refl))
      ]

  from_source-Triple :
      (file : Option (List ℕ × List ℕ))
      → Triple Inv
          (λ m. Inv m × From system source file m)
          (from_source system source target target_sha1 target_size strs patches bonus file)
          (Outcome Inv Done)
  unfolding from_source data_of_file
  from_source-Triple none = Triple-weaken Inv (λ m h. h.0) (λ a m h. h) from_copy-Triple
  from_source-Triple (some f) = elim (Option-cases (patch_for strs patches (some f))) [
    | inl e ↦ rw (e, from_source) (Triple-weaken Inv (λ m h. h.0) (λ a m h. h) from_copy-Triple)
    | inr z ↦
        rw (z.1, from_source)
          (record {
            run = λ d past p.
                (source-Triple system strs patches
                    (source_job source target target_sha1 target_size bonus f.0 z.0) s f.0 z.0 refl
                    (s.mask_again p.1.0 f.0 p.1.2) (usable f z.0 p.1.3 z.1) z.0 refl).run
                  d past (p.1.0, p.1.1, p.1.2);
          })
  ]

  load_source-Triple :
      (first : Option (List ℕ × List ℕ))
      → Triple Inv
          (λ m. Inv m × From system target first m)
          (load_source system source target first)
          (λ file m. Inv m × From system source file m)
  unfolding load_source
  load_source-Triple none =
      Triple-weaken Inv (λ m h. h.0) (λ a m h. h)
        (Triple-bind Inv _ _ _ (load_file_contents-Triple system Inv Inv source s.source_file)
          λ file. Triple-return Inv _ (λ m h. h))
  load_source-Triple (some f) =
      Triple-if Inv (bytes_eq target source)
        (λ e. Triple-return Inv (some f) (λ m h.
          (h.0, subst (λ p. From system p (some f) m) ((bytes_eq_iff target source).0 e) h.1)))
        (λ e.
          Triple-weaken Inv (λ m h. h.0) (λ a m h. h)
            (Triple-bind Inv _ _ _ (load_file_contents-Triple system Inv Inv source s.source_file)
              λ file. Triple-return Inv _ (λ m h. h)))

  has_sha1-Done :
      (file : Option (List ℕ × List ℕ)) (m : FileMap)
      → From system target file m
      → has_sha1 target_sha1 file ≡ true
      → Done m
  unfolding has_sha1
  has_sha1-Done none m h e = absurd (cc (e))
  has_sha1-Done (some f) m h e =
      (h.0, h.1, inr (f.0, h.2, h.3 ∙ (bytes_eq_iff f.1 target_sha1).0 e))

-- applypatch can be restarted. Let the source and the target be files, as `Setting` has it. If the disk holds
-- a source or a copy in the cache that there is a patch for, or a target that is done, then so it does after
-- every single change that applypatch makes, whichever calls fail, and at its end; and if the answer is 0,
-- the target has the digest that was asked for.
pub applypatch-Startable :
    (system : System) (source target : FilePath) (strs : List (List ℕ)) (patches : List Value)
    (target_sha1_str target_sha1 : List ℕ)
    → parse_sha1 target_sha1_str ≡ some target_sha1
    → Setting system source (resolved source target)
    → (target_size : ℕ) (bonus : Option (List ℕ)) (d : Disk)
    → Always (Startable system source (resolved source target) strs patches target_sha1) d.past
    → Startable system source (resolved source target) strs patches target_sha1 d.files
    → let after =
        applypatch system source target target_sha1_str target_size strs patches bonus d in
      Always
        (Startable system source (resolved source target) strs patches target_sha1)
        after.1.past
      × Startable system source (resolved source target) strs patches target_sha1 after.1.files
      × (after.0 ≡ 0
          → IsDone system source (resolved source target) strs patches target_sha1 after.1.files)
unfolding applypatch
applypatch-Startable system source target strs patches str sha1 e s target_size bonus d past start =
    let (before, outcome) = whole.run d past start in
    rw (e, applypatch) (before, outcome.0, outcome.1)
  where
    to : FilePath
    to = resolved source target

    whole :
        Triple
          (Startable system source to strs patches sha1)
          (Startable system source to strs patches sha1)
          (load_file_contents system to >>= λ first.
            if has_sha1 sha1 (contents_of first)
            then return 0
            else load_source system source to (contents_of first) >>= λ file.
                from_source system source to sha1 target_size strs patches bonus file)
          (Outcome
            (Startable system source to strs patches sha1)
            (IsDone system source to strs patches sha1))
    whole = Triple-bind _ _ _ _ (load_file_contents-Triple system _ _ to s.target_file) λ first.
        Triple-if _ (has_sha1 sha1 (contents_of first))
          (λ k. Triple-return _ 0 (λ m h. (
            h.0,
            λ z.
                has_sha1-Done system source to strs patches sha1 s target_size bonus
                  (contents_of first) m h.1 k,
          )))
          (λ k.
            Triple-bind _ _ _ _
              (load_source-Triple system source to strs patches sha1 s target_size bonus
                (contents_of first))
              λ file.
                from_source-Triple system source to strs patches sha1 s target_size bonus file)
