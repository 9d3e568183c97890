-- ===== src/Applypatch/Patching/Setting.antt =====
-- What must be on the disk for applypatch of applypatch/applypatch.c to start, and when a target that is a
-- file is done.
use sc7731_sc8830_bootable_r.Applypatch.Patching.Keeps.{All}
use sc7731_sc8830_bootable_r.Applypatch.Patching.Logic.{set_file}
use sc7731_sc8830_bootable_r.Applypatch.Patching.Space.{regular_files}
use sc7731_sc8830_bootable_r.Applypatch.Patching.Sources.{patch_for}
use sc7731_sc8830_bootable_r.Applypatch.Patching.Target.{
  Job, Round, answer, again, patched, outname,
}
use sc7731_sc8830_bootable_r.Applypatch.Patching.{
  FilePath, FileMap, System, cache_temp_source, is_partition,
}
use sc7731_sc8830_bootable_r.Base.{
  none, some, ℕ, List, [], ◌∷◌, ◌++◌, Option, some, Bool, false, leb, ◌≡◌, ◌≢◌, bytes_eq,
  bytes_eq_iff, Bool-cases, ◌⊎◌, inl, inr,
}
use sc7731_sc8830_bootable_r.Edify.State.{Value}

-- Files of a job: the source and the target are files, and they, the copy and the file that the patch is
-- written to are different, but that the source may be the target; and neither of them is among those
-- that may go to make room.
pub record Setting (system : System) (source target : FilePath) : Type 0 where
  pub source_file : is_partition source ≡ false
  pub target_file : is_partition target ≡ false
  pub cache_source : source ≢ cache_temp_source
  pub cache_target : target ≢ cache_temp_source
  pub out_source : outname target ≢ source
  pub out_target : outname target ≢ target
  pub out_cache : outname target ≢ cache_temp_source
  pub unlisted :
      (n : ℕ) (dir : FilePath) (es : List (FilePath × Bool))
      → system.directory n dir ≡ some es
      → All (λ p. (p ≢ source) × (p ≢ target)) (regular_files dir es)
  pub mask_again :
      (raw contents : List ℕ)
      → system.retouch_mask raw ≡ some contents
      → system.retouch_mask contents ≡ some contents

module _ (system : System) (source target : FilePath) (strs : List (List ℕ)) (patches : List Value)
    (target_sha1 : List ℕ) where
  -- A file that there is a patch for
  abbrev pub Usable : FilePath → FileMap → Type 0
  Usable p m =
      (raw : List ℕ) × (contents : List ℕ) × (patch : Value) × (m p ≡ some raw)
      × (system.retouch_mask raw ≡ some contents)
      × (patch_for strs patches (some (contents, system.sha_hash contents)) ≡ some patch)

  -- The target has the digest, as it is or masked.
  abbrev pub IsDone : FileMap → Type 0
  IsDone m =
      (raw : List ℕ) × (m target ≡ some raw)
      × ((system.sha_hash raw ≡ target_sha1)
          ⊎ ((contents : List ℕ) × (system.retouch_mask raw ≡ some contents)
              × (system.sha_hash contents ≡ target_sha1)))

  -- applypatch can be run: there is a patch for the source or for the copy, or the target is done.
  abbrev pub Startable : FileMap → Type 0
  Startable m = Usable source m ⊎ (Usable cache_temp_source m ⊎ IsDone m)

-- The source is in its place, with these data when they are masked; so is the copy.
abbrev pub SourceIs : System → FilePath → List ℕ → FileMap → Type 0
SourceIs system source c m =
    (raw : List ℕ) × (m source ≡ some raw) × (system.retouch_mask raw ≡ some c)

abbrev pub CopyIs : List ℕ → FileMap → Type 0
CopyIs c m = m cache_temp_source ≡ some c

-- A path that is not one of the three
abbrev pub Elsewhere : FilePath → FilePath → FilePath → Type 0
Elsewhere source target p = (p ≢ source) × (p ≢ target) × (p ≢ cache_temp_source)

abbrev pub Stable : FilePath → FilePath → (FileMap → Type 0) → Type 0
Stable source target P =
    (p : FilePath) (c : Option (List ℕ)) (m : FileMap)
    → Elsewhere source target p
    → P m
    → P (set_file p c m)

regular_files-no_cache :
    (dir : FilePath) (es : List (FilePath × Bool))
    → All (λ p. p ≢ cache_temp_source) (regular_files dir es)
unfolding regular_files
regular_files-no_cache dir [] = tt
regular_files-no_cache dir (e ∷ es) =
    let rest = regular_files-no_cache dir es in
    elim (Bool-cases (bytes_eq (dir ++ 47 ∷ e.0) cache_temp_source)) [
      | inl same ↦ rw same rest
      | inr other ↦
          let ne : dir ++ 47 ∷ e.0 ≢ cache_temp_source =
            λ q. absurd (cc ((bytes_eq_iff (dir ++ 47 ∷ e.0) cache_temp_source).1 q, other)) in
          elim (Bool-cases e.1) [
            | inl regular ↦ rw (other, regular) (ne, rest)
            | inr special ↦ rw (other, special) rest
          ]
    ]

All-both :
    (F G H : FilePath → Type 0)
    → ((p : FilePath) → F p → G p → H p)
    → (ps : List FilePath) → All F ps
    → All G ps
    → All H ps
All-both F G H f [] h k = tt
All-both F G H f (p ∷ ps) h k = (f p h.0 k.0, All-both F G H f ps h.1 k.1)

module _ (system : System) (strs : List (List ℕ)) (patches : List Value) (j : Job)
    (s : Setting system j.source_filename j.target_filename) where
  abbrev Inv : FileMap → Type 0
  Inv = Startable system j.source_filename j.target_filename strs patches j.target_sha1

  abbrev Off : FilePath → Type 0
  Off = Elsewhere j.source_filename j.target_filename

  abbrev Kept : (FileMap → Type 0) → Type 0
  Kept P = Stable j.source_filename j.target_filename P

  abbrev out : FilePath
  out = outname j.target_filename

  pub outname-Off : Off out
  outname-Off = (s.out_source, s.out_target, s.out_cache)

  pub regular_files-Off :
      (n : ℕ) (dir : FilePath) (es : List (FilePath × Bool))
      → system.directory n dir ≡ some es
      → All Off (regular_files dir es)
  regular_files-Off n dir es e =
      All-both _ _ Off (λ p two no_cache. (two.0, two.1, no_cache)) (regular_files dir es)
        (s.unlisted n dir es e) (regular_files-no_cache dir es)

-- What a try comes to: an answer that is not 0, or, if `retry` is not 0, another try, or the output in its
-- file. The three files keep `P`.
abbrev pub After : (FileMap → Type 0) → FilePath → Round → FileMap → Type 0
After P name (answer a) m = a ≢ 0
After P name (again b) m = P m
After P name (patched bytes b) m = m name ≡ some bytes

abbrev pub Tried : (FileMap → Type 0) → FilePath → ℕ → Round → FileMap → Type 0
Tried P name retry r m = P m × After (λ m. P m × (leb retry 0 ≡ false)) name r m

-- Where a round has come to before the patch: an answer that is not 0, or `P` with the new `retry`
abbrev pub Ready : (FileMap → Type 0) → (ℕ → FileMap → Type 0) → ℕ × (ℕ × Bool) → FileMap → Type 0
Ready I P start m = I m × (leb 1 start.0 ≡ false → P start.1.0 m)

-- The end of a run, in `I`, and with `D` if its answer is 0
abbrev pub Outcome : (FileMap → Type 0) → (FileMap → Type 0) → ℕ → FileMap → Type 0
Outcome I D a m = I m × (a ≡ 0 → D m)

-- The jobs of GenerateTarget from the copy and from the source
module _ (source target : FilePath) (target_sha1 : List ℕ) (target_size : ℕ)
    (bonus : Option (List ℕ)) where
  abbrev pub copy_job : List ℕ → Value → Job
  copy_job copy patch = record {
    source_file = none;
    source_patch_value = none;
    copy_file = copy;
    copy_patch_value = patch;
    source_filename = source;
    target_filename = target;
    target_sha1 = target_sha1;
    target_size = target_size;
    bonus_data = bonus;
  }

  abbrev pub source_job : List ℕ → Value → Job
  source_job contents patch = record {
    source_file = some contents;
    source_patch_value = some patch;
    copy_file = [];
    copy_patch_value = patch;
    source_filename = source;
    target_filename = target;
    target_sha1 = target_sha1;
    target_size = target_size;
    bonus_data = bonus;
  }
