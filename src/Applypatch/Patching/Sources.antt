-- ===== src/Applypatch/Patching/Sources.antt =====
-- applypatch and applypatch_check of applypatch/applypatch.c: which file a target is made from.
use sc7731_sc8830_bootable_r.Applypatch.Patching.{
  FilePath, System, M, ◌>>=◌, return, cache_temp_source, Load, loaded, enoent, failed,
  load_file_contents, parse_sha1, find_matching_patch,
}
use sc7731_sc8830_bootable_r.Base.{
  ℕ, List, [], Option, none, some, Bool, true, false, ◌||◌, if◌then◌else◌, length, ◌==◌, get_elem?,
  bytes_eq, codes,
}
use sc7731_sc8830_bootable_r.Edify.State.{Value}
use sc7731_sc8830_bootable_r.Applypatch.Patching.Target.{generate_target}

-- The data of a FileContents, and their digest; `none` is NULL.
unfoldable pub contents_of : Load → Option (List ℕ × List ℕ)
contents_of (loaded contents sha1) = some (contents, sha1)
contents_of enoent = none
contents_of failed = none

unfoldable pub data_of_file : Option (List ℕ × List ℕ) → Option (List ℕ)
data_of_file none = none
data_of_file (some f) = some f.0

-- The patch for a file, if its digest is one of those of the patches
unfoldable pub patch_for : List (List ℕ) → List Value → Option (List ℕ × List ℕ) → Option Value
unfolding find_matching_patch
patch_for strs patches none = none
patch_for strs patches (some f) = elim (find_matching_patch 0 f.1 strs) [
  | none ↦ none
  | some to_use ↦ get_elem? patches to_use
]

-- The name "-" for the target means the source.
unfoldable pub resolved : FilePath → FilePath → FilePath
resolved source target = if bytes_eq target (codes "-") then source else target

-- Whether a file has the digest
unfoldable pub has_sha1 : List ℕ → Option (List ℕ × List ℕ) → Bool
has_sha1 sha1 none = false
has_sha1 sha1 (some f) = bytes_eq f.1 sha1

-- Whether one of the digests is that of a file
unfoldable pub has_patch : List (List ℕ) → Option (List ℕ × List ℕ) → Bool
unfolding find_matching_patch
has_patch strs none = false
has_patch strs (some f) = elim (find_matching_patch 0 f.1 strs) [ none ↦ false | some i ↦ true ]

module _ (system : System) where
  -- The source file: the target if it is the source and could be loaded, or else the source
  unfoldable pub load_source :
      FilePath → FilePath → Option (List ℕ × List ℕ) → M (Option (List ℕ × List ℕ))
  unfolding load_file_contents contents_of
  load_source source target none = do
    file ← load_file_contents system source
    return (contents_of file)
  load_source source target (some f) =
      if bytes_eq target source
      then return (some f)
      else (do file ← load_file_contents system source; return (contents_of file))

  -- GenerateTarget from the copy in the cache
  unfoldable pub from_copy :
      FilePath → FilePath → List ℕ → ℕ → List (List ℕ) → List Value → Option (List ℕ) → M ℕ
  unfolding generate_target patch_for load_file_contents contents_of
  from_copy source target target_sha1 target_size strs patches bonus = do
    copy ← load_file_contents system cache_temp_source
    elim (contents_of copy) [
      | none ↦ return 1
      | some c ↦ elim (patch_for strs patches (some c)) [
        | none ↦ return 1
        | some patch ↦ generate_target system (record {
          source_file = none;
          source_patch_value = none;
          copy_file = c.0;
          copy_patch_value = patch;
          source_filename = source;
          target_filename = target;
          target_sha1 = target_sha1;
          target_size = target_size;
          bonus_data = bonus;
        })
      ]
    ]

  -- GenerateTarget from the source, or from the copy if there is no patch for the source
  unfoldable pub from_source :
      FilePath
      → FilePath
      → List ℕ
      → ℕ
      → List (List ℕ)
      → List Value
      → Option (List ℕ)
      → Option (List ℕ × List ℕ)
      → M ℕ
  unfolding generate_target patch_for data_of_file from_copy
  from_source source target target_sha1 target_size strs patches bonus file =
      elim (patch_for strs patches file) [
        | some patch ↦ generate_target system (record {
          source_file = data_of_file file;
          source_patch_value = some patch;
          copy_file = [];
          copy_patch_value = patch;
          source_filename = source;
          target_filename = target;
          target_sha1 = target_sha1;
          target_size = target_size;
          bonus_data = bonus;
        })
        | none ↦ from_copy source target target_sha1 target_size strs patches bonus
      ]

  unfoldable pub applypatch :
      FilePath → FilePath → List ℕ → ℕ → List (List ℕ) → List Value → Option (List ℕ) → M ℕ
  unfolding load_source from_source parse_sha1 resolved has_sha1 load_file_contents contents_of
  applypatch source target target_sha1_str target_size strs patches bonus =
      elim (parse_sha1 target_sha1_str) [
        | none ↦ return 1
        | some target_sha1 ↦ (do
          first ← load_file_contents system (resolved source target)
          (if has_sha1 target_sha1 (contents_of first) then return 0 else (do
            file ← load_source source (resolved source target) (contents_of first)
            from_source source (resolved source target) target_sha1 target_size strs patches bonus
                file)))
      ]

  -- The copy in the cache, in applypatch_check
  unfoldable pub check_copy : List (List ℕ) → M Bool
  unfolding load_file_contents contents_of has_patch
  check_copy strs = do
    copy ← load_file_contents system cache_temp_source
    return (has_patch strs (contents_of copy))

  -- The file that was loaded, in applypatch_check
  unfoldable pub check_loaded : List (List ℕ) → Load → M Bool
  unfolding check_copy has_patch
  check_loaded strs enoent = return false
  check_loaded strs failed = check_copy strs
  check_loaded strs (loaded contents sha1) =
      if length strs == 0 || has_patch strs (some (contents, sha1))
      then return true
      else check_copy strs

  -- Whether applypatch_check answers 0, with the digests of the patches
  unfoldable pub applypatch_check : FilePath → List (List ℕ) → M Bool
  unfolding load_file_contents check_loaded
  applypatch_check filename strs = do
    file ← load_file_contents system filename
    check_loaded strs file
