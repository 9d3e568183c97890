-- ===== src/Applypatch/Patching/Target.antt =====
-- GenerateTarget of applypatch/applypatch.c. What it answers is 0 or 1.
use sc7731_sc8830_bootable_r.Applypatch.Patching.Space.{
  make_free_space_on_cache, free_space_for_file,
}
use sc7731_sc8830_bootable_r.Applypatch.Patching.{
  FilePath, System, M, ◌>>=◌, ◌>>◌, return, call, succeeds, unlink, create, file_sink, put_file,
  cache_temp_source, save_file_contents, is_partition, rename_file,
}
use sc7731_sc8830_bootable_r.Base.{
  ℕ, zero, suc, ◌*◌, ◌/◌, ◌%◌, ◌^◌, List, [], ◌∷◌, ◌++◌, Option, none, some, Bool, true, false,
  ◌&&◌, ltb, leb, if◌then◌else◌, length, ◌==◌, take, bytes_eq, codes,
}
use sc7731_sc8830_bootable_r.Edify.State.{Value, str, blob}

-- The bytes before the first slash
unfoldable pub before_slash : FilePath → FilePath
before_slash [] = []
before_slash (c ∷ path) = if c == 47 then [] else c ∷ before_slash path

-- target_fs
unfoldable pub target_fs : FilePath → FilePath
unfolding before_slash
target_fs [] = []
target_fs (c ∷ path) = c ∷ before_slash path

-- outname
unfoldable pub outname : FilePath → FilePath
outname target = target ++ codes ".patch"

-- What a round of GenerateTarget comes to: an answer, a patch to be tried again, or an output
pub data Round : Type 0 where
  answer : ℕ → Round
  again : Bool → Round
  patched : List ℕ → Bool → Round

-- The arguments of GenerateTarget: the source and its patch, if there is one, the copy in the cache and
-- its patch, the names and the digest and the size of the target, and the bonus data.
pub record Job : Type 0 where
  pub source_file : Option (List ℕ)
  pub source_patch_value : Option Value
  pub copy_file : List ℕ
  pub copy_patch_value : Value
  pub source_filename : FilePath
  pub target_filename : FilePath
  pub target_sha1 : List ℕ
  pub target_size : ℕ
  pub bonus_data : Option (List ℕ)

-- source_to_use->data and patch
unfoldable pub chosen : Job → List ℕ × Value
chosen j = elim j.source_patch_value [
  | none ↦ (j.copy_file, j.copy_patch_value)
  | some patch ↦ elim j.source_file [ none ↦ ([], patch) | some contents ↦ (contents, patch) ]
]

-- The two kinds of patches, by their first eight bytes; `some none` is one that does not apply.
unfoldable pub run_patch : System → List ℕ → List ℕ → Option (List ℕ) → Option (Option (List ℕ))
run_patch system source patch bonus =
    if bytes_eq (take 8 patch) (codes "BSDIFF40")
    then some (system.apply_bsdiff_patch source patch)
    else if bytes_eq (take 8 patch) (codes "IMGDIFF2")
    then some (system.apply_image_patch source patch bonus)
    else none

module _ (system : System) (j : Job) where
  abbrev pub source_size : ℕ
  source_size = elim j.source_file [ none ↦ system.stale_size | some contents ↦ length contents ]

  -- The copy of the source to the cache; `some a` is the answer a at once.
  unfoldable pub back_up : M (Option ℕ)
  unfolding make_free_space_on_cache save_file_contents
  back_up = do
    room ← make_free_space_on_cache system source_size
    (if room
        then (do
          saved ← save_file_contents system cache_temp_source j.source_file
          return (if saved then none else some 1))
        else return (some 1))

  -- Whether there is room for the target: 256k, and half as much again as the target needs
  unfoldable pub enough_space : ℕ → M Bool
  unfolding free_space_for_file target_fs
  enough_space zero = return false
  enough_space (suc retry) = do
    free_space ← free_space_for_file system (target_fs j.target_filename)
    return (ltb (2 ^ 18) free_space && ltb (j.target_size * 3 % 2 ^ 32 / 2) free_space)

  -- The start of a round: an answer at once, or the new `retry` and `made_copy`
  unfoldable pub make_room : ℕ → Bool → M (ℕ × (ℕ × Bool))
  unfolding back_up enough_space is_partition unlink free_space_for_file target_fs
  make_room retry made_copy =
      if is_partition j.target_filename
      then (do
        stop ← back_up
        return (elim stop [ none ↦ (0, (0, true)) | some a ↦ (a, (0, made_copy)) ]))
      else (do
        enough ← enough_space retry
        (if enough then return (0, (retry, made_copy)) else elim j.source_patch_value [
          | none ↦ return (0, (0, made_copy))
          | some patch ↦ if is_partition j.source_filename then return (1, (0, made_copy)) else (do
            stop ← back_up
            elim stop [
              | some a ↦ return (a, (0, made_copy))
              | none ↦ (do
                unlink system j.source_filename
                free_space ← free_space_for_file system (target_fs j.target_filename)
                return (0, (0, true)))
            ])
        ]))

  -- The patch into a sink: MemorySink for a partition, or the file outname that was created
  unfoldable pub deliver : Option (List ℕ) → M (Option (List ℕ))
  unfolding file_sink outname is_partition put_file
  deliver none = if is_partition j.target_filename then return none else (do
    n ← call
    (put_file (outname j.target_filename) (some (system.stray n)) >> return none))
  deliver (some out) =
      if is_partition j.target_filename
      then return (if leb (length out) j.target_size then some out else none)
      else (do
        wrote ← file_sink system (outname j.target_filename) out
        return (if wrote then some out else none))

  -- After the patch: its output, or another try if `retry` is not 0
  unfoldable pub settle : ℕ → Bool → Option (List ℕ) → M Round
  unfolding outname is_partition unlink
  settle retry made_copy (some out) = return (patched out made_copy)
  settle retry made_copy none =
      if leb retry 0
      then return (answer 1)
      else if is_partition j.target_filename
      then return (again made_copy)
      else (unlink system (outname j.target_filename) >> return (again made_copy))

  -- The patch, whatever kind it has
  unfoldable pub patch_target : ℕ → Bool → Option (Option (List ℕ)) → M Round
  unfolding deliver settle
  patch_target retry made_copy none = return (answer 1)
  patch_target retry made_copy (some result) = do
    delivered ← deliver result
    settle retry made_copy delivered

  -- The rest of a round, with the patch
  unfoldable pub patch_from : ℕ → Bool → List ℕ → Value → M Round
  unfolding run_patch patch_target create outname is_partition
  patch_from retry made_copy source (str s) = return (answer 1)
  patch_from retry made_copy source (blob patch) = do
    opened ←
        (if is_partition j.target_filename
          then return true
          else create system (outname j.target_filename))
    (if opened
        then patch_target retry made_copy (run_patch system source patch j.bonus_data)
        else return (answer 1))

  unfoldable pub try_patch : ℕ → Bool → M Round
  unfolding chosen patch_from
  try_patch retry made_copy = patch_from retry made_copy (chosen j).0 (chosen j).1

  -- One round of the do loop
  unfoldable pub one_round : ℕ → Bool → M Round
  unfolding make_room try_patch
  one_round retry made_copy = do
    start ← make_room retry made_copy
    (if leb 1 start.0 then return (answer start.0) else try_patch start.1.0 start.1.1)

  -- The do loop, with the value of `retry`: a patch is tried again only if that is not 0.
  unfoldable pub rounds : ℕ → Bool → M Round
  unfolding one_round
  rounds zero made_copy = one_round zero made_copy
  rounds (suc retry) made_copy = do
    r ← one_round (suc retry) made_copy
    elim r [
      | answer a ↦ return (answer a)
      | patched out copied ↦ return (patched out copied)
      | again copied ↦ rounds retry copied
    ]

  -- chmod, chown and rename of outname
  unfoldable pub replace_target : M Bool
  unfolding succeeds rename_file outname
  replace_target = do
    modes ← succeeds system
    owners ← (if modes then succeeds system else return false)
    renamed ← (if owners then succeeds system else return false)
    (if renamed
        then (rename_file (outname j.target_filename) j.target_filename >> return true)
        else return false)

  -- The output, of the right digest, comes to its place.
  unfoldable pub install : List ℕ → Bool → M ℕ
  unfolding replace_target unlink is_partition
  install out made_copy = do
    installed ←
        (if is_partition j.target_filename
          then (do n ← call; return (system.write_partition n out j.target_filename))
          else replace_target)
    (if installed
        then (if made_copy then (unlink system cache_temp_source >> return 0) else return 0)
        else return 1)

  unfoldable pub generate_target : M ℕ
  unfolding rounds install
  generate_target = do
    r ← rounds 1 false
    elim r [
      | answer a ↦ return a
      | again copied ↦ return 1
      | patched out copied ↦
          if bytes_eq (system.sha_hash out) j.target_sha1 then install out copied else return 1
    ]
