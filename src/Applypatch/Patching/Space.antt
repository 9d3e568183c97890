-- ===== src/Applypatch/Patching/Space.antt =====
-- applypatch/freecache.c: the files of the cache that may go, and room made by their removal.
use sc7731_sc8830_bootable_r.Applypatch.Patching.{
  FilePath, System, M, ◌>>=◌, ◌>>◌, return, call, unlink, cache_temp_source,
}
use sc7731_sc8830_bootable_r.Base.{
  ℕ, List, [], ◌∷◌, ◌++◌, Option, none, some, Bool, true, false, ◌&&◌, leb, if◌then◌else◌, take,
  bytes_eq, codes,
}

-- Whether a path is one of the links into /cache
unfoldable pub is_open : List FilePath → FilePath → Bool
is_open [] path = false
is_open (link ∷ links) path =
    let rest = is_open links path in
    if bytes_eq (take 7 link) (codes "/cache/") && bytes_eq path link then true else rest

-- EliminateOpenFiles: `none` in place of a name is NULL.
unfoldable pub eliminate_open_files : List FilePath → List FilePath → List (Option FilePath)
unfolding is_open
eliminate_open_files links [] = []
eliminate_open_files links (name ∷ names) =
    (if is_open links name then none else some name) ∷ eliminate_open_files links names

-- The regular files of one directory, but for CACHE_TEMP_SOURCE
unfoldable pub regular_files : FilePath → List (FilePath × Bool) → List FilePath
regular_files dir [] = []
regular_files dir (e ∷ es) =
    let path : FilePath = dir ++ 47 ∷ e.0 in
    let rest = regular_files dir es in
    if bytes_eq path cache_temp_source then rest else if e.1 then path ∷ rest else rest

module _ (system : System) where
  -- The names of a directory that is opened
  unfoldable pub files_in : FilePath → M (List FilePath)
  unfolding regular_files call
  files_in dir = do
    n ← call
    return (elim (system.directory n dir) [ none ↦ [] | some es ↦ regular_files dir es ])

  -- `none` is the result -1.
  unfoldable pub find_expendable_files : M (Option (List (Option FilePath)))
  unfolding files_in eliminate_open_files
  find_expendable_files = do
    here ← files_in (codes "/cache")
    there ← files_in (codes "/cache/recovery/otatest")
    n ← call
    return (elim (system.open_files n) [
      | none ↦ none
      | some links ↦ some (eliminate_open_files links (here ++ there))
    ])

  unfoldable pub free_space_for_file : FilePath → M ℕ
  unfolding call
  free_space_for_file filename = do n ← call; return (system.free_space n filename)

  -- The loop of MakeFreeSpaceOnCache; the result is free_now.
  unfoldable pub delete_files : ℕ → List (Option FilePath) → ℕ → M ℕ
  unfolding unlink free_space_for_file
  delete_files bytes_needed [] free_now = return free_now
  delete_files bytes_needed (name ∷ names) free_now =
      if leb bytes_needed free_now then return free_now else elim name [
        | none ↦ delete_files bytes_needed names free_now
        | some path ↦ unlink system path >> free_space_for_file (codes "/cache") >>= λ free_now'.
            delete_files bytes_needed names free_now'
      ]

  -- Whether MakeFreeSpaceOnCache answers 0
  unfoldable pub make_free_space_on_cache : ℕ → M Bool
  unfolding find_expendable_files delete_files
  make_free_space_on_cache bytes_needed = do
    free_now ← free_space_for_file (codes "/cache")
    (if leb bytes_needed free_now then return true else (do
      found ← find_expendable_files
      elim found [
        | none ↦ return false
        | some names ↦ elim names [
          | [] ↦ return false
          | n ∷ ns ↦ (do
            free_now' ← delete_files bytes_needed (n ∷ ns) free_now
            return (leb bytes_needed free_now'))
        ]
      ]))
