-- ===== src/Applypatch/Patching.antt =====
-- Files, their digests and their copies in applypatch/applypatch.c. A file system is a function from
-- paths to contents; the calls of the system are numbered, and `System` says what each of them does.
pub mod Digests
pub mod Space
pub mod Target
pub mod Sources
pub mod Logic
pub mod Keeps
pub mod Setting
pub mod Tries
pub mod Backup
pub mod Rounds
pub mod Generate
pub mod Steady
pub mod Answers
pub mod Checked
pub mod Restart
mod Tests
use sc7731_sc8830_bootable_r.Base.{
  ℕ, zero, suc, ◌+◌, ◌-◌, ◌*◌, ◌%◌, ◌^◌, List, [], ◌∷◌, ◌++◌, Option, none, some, Bool, true, false,
  not, ◌&&◌, ◌||◌, ltb, leb, ◌==◌, if◌then◌else◌, length, take, bytes_eq, codes,
}

abbrev pub FilePath : Type 0
FilePath = List ℕ

abbrev pub FileMap : Type 0
FileMap = FilePath → Option (List ℕ)

-- The files, all their earlier states, and the number of system calls so far
pub record Disk : Type 0 where
  pub files : FileMap
  pub past : List FileMap
  pub calls : ℕ

-- What lies outside these files: whether a call fails and how much a failed write has written, and what a
-- patch that does not apply has written by then;
-- the size that a failed load leaves behind; statfs,
-- with 2^32 - 1 for an error; the names in a directory, with whether they are regular files, and `none`
-- if it cannot be opened; the links of the open files in /proc; SHA_hash of libmincrypt; and
-- retouch_mask_data, which masks a file or finds no match. The partitions and the two kinds of patches
-- are those of mtdutils and of bspatch.c and imgpatch.c: a patch answers its whole output, or fails.
pub record System : Type 0 where
  pub fails : ℕ → Bool
  pub partly : ℕ → ℕ
  pub stray : ℕ → List ℕ
  pub stale_size : ℕ
  pub free_space : ℕ → FilePath → ℕ
  pub directory : ℕ → FilePath → Option (List (FilePath × Bool))
  pub open_files : ℕ → Option (List FilePath)
  pub sha_hash : List ℕ → List ℕ
  pub retouch_mask : List ℕ → Option (List ℕ)
  pub load_partition : ℕ → FilePath → Option (List ℕ)
  pub write_partition : ℕ → List ℕ → FilePath → Bool
  pub apply_bsdiff_patch : List ℕ → List ℕ → Option (List ℕ)
  pub apply_image_patch : List ℕ → List ℕ → Option (List ℕ) → Option (List ℕ)

abbrev pub M : Type 0 → Type 0
M A = Disk → A × Disk

infixl 5 ◌>>=◌ ◌>>◌
unfoldable pub ◌>>=◌ : {A B : Type 0} → M A → (A → M B) → M B
◌>>=◌ m f d = let (a, d') = m d in f a d'

unfoldable pub ◌>>◌ : {A B : Type 0} → M A → M B → M B
◌>>◌ m k d = k (m d).1

unfoldable pub return : {A : Type 0} → A → M A
return a d = (a, d)

-- The number of a new system call
unfoldable pub call : M ℕ
call d = (d.calls, record d { calls = d.calls + 1 })

unfoldable pub get_files : M FileMap
get_files d = (d.files, d)

-- A change of the files, which keeps the state before
unfoldable pub put_file : FilePath → Option (List ℕ) → M Unit
put_file p contents d = (
  tt,
  record d { files = λ q. if bytes_eq q p then contents else d.files q; past = d.files ∷ d.past },
)

-- rename, which is one change
unfoldable pub rename_file : FilePath → FilePath → M Unit
rename_file p q d = (
  tt,
  record d {
    files = λ r. if bytes_eq r q then d.files p else if bytes_eq r p then none else d.files r;
    past = d.files ∷ d.past;
  },
)

-- CACHE_TEMP_SOURCE
abbrev pub cache_temp_source : FilePath
cache_temp_source = codes "/cache/saved.file"

-- A hex digit of ParseSha1
unfoldable pub digit : ℕ → Option ℕ
digit c =
    if leb 48 c && leb c 57
    then some (c - 48)
    else if leb 97 c && leb c 102
    then some (c - 97 + 10)
    else if leb 65 c && leb c 70
    then some (c - 65 + 10)
    else none

-- `n` bytes of two digits each, and the rest of the string
unfoldable pub parse_digits : ℕ → List ℕ → Option (List ℕ × List ℕ)
unfolding digit
parse_digits zero str = some ([], str)
parse_digits (suc n) (a ∷ b ∷ str) = elim (digit a) [
  | none ↦ none
  | some high ↦ elim (digit b) [
    | none ↦ none
    | some low ↦ elim (parse_digits n str) [
      | none ↦ none
      | some r ↦ some ((high * 2 ^ 4 + low) ∷ r.0, r.1)
    ]
  ]
]
parse_digits (suc n) _ = none

-- SHA_DIGEST_SIZE is 20.
unfoldable pub parse_sha1 : List ℕ → Option (List ℕ)
unfolding parse_digits
parse_sha1 str = elim (parse_digits 20 str) [
  | none ↦ none
  | some r ↦ if length r.1 == 0 then some r.0 else none
]

-- Whether a string is the digest `sha1`
unfoldable pub matches_sha1 : List ℕ → List ℕ → Bool
unfolding parse_sha1
matches_sha1 sha1 str = elim (parse_sha1 str) [
  | none ↦ false
  | some patch_sha1 ↦ bytes_eq patch_sha1 sha1
]

-- FindMatchingPatch from index `i` on; `none` is -1.
unfoldable pub find_matching_patch : ℕ → List ℕ → List (List ℕ) → Option ℕ
unfolding matches_sha1
find_matching_patch i sha1 [] = none
find_matching_patch i sha1 (str ∷ strs) =
    if matches_sha1 sha1 str then some i else find_matching_patch (i + 1) sha1 strs

-- `file` after LoadFileContents: the result, and the data with their digest, or NULL
pub data Load : Type 0 where
  loaded : List ℕ → List ℕ → Load
  enoent failed : Load

-- Whether a file name means a partition: it begins with "MTD:" or "EMMC:".
unfoldable pub is_partition : FilePath → Bool
is_partition name = bytes_eq (take 4 name) (codes "MTD:") || bytes_eq (take 5 name) (codes "EMMC:")

module _ (system : System) where
  -- Whether the next system call succeeds
  unfoldable pub succeeds : M Bool
  unfolding call
  succeeds = do n ← call; return (not (system.fails n))

  -- The data of a file once they are read: masked, and with their digest
  unfoldable pub masked : List ℕ → Load
  masked raw = elim (system.retouch_mask raw) [
    | none ↦ failed
    | some contents ↦ loaded contents (system.sha_hash contents)
  ]

  -- LoadFileContents with RETOUCH_DO_MASK. A failed stat of a file that is there does not set ENOENT.
  unfoldable pub load_file_contents : FilePath → M Load
  unfolding is_partition succeeds get_files masked
  load_file_contents filename =
      if is_partition filename
      then (do
        n ← call
        return (elim (system.load_partition n filename) [
          | none ↦ failed
          | some contents ↦ loaded contents (system.sha_hash contents)
        ]))
      else (do
        files ← get_files
        read ← succeeds
        return (elim (files filename) [
          | none ↦ enoent
          | some raw ↦ if read then masked raw else failed
        ]))

  -- open with O_CREAT and O_TRUNC
  unfoldable pub create : FilePath → M Bool
  unfolding succeeds put_file
  create filename = do
    opened ← succeeds
    (if opened then (put_file filename (some []) >> return true) else return false)

  -- FileSink into a file that was created: all bytes are written, or a part and an error
  unfoldable pub file_sink : FilePath → List ℕ → M Bool
  unfolding put_file
  file_sink filename contents = do
    n ← call
    (if system.fails n && not (length contents == 0)
        then (put_file filename (some (take (system.partly n) contents)) >> return false)
        else (put_file filename (some contents) >> return true))

  -- SaveFileContents; `none` is data that are NULL, with whatever size a failed load left there.
  unfoldable pub save_file_contents : FilePath → Option (List ℕ) → M Bool
  unfolding create file_sink
  save_file_contents filename file = do
    opened ← create filename
    (if opened
        then elim file [
          | none ↦
              if system.stale_size == 0
              then (do modes ← succeeds; (if modes then succeeds else return false))
              else return false
          | some contents ↦ (do
            wrote ← file_sink filename contents
            (if wrote
                then (do modes ← succeeds; (if modes then succeeds else return false))
                else return false))
        ]
        else return false)

  unfoldable pub unlink : FilePath → M Unit
  unfolding succeeds put_file
  unlink filename = do done ← succeeds; (if done then put_file filename none else return tt)
