-- ===== src/Applypatch/Patching/Tests.antt =====
-- A run of applypatch/applypatch.c, with a patch that turns the source into the target.
use sc7731_sc8830_bootable_r.Applypatch.Patching.{
  FilePath, Disk, System, ◌>>=◌, ◌>>◌, return, cache_temp_source, is_partition, matches_sha1,
  find_matching_patch, parse_sha1,
}
use sc7731_sc8830_bootable_r.Applypatch.Patching.Answers.{applypatch-Answers, Right}
use sc7731_sc8830_bootable_r.Applypatch.Patching.Checked.{applypatch_check-Usable}
use sc7731_sc8830_bootable_r.Applypatch.Patching.Digests.{hex, parse_sha1-hex}
use sc7731_sc8830_bootable_r.Applypatch.Patching.Logic.{Always}
use sc7731_sc8830_bootable_r.Applypatch.Patching.Restart.{applypatch-Startable}
use sc7731_sc8830_bootable_r.Applypatch.Patching.Setting.{Usable, Setting, Startable, IsDone}
use sc7731_sc8830_bootable_r.Applypatch.Patching.Sources.{
  applypatch_check, check_loaded, has_patch, applypatch, resolved, patch_for, load_source,
  from_source, contents_of, data_of_file,
}
use sc7731_sc8830_bootable_r.Applypatch.Patching.Target.{run_patch, target_fs, outname}
use sc7731_sc8830_bootable_r.Base.{
  arith, ◌<◌, ◌⊎◌, true, Bool-cases, inr, ℕ, ◌^◌, List, [], ◌∷◌, none, some, false, ◌≡◌, ◌≢◌, refl,
  bytes_eq, bytes_eq_iff, codes, if◌then◌else◌, inl,
}
use sc7731_sc8830_bootable_r.Edify.State.{Value, blob}

abbrev twenty : ℕ → List ℕ
twenty b = b ∷ b ∷ b ∷ b ∷ b ∷ b ∷ b ∷ b ∷ b ∷ b ∷ b ∷ b ∷ b ∷ b ∷ b ∷ b ∷ b ∷ b ∷ b ∷ b ∷ []

abbrev first_byte : List ℕ → ℕ
first_byte [] = 0
first_byte (b ∷ bs) = b

-- No call fails, and the digest of a file is its first byte, twenty times.
abbrev steady : System
steady = record {
  fails = λ n. false;
  partly = λ n. 0;
  stray = λ n. [];
  stale_size = 0;
  free_space = λ n path. 2 ^ 20;
  directory = λ n dir. none;
  open_files = λ n. some [];
  sha_hash = λ bytes. twenty (first_byte bytes);
  retouch_mask = λ bytes. some bytes;
  load_partition = λ n path. none;
  write_partition = λ n bytes path. false;
  apply_bsdiff_patch = λ old patch. some (2 ∷ old);
  apply_image_patch = λ old patch bonus. none;
}

abbrev old_path : FilePath
old_path = codes "/system/a"

abbrev new_path : FilePath
new_path = codes "/system/b"

abbrev ones : List ℕ
ones = codes "0101010101010101010101010101010101010101"

abbrev twos : List ℕ
twos = codes "0202020202020202020202020202020202020202"

abbrev patch : Value
patch = blob (codes "BSDIFF40")

-- The source is there and nothing else.
abbrev old_disk : Disk
old_disk = record {
  files = λ p. if bytes_eq p old_path then some (1 ∷ []) else none;
  past = [];
  calls = 0;
}

ones-parse : parse_sha1 ones ≡ some (twenty 1)
unfolding parse_sha1
ones-parse = refl

twos-parse : parse_sha1 twos ≡ some (twenty 2)
unfolding parse_sha1
twos-parse = refl

ones-patch : patch_for (ones ∷ []) (patch ∷ []) (some (1 ∷ [], twenty 1)) ≡ some patch
unfolding patch_for
ones-patch = refl

new_resolved : resolved old_path new_path ≡ new_path
unfolding resolved
new_resolved = refl

outname_ne : (p : FilePath) → bytes_eq (codes "/system/b.patch") p ≡ false → outname new_path ≢ p
unfolding outname
outname_ne p e q = absurd (cc ((bytes_eq_iff (codes "/system/b.patch") p).1 q, e))

path_ne : (p q : FilePath) → bytes_eq p q ≡ false → p ≢ q
path_ne p q e same = absurd (cc ((bytes_eq_iff p q).1 same, e))

old_to_new : Setting steady old_path new_path
unfolding is_partition
old_to_new = record {
  source_file = refl;
  target_file = refl;
  cache_source = path_ne old_path cache_temp_source refl;
  cache_target = path_ne new_path cache_temp_source refl;
  out_source = outname_ne old_path refl;
  out_target = outname_ne new_path refl;
  out_cache = outname_ne cache_temp_source refl;
  unlisted = λ n dir es e. absurd (cc (e));
  mask_again = λ raw contents e. refl;
}

old_disk-Startable :
    Startable steady old_path new_path (ones ∷ []) (patch ∷ []) (twenty 2) old_disk.files
old_disk-Startable = inl (1 ∷ [], 1 ∷ [], patch, refl, refl, ones-patch)

applypatch-Startable_example :
    let after = applypatch steady old_path new_path twos 2 (ones ∷ []) (patch ∷ []) none old_disk in
    Always (Startable steady old_path new_path (ones ∷ []) (patch ∷ []) (twenty 2)) after.1.past
    × Startable steady old_path new_path (ones ∷ []) (patch ∷ []) (twenty 2) after.1.files
    × (after.0 ≡ 0
        → IsDone steady old_path new_path (ones ∷ []) (patch ∷ []) (twenty 2) after.1.files)
unfolding resolved
applypatch-Startable_example =
    applypatch-Startable steady old_path new_path (ones ∷ []) (patch ∷ []) twos (twenty 2)
      twos-parse old_to_new 2 none old_disk tt old_disk-Startable

test_applypatch :
    (applypatch steady old_path new_path twos 2 (ones ∷ []) (patch ∷ []) none old_disk).0 ≡ 0
unfolding applypatch from_source load_source contents_of data_of_file patch_for ◌>>=◌ ◌>>◌ return
test_applypatch = refl

right : Right steady (ones ∷ []) (patch ∷ []) none (twenty 2)
unfolding run_patch patch_for
right contents v e = (codes "BSDIFF40", 2 ∷ contents, only_patch, refl, refl)
  where
    only_patch : v ≡ patch
    only_patch = elim (Bool-cases (matches_sha1 (twenty (first_byte contents)) ones)) [
      | inl fits ↦
          let h : patch_for (ones ∷ []) (patch ∷ []) (some (contents, twenty (first_byte contents)))
              ≡ some patch =
            rw (fits, patch_for, find_matching_patch) refl in
          cc (e, h)
      | inr other ↦
          let h : patch_for (ones ∷ []) (patch ∷ []) (some (contents, twenty (first_byte contents)))
              ≡ none =
            rw (other, patch_for, find_matching_patch) refl in
          absurd (cc (e, h))
    ]

applypatch-Answers_example :
    (applypatch steady old_path new_path twos 2 (ones ∷ []) (patch ∷ []) none old_disk).0 ≡ 0
unfolding resolved target_fs is_partition
applypatch-Answers_example =
    applypatch-Answers steady (λ n. refl) old_path new_path (ones ∷ []) (patch ∷ []) twos (twenty 2)
      twos-parse 2 none refl refl (λ n. refl) right old_disk
      (inl (1 ∷ [], 1 ∷ [], patch, refl, refl, ones-patch))

old_disk-checked : (applypatch_check steady old_path (ones ∷ []) old_disk).0 ≡ true
unfolding applypatch_check check_loaded has_patch ◌>>=◌ return
old_disk-checked = refl

applypatch_check-Usable_example :
    Usable steady old_path new_path (ones ∷ []) (patch ∷ []) (twenty 2) old_path old_disk.files
    ⊎ Usable steady old_path new_path
        (ones ∷ [])
        (patch ∷ [])
        (twenty 2)
        cache_temp_source
        old_disk.files
unfolding is_partition
applypatch_check-Usable_example =
    applypatch_check-Usable steady (λ n. refl) old_path new_path (ones ∷ []) (patch ∷ []) (twenty 2)
      refl refl refl old_disk old_disk-checked

parse_sha1-hex_example : parse_sha1 (hex (twenty 171)) ≡ some (twenty 171)
parse_sha1-hex_example =
    let below : 171 < 256 = omega arith in
    parse_sha1-hex (twenty 171)
      (
        below,
        (
          below,
          (
            below,
            (
              below,
              (
                below,
                (
                  below,
                  (
                    below,
                    (
                      below,
                      (
                        below,
                        (
                          below,
                          (
                            below,
                            (
                              below,
                              (
                                below,
                                (below, (below, (below, (below, (below, (below, (below, tt))))))),
                              ),
                            ),
                          ),
                        ),
                      ),
                    ),
                  ),
                ),
              ),
            ),
          ),
        ),
      )
      refl
