-- ===== src/Applypatch/Patching/Checked.antt =====
-- applypatch_check of applypatch/applypatch.c, for a file: where it passes, applypatch can be started.
use mathlib.Core.Path.{subst}
use sc7731_sc8830_bootable_r.Applypatch.Patching.Answers.{look, load_file_contents-look, look-raw}
use sc7731_sc8830_bootable_r.Applypatch.Patching.Setting.{Usable}
use sc7731_sc8830_bootable_r.Applypatch.Patching.Sources.{
  contents_of, patch_for, has_patch, check_copy, check_loaded, applypatch_check,
}
use sc7731_sc8830_bootable_r.Applypatch.Patching.{
  FilePath, FileMap, Disk, System, ◌>>=◌, return, Load, loaded, enoent, failed, cache_temp_source,
  is_partition, find_matching_patch, matches_sha1,
}
use sc7731_sc8830_bootable_r.Base.{
  ℕ, ◌+◌, ◌<◌, List, [], ◌∷◌, Option, none, some, true, false, ◌==◌, length, ◌≡◌, refl, sym, ◌∙◌,
  arith, Bool-cases, Option-cases, ◌⊎◌, inl, inr, get_elem_some,
}
use sc7731_sc8830_bootable_r.Edify.State.{Value}

find_matching_patch-bound :
    (i : ℕ) (sha1 : List ℕ) (strs : List (List ℕ)) (k : ℕ)
    → find_matching_patch i sha1 strs ≡ some k
    → k < i + length strs
unfolding find_matching_patch
find_matching_patch-bound i sha1 [] k e = absurd (cc (e))
find_matching_patch-bound i sha1 (str ∷ strs) k e = elim (Bool-cases (matches_sha1 sha1 str)) [
  | inl fits ↦
      let step : find_matching_patch i sha1 (str ∷ strs) ≡ some i =
        rw (fits, find_matching_patch) refl in
      let same : i ≡ k = cc (step, e) in omega (arith, same)
  | inr other ↦
      let step : find_matching_patch i sha1 (str ∷ strs) ≡ find_matching_patch (i + 1) sha1 strs =
        rw (other, find_matching_patch) refl in
      omega (arith, find_matching_patch-bound (i + 1) sha1 strs k (sym step ∙ e))
]

-- A digest that is found has a patch, if there is a patch for each digest.
has_patch-patch_for :
    (strs : List (List ℕ)) (patches : List Value)
    → length patches ≡ length strs
    → (f : List ℕ × List ℕ) → has_patch strs (some f) ≡ true
    → (v : Value) × (patch_for strs patches (some f) ≡ some v)
unfolding has_patch patch_for
has_patch-patch_for strs patches same f e = elim (Option-cases (find_matching_patch 0 f.1 strs)) [
  | inl k ↦ absurd (cc (e, k))
  | inr z ↦
      let there =
        get_elem_some patches z.0
          (omega (arith, same, find_matching_patch-bound 0 f.1 strs z.0 z.1)) in
      (there.0, rw (z.1, patch_for) there.1)
]

module _ (system : System) (steady : (n : ℕ) → system.fails n ≡ false) (source target : FilePath)
    (strs : List (List ℕ)) (patches : List Value) (target_sha1 : List ℕ)
    (paired : length patches ≡ length strs) where
  abbrev Ready : FilePath → FileMap → Type 0
  Ready = Usable system source target strs patches target_sha1

  look-Ready :
      (p : FilePath) (m : FileMap) (file : Option (List ℕ × List ℕ))
      → file ≡ look system p m
      → has_patch strs file ≡ true
      → Ready p m
  unfolding has_patch
  look-Ready p m none e k = absurd (cc (k))
  look-Ready p m (some f) e k =
      let r = look-raw system p m f (sym e) in
      let v = has_patch-patch_for strs patches paired f k in
      (
        r.0,
        f.0,
        v.0,
        r.1,
        r.2,
        subst (λ h. patch_for strs patches (some (f.0, h)) ≡ some v.0) (sym r.3) v.1,
      )

  check_copy-Ready :
      (d : Disk) → (check_copy system strs d).0 ≡ true → Ready cache_temp_source d.files
  unfolding check_copy ◌>>=◌ return
  check_copy-Ready d e =
      look-Ready cache_temp_source d.files _
        (load_file_contents-look system steady cache_temp_source d refl).0 e

  check_loaded-Ready :
      (m : FileMap) (file : Load) (d : Disk)
      → (length strs == 0) ≡ false
      → contents_of file ≡ look system source m
      → d.files ≡ m
      → (check_loaded system strs file d).0 ≡ true
      → Ready source m ⊎ Ready cache_temp_source m
  unfolding check_loaded contents_of return
  check_loaded-Ready m enoent d some_sha1 e same k = absurd (cc (k))
  check_loaded-Ready m failed d some_sha1 e same k =
      inr (subst (Ready cache_temp_source) same (check_copy-Ready d k))
  check_loaded-Ready m (loaded contents sha1) d some_sha1 e same k =
      elim (Bool-cases (has_patch strs (some (contents, sha1)))) [
        | inl fits ↦ inl (look-Ready source m (some (contents, sha1)) e fits)
        | inr other ↦
            let step : (check_loaded system strs (loaded contents sha1) d).0
                ≡ (check_copy system strs d).0 =
              rw (some_sha1, other, check_loaded) refl in
            inr (subst (Ready cache_temp_source) same (check_copy-Ready d (sym step ∙ k)))
      ]

-- If no call fails, and applypatch_check passes a file with some digests, then the file or the copy in the
-- cache is one that applypatch has a patch for, if there is a patch for each digest.
pub applypatch_check-Usable :
    (system : System)
    → ((n : ℕ) → system.fails n ≡ false)
    → (source target : FilePath) (strs : List (List ℕ)) (patches : List Value)
      (target_sha1 : List ℕ)
    → length patches ≡ length strs
    → (length strs == 0) ≡ false
    → is_partition source ≡ false
    → (d : Disk) → (applypatch_check system source strs d).0 ≡ true
    → Usable system source target strs patches target_sha1 source d.files
      ⊎ Usable system source target strs patches target_sha1 cache_temp_source d.files
unfolding applypatch_check ◌>>=◌
applypatch_check-Usable system steady source target strs patches target_sha1 paired some_sha1 file d
      e =
    let (seen, kept) = load_file_contents-look system steady source d file in
    check_loaded-Ready system steady source target strs patches target_sha1 paired d.files _ _
      some_sha1 seen kept e
