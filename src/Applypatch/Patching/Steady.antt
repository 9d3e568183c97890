-- ===== src/Applypatch/Patching/Steady.antt =====
-- GenerateTarget of applypatch/applypatch.c, for a target that is a file, when no call fails and there is
-- room: the answer is 0.
use mathlib.Core.Path.{subst}
use sc7731_sc8830_bootable_r.Applypatch.Patching.Space.{free_space_for_file}
use sc7731_sc8830_bootable_r.Applypatch.Patching.Target.{
  Job, patched, chosen, run_patch, enough_space, make_room, deliver, settle, patch_target,
  patch_from, try_patch, one_round, rounds, replace_target, install, generate_target, target_fs,
}
use sc7731_sc8830_bootable_r.Applypatch.Patching.{
  FilePath, Disk, System, M, ◌>>=◌, ◌>>◌, return, call, succeeds, create, file_sink, is_partition,
}
use sc7731_sc8830_bootable_r.Base.{
  ℕ, suc, List, some, Bool, true, false, ◌&&◌, ◌*◌, ◌/◌, ◌%◌, ◌^◌, ltb, ◌≡◌, refl, sym,
  bytes_eq_iff,
}
use sc7731_sc8830_bootable_r.Edify.State.{blob}

-- From every disk, `m` answers `a`.
pub record Returns {A : Type 0} (m : M A) (a : A) : Type 0 where
  pub run : (d : Disk) → (m d).0 ≡ a

Returns-return : {A : Type 0} (a : A) → Returns (return a) a
unfolding return
Returns-return a = record { run = λ d. refl }

Returns-bind :
    {A B : Type 0} (m : M A) (f : A → M B) {a : A} {b : B}
    → Returns m a
    → Returns (f a) b
    → Returns (m >>= f) b
unfolding ◌>>=◌
Returns-bind m f {b} t k = record {
  run = λ d. subst (λ x. (f x (m d).1).0 ≡ b) (sym (t.run d)) (k.run (m d).1);
}

Returns-then : {A B : Type 0} (m : M A) (k : M B) {b : B} → Returns k b → Returns (m >> k) b
unfolding ◌>>◌
Returns-then m k t = record { run = λ d. t.run (m d).1 }

module _ (system : System) (steady : (n : ℕ) → system.fails n ≡ false) where
  succeeds-Returns : Returns (succeeds system) true
  unfolding succeeds ◌>>=◌ call return
  succeeds-Returns = record { run = λ d. rw (steady d.calls) refl }

  create-Returns : (p : FilePath) → Returns (create system p) true
  unfolding create
  create-Returns p = Returns-bind _ _ succeeds-Returns (Returns-then _ _ (Returns-return true))

  file_sink-Returns : (p : FilePath) (bytes : List ℕ) → Returns (file_sink system p bytes) true
  unfolding file_sink ◌>>=◌ ◌>>◌ call return
  file_sink-Returns p bytes = record { run = λ d. rw (steady d.calls) refl }

  -- There is room for the target of `j`, which is a file, and the patch that is chosen makes it.
  module _ (j : Job)
      (room : (n : ℕ)
        → ltb (2 ^ 18) (system.free_space n (target_fs j.target_filename))
            && ltb
                (j.target_size * 3 % 2 ^ 32 / 2)
                (system.free_space n (target_fs j.target_filename))
          ≡ true)
      (file : is_partition j.target_filename ≡ false) (contents patch bytes : List ℕ)
      (picks : chosen j ≡ (contents, blob patch))
      (applies : run_patch system contents patch j.bonus_data ≡ some (some bytes))
      (right : system.sha_hash bytes ≡ j.target_sha1) where
    enough_space-Returns : (retry : ℕ) → Returns (enough_space system j (suc retry)) true
    unfolding enough_space free_space_for_file ◌>>=◌ call return
    enough_space-Returns retry = record { run = λ d. room d.calls }

    make_room-Returns :
        (retry : ℕ) (made : Bool)
        → Returns (make_room system j (suc retry) made) (0, (suc retry, made))
    unfolding make_room
    make_room-Returns retry made =
        rw file (Returns-bind _ _ (enough_space-Returns retry) (Returns-return _))

    deliver-Returns : Returns (deliver system j (some bytes)) (some bytes)
    unfolding deliver
    deliver-Returns = rw file (Returns-bind _ _ (file_sink-Returns _ bytes) (Returns-return _))

    try_patch-Returns :
        (retry : ℕ) (made : Bool) → Returns (try_patch system j retry made) (patched bytes made)
    unfolding try_patch patch_from patch_target settle
    try_patch-Returns retry made =
        rw (picks, file, applies)
          (Returns-bind _ _ (create-Returns _)
            (Returns-bind _ _ deliver-Returns (Returns-return _)))

    install-Returns : Returns (install system j bytes false) 0
    unfolding install replace_target
    install-Returns = rw file (
        Returns-bind _ _
          (Returns-bind _ _ succeeds-Returns (
            Returns-bind _ _ succeeds-Returns
              (Returns-bind _ _ succeeds-Returns (Returns-then _ _ (Returns-return true)))))
          (Returns-return 0))

    pub generate_target-Returns : Returns (generate_target system j) 0
    unfolding generate_target rounds one_round
    generate_target-Returns =
        Returns-bind _ _
          (Returns-bind _ _
            (Returns-bind _ _ (make_room-Returns 0 false) (try_patch-Returns 1 false))
            (Returns-return (patched bytes false)))
          (rw ((bytes_eq_iff (system.sha_hash bytes) j.target_sha1).1 right) install-Returns)
