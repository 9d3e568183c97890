-- ===== src/Applypatch/Patching/Rounds.antt =====
-- The loop of GenerateTarget of applypatch/applypatch.c and what follows it, for a target that is a file.
use sc7731_sc8830_bootable_r.Applypatch.Patching.Keeps.{unlink-Triple}
use sc7731_sc8830_bootable_r.Applypatch.Patching.Logic.{
  Triple, Triple-return, Triple-bind, Triple-then, Triple-weaken, Triple-if, Triple-succeeds,
  Triple-rename, set_file, set_file_other, set_file_same,
}
use sc7731_sc8830_bootable_r.Applypatch.Patching.Target.{
  Job, Round, answer, again, patched, make_room, try_patch, one_round, rounds, replace_target,
  install, generate_target, outname, chosen,
}
use sc7731_sc8830_bootable_r.Applypatch.Patching.{
  FilePath, FileMap, System, return, succeeds, cache_temp_source,
}
use sc7731_sc8830_bootable_r.Base.{
  ℕ, zero, suc, List, none, some, Bool, true, false, leb, if◌then◌else◌, ◌≡◌, ◌≢◌, sym, ◌∙◌, arith,
  bytes_eq, bytes_eq_iff, inl, inr,
}
use sc7731_sc8830_bootable_r.Edify.State.{Value}
use sc7731_sc8830_bootable_r.Applypatch.Patching.Setting.{
  Setting, IsDone, Startable, Stable, After, Ready, Outcome,
}
use sc7731_sc8830_bootable_r.Applypatch.Patching.Tries.{patch_from-Triple}

module _ (system : System) (strs : List (List ℕ)) (patches : List Value) (j : Job)
    (s : Setting system j.source_filename j.target_filename) where
  abbrev Inv : FileMap → Type 0
  Inv = Startable system j.source_filename j.target_filename strs patches j.target_sha1

  abbrev Done : FileMap → Type 0
  Done = IsDone system j.source_filename j.target_filename strs patches j.target_sha1

  abbrev out : FilePath
  out = outname j.target_filename

  -- A round starts in `S`, and its patch in `P` of the new `retry`.
  module _ (S : FileMap → Type 0) (P : ℕ → FileMap → Type 0)
      (before : (r : ℕ) (m : FileMap) → P r m → Inv m)
      (kept : (r : ℕ) → Stable j.source_filename j.target_filename (P r))
      (back : (r : ℕ) (m : FileMap) → P r m → leb r 0 ≡ false → S m)
      (room : (retry : ℕ) (made_copy : Bool)
        → Triple Inv S (make_room system j retry made_copy) (Ready Inv P)) where
    After-S :
        (retry : ℕ) (r : Round) (m : FileMap)
        → After (λ m. P retry m × (leb retry 0 ≡ false)) out r m
        → After S out r m
    After-S retry (answer a) m h = h
    After-S retry (again b) m h = back retry m h.0 h.1
    After-S retry (patched bytes b) m h = h

    one_round-Triple :
        (retry : ℕ) (made_copy : Bool)
        → Triple Inv S (one_round system j retry made_copy) (λ r m. Inv m × After S out r m)
    unfolding one_round try_patch
    one_round-Triple retry made_copy =
        Triple-bind Inv (Ready Inv P) _ _ (room retry made_copy) λ start.
          Triple-if Inv (leb 1 start.0)
            (λ e. Triple-return Inv (answer start.0) (λ m h. (h.0, λ z. ground (arith, e, z))))
            (λ e.
              Triple-weaken Inv (λ m h. h.1 e)
                (λ r m h. (before start.1.0 m h.0, After-S start.1.0 r m h.1))
                (patch_from-Triple system strs patches j s (P start.1.0) (before start.1.0)
                  (kept start.1.0) start.1.0 start.1.1 (chosen j).0 (chosen j).1))

    pub rounds-Triple :
        (retry : ℕ) (made_copy : Bool)
        → Triple Inv S (rounds system j retry made_copy) (λ r m. Inv m × After Inv out r m)
    unfolding rounds
    rounds-Triple zero made_copy =
        Triple-weaken Inv (λ m h. h) (λ r m h. (h.0, last r m h)) (one_round-Triple zero made_copy)
      where
        last : (r : Round) (m : FileMap) → Inv m × After S out r m → After Inv out r m
        last (answer a) m h = h.1
        last (again b) m h = h.0
        last (patched bytes b) m h = h.1
    rounds-Triple (suc retry) made_copy =
        let rest : (made : Bool)
            → Triple Inv S (rounds system j retry made) (λ r m. Inv m × After Inv out r m) =
          λ made. rounds-Triple retry made in
        Triple-bind Inv (λ r m. Inv m × After S out r m) _ _
          (one_round-Triple (suc retry) made_copy) λ r. next rest r
      where
        next :
            ((made : Bool)
              → Triple Inv S (rounds system j retry made) (λ r m. Inv m × After Inv out r m))
            → (r : Round)
            → Triple Inv
                (λ m. Inv m × After S out r m)
                (elim r [
                  | answer a ↦ return (answer a)
                  | patched bytes copied ↦ return (patched bytes copied)
                  | again copied ↦ rounds system j retry copied
                ])
                (λ r m. Inv m × After Inv out r m)
        next rest (answer a) = Triple-return Inv (answer a) (λ m h. h)
        next rest (patched bytes b) = Triple-return Inv (patched bytes b) (λ m h. h)
        next rest (again b) = Triple-weaken Inv (λ m h. h.1) (λ r m h. h) (rest b)

  module _ (bytes : List ℕ) (right : system.sha_hash bytes ≡ j.target_sha1) where
    replace_target-Triple :
        Triple Inv
          (λ m. Inv m × (m out ≡ some bytes))
          (replace_target system j)
          (λ b m. Inv m × (b ≡ true → Done m))
    unfolding replace_target
    replace_target-Triple =
        Triple-bind Inv (λ b m. Inv m × (m out ≡ some bytes)) _ _ (Triple-succeeds Inv system)
          λ modes.
            Triple-bind Inv (λ b m. Inv m × (m out ≡ some bytes)) _ _ (step modes)
              λ owners.
                Triple-bind Inv (λ b m. Inv m × (m out ≡ some bytes)) _ _ (step owners)
                  λ renamed.
                    Triple-if Inv renamed
                      (λ e.
                        Triple-then Inv (λ u. Done) _ _
                          (Triple-rename Inv out j.target_filename (λ m h. (
                            h.0,
                            (
                              bytes,
                              set_file_same (set_file out none m) j.target_filename (m out) ∙ h.1,
                              inl right,
                            ),
                          )))
                          λ u. Triple-return Inv true (λ m h. (inr (inr h), λ e. h)))
                      (λ e. Triple-return Inv false (λ m h. (h.0, λ t. absurd (cc (t)))))
      where
        step :
            (b : Bool)
            → Triple Inv
                (λ m. Inv m × (m out ≡ some bytes))
                (if b then succeeds system else return false)
                (λ b m. Inv m × (m out ≡ some bytes))
        step true = Triple-succeeds Inv system
        step false = Triple-return Inv false (λ m h. h)

    install-Triple :
        (made_copy : Bool)
        → Triple Inv
            (λ m. Inv m × (m out ≡ some bytes))
            (install system j bytes made_copy)
            (Outcome Inv Done)
    unfolding install
    install-Triple made_copy = rw s.target_file (
        Triple-bind Inv (λ b m. Inv m × (b ≡ true → Done m)) _ _ replace_target-Triple
          λ installed.
            Triple-if Inv installed
              (λ i.
                Triple-if Inv made_copy
                  (λ e.
                    Triple-then Inv (λ u. Done) _ _
                      (Triple-weaken Inv (λ m h. h.1 i) (λ u m h. h)
                        (unlink-Triple Inv Done (λ p. p ≢ j.target_filename) system
                          (λ m h. inr (inr h))
                          (λ p c m ne h. (
                            h.0,
                            set_file_other m p j.target_filename c (λ e. ne (sym e)) ∙ h.1,
                            h.2,
                          ))
                          cache_temp_source (λ e. s.cache_target (sym e))))
                      λ u. Triple-return Inv 0 (λ m h. (inr (inr h), λ e. h)))
                  (λ e. Triple-return Inv 0 (λ m h. (h.0, λ z. h.1 i))))
              (λ i. Triple-return Inv 1 (λ m h. (h.0, λ z. absurd (omega (arith, z))))))

  pub generate_target-Triple :
      (S : FileMap → Type 0)
      → Triple Inv S (rounds system j 1 false) (λ r m. Inv m × After Inv out r m)
      → Triple Inv S (generate_target system j) (Outcome Inv Done)
  unfolding generate_target
  generate_target-Triple S t =
      Triple-bind Inv (λ r m. Inv m × After Inv out r m) _ _ t λ r. finish r
    where
      finish :
          (r : Round)
          → Triple Inv
              (λ m. Inv m × After Inv out r m)
              (elim r [
                | answer a ↦ return a
                | again copied ↦ return 1
                | patched bytes copied ↦
                    if bytes_eq (system.sha_hash bytes) j.target_sha1
                    then install system j bytes copied
                    else return 1
              ])
              (Outcome Inv Done)
      finish (answer a) = Triple-return Inv a (λ m h. (h.0, λ z. absurd (h.1 z)))
      finish (again b) = Triple-return Inv 1 (λ m h. (h.0, λ z. absurd (omega (arith, z))))
      finish (patched bytes b) =
          Triple-if Inv (bytes_eq (system.sha_hash bytes) j.target_sha1)
            (λ e. install-Triple bytes ((bytes_eq_iff (system.sha_hash bytes) j.target_sha1).0 e) b)
            (λ e. Triple-return Inv 1 (λ m h. (h.0, λ z. absurd (omega (arith, z)))))
