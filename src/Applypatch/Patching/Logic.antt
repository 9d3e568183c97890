-- ===== src/Applypatch/Patching/Logic.antt =====
-- What holds of the files after, and at every moment of, an operation of applypatch/applypatch.c.
use sc7731_sc8830_bootable_r.Applypatch.Patching.{
  FilePath, FileMap, Disk, System, M, ◌>>=◌, ◌>>◌, return, call, get_files, put_file, rename_file,
  succeeds,
}
use sc7731_sc8830_bootable_r.Base.{
  ℕ, List, [], ◌∷◌, Option, none, Bool, true, false, ◌≡◌, ◌≢◌, refl, bytes_eq, if◌then◌else◌,
  bytes_eq_iff, bytes_eq_refl, Bool-cases, inl, inr,
}

-- All earlier states of the files are in `I`.
abbrev pub Always : (FileMap → Type 0) → List FileMap → Type 0
Always I [] = Unit
Always I (m ∷ ms) = I m × Always I ms

-- From files in `P`, `m` ends with an answer and files in `Q`, and `I` held of all states before.
pub record Triple {A : Type 0} (I P : FileMap → Type 0) (m : M A) (Q : A → FileMap → Type 0)
    : Type 0 where
  pub run :
      (d : Disk) → Always I d.past → P d.files → Always I (m d).1.past × Q (m d).0 (m d).1.files

-- The files after an assignment
abbrev pub set_file : FilePath → Option (List ℕ) → FileMap → FileMap
set_file p c m = λ q. if bytes_eq q p then c else m q

module _ (I : FileMap → Type 0) where
  pub Triple-return :
      {A : Type 0} {P : FileMap → Type 0} {Q : A → FileMap → Type 0} (a : A)
      → ((m : FileMap) → P m → Q a m)
      → Triple I P (return a) Q
  unfolding return
  Triple-return a h = record { run = λ d past p. (past, h d.files p) }

  pub Triple-bind :
      {A B : Type 0} {P : FileMap → Type 0} {Q : B → FileMap → Type 0} (R : A → FileMap → Type 0)
      (m : M A) (f : A → M B)
      → Triple I P m R
      → ((a : A) → Triple I (R a) (f a) Q)
      → Triple I P (m >>= f) Q
  unfolding ◌>>=◌
  Triple-bind R m f t k = record {
    run = λ d past p. let (past', r) = t.run d past p in (k (m d).0).run (m d).1 past' r;
  }

  pub Triple-then :
      {A B : Type 0} {P : FileMap → Type 0} {Q : B → FileMap → Type 0} (R : A → FileMap → Type 0)
      (m : M A) (k : M B)
      → Triple I P m R
      → ((a : A) → Triple I (R a) k Q)
      → Triple I P (m >> k) Q
  unfolding ◌>>◌
  Triple-then R m k t u = record {
    run = λ d past p. let (past', r) = t.run d past p in (u (m d).0).run (m d).1 past' r;
  }

  pub Triple-weaken :
      {A : Type 0} {P P' : FileMap → Type 0} {Q Q' : A → FileMap → Type 0} {m : M A}
      → ((s : FileMap) → P' s → P s)
      → ((a : A) (s : FileMap) → Q a s → Q' a s)
      → Triple I P m Q
      → Triple I P' m Q'
  Triple-weaken f g t = record {
    run = λ d past p. let (past', q) = t.run d past (f d.files p) in (past', g _ _ q);
  }

  pub Triple-if :
      {A : Type 0} {P : FileMap → Type 0} {Q : A → FileMap → Type 0} {x y : M A} (b : Bool)
      → (b ≡ true → Triple I P x Q)
      → (b ≡ false → Triple I P y Q)
      → Triple I P (if b then x else y) Q
  Triple-if true t u = t refl
  Triple-if false t u = u refl

  pub Triple-call : {P : FileMap → Type 0} → Triple I P call (λ n. P)
  unfolding call
  Triple-call = record { run = λ d past p. (past, p) }

  pub Triple-succeeds :
      {P : FileMap → Type 0} (system : System) → Triple I P (succeeds system) (λ b. P)
  unfolding succeeds ◌>>=◌ call return
  Triple-succeeds system = record { run = λ d past p. (past, p) }

  pub Triple-get : {P : FileMap → Type 0} → Triple I P get_files (λ files m. P m × (files ≡ m))
  unfolding get_files
  Triple-get = record { run = λ d past p. (past, (p, refl)) }

  pub Triple-put :
      {P : FileMap → Type 0} {Q : Unit → FileMap → Type 0} (p : FilePath) (c : Option (List ℕ))
      → ((m : FileMap) → P m → I m × Q tt (set_file p c m))
      → Triple I P (put_file p c) Q
  unfolding put_file
  Triple-put p c h = record { run = λ d past pre. let (i, q) = h d.files pre in ((i, past), q) }

  pub Triple-rename :
      {P : FileMap → Type 0} {Q : Unit → FileMap → Type 0} (p q : FilePath)
      → ((m : FileMap) → P m → I m × Q tt (set_file q (m p) (set_file p none m)))
      → Triple I P (rename_file p q) Q
  unfolding rename_file
  Triple-rename p q h = record { run = λ d past pre. let (i, r) = h d.files pre in ((i, past), r) }

pub set_file_other :
    (m : FileMap) (p q : FilePath) (c : Option (List ℕ)) → q ≢ p → set_file p c m q ≡ m q
set_file_other m p q c ne = elim (Bool-cases (bytes_eq q p)) [
  | inl same ↦ absurd (ne ((bytes_eq_iff q p).0 same))
  | inr other ↦ rw other refl
]

pub set_file_same : (m : FileMap) (p : FilePath) (c : Option (List ℕ)) → set_file p c m p ≡ c
set_file_same m p c = rw (bytes_eq_refl p) refl
