-- ===== src/Applypatch/Patching/Keeps.antt =====
-- The operations of applypatch/applypatch.c and applypatch/freecache.c on files that are not the source,
-- the target or the copy.
use mathlib.Core.Path.{subst}
use sc7731_sc8830_bootable_r.Applypatch.Patching.Logic.{
  Triple, Triple-return, Triple-bind, Triple-then, Triple-if, Triple-call, Triple-succeeds,
  Triple-put, set_file, set_file_same,
}
use sc7731_sc8830_bootable_r.Applypatch.Patching.Space.{
  regular_files, eliminate_open_files, files_in, find_expendable_files, free_space_for_file,
  delete_files, make_free_space_on_cache, is_open,
}
use sc7731_sc8830_bootable_r.Applypatch.Patching.{
  FilePath, FileMap, System, M, ◌>>=◌, return, unlink, create, file_sink,
}
use sc7731_sc8830_bootable_r.Base.{
  ℕ, List, [], ◌∷◌, ◌++◌, Option, none, some, Bool, true, false, not, ◌&&◌, ◌==◌, length, leb, ◌≡◌,
  refl, Bool-cases, inl, inr, Option-cases,
}

abbrev pub All : (FilePath → Type 0) → List FilePath → Type 0
All F [] = Unit
All F (p ∷ ps) = F p × All F ps

abbrev pub AllNamed : (FilePath → Type 0) → List (Option FilePath) → Type 0
AllNamed F [] = Unit
AllNamed F (none ∷ ps) = AllNamed F ps
AllNamed F (some p ∷ ps) = F p × AllNamed F ps

All-append :
    (F : FilePath → Type 0) (ps qs : List FilePath) → All F ps → All F qs → All F (ps ++ qs)
All-append F [] qs h k = k
All-append F (p ∷ ps) qs h k = (h.0, All-append F ps qs h.1 k)

eliminate_open_files-AllNamed :
    (F : FilePath → Type 0) (links names : List FilePath)
    → All F names
    → AllNamed F (eliminate_open_files links names)
unfolding eliminate_open_files
eliminate_open_files-AllNamed F links [] h = tt
eliminate_open_files-AllNamed F links (n ∷ names) h =
    let rest = eliminate_open_files-AllNamed F links names h.1 in
    elim (Bool-cases (is_open links n)) [
      | inl opened ↦ rw opened rest
      | inr shut ↦ rw shut (h.0, rest)
    ]

-- `I` held before, and a change of a file in `F` keeps `P`.
module _ (I P : FileMap → Type 0) (F : FilePath → Type 0) (system : System)
    (before : (m : FileMap) → P m → I m)
    (kept : (p : FilePath) (c : Option (List ℕ)) (m : FileMap)
      → F p
      → P m
      → P (set_file p c m)) where
  pub unlink-Triple : (p : FilePath) → F p → Triple I P (unlink system p) (λ u. P)
  unfolding unlink
  unlink-Triple p f =
      Triple-bind I (λ b. P) _ _ (Triple-succeeds I system)
        λ done.
          Triple-if I done (λ e. Triple-put I p none (λ m h. (before m h, kept p none m f h)))
            (λ e. Triple-return I tt (λ m h. h))

  pub create-Triple : (p : FilePath) → F p → Triple I P (create system p) (λ b. P)
  unfolding create
  create-Triple p f =
      Triple-bind I (λ b. P) _ _ (Triple-succeeds I system)
        λ opened.
          Triple-if I opened
            (λ e.
              Triple-then I (λ u. P) _ _
                (Triple-put I p (some []) (λ m h. (before m h, kept p (some []) m f h)))
                λ u. Triple-return I true (λ m h. h))
            (λ e. Triple-return I false (λ m h. h))

  pub file_sink-Triple :
      (p : FilePath) (contents : List ℕ)
      → F p
      → Triple I P (file_sink system p contents) (λ b m. P m × (b ≡ true → m p ≡ some contents))
  unfolding file_sink
  file_sink-Triple p contents f =
      Triple-bind I (λ n. P) _ _ (Triple-call I)
        λ n.
          Triple-if I (system.fails n && not (length contents == 0))
            (λ e.
              Triple-then I (λ u. P) _ _ (Triple-put I p _ (λ m h. (before m h, kept p _ m f h)))
                λ u. Triple-return I false (λ m h. (h, λ e. absurd (cc (e)))))
            (λ e.
              Triple-then I (λ u m. P m × (m p ≡ some contents)) _ _
                (Triple-put I p (some contents) (λ m h.
                  (before m h, (kept p (some contents) m f h, set_file_same m p (some contents)))))
                λ u. Triple-return I true (λ m h. (h.0, λ e. h.1)))

  module _
      (unlisted : (n : ℕ) (dir : FilePath) (es : List (FilePath × Bool))
        → system.directory n dir ≡ some es
        → All F (regular_files dir es)) where
    listed-All :
        (n : ℕ) (dir : FilePath)
        → All F (elim (system.directory n dir) [ none ↦ [] | some es ↦ regular_files dir es ])
    listed-All n dir = elim (Option-cases (system.directory n dir)) [
      | inl e ↦ rw e tt
      | inr z ↦ rw (z.1) (unlisted n dir z.0 z.1)
    ]

    files_in-Triple :
        (dir : FilePath) → Triple I P (files_in system dir) (λ names m. P m × All F names)
    unfolding files_in
    files_in-Triple dir =
        Triple-bind I (λ n. P) _ _ (Triple-call I)
          λ n. Triple-return I _ (λ m h. (h, listed-All n dir))

    -- The files that are found may all go.
    abbrev Found : Option (List (Option FilePath)) → Type 0
    Found found = (names : List (Option FilePath)) → found ≡ some names → AllNamed F names

    names-Found :
        (n : ℕ) (names : List FilePath)
        → All F names
        → Found (elim (system.open_files n) [
          | none ↦ none
          | some links ↦ some (eliminate_open_files links names)
        ])
    names-Found n names h = elim (Option-cases (system.open_files n)) [
      | inl e ↦ rw e (λ ns k. absurd (cc (k)))
      | inr z ↦ rw (z.1) (λ ns k.
          let same : eliminate_open_files z.0 names ≡ ns = cc (k) in
          subst (AllNamed F) same (eliminate_open_files-AllNamed F z.0 names h))
    ]

    find_expendable_files-Triple :
        Triple I P (find_expendable_files system) (λ found m. P m × Found found)
    unfolding find_expendable_files
    find_expendable_files-Triple =
        Triple-bind I (λ names m. P m × All F names) _ _ (files_in-Triple _)
          λ here.
            Triple-bind I (λ names m. P m × All F (here ++ names)) _ _
              (Triple-and here (files_in-Triple _))
              λ there.
                Triple-bind I (λ n m. P m × All F (here ++ there)) _ _ (Triple-call I)
                  λ n. Triple-return I _ (λ m h. (h.0, names-Found n (here ++ there) h.1))
      where
        Triple-and :
            (here : List FilePath) {m : M (List FilePath)}
            → Triple I P m (λ names s. P s × All F names)
            → Triple I (λ s. P s × All F here) m (λ names s. P s × All F (here ++ names))
        Triple-and here t = record {
          run = λ d past p.
              let (past', q) = t.run d past p.0 in (past', (q.0, All-append F here _ p.1 q.1));
        }

    delete_files-Triple :
        (bytes_needed : ℕ) (names : List (Option FilePath)) (free_now : ℕ)
        → AllNamed F names
        → Triple I P (delete_files system bytes_needed names free_now) (λ n. P)
    unfolding delete_files free_space_for_file
    delete_files-Triple needed [] now h = Triple-return I now (λ m p. p)
    delete_files-Triple needed (none ∷ names) now h =
        Triple-if I (leb needed now) (λ e. Triple-return I now (λ m p. p))
          (λ e. delete_files-Triple needed names now h)
    delete_files-Triple needed (some path ∷ names) now h =
        Triple-if I (leb needed now) (λ e. Triple-return I now (λ m p. p))
          (λ e.
            Triple-bind I (λ n. P) _ _
              (Triple-then I (λ u. P) _ _ (unlink-Triple path h.0)
                λ u. Triple-bind I (λ n. P) _ _ (Triple-call I) λ n. Triple-return I _ (λ m p. p))
              λ now'. delete_files-Triple needed names now' h.1)

    pub make_free_space_on_cache-Triple :
        (bytes_needed : ℕ) → Triple I P (make_free_space_on_cache system bytes_needed) (λ b. P)
    unfolding make_free_space_on_cache free_space_for_file
    make_free_space_on_cache-Triple needed =
        Triple-bind I (λ n. P) _ _
          (Triple-bind I (λ n. P) _ _ (Triple-call I) λ n. Triple-return I _ (λ m p. p))
          λ now.
            Triple-if I (leb needed now) (λ e. Triple-return I true (λ m p. p))
              (λ e. Triple-bind I _ _ _ find_expendable_files-Triple λ found. go now found)
      where
        go :
            (now : ℕ) (found : Option (List (Option FilePath)))
            → Triple I
                (λ m. P m × Found found)
                (elim found [
                  | none ↦ return false
                  | some names ↦ elim names [
                    | [] ↦ return false
                    | n ∷ ns ↦
                        delete_files system needed (n ∷ ns) now >>= λ now'. return (leb needed now')
                  ]
                ])
                (λ b. P)
        go now none = Triple-return I false (λ m p. p.0)
        go now (some []) = Triple-return I false (λ m p. p.0)
        go now (some (n ∷ ns)) =
            let t : (names : AllNamed F (n ∷ ns))
                → Triple I P
                    (delete_files system needed (n ∷ ns) now >>= λ now'. return (leb needed now'))
                    (λ b. P) =
              λ names.
                Triple-bind I (λ k. P) _ _ (delete_files-Triple needed (n ∷ ns) now names)
                  λ now'. Triple-return I (leb needed now') (λ m q. q) in
            record { run = λ d past p. (t (p.1 (n ∷ ns) refl)).run d past p.0 }
