-- ===== src/Minzip/Zip/Extract.antt =====
-- The extraction of a part of an archive: minzip/Zip.c from writeProcessFunction and targetEntryPath to
-- mzExtractRecursive. Memory is never short; the security contexts of new files are left out.
use sc7731_sc8830_bootable_r.Base.Int.{pos, negsuc}
use sc7731_sc8830_bootable_r.Base.{
  ℕ, zero, suc, ◌/◌, ◌%◌, ◌^◌, List, [], ◌∷◌, ◌++◌, Option, none, some, Bool, true, false, not,
  ◌&&◌, ltb, ◌==◌, if◌then◌else◌, length, drop,
}
use sc7731_sc8830_bootable_r.Minzip.Zip.Contents.{
  Inflated, ProcessFunction, to_size, mz_process_zip_entry_contents, mz_read_zip_entry,
}
use sc7731_sc8830_bootable_r.Minzip.Zip.{
  ZipEntry, ZipArchive, Parsed, ok, unspecified, ◌>>=◌, strncmp,
}

-- What a call of write comes to: so many bytes, or none with errno EINTR or with another one
pub data Wrote : Type 0 where
  wrote : ℕ → Wrote
  interrupted refused : Wrote

-- The system, with a state `W`, the callback of the caller, and dirCreateHierarchy of DirUtil.c; a Bool
-- tells whether a call succeeded.
pub record Host (W : Type 0) : Type 0 where
  pub create_hierarchy : List ℕ → Bool → W → Bool × W
  pub symlink : List ℕ → List ℕ → W → Bool × W
  pub creat : List ℕ → W → Option ℕ × W
  pub write : ℕ → List ℕ → W → Wrote × W
  pub close : ℕ → W → W
  pub utime : List ℕ → W → Bool × W
  pub callback : Option (List ℕ → W → W)

-- The flags of mzExtractRecursive, and whether there is a timestamp
pub record Options : Type 0 where
  pub files_only : Bool
  pub dry_run : Bool
  pub timestamp : Bool

-- CENVEM_UNIX is 3 << 8; a mode is that of a link if its four high bits are 1010.
unfoldable pub mz_is_zip_entry_symlink : ZipEntry → Bool
unfolding to_size
mz_is_zip_entry_symlink e =
    if (e.version_made_by / 2 ^ 8 % 2 ^ 8) == 3
    then (to_size e.external_file_attributes / 2 ^ 28) == 10
    else false

-- '/'
abbrev pub slash : ℕ
slash = 47

-- Whether a path ends with a slash
unfoldable pub ends_with_slash : List ℕ → Bool
ends_with_slash [] = false
ends_with_slash (c ∷ []) = c == slash
ends_with_slash (c ∷ d ∷ path) = ends_with_slash (d ∷ path)

-- zpath
unfoldable pub canonical : List ℕ → List ℕ
unfolding ends_with_slash
canonical [] = []
canonical (c ∷ path) = if ends_with_slash (c ∷ path) then c ∷ path else (c ∷ path) ++ slash ∷ []

-- The path of an entry that begins with zpath
unfoldable pub target_entry_path : List ℕ → List ℕ → ZipEntry → List ℕ
unfolding ends_with_slash
target_entry_path target_dir zpath e =
    (if ends_with_slash target_dir then target_dir else target_dir ++ slash ∷ [])
    ++ drop (length zpath) e.file_name

-- The bytes before the first NUL
unfoldable pub c_string : List ℕ → List ℕ
c_string [] = []
c_string (c ∷ s) = if c == 0 then [] else c ∷ c_string s

-- Whether an entry begins with zpath: neither of the tests that skip it
unfoldable pub under : List ℕ → ZipEntry → Bool
unfolding strncmp
under zpath e =
    if ltb (length e.file_name) (length zpath)
    then false
    else elim (strncmp (length zpath) e.file_name zpath) [ pos n ↦ n == 0 | negsuc n ↦ false ]

-- The loop of mzExtractRecursive; `visit` is what it does with an entry that begins with zpath: it goes
-- on, or ends with a value of `ok`.
unfoldable pub walk :
    {W : Type 0}
    → (ZipEntry → W → Parsed (Option Bool × W))
    → List ℕ
    → List ZipEntry
    → Bool
    → W
    → Parsed (Bool × W)
unfolding under
walk visit zpath [] seen_match w = ok (true, w)
walk visit zpath (e ∷ es) seen_match w =
    let skipped = walk visit zpath es seen_match w in
    if under zpath e
    then (visit e w >>= λ r. elim r.0 [
      | none ↦ walk visit zpath es true r.1
      | some result ↦ ok (result, r.1)
    ])
    else if seen_match
    then ok (true, w)
    else skipped

module _ {W : Type 0} (host : Host W) where
  -- The loop of writeProcessFunction; the number of its rounds is a parameter, as only the system
  -- bounds it.
  unfoldable pub write_process_function : ℕ → ℕ → ProcessFunction W
  write_process_function zero fd dat w = unspecified
  write_process_function (suc rounds) fd dat w =
      let (wrote_n, w') = host.write fd dat w in
      elim wrote_n [
        | wrote n ↦
            if n == 0
            then unspecified
            else if n == length dat
            then ok (true, w')
            else if ltb (length dat) n
            then ok (false, w')
            else write_process_function rounds fd (drop n dat) w'
        | interrupted ↦ write_process_function rounds fd dat w'
        | refused ↦ ok (false, w')
      ]

  unfoldable pub call_back : List ℕ → W → W
  call_back path w = elim host.callback [ none ↦ w | some f ↦ f path w ]

  module _ {Z : Type 0} (read : ℕ → ℕ → Option (List ℕ)) (inflate_init2 : Option Z)
      (inflate : Z → List ℕ → ℕ → Inflated Z) (rounds old : ℕ) where
    unfoldable pub mz_extract_zip_entry_to_file : ZipEntry → ℕ → W → Parsed (Bool × W)
    unfolding write_process_function mz_process_zip_entry_contents
    mz_extract_zip_entry_to_file e fd w =
        mz_process_zip_entry_contents read inflate_init2 inflate rounds old e
          (write_process_function rounds fd) w

    -- An entry that is a symbolic link. A length that came out negative, and a target of which bytes
    -- are missing, are left open.
    unfoldable pub extract_symlink : ZipEntry → List ℕ → W → Parsed (Option Bool × W)
    unfolding mz_read_zip_entry c_string
    extract_symlink e path w = elim e.uncomp_len [
      | negsuc n ↦ unspecified
      | pos n ↦
          if n == 0
          then ok (some false, w)
          else (mz_read_zip_entry read inflate_init2 inflate rounds old e n >>= λ r.
              if r.0
              then (if length r.1 == n
                  then (let (linked, w') = host.symlink (c_string r.1) path w in
                      ok ((if linked then none else some false), w'))
                  else unspecified)
              else ok (some false, w))
    ]

    -- An entry that is a regular file. The `ok` that a failed extraction sets to false is one of the
    -- block: the loop ends, and the function still answers true.
    unfoldable pub extract_file : Options → ZipEntry → List ℕ → W → Parsed (Option Bool × W)
    unfolding mz_extract_zip_entry_to_file
    extract_file options e path w =
        let (opened, w1) = host.creat path w in
        elim opened [
          | none ↦ ok (some false, w1)
          | some fd ↦
              (mz_extract_zip_entry_to_file e fd w1 >>= λ r.
              let w2 = host.close fd r.1 in
              if r.0
              then (if options.timestamp
                  then (let (touched, w3) = host.utime path w2 in
                      ok ((if touched then none else some false), w3))
                  else ok (none, w2))
              else ok (some true, w2))
        ]

    -- An entry that is no directory
    unfoldable pub extract_non_directory :
        Options → ZipEntry → List ℕ → W → Parsed (Option Bool × W)
    unfolding mz_is_zip_entry_symlink extract_symlink extract_file
    extract_non_directory options e path w =
        let (made, w') = host.create_hierarchy path true w in
        if made
        then (if not options.files_only && mz_is_zip_entry_symlink e
            then extract_symlink e path w'
            else extract_file options e path w')
        else ok (some false, w')

    -- The body of the loop behind the tests. The last character of an empty name is left open.
    unfoldable pub extract_entry :
        Options → List ℕ → List ℕ → ZipEntry → W → Parsed (Option Bool × W)
    unfolding target_entry_path call_back ends_with_slash extract_non_directory
    extract_entry options target_dir zpath e w =
        let path = target_entry_path target_dir zpath e in
        let finish : Option Bool × W → Parsed (Option Bool × W) =
          λ r. elim r.0 [ none ↦ ok (none, call_back path r.1) | some b ↦ ok (some b, r.1) ] in
        if options.dry_run
        then ok (none, call_back path w)
        else if length e.file_name == 0
        then unspecified
        else if ends_with_slash e.file_name
        then (if options.files_only
            then finish (none, w)
            else (let (made, w') = host.create_hierarchy path false w in
                finish ((if made then none else some false), w')))
        else (extract_non_directory options e path w >>= finish)

    unfoldable pub mz_extract_recursive :
        ZipArchive → List ℕ → List ℕ → Options → W → Parsed (Bool × W)
    unfolding canonical walk extract_entry
    mz_extract_recursive a zip_dir target_dir options w =
        let zpath = canonical zip_dir in
        let work = walk (extract_entry options target_dir zpath) zpath a.entries false w in
        let absolute : List ℕ → Bool = λ path. elim path [ [] ↦ false | c ∷ rest ↦ c == slash ] in
        if absolute zip_dir
        then ok (false, w)
        else if absolute target_dir
        then work
        else ok (false, w)
