-- ===== src/Verifier/Accepted.antt =====
-- Which files verify_file accepts: a description of signed archives that follows the ZIP format and
-- the signing tool, with no reading in pieces and no search.
use sc7731_sc8830_bootable_r.Base.{
  ℕ, ◌+◌, ◌-◌, ◌*◌, ◌^◌, ◌≤◌, ◌<◌, List, [], ◌∷◌, ◌++◌, some, true, false, ◌≡◌, ◌↔◌, sym, ap, ◌∙◌,
  arith, length, take, drop, length-append, length-drop, take-append-drop, take-append-take,
  drop-drop, drop-append, take-append, ltb, Option-cases, inl, inr, ◌⊎◌,
}
use sc7731_sc8830_bootable_r.Verifier.Hashing.{digest_of, verify_hash_lem}
use sc7731_sc8830_bootable_r.Verifier.Keys.{
  Verifies, try_keys-Verifies, Verifies-try_keys, marker_within-none, none-marker_within,
}
use sc7731_sc8830_bootable_r.Verifier.Mincrypt.{Crypto}
use sc7731_sc8830_bootable_r.Verifier.{
  Certificate, success, undefined, try_keys, sha_digest_size, sha256_digest_size, read_footer,
  has_marker, marker_within, verify_hash, verify_eocd, verify_file, footer_size, rsa_num_bytes,
  eocd_header_size,
}

abbrev footer : ℕ → ℕ → ℕ → ℕ → List ℕ
footer s0 s1 c0 c1 = s0 ∷ s1 ∷ 0xff ∷ 0xff ∷ c0 ∷ c1 ∷ []

-- The footer's four variable bytes, when it is in order.
record IsFooter (bytes : List ℕ) (comment_size : ℕ) : Type 0 where
  s0 : ℕ
  s1 : ℕ
  c0 : ℕ
  c1 : ℕ
  reads : bytes ≡ footer s0 s1 c0 c1
  long : footer_size + rsa_num_bytes ≤ s0 + s1 * 2 ^ 8
  size : comment_size ≡ c0 + c1 * 2 ^ 8

read_footer-IsFooter : (l : List ℕ) (n : ℕ) → read_footer l ≡ some n → IsFooter l n
unfolding read_footer
read_footer-IsFooter (a ∷ b ∷ c ∷ d ∷ e ∷ f ∷ []) n h = record {
  s0 = a;
  s1 = b;
  c0 = e;
  c1 = f;
  reads = ground arith;
  long = ground arith;
  size = ground arith;
}
read_footer-IsFooter _ n h = cc

IsFooter-read_footer :
    (s0 s1 c0 c1 : ℕ)
    → footer_size + rsa_num_bytes ≤ s0 + s1 * 2 ^ 8
    → read_footer (footer s0 s1 c0 c1) ≡ some (c0 + c1 * 2 ^ 8)
unfolding read_footer
IsFooter-read_footer s0 s1 c0 c1 h = ground arith

-- `file` ends in an end-of-central-directory record of the size that its comment length tells, with
-- no second marker in it, whose comment ends in a footer that leaves room for a signature.
pub record IsArchive (file : List ℕ) : Type 0 where
  pub body : List ℕ
  pub eocd : List ℕ
  pub split : file ≡ body ++ eocd
  pub front : List ℕ
  pub s0 : ℕ
  pub s1 : ℕ
  pub c0 : ℕ
  pub c1 : ℕ
  pub ends : eocd ≡ front ++ s0 ∷ s1 ∷ 0xff ∷ 0xff ∷ c0 ∷ c1 ∷ []
  pub long : footer_size + rsa_num_bytes ≤ s0 + s1 * 2 ^ 8
  pub sized : length eocd ≡ c0 + c1 * 2 ^ 8 + eocd_header_size
  pub marked : has_marker eocd ≡ true
  pub unique : (p q : List ℕ) → drop 4 eocd ≡ p ++ q → has_marker q ≡ false

module _ {file : List ℕ} (g : IsArchive file) where
  open g use {body, eocd, front, s0, s1, c0, c1}

  length-file : length file ≡ length body + length eocd
  length-file = ap length g.split ∙ length-append body eocd

  drop-file : (k : ℕ) → drop (length body + k) file ≡ drop k eocd
  drop-file k =
      ap (drop (length body + k)) g.split
      ∙ sym (drop-drop (length body) k (body ++ eocd))
      ∙ ap (drop k) (drop-append body eocd)

  footer-file : drop (length file - footer_size) file ≡ footer s0 s1 c0 c1
  footer-file =
      let l : length eocd ≡ length front + 6 = ap length g.ends ∙ length-append front _ in
      let e : length file - footer_size ≡ length body + length front = omega (arith, length-file) in
      rw (e, drop-file (length front)) (ap (drop (length front)) g.ends ∙ drop-append front _)

  eocd-file : drop (length file - length eocd) file ≡ eocd
  eocd-file =
      let e : length file - length eocd ≡ length body + 0 = omega (arith, length-file) in
      rw e (drop-file 0)

  signed-file : take (length file - length eocd + eocd_header_size - 2) file ≡ body ++ take 20 eocd
  signed-file =
      let e : length file - length eocd + eocd_header_size - 2 ≡ length body + 20 =
        omega (arith, length-file) in
      rw e (
        sym (take-append-take (length body) 20 file)
        ∙ rw (
          ap (take (length body)) g.split ∙ take-append body eocd,
          ap (drop (length body)) g.split ∙ drop-append body eocd,
        ))

module _ (crypto : Crypto) where
  open crypto use {PublicKey, sha1, sha256}

  -- The archive holds a signature block, which verifies with one of the keys over all that stands
  -- before the comment length.
  pub record IsSigned (file : List ℕ) (keys : List (Certificate PublicKey)) : Type 0 where
    pub archive : IsArchive file
    pub roomy : footer_size + rsa_num_bytes ≤ length archive.eocd
    pub verifies :
        Verifies crypto archive.eocd
          (digest_of crypto sha1 (archive.body ++ take 20 archive.eocd))
          (digest_of crypto sha256 (archive.body ++ take 20 archive.eocd))
          keys

  module _ (file : List ℕ) (keys : List (Certificate PublicKey)) where
    verify_eocd-IsSigned :
        (n : ℕ)
        → IsFooter (drop (length file - footer_size) file) n
        → verify_eocd crypto file (n + eocd_header_size) keys ≡ success
        → IsSigned file keys
    unfolding verify_eocd
    verify_eocd-IsSigned n f h =
        let start = length file - (n + eocd_header_size) in
        let eocd = drop start file in
        let fits : ltb (length file) (n + eocd_header_size) ≡ false = ground arith in
        let size : length eocd ≡ n + eocd_header_size = ground (arith, length-drop start file) in
        let run : verify_hash crypto file eocd (start + eocd_header_size - 2) keys ≡ success =
          ground arith in
        let signed : take (start + eocd_header_size - 2) file ≡ take start file ++ take 20 eocd =
          (let e : start + eocd_header_size - 2 ≡ start + 20 = omega arith in
            rw (e, take-append-take start 20 file)) in
        let (v, room) = try_keys-Verifies crypto eocd _ _ keys (
          rw (verify_hash_lem crypto file eocd (start + eocd_header_size - 2) keys, signed) at
            run) in
        let tail : drop (length eocd - footer_size) eocd ≡ footer f.s0 f.s1 f.c0 f.c1 =
          (let e : start + (length eocd - footer_size) ≡ length file - footer_size = ground arith in
            rw (drop-drop start (length eocd - footer_size) file, e) f.reads) in
        let clean : (has_marker eocd ≡ true) × (marker_within (drop 4 eocd) ≡ false) =
          ground arith in
        record {
          archive = record {
            body = take start file;
            eocd = eocd;
            split = sym (take-append-drop start file);
            front = take (length eocd - footer_size) eocd;
            s0 = f.s0;
            s1 = f.s1;
            c0 = f.c0;
            c1 = f.c1;
            ends = sym (
                ap (λ l. take (length eocd - footer_size) eocd ++ l) (sym tail)
                ∙ take-append-drop (length eocd - footer_size) eocd);
            long = f.long;
            sized = size ∙ ap (λ m. m + eocd_header_size) f.size;
            marked = clean.0;
            unique = λ p q e. marker_within-none p q (rw (← e) clean.1);
          };
          roomy = room;
          verifies = v;
        }

    success-IsSigned : verify_file crypto (some file) keys ≡ success → IsSigned file keys
    unfolding verify_file
    success-IsSigned h = elim (Option-cases (read_footer (drop (length file - footer_size) file))) [
      | inl e ↦ absurd (ground arith)
      | inr (n, e) ↦ verify_eocd-IsSigned n (read_footer-IsFooter _ n e) (ground arith)
    ]

  module _ {file : List ℕ} (g : IsArchive file) (keys : List (Certificate PublicKey)) where
    open g use {body, eocd}

    verify_eocd-archive :
        verify_eocd crypto file (length eocd) keys
        ≡ try_keys crypto eocd
            (digest_of crypto sha1 (body ++ take 20 eocd))
            (digest_of crypto sha256 (body ++ take 20 eocd))
            keys
    unfolding verify_eocd
    verify_eocd-archive =
        let fits : ltb (length file) (length eocd) ≡ false = ground (arith, length-file g) in
        let clean = none-marker_within (drop 4 eocd) g.unique in
        rw (fits, eocd-file g, g.marked, clean)
          (rw (
            verify_hash_lem crypto file eocd (length file - length eocd + eocd_header_size - 2)
                keys,
            signed-file g,
          ))

    -- What is left to decide for an archive is whether a key verifies.
    pub verify_file-archive :
        verify_file crypto (some file) keys
        ≡ try_keys crypto eocd
            (digest_of crypto sha1 (body ++ take 20 eocd))
            (digest_of crypto sha256 (body ++ take 20 eocd))
            keys
    unfolding verify_file
    verify_file-archive =
        let long : ltb (length file) footer_size ≡ false = ground (arith, length-file g, g.sized) in
        let read = IsFooter-read_footer g.s0 g.s1 g.c0 g.c1 g.long in
        rw (long, footer-file g, read, sym g.sized) verify_eocd-archive

  IsSigned-success :
      (file : List ℕ) (keys : List (Certificate PublicKey))
      → IsSigned file keys
      → verify_file crypto (some file) keys ≡ success
  IsSigned-success file keys g =
      let v = g.verifies in
      verify_file-archive g.archive keys
      ∙ Verifies-try_keys crypto g.archive.eocd _ _ keys g.roomy v.index v.key v.hash v.listed
          v.digested v.verified

  short-try_keys :
      (eocd hash1 hash256 : List ℕ) (key : Certificate PublicKey)
      (keys : List (Certificate PublicKey))
      → length eocd < footer_size + rsa_num_bytes
      → (key.hash_len ≡ sha_digest_size) ⊎ (key.hash_len ≡ sha256_digest_size)
      → try_keys crypto eocd hash1 hash256 (key ∷ keys) ≡ undefined
  unfolding try_keys
  short-try_keys eocd hash1 hash256 key keys short digest = ground arith

  -- verify_file answers VERIFY_SUCCESS for the signed archives and for no other file: those that end in
  -- an end-of-central-directory record of the size it tells, with no second marker in it, whose comment
  -- ends in a footer that leaves room for a signature, where the 256 bytes before the footer verify with
  -- one of the keys over all bytes before the comment length.
  pub verify_file_iff :
      (file : List ℕ) (keys : List (Certificate PublicKey))
      → (verify_file crypto (some file) keys ≡ success) ↔ IsSigned file keys
  verify_file_iff file keys = (success-IsSigned file keys, IsSigned-success file keys)

  -- On an archive whose record, from its marker on, is shorter than the footer and a signature block,
  -- though its footer claims a signature, verify_file reads before the start of the buffer if the
  -- first key goes with SHA-1 or SHA-256.
  pub verify_file-underread :
      {file : List ℕ} (g : IsArchive file) (key : Certificate PublicKey)
      (keys : List (Certificate PublicKey))
      → length g.eocd < footer_size + rsa_num_bytes
      → (key.hash_len ≡ sha_digest_size) ⊎ (key.hash_len ≡ sha256_digest_size)
      → verify_file crypto (some file) (key ∷ keys) ≡ undefined
  verify_file-underread g key keys short digest =
      verify_file-archive g (key ∷ keys) ∙ short-try_keys g.eocd _ _ key keys short digest
