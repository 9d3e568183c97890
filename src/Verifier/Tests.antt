-- ===== src/Verifier/Tests.antt =====
-- Runs of verify_file on concrete files, with a check of signatures that takes the key for the
-- signature.
use sc7731_sc8830_bootable_r.Base.{
  ℕ, List, [], ◌∷◌, ◌++◌, some, true, false, ◌≡◌, ◌↔◌, refl, arith, append-nil, append_assoc,
  bytes_eq, replicate, take, drop, inl,
}
use sc7731_sc8830_bootable_r.Verifier.Mincrypt.{Digest, Crypto}
use sc7731_sc8830_bootable_r.Verifier.Hashing.{digest_of, verify_hash_lem}
use sc7731_sc8830_bootable_r.Verifier.Keys.{marker_within-none}
use sc7731_sc8830_bootable_r.Verifier.Accepted.{
  IsArchive, IsSigned, verify_file_iff, verify_file-underread,
}
use sc7731_sc8830_bootable_r.Verifier.{
  Certificate, success, undefined, read_footer, verify_eocd, verify_file, verify_hash, try_keys,
  has_marker, marker_within,
}

-- A digest that keeps the text.
abbrev kept : Digest
kept = record {
  Ctx = List ℕ;
  init = [];
  update = λ c xs. c ++ xs;
  final = λ c. c;
  update-nil = λ c. append-nil c;
  update-append = λ c a b. append_assoc c a b;
}

abbrev crypto : Crypto
crypto = record {
  PublicKey = List ℕ;
  sha1 = kept;
  sha256 = kept;
  rsa_verify = λ key sig hash n. bytes_eq key sig;
}

abbrev key : Certificate (List ℕ)
key = record { hash_len = 20; public_key = replicate 256 7 }

abbrev signed_eocd : List ℕ
signed_eocd =
    0x50 ∷ 0x4b ∷ 5 ∷ 6 ∷ replicate 16 0
    ++ 6 ∷ 1 ∷ replicate 256 7
    ++ 6 ∷ 1 ∷ 0xff ∷ 0xff ∷ 6 ∷ 1 ∷ []

verify_file_iff_example :
    (verify_file crypto (some (1 ∷ 2 ∷ 3 ∷ signed_eocd)) (key ∷ []) ≡ success)
    ↔ IsSigned crypto (1 ∷ 2 ∷ 3 ∷ signed_eocd) (key ∷ [])
verify_file_iff_example = verify_file_iff crypto (1 ∷ 2 ∷ 3 ∷ signed_eocd) (key ∷ [])

signed_file-success : verify_file crypto (some (1 ∷ 2 ∷ 3 ∷ signed_eocd)) (key ∷ []) ≡ success
unfolding verify_file read_footer verify_eocd has_marker marker_within verify_hash try_keys
signed_file-success = refl

verify_hash_lem_example :
    verify_hash crypto (1 ∷ 2 ∷ 3 ∷ signed_eocd) signed_eocd 23 (key ∷ [])
    ≡ try_keys crypto signed_eocd
        (digest_of crypto kept (take 23 (1 ∷ 2 ∷ 3 ∷ signed_eocd)))
        (digest_of crypto kept (take 23 (1 ∷ 2 ∷ 3 ∷ signed_eocd)))
        (key ∷ [])
verify_hash_lem_example = verify_hash_lem crypto (1 ∷ 2 ∷ 3 ∷ signed_eocd) signed_eocd 23 (key ∷ [])

-- A record with a comment of six bytes, the footer, that claims a signature of 262.
abbrev short_eocd : List ℕ
short_eocd = 0x50 ∷ 0x4b ∷ 5 ∷ 6 ∷ replicate 16 0 ++ 6 ∷ 0 ∷ 6 ∷ 1 ∷ 0xff ∷ 0xff ∷ 6 ∷ 0 ∷ []

short_unique : marker_within (drop 4 short_eocd) ≡ false
unfolding marker_within has_marker
short_unique = refl

short_marked : has_marker short_eocd ≡ true
unfolding has_marker
short_marked = refl

abbrev short_archive : IsArchive short_eocd
short_archive = record {
  body = [];
  eocd = short_eocd;
  split = refl;
  front = take 22 short_eocd;
  s0 = 6;
  s1 = 1;
  c0 = 6;
  c1 = 0;
  ends = refl;
  long = omega arith;
  sized = refl;
  marked = short_marked;
  unique = λ p q e. marker_within-none p q (rw (← e) short_unique);
}

verify_file-underread_example : verify_file crypto (some short_eocd) (key ∷ []) ≡ undefined
verify_file-underread_example =
    verify_file-underread crypto short_archive key [] (omega arith) (inl refl)
