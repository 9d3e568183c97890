-- ===== src/Verifier/Hashing.antt =====
-- The loop of verify_file that digests the signed part of the file piece by piece.
use sc7731_sc8830_bootable_r.Base.{
  ℕ, zero, suc, ◌+◌, ◌-◌, ◌<◌, List, [], ◌∷◌, ◌++◌, Bool, true, false, ◌≡◌, refl, arith, min, take,
  drop, ltb, if◌then◌else◌, Bool-cases, inl, inr, take-append-take, drop-drop,
}
use sc7731_sc8830_bootable_r.Verifier.Mincrypt.{Digest, Crypto}
use sc7731_sc8830_bootable_r.Verifier.{
  Certificate, hash_file, buffer_size, needs, sha_digest_size, sha256_digest_size, try_keys,
  verify_hash,
}

-- A digest over `xs`, if it is wanted.
abbrev fed : (d : Digest) → Bool → d.Ctx → List ℕ → d.Ctx
fed d need ctx xs = if need then d.update ctx xs else ctx

fed-nil : (d : Digest) (need : Bool) (ctx : d.Ctx) → fed d need ctx [] ≡ ctx
fed-nil d true ctx = d.update-nil ctx
fed-nil d false ctx = refl

fed-append :
    (d : Digest) (need : Bool) (ctx : d.Ctx) (xs ys : List ℕ)
    → fed d need (fed d need ctx xs) ys ≡ fed d need ctx (xs ++ ys)
fed-append d true ctx xs ys = d.update-append ctx xs ys
fed-append d false ctx xs ys = refl

module _ (crypto : Crypto) where
  open crypto use {sha1, sha256}

  -- What is left to read, from `so_far` on.
  pub hash_file_lem :
      (fuel : ℕ) (file : List ℕ) (so_far signed_len : ℕ) (n1 n256 : Bool) (c1 : sha1.Ctx)
      (c256 : sha256.Ctx)
      → signed_len < so_far + fuel
      → hash_file crypto fuel file so_far signed_len n1 n256 c1 c256 ≡ (
        fed sha1 n1 c1 (take (signed_len - so_far) (drop so_far file)),
        fed sha256 n256 c256 (take (signed_len - so_far) (drop so_far file)),
      )
  unfolding hash_file
  hash_file_lem zero file so_far signed_len n1 n256 c1 c256 enough =
      let e : signed_len - so_far ≡ 0 = omega arith in
      rw (e, fed-nil sha1 n1 c1, fed-nil sha256 n256 c256)
  hash_file_lem (suc fuel) file so_far signed_len n1 n256 c1 c256 enough =
      elim (Bool-cases (ltb so_far signed_len)) [
        | inr over ↦
            let e : signed_len - so_far ≡ 0 = ground arith in
            rw (over, e, fed-nil sha1 n1 c1, fed-nil sha256 n256 c256)
        | inl more ↦
            let size = min buffer_size (signed_len - so_far) in
            let split : size + (signed_len - (so_far + size)) ≡ signed_len - so_far = omega arith in
            let pieces = take-append-take size (signed_len - (so_far + size)) (drop so_far file) in
            rw
              (
                more,
                hash_file_lem fuel file (so_far + size) signed_len n1 n256 _ _ (ground arith),
                fed-append sha1,
                fed-append sha256,
              )
              (rw (rw (drop-drop so_far size file, split) at pieces))
      ]

  -- The digest of a whole text.
  abbrev pub digest_of : Digest → List ℕ → List ℕ
  digest_of d xs = d.final (d.update d.init xs)

  try_keys_needed :
      (eocd h1 h256 g1 g256 : List ℕ) (keys : List (Certificate (crypto.PublicKey)))
      → (needs sha_digest_size keys ≡ true → h1 ≡ g1)
      → (needs sha256_digest_size keys ≡ true → h256 ≡ g256)
      → try_keys crypto eocd h1 h256 keys ≡ try_keys crypto eocd g1 g256 keys
  unfolding needs try_keys
  try_keys_needed eocd h1 h256 g1 g256 [] e1 e256 = refl
  try_keys_needed eocd h1 h256 g1 g256 (key ∷ keys) e1 e256 =
      let ih =
        try_keys_needed eocd h1 h256 g1 g256 keys (λ h. e1 (ground arith))
          (λ h. e256 (ground arith)) in
      ground (arith, ih, e1, e256)

  -- Reading in pieces of 4096 bytes, and computing a digest only if some key needs it, decides as the
  -- digests of the whole signed part of the file, both computed, do.
  pub verify_hash_lem :
      (file eocd : List ℕ) (signed_len : ℕ) (keys : List (Certificate (crypto.PublicKey)))
      → verify_hash crypto file eocd signed_len keys
        ≡ try_keys crypto eocd
            (digest_of sha1 (take signed_len file))
            (digest_of sha256 (take signed_len file))
            keys
  unfolding verify_hash
  verify_hash_lem file eocd signed_len keys =
      rw
        (hash_file_lem (signed_len + 1) file 0 signed_len (needs sha_digest_size keys)
          (needs sha256_digest_size keys) sha1.init sha256.init (omega arith))
        (try_keys_needed eocd _ _ _ _ keys (λ h. ground arith) (λ h. ground arith))
