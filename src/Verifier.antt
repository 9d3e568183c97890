-- ===== src/Verifier.antt =====
-- The whole-file signature of an update package: verify_file of verifier.c.
pub mod Mincrypt
pub mod Hashing
pub mod Keys
pub mod Accepted
mod Tests
use sc7731_sc8830_bootable_r.Base.{
  ℕ, zero, suc, ◌+◌, ◌-◌, ◌*◌, ◌^◌, List, [], ◌∷◌, Option, none, some, Bool, true, false, ◌&&◌,
  ◌||◌, not, ltb, leb, ◌==◌, if◌then◌else◌, length, take, drop, min,
}
use Mincrypt.{Digest, Crypto}

-- VERIFY_SUCCESS, VERIFY_FAILURE, and a read before the start of the EOCD buffer.
pub data Verdict : Type 0 where
  success failure undefined : Verdict

-- Certificate of verifier.h; `hash_len` says which digest the key goes with.
pub record Certificate (Key : Type 0) : Type 0 where
  pub hash_len : ℕ
  pub public_key : Key

abbrev pub footer_size : ℕ
footer_size = 6

abbrev pub eocd_header_size : ℕ
eocd_header_size = 22

abbrev pub buffer_size : ℕ
buffer_size = 4096

-- RSANUMBYTES, SHA_DIGEST_SIZE and SHA256_DIGEST_SIZE of libmincrypt
abbrev pub rsa_num_bytes : ℕ
rsa_num_bytes = 256

abbrev pub sha_digest_size : ℕ
sha_digest_size = 20

abbrev pub sha256_digest_size : ℕ
sha256_digest_size = 32

-- The comment size, if the six bytes of the footer are in order.
unfoldable pub read_footer : List ℕ → Option ℕ
read_footer (a ∷ b ∷ c ∷ d ∷ e ∷ f ∷ []) =
    if not (c == 0xff) || not (d == 0xff)
    then none
    else if ltb (a + b * 2 ^ 8) (footer_size + rsa_num_bytes)
    then none
    else some (e + f * 2 ^ 8)
read_footer _ = none

unfoldable pub has_marker : List ℕ → Bool
has_marker (a ∷ b ∷ c ∷ d ∷ rest) = (a == 0x50) && (b == 0x4b) && (c == 0x05) && (d == 0x06)
has_marker _ = false

-- The loop over i from 4 on: whether the marker stands at some i of the bytes given, which are those
-- from the fifth on. It stops three bytes before the end, where no marker fits.
unfoldable pub marker_within : List ℕ → Bool
unfolding has_marker
marker_within [] = false
marker_within (b ∷ bytes) = has_marker (b ∷ bytes) || marker_within bytes

unfoldable pub needs : {Key : Type 0} → ℕ → List (Certificate Key) → Bool
needs size [] = false
needs size (k ∷ keys) = (k.hash_len == size) || needs size keys

module _ (crypto : Crypto) where
  open crypto use {PublicKey, sha1, sha256, rsa_verify}

  -- `if (need) update(&ctx, buffer, size);`
  unfoldable pub update_if : (d : Digest) → Bool → d.Ctx → List ℕ → d.Ctx
  update_if d need ctx buffer = if need then d.update ctx buffer else ctx

  -- The loop that reads the signed part of the file in pieces of `buffer_size`. `fuel` bounds its
  -- rounds.
  unfoldable pub hash_file :
      ℕ → List ℕ → ℕ → ℕ → Bool → Bool → sha1.Ctx → sha256.Ctx → sha1.Ctx × sha256.Ctx
  unfolding update_if
  hash_file zero file so_far signed_len need_sha1 need_sha256 ctx1 ctx256 = (ctx1, ctx256)
  hash_file (suc fuel) file so_far signed_len need_sha1 need_sha256 ctx1 ctx256 =
      let size = min buffer_size (signed_len - so_far) in
      let buffer = take size (drop so_far file) in
      let rest =
        hash_file fuel file (so_far + size) signed_len need_sha1 need_sha256
          (update_if sha1 need_sha1 ctx1 buffer) (update_if sha256 need_sha256 ctx256 buffer) in
      if ltb so_far signed_len then rest else (ctx1, ctx256)

  -- The digest that goes with a key, if there is one.
  unfoldable pub digest_for : ℕ → List ℕ → List ℕ → Option (List ℕ)
  digest_for hash_len hash1 hash256 =
      if hash_len == sha_digest_size
      then some hash1
      else if hash_len == sha256_digest_size
      then some hash256
      else none

  -- RSA_verify at `eocd + eocd_size - 6 - RSANUMBYTES`
  unfoldable pub try_key : List ℕ → Certificate PublicKey → List ℕ → Option Bool
  try_key eocd key hash =
      if ltb (length eocd) (footer_size + rsa_num_bytes)
      then none
      else some (
          rsa_verify key.public_key
            (take rsa_num_bytes (drop (length eocd - footer_size - rsa_num_bytes) eocd)) hash
            key.hash_len)

  unfoldable pub try_keys : List ℕ → List ℕ → List ℕ → List (Certificate PublicKey) → Verdict
  unfolding digest_for try_key
  try_keys eocd hash1 hash256 [] = failure
  try_keys eocd hash1 hash256 (key ∷ keys) =
      let rest = try_keys eocd hash1 hash256 keys in
      elim (digest_for key.hash_len hash1 hash256) [
        | none ↦ rest
        | some hash ↦ elim (try_key eocd key hash) [
          | none ↦ undefined
          | some ok ↦ if ok then success else rest
        ]
      ]

  -- From the hashing on, for a file whose end-of-central-directory record is in order.
  unfoldable pub verify_hash : List ℕ → List ℕ → ℕ → List (Certificate PublicKey) → Verdict
  verify_hash file eocd signed_len keys =
      let (ctx1, ctx256) =
        hash_file (signed_len + 1) file 0 signed_len (needs sha_digest_size keys)
          (needs sha256_digest_size keys) sha1.init sha256.init in
      try_keys eocd (sha1.final ctx1) (sha256.final ctx256) keys

  -- `eocd_size` bytes from the end of the file
  unfoldable pub verify_eocd : List ℕ → ℕ → List (Certificate PublicKey) → Verdict
  verify_eocd file eocd_size keys =
      if ltb (length file) eocd_size
      then failure
      else (let start = length file - eocd_size in
          let eocd = drop start file in
          if not (has_marker eocd) || marker_within (drop 4 eocd)
          then failure
          else verify_hash file eocd (start + eocd_header_size - 2) keys)

  -- `none` is a file that cannot be opened.
  unfoldable pub verify_file : Option (List ℕ) → List (Certificate PublicKey) → Verdict
  verify_file none keys = failure
  verify_file (some file) keys =
      if ltb (length file) footer_size
      then failure
      else elim (read_footer (drop (length file - footer_size) file)) [
        | none ↦ failure
        | some comment_size ↦ verify_eocd file (comment_size + eocd_header_size) keys
      ]
