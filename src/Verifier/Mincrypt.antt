-- ===== src/Verifier/Mincrypt.antt =====
-- What verifier.c takes from libmincrypt, which is no part of the repository: the two digests and
-- the RSA check.
use sc7731_sc8830_bootable_r.Base.{ℕ, List, [], ◌++◌, Bool, ◌≡◌}

-- A digest is computed piece by piece. Where the pieces are cut makes no difference, and an empty
-- piece changes nothing.
pub record Digest : Type 1 where
  pub Ctx : Type 0
  pub init : Ctx
  pub update : Ctx → List ℕ → Ctx
  pub final : Ctx → List ℕ
  pub update-nil : (c : Ctx) → update c [] ≡ c
  pub update-append : (c : Ctx) (a b : List ℕ) → update (update c a) b ≡ update c (a ++ b)

-- `rsa_verify key signature hash hash_len`
pub record Crypto : Type 1 where
  pub PublicKey : Type 0
  pub sha1 : Digest
  pub sha256 : Digest
  pub rsa_verify : PublicKey → List ℕ → List ℕ → ℕ → Bool
