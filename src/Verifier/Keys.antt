-- ===== src/Verifier/Keys.antt =====
-- The loop of verify_file over the keys, and the search for a second EOCD marker.
use sc7731_sc8830_bootable_r.Base.{
  ℕ, zero, suc, ◌+◌, ◌-◌, ◌≤◌, List, [], ◌∷◌, ◌++◌, some, true, false, ◌≡◌, refl, arith, length, ap,
  ltb, take, drop, get_elem?, Bool-cases, Option-cases, inl, inr,
}
use sc7731_sc8830_bootable_r.Verifier.Mincrypt.{Crypto}
use sc7731_sc8830_bootable_r.Verifier.{
  Certificate, success, try_keys, digest_for, has_marker, marker_within, rsa_num_bytes, footer_size,
}

-- No suffix of the bytes begins with the marker.
pub marker_within-none : (p q : List ℕ) → marker_within (p ++ q) ≡ false → has_marker q ≡ false
unfolding marker_within
marker_within-none [] [] h = refl
marker_within-none [] (x ∷ q) h = ground arith
marker_within-none (x ∷ p) q h = marker_within-none p q (ground arith)

pub none-marker_within :
    (bytes : List ℕ)
    → ((p q : List ℕ) → bytes ≡ p ++ q → has_marker q ≡ false)
    → marker_within bytes ≡ false
unfolding marker_within
none-marker_within [] h = refl
none-marker_within (b ∷ bytes) h = ground (
  arith,
  h [] (b ∷ bytes) refl,
  none-marker_within bytes (λ p q e. h (b ∷ p) q (ap (λ l. b ∷ l) e)),
)

module _ (crypto : Crypto) (eocd hash1 hash256 : List ℕ) where
  open crypto use {PublicKey, rsa_verify}

  -- The signature block: the 256 bytes before the footer.
  abbrev pub signature : List ℕ
  signature = take rsa_num_bytes (drop (length eocd - footer_size - rsa_num_bytes) eocd)

  -- The key at index `i` verifies the signature over its own digest.
  pub record Verifies (keys : List (Certificate PublicKey)) : Type 0 where
    pub index : ℕ
    pub key : Certificate PublicKey
    pub hash : List ℕ
    pub listed : get_elem? keys index ≡ some key
    pub digested : digest_for crypto key.hash_len hash1 hash256 ≡ some hash
    pub verified : rsa_verify key.public_key signature hash key.hash_len ≡ true

  later :
      {k : Certificate PublicKey} {keys : List (Certificate PublicKey)}
      → Verifies keys
      → Verifies (k ∷ keys)
  later v = record {
    index = suc v.index;
    key = v.key;
    hash = v.hash;
    listed = v.listed;
    digested = v.digested;
    verified = v.verified;
  }

  pub try_keys-Verifies :
      (keys : List (Certificate PublicKey))
      → try_keys crypto eocd hash1 hash256 keys ≡ success
      → Verifies keys × (footer_size + rsa_num_bytes ≤ length eocd)
  unfolding try_keys
  try_keys-Verifies [] h = cc
  try_keys-Verifies (key ∷ keys) h =
      elim (Option-cases (digest_for crypto key.hash_len hash1 hash256)) [
        | inl e ↦ let (v, room) = try_keys-Verifies keys (ground arith) in (later v, room)
        | inr (hash, e) ↦ elim (Bool-cases (ltb (length eocd) (footer_size + rsa_num_bytes))) [
          | inl short ↦ absurd (ground arith)
          | inr room ↦ elim (Bool-cases (rsa_verify key.public_key signature hash key.hash_len)) [
            | inl v ↦ (
              record {
                index = 0;
                key = key;
                hash = hash;
                listed = refl;
                digested = e;
                verified = v;
              },
              ground arith,
            )
            | inr bad ↦ let (v, room') = try_keys-Verifies keys (ground arith) in (later v, room')
          ]
        ]
      ]

  pub Verifies-try_keys :
      (keys : List (Certificate PublicKey))
      → footer_size + rsa_num_bytes ≤ length eocd
      → (i : ℕ) (key : Certificate PublicKey) (hash : List ℕ) → get_elem? keys i ≡ some key
      → digest_for crypto key.hash_len hash1 hash256 ≡ some hash
      → rsa_verify key.public_key signature hash key.hash_len ≡ true
      → try_keys crypto eocd hash1 hash256 keys ≡ success
  unfolding try_keys
  Verifies-try_keys [] room i key hash e d v = cc
  Verifies-try_keys (k ∷ keys) room zero key hash e d v = ground arith
  Verifies-try_keys (k ∷ keys) room (suc i) key hash e d v =
      ground (arith, Verifies-try_keys keys room i key hash e d v)
