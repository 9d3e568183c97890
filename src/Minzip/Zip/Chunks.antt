-- ===== src/Minzip/Zip/Chunks.antt =====
-- The pieces in which the contents of a stored entry come: processStoredEntry of minzip/Zip.c.
use sc7731_sc8830_bootable_r.Base.{
  ℕ, zero, suc, ◌+◌, ◌-◌, ◌≤◌, ◌<◌, List, [], ◌∷◌, ◌++◌, Option, some, Bool, true, false, ◌≡◌, refl,
  sym, ◌∙◌, ap, arith, min, ltb, ◌==◌, if◌then◌else◌, length, take, drop, length-take, length-drop,
  take-append-drop, drop-drop, take-nil, Bool-cases, inl, inr, fun_ext,
}
use sc7731_sc8830_bootable_r.Minzip.Zip.{ZipEntry, Parsed, ok, ◌>>=◌}
use sc7731_sc8830_bootable_r.Minzip.Zip.Contents.{
  ProcessFunction, piece, to_size, stored_loop, process_stored_entry,
}

-- The pieces of at most 32768 bytes; one for each byte is enough.
abbrev pub chunks : ℕ → List ℕ → List (List ℕ)
chunks zero xs = []
chunks (suc n) xs =
    let rest = chunks n (drop 32768 xs) in if length xs == 0 then [] else take 32768 xs ∷ rest

abbrev pub concat : List (List ℕ) → List ℕ
concat [] = []
concat (c ∷ cs) = c ++ concat cs

take-take : {A : Type 0} (k n : ℕ) (xs : List A) → take k (take n xs) ≡ take (min k n) xs
take-take zero n xs = let e : min 0 n ≡ 0 = omega arith in rw e
take-take (suc k) zero xs = let e : min (suc k) 0 ≡ 0 = omega arith in rw e
take-take (suc k) (suc n) [] = simp (take-nil)
take-take (suc k) (suc n) (x ∷ xs) =
    let e : min (suc k) (suc n) ≡ suc (min k n) = omega arith in rw (e, take-take k n xs)

drop-take : {A : Type 0} (k n : ℕ) (xs : List A) → drop k (take n xs) ≡ take (n - k) (drop k xs)
drop-take zero n xs = let e : n - 0 ≡ n = omega arith in rw e
drop-take (suc k) zero xs = let e : 0 - suc k ≡ 0 = omega arith in rw e
drop-take (suc k) (suc n) [] = simp (take-nil)
drop-take (suc k) (suc n) (x ∷ xs) =
    let e : suc n - suc k ≡ n - k = omega arith in rw (e, drop-take k n xs)

pub concat-chunks : (n : ℕ) (xs : List ℕ) → length xs ≤ n → concat (chunks n xs) ≡ xs
concat-chunks zero [] h = refl
concat-chunks zero (x ∷ xs) h = absurd (omega arith)
concat-chunks (suc n) [] h = refl
concat-chunks (suc n) (x ∷ xs) h =
    let e : (length (x ∷ xs) == 0) ≡ false = ground arith in
    let short : length (drop 32768 (x ∷ xs)) ≤ n = omega (arith, length-drop 32768 (x ∷ xs), h) in
    rw e (
      ap (λ z. take 32768 (x ∷ xs) ++ z) (concat-chunks n (drop 32768 (x ∷ xs)) short)
      ∙ take-append-drop 32768 (x ∷ xs))

-- The process function on one piece after the other, until it elects to fail
unfoldable pub feed : {S : Type 0} → ProcessFunction S → List (List ℕ) → S → Parsed (Bool × S)
feed f [] s = ok (true, s)
feed f (c ∷ cs) s = f c s >>= λ r. if r.0 then feed f cs r.1 else ok (false, r.1)

-- A regular file, of which a read gives the bytes that are there.
abbrev pub IsFile : (ℕ → ℕ → Option (List ℕ)) → List ℕ → Type 0
IsFile read bytes = (at count : ℕ) → read at count ≡ some (take count (drop at bytes))

rest_lem :
    {A : Type 0} (bytes : List A) (at left : ℕ)
    → take (left - 32768) (drop 32768 (drop at bytes))
      ≡ take (left - piece left) (drop (at + piece left) bytes)
unfolding piece
rest_lem bytes at left = elim (Bool-cases (ltb 32768 left)) [
  | inl large ↦ rw (large, piece) (ap (λ z. take (left - 32768) z) (drop-drop at 32768 bytes))
  | inr small ↦
      let a : left - 32768 ≡ 0 = ground arith in
      let b : left - left ≡ 0 = omega arith in rw (small, a, b, piece) refl
]

piece_lem : (left : ℕ) → (piece left ≡ min 32768 left)
unfolding piece
piece_lem left = ground arith

module _ {S : Type 0} (read : ℕ → ℕ → Option (List ℕ)) (bytes : List ℕ) (file : IsFile read bytes)
    (f : ProcessFunction S) where
  -- One round, whose piece has `count` bytes
  stored_loop-round :
      (rounds at left : ℕ) (s : S)
      → (left == 0) ≡ false
      → at + left ≤ length bytes
      → stored_loop read (suc rounds) f at left s ≡ (
          f (take (piece left) (drop at bytes)) s >>= λ r.
          if r.0
          then stored_loop read rounds f (at + piece left) (left - piece left) r.1
          else ok (false, r.1))
  unfolding stored_loop
  stored_loop-round rounds at left s more inside =
      let count = piece left in
      let le : count ≤ left = omega (arith, piece_lem left) in
      let len : length (take count (drop at bytes)) ≡ count =
        length-take count (drop at bytes) ∙ omega (arith, length-drop at bytes, inside, le) in
      let same : (length (take count (drop at bytes)) == count) ≡ true = ground arith in
      rw (more, file at count, same, stored_loop) refl

  stored_loop-feed :
      (rounds at left : ℕ) (s : S)
      → left ≤ rounds
      → at + left ≤ length bytes
      → stored_loop read rounds f at left s ≡ feed f (chunks rounds (take left (drop at bytes))) s
  unfolding feed stored_loop
  stored_loop-feed zero at left s enough inside =
      let e : (left == 0) ≡ true = ground arith in rw (e, stored_loop) refl
  stored_loop-feed (suc rounds) at left s enough inside =
      let len : length (take left (drop at bytes)) ≡ left =
        length-take left (drop at bytes) ∙ omega (arith, length-drop at bytes, inside) in
      elim (Bool-cases (left == 0)) [
        | inl none_left ↦ rw (len, none_left, stored_loop) refl
        | inr more ↦
            let count = piece left in
            let nonzero : 0 < left = ground arith in
            let le : count ≤ left = omega (arith, piece_lem left) in
            let positive : 1 ≤ count = omega (arith, piece_lem left, nonzero) in
            let c : min 32768 left ≡ count = sym (piece_lem left) in
            let head : take 32768 (take left (drop at bytes)) ≡ take count (drop at bytes) =
              take-take 32768 left (drop at bytes) ∙ ap (λ k. take k (drop at bytes)) c in
            let tail : drop 32768 (take left (drop at bytes))
                ≡ take (left - count) (drop (at + count) bytes) =
              drop-take 32768 left (drop at bytes) ∙ rest_lem bytes at left in
            rw (stored_loop-round rounds at left s more inside, len, more, head, tail)
              (ap (λ k. f (take count (drop at bytes)) s >>= k)
                (fun_ext λ r.
                  ap (λ z. if r.0 then z else ok (false, r.1))
                    (stored_loop-feed rounds (at + count) (left - count) r.1 (omega arith)
                      (omega arith))))
      ]

pub process_stored_entry-feed :
    {S : Type 0} (read : ℕ → ℕ → Option (List ℕ)) (bytes : List ℕ)
    → IsFile read bytes
    → (f : ProcessFunction S) (e : ZipEntry) (at n : ℕ) (s : S) → to_size e.comp_len ≡ n
    → at + n ≤ length bytes
    → process_stored_entry read e at f s ≡ feed f (chunks n (take n (drop at bytes))) s
unfolding process_stored_entry
process_stored_entry-feed read bytes file f e at n s size inside =
    rw (size, process_stored_entry)
      (stored_loop-feed read bytes file f n at n s (omega arith) inside)
