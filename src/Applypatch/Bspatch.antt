-- ===== src/Applypatch/Bspatch.antt =====
-- Binary patches: offtin, FillBuffer, ApplyBSDiffPatchMem and ApplyBSDiffPatch of
-- applypatch/bspatch.c, and offtout of applypatch/bsdiff.c. An off_t has 64 bits.
pub mod Bzlib
pub mod Offsets
pub mod Fill
pub mod Bytes
pub mod Format
mod Tests
use sc7731_sc8830_bootable_r.Base.Int.{ℤ, pos, negsuc, ◌+ℤ◌, ltb_ℤ}
use sc7731_sc8830_bootable_r.Base.{
  ℕ, zero, suc, ◌+◌, ◌-◌, ◌*◌, ◌/◌, ◌%◌, ◌^◌, List, [], ◌∷◌, ◌++◌, Option, none, some, Bool, true,
  false, ltb, leb, ◌==◌, if◌then◌else◌, length, take, drop, get_elem?, bytes_eq, codes,
}
use mathlib.Core.Option
use Bzlib.{Code, ok, stream_end, error, Bzip}

-- The magnitude, least significant byte first; bit 7 of the last byte is the sign.
unfoldable pub magnitude : List ℕ → ℕ
magnitude [] = 0
magnitude (b ∷ []) = b % 128
magnitude (b ∷ c ∷ bytes) = magnitude (c ∷ bytes) * 256 + b

unfoldable pub is_negative : List ℕ → Bool
is_negative [] = false
is_negative (b ∷ []) = leb 128 b
is_negative (b ∷ c ∷ bytes) = is_negative (c ∷ bytes)

unfoldable pub negate : ℕ → ℤ
negate zero = pos 0
negate (suc n) = negsuc n

-- offtin of eight bytes
unfoldable pub offtin : List ℕ → ℤ
unfolding magnitude is_negative negate
offtin buf = if is_negative buf then negate (magnitude buf) else pos (magnitude buf)

-- The eight bytes of `y = |x|`, with 0x80 on the last of a negative x.
unfoldable pub low_bytes : ℕ → ℕ → List ℕ
low_bytes zero y = []
low_bytes (suc n) y = y % 256 ∷ low_bytes n (y / 256)

unfoldable pub offtout : ℤ → List ℕ
unfolding low_bytes
offtout (pos y) = low_bytes 7 y ++ (y / 2 ^ 56 % 256) ∷ []
offtout (negsuc n) = low_bytes 7 (suc n) ++ (suc n / 2 ^ 56 % 128 + 128) ∷ []

-- What a function of this file comes to: a result, the return of an error, an access outside its
-- buffers or an overflow, or rounds without end.
pub data Result {ℓ} (A : Type ℓ) : Type ℓ where
  done : A → Result A
  failed : Result A
  undefined : Result A
  running : Result A

infixl 5 ◌>>=◌ ◌>>◌
abbrev pub ◌>>=◌ {ℓ κ} : {A : Type ℓ} {B : Type κ} → Result A → (A → Result B) → Result B
done a >>= f = f a
failed >>= f = failed
undefined >>= f = undefined
running >>= f = running

abbrev pub ◌>>◌ {ℓ κ} : {A : Type ℓ} {B : Type κ} → Result A → Result B → Result B
m >> k = m >>= λ _. k

-- `(*new_data)[newpos+i] += old_data[oldpos+i]` where oldpos+i lies in the old file
unfoldable pub old_at : List ℕ → ℤ → Option ℕ
old_at old (pos n) = get_elem? old n
old_at old (negsuc n) = none

unfoldable pub add_byte : Option ℕ → ℕ → ℕ
add_byte none d = d
add_byte (some b) d = (d + b) % 256

unfoldable pub add_old : List ℕ → ℤ → List ℕ → List ℕ
unfolding old_at add_byte
add_old old oldpos [] = []
add_old old oldpos (d ∷ diff) = add_byte (old_at old oldpos) d ∷ add_old old (oldpos +ℤ pos 1) diff

-- An off_t
unfoldable pub in_off_t : ℤ → Bool
in_off_t (pos n) = ltb n (2 ^ 63)
in_off_t (negsuc n) = ltb n (2 ^ 63)

unfoldable pub check_off_t : ℤ → Result ℤ
unfolding in_off_t
check_off_t z = if in_off_t z then done z else undefined

-- `if (newpos + n > new_size) return 1;`. A sum beyond off_t is an overflow, and a size of `limit` or
-- more does not fit the parameter of FillBuffer or the counter of the loop over the bytes.
unfoldable pub check_run : ℕ → ℕ → ℕ → ℕ → Result (Unit {0})
check_run limit newpos n new_size =
    if leb (2 ^ 63) (newpos + n)
    then undefined
    else if ltb new_size (newpos + n)
    then failed
    else if leb limit n
    then undefined
    else done tt

-- A byte count from the control block: negative counts are refused.
unfoldable pub count_of : ℤ → Result ℕ
count_of (pos n) = done n
count_of (negsuc n) = failed

-- The lengths of the header, at byte 8, 16 and 24 of it.
unfoldable pub read_lengths : List ℕ → Result (ℕ × ℕ × ℕ)
read_lengths header = do
  ctrl_len ← count_of (offtin (take 8 (drop 8 header)))
  data_len ← count_of (offtin (take 8 (drop 16 header)))
  new_size ← count_of (offtin (take 8 (drop 24 header)))
  done (ctrl_len, data_len, new_size)

module _ {Token Ctx : Type 0} where
  -- What is done with the outcome of ApplyBSDiffPatchMem: the return code, and the token and the
  -- digest afterwards. `sink` answers how many bytes it took, or a negative error.
  unfoldable pub write_patched :
      (List ℕ → Token → ℤ × Token)
      → (Ctx → List ℕ → Ctx)
      → Token
      → Option Ctx
      → Result (List ℕ)
      → Result (ℤ × Token × Option Ctx)
  write_patched sink sha_update token ctx (done new) =
      let (wrote, token') = sink new token in
      if ltb_ℤ wrote (pos (length new))
      then done (pos 1, token', ctx)
      else done (pos 0, token', Option.map (λ c. sha_update c new) ctx)
  write_patched sink sha_update token ctx failed = done (negsuc 0, token, ctx)
  write_patched sink sha_update token ctx undefined = undefined
  write_patched sink sha_update token ctx running = running

module _ (bz : Bzip) where
  open bz use {Stream, open_stream, decompress}

  -- FillBuffer. Its loop goes on while avail_out, `avail`, is positive; `fuel` bounds its rounds.
  unfoldable pub fill_buffer : ℕ → ℕ → Stream → Result (List ℕ × Stream)
  fill_buffer fuel zero s = done ([], s)
  fill_buffer zero (suc avail) s = running
  fill_buffer (suc fuel) (suc avail) s =
      let (code, out, s') = decompress s (suc avail) in
      let rest =
        fill_buffer fuel (suc avail - length out) s' >>= λ (bytes, s''). done (out ++ bytes, s'') in
      elim code [ ok ↦ rest | stream_end ↦ rest | error e ↦ failed ]

  -- The three streams, the place in the old file, and the bytes of the new file so far, whose number
  -- is newpos.
  pub record Progress : Type 0 where
    pub control : Stream
    pub diff : Stream
    pub extra : Stream
    pub oldpos : ℤ
    pub new_data : List ℕ

  -- One round of the loop of ApplyBSDiffPatchMem.
  unfoldable pub apply_round : ℕ → List ℕ → ℕ → Progress → Result Progress
  apply_round fuel old new_size p = do
    (buf, control) ← fill_buffer fuel 24 p.control
    x ← count_of (offtin (take 8 buf))
    y ← count_of (offtin (take 8 (drop 8 buf)))
    check_run (2 ^ 31) (length p.new_data) x new_size
    (bytes, diff) ← fill_buffer fuel x p.diff
    let added = p.new_data ++ add_old old p.oldpos bytes
    here ← check_off_t (p.oldpos +ℤ pos x)
    check_run (2 ^ 32) (length added) y new_size
    (copied, extra) ← fill_buffer fuel y p.extra
    next ← check_off_t (here +ℤ offtin (drop 16 buf))
    done (record {
      control = control;
      diff = diff;
      extra = extra;
      oldpos = next;
      new_data = added ++ copied;
    })

  -- `while (newpos < *new_size)`
  unfoldable pub apply_loop : ℕ → List ℕ → ℕ → Progress → Result (List ℕ)
  apply_loop zero old new_size p = running
  apply_loop (suc fuel) old new_size p =
      let rest = apply_round fuel old new_size p >>= apply_loop fuel old new_size in
      if ltb (length p.new_data) new_size then rest else done p.new_data

  -- From the lengths on. The lengths of the first two blocks are not compared with the size of the
  -- patch.
  unfoldable pub apply_blocks : ℕ → List ℕ → List ℕ → ℕ × ℕ × ℕ → Result (List ℕ)
  apply_blocks fuel old header (ctrl_len, data_len, new_size) =
      if ltb (length header) (32 + ctrl_len + data_len)
      then undefined
      else apply_loop fuel old new_size (record {
        control = open_stream (take ctrl_len (drop 32 header));
        diff = open_stream (take data_len (drop (32 + ctrl_len) header));
        extra = open_stream (drop (32 + ctrl_len + data_len) header);
        oldpos = pos 0;
        new_data = [];
      })

  -- ApplyBSDiffPatchMem, with memory for the new file at hand. The header is not compared with the
  -- size of the patch either.
  unfoldable pub apply_bsdiff_patch_mem : ℕ → List ℕ → List ℕ → ℕ → Result (List ℕ)
  apply_bsdiff_patch_mem fuel old patch patch_offset =
      let header = drop patch_offset patch in
      if ltb (length header) 8
      then undefined
      else if bytes_eq (take 8 header) (codes "BSDIFF40")
      then (if ltb (length header) 32
          then undefined
          else read_lengths header >>= apply_blocks fuel old header)
      else failed

  module _ {Token Ctx : Type 0} where
    -- ApplyBSDiffPatch
    unfoldable pub apply_bsdiff_patch :
        ℕ
        → List ℕ
        → List ℕ
        → ℕ
        → (List ℕ → Token → ℤ × Token)
        → (Ctx → List ℕ → Ctx)
        → Token
        → Option Ctx
        → Result (ℤ × Token × Option Ctx)
    unfolding write_patched
    apply_bsdiff_patch fuel old patch patch_offset sink sha_update token ctx =
        write_patched sink sha_update token ctx (apply_bsdiff_patch_mem fuel old patch patch_offset)
