-- ===== src/Applypatch/Bspatch/Bzlib.antt =====
-- What applypatch/bspatch.c takes from libbzip2, which is no part of the repository.
use mathlib.Core.Logic.{◌≢◌}
use sc7731_sc8830_bootable_r.Base.{ℕ, ◌≤◌, ◌<◌, List, [], ◌++◌, ◌≡◌, length}

-- What BZ2_bzDecompress returns: BZ_OK, BZ_STREAM_END or an error.
pub data Code : Type 0 where
  ok stream_end : Code
  error : ℕ → Code

-- `open_stream` is BZ2_bzDecompressInit over the compressed bytes; `decompress s avail` is a call of
-- BZ2_bzDecompress with avail_out at `avail`: its code, the bytes that it writes, the stream after it.
pub record Bzip : Type 1 where
  pub Stream : Type 0
  pub open_stream : List ℕ → Stream
  pub decompress : Stream → ℕ → Code × List ℕ × Stream

abbrev pub IsError : Code → Type 0
IsError (error e) = Unit
IsError _ = ⊥

-- A stream delivers its contents in pieces: while there is room and something is left, a call is no
-- error and writes the next bytes, one at least and not more than fit.
pub record Delivers (bz : Bzip) : Type 1 where
  pub contents : bz.Stream → List ℕ
  pub no_error :
      (s : bz.Stream) (avail : ℕ)
      → 0 < avail
      → contents s ≢ []
      → ¬ IsError (bz.decompress s avail).0
  pub next_bytes :
      (s : bz.Stream) (avail : ℕ)
      → 0 < avail
      → contents s ≢ []
      → (bz.decompress s avail).1 ++ contents (bz.decompress s avail).2 ≡ contents s
  pub progress :
      (s : bz.Stream) (avail : ℕ)
      → 0 < avail
      → contents s ≢ []
      → (0 < length (bz.decompress s avail).1) × (length (bz.decompress s avail).1 ≤ avail)
