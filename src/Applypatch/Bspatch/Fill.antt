-- ===== src/Applypatch/Bspatch/Fill.antt =====
-- FillBuffer of applypatch/bspatch.c on a stream with contents.
use sc7731_sc8830_bootable_r.Base.{
  ℕ, zero, suc, ◌+◌, ◌-◌, ◌≤◌, [], ◌++◌, ◌≡◌, ◌≢◌, refl, sym, ap, ◌∙◌, arith, length, take, drop,
  length-append, take-length_add, drop-length_add,
}
use sc7731_sc8830_bootable_r.Applypatch.Bspatch.Bzlib.{
  Code, ok, stream_end, error, Bzip, IsError, Delivers,
}
use sc7731_sc8830_bootable_r.Applypatch.Bspatch.{Result, done, fill_buffer, failed}

not_error {ℓ} :
    {A : Type ℓ} (c : Code) (r t : Result A)
    → ¬ IsError c
    → r ≡ t
    → (elim c [ ok ↦ r | stream_end ↦ r | error e ↦ failed ]) ≡ t
not_error ok r t h e = e
not_error stream_end r t h e = e
not_error (error c) r t h e = absurd (h tt)

module _ (bz : Bzip) (d : Delivers bz) where
  open bz use {Stream, decompress}
  open d use {contents}

  -- FillBuffer of no more bytes than the stream still has, for a stream that delivers its contents,
  -- fills the buffer with the next bytes and leaves the rest in the stream, in a round for each byte
  -- at most.
  pub fill_buffer_lem :
      (fuel n : ℕ) (s : Stream)
      → n ≤ fuel
      → n ≤ length (contents s)
      → (s' : Stream) × (fill_buffer bz fuel n s ≡ done (take n (contents s), s'))
        × (contents s' ≡ drop n (contents s))
  unfolding fill_buffer
  fill_buffer_lem fuel zero s enough left = (s, refl, refl)
  fill_buffer_lem zero (suc n) s enough left = absurd (omega arith)
  fill_buffer_lem (suc fuel) (suc n) s enough left =
      let out = (decompress s (suc n)).1 in
      let s₁ = (decompress s (suc n)).2 in
      let some_left : contents s ≢ [] = λ e. absurd (omega (arith, ap length e)) in
      let whole = d.next_bytes s (suc n) (omega arith) some_left in
      let (some_out, fits) = d.progress s (suc n) (omega arith) some_left in
      let count = ap length whole in
      let m = suc n - length out in
      let split : suc n ≡ length out + m = omega arith in
      let (s', run, rest) =
        fill_buffer_lem fuel m s₁ (omega arith)
          (omega (arith, count, length-append out (contents s₁))) in
      let taken : take (suc n) (contents s) ≡ out ++ take m (contents s₁) =
        ap (λ k. take k (contents s)) split
        ∙ ap (take (length out + m)) (sym whole)
        ∙ take-length_add out (contents s₁) m in
      let dropped : drop (suc n) (contents s) ≡ drop m (contents s₁) =
        ap (λ k. drop k (contents s)) split
        ∙ ap (drop (length out + m)) (sym whole)
        ∙ drop-length_add out (contents s₁) m in
      (
        s',
        not_error (decompress s (suc n)).0 _ _ (d.no_error s (suc n) (omega arith) some_left)
            (rw (run, taken) refl),
        rest ∙ sym dropped,
      )
