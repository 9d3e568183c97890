-- ===== src/Mtdutils/Write/Stream.antt =====
-- mtd_write_data of mtdutils/mtdutils.c against the view of a partition as a stream of bytes: the
-- blocks written, and the buffer.
use mathlib.Core.List.{flatten}
use sc7731_sc8830_bootable_r.Base.{
  ℕ, zero, suc, ◌+◌, ◌-◌, ◌≤◌, ◌<◌, List, [], ◌∷◌, ◌++◌, ◌≡◌, refl, sym, ap, ◌∙◌, arith, leb, ltb,
  ◌==◌, ◌||◌, ◌&&◌, min, length, take, drop, Bool-cases, Option-cases, inl, inr, ◌⊎◌, append-nil,
  append_assoc, take-append-drop, length-take, length-append,
}
use sc7731_sc8830_bootable_r.Mtdutils.Flash.{Flash, Partition}
use sc7731_sc8830_bootable_r.Mtdutils.Write.Blocks.{write_block-Placed}
use sc7731_sc8830_bootable_r.Mtdutils.Write.{
  ok, error, WriteContext, write_block, write_whole, coalesce, flush_full, write_round,
}

abbrev pub All {ℓ κ} : {A : Type ℓ} → (A → Type κ) → List A → Type κ
All P [] = Unit
All P (x ∷ xs) = P x × All P xs

pub All-append_one {ℓ κ} :
    {A : Type ℓ} (P : A → Type κ) (xs : List A) (x : A) → All P xs → P x → All P (xs ++ x ∷ [])
All-append_one P [] x h k = (k, tt)
All-append_one P (y ∷ xs) x h k = (h.0, All-append_one P xs x h.1 k)

pub flatten-append_one :
    (bs : List (List ℕ)) (b : List ℕ) → flatten (bs ++ b ∷ []) ≡ flatten bs ++ b
unfolding flatten
flatten-append_one [] b = append-nil b
flatten-append_one (c ∷ bs) b = rw (flatten-append_one bs b) (sym (append_assoc c (flatten bs) b))

module _ (f : Flash) (p : Partition) where
  -- The blocks that were written between two contexts, by successful calls of write_block; between
  -- these only the buffer changed.
  pub data Writes (start : WriteContext f) : List (List ℕ) → WriteContext f → Type 0 where
    here : Writes start [] start
    wrote :
        {c : WriteContext f} {bs : List (List ℕ)}
        → Writes start bs c
        → (b : List ℕ) → (write_block f p c b).0 ≡ ok
        → Writes start (bs ++ b ∷ []) (write_block f p c b).1
    held :
        {c : WriteContext f} {bs : List (List ℕ)}
        → Writes start bs c
        → (buffer : List ℕ) → Writes start bs (record c { buffer = buffer })

  -- From `start` to `now` the stream is `bytes`: whole blocks on the device, and the rest, less than
  -- or just a block, in the buffer.
  pub record Holds (start : WriteContext f) (bytes : List ℕ) (now : WriteContext f) : Type 0 where
    pub blocks : List (List ℕ)
    pub trace : Writes start blocks now
    pub stream : flatten blocks ++ now.buffer ≡ bytes
    pub whole : All (λ b. length b ≡ p.erase_size) blocks

  pub Holds-refl : (ctx : WriteContext f) → Holds ctx ctx.buffer ctx
  unfolding flatten
  Holds-refl ctx = record { blocks = []; trace = here; stream = refl; whole = tt }

  write_block-keeps :
      (ctx : WriteContext f) (bytes : List ℕ)
      → (write_block f p ctx bytes).0 ≡ ok
      → (write_block f p ctx bytes).1.buffer ≡ ctx.buffer
  unfolding write_block
  write_block-keeps ctx bytes h = elim (Option-cases (f.tell ctx.dev)) [
    | inl e ↦ let bad : error ≡ ok = rw (e, write_block) at h in cc
    | inr (pos, e) ↦ (write_block-Placed f p ctx pos bytes e h).kept
  ]

  coalesce-Holds :
      (start ctx : WriteContext f) (given bytes : List ℕ)
      → Holds start given ctx
      → length ctx.buffer < p.erase_size
      → 0 < length bytes
      → (fed : List ℕ) × (fed ++ (coalesce f p ctx bytes).1 ≡ bytes)
        × Holds start (given ++ fed) (coalesce f p ctx bytes).0
        × (length (coalesce f p ctx bytes).0.buffer ≤ p.erase_size)
        × ((0 < length fed)
            ⊎ ((coalesce f p ctx bytes ≡ (ctx, bytes))
                × (length ctx.buffer ≡ 0)
                × (p.erase_size ≤ length bytes)))
  unfolding coalesce
  coalesce-Holds start ctx given bytes h small some_left =
      let copy = min (length bytes) (p.erase_size - length ctx.buffer) in
      elim (Bool-cases (ltb 0 (length ctx.buffer) || ltb (length bytes) p.erase_size)) [
        | inl e ↦ rw e (
          take copy bytes,
          take-append-drop copy bytes,
          record {
            blocks = h.blocks;
            trace = held h.trace (ctx.buffer ++ take copy bytes);
            stream =
                sym (append_assoc (flatten h.blocks) ctx.buffer (take copy bytes))
                ∙ ap (λ l. l ++ take copy bytes) h.stream;
            whole = h.whole;
          },
          omega (arith, length-append ctx.buffer (take copy bytes), length-take copy bytes),
          inl (omega (arith, length-take copy bytes)),
        )
        | inr e ↦
            rw e (
              [],
              refl,
              rw (append-nil given) h,
              omega arith,
              inr (refl, ground arith, ground arith),
            )
      ]

  flush-Holds :
      (start ctx : WriteContext f) (given : List ℕ)
      → 0 < p.erase_size
      → Holds start given ctx
      → length ctx.buffer ≤ p.erase_size
      → (flush_full f p ctx).0 ≡ ok
      → Holds start given (flush_full f p ctx).1
        × (length (flush_full f p ctx).1.buffer < p.erase_size)
  unfolding flush_full
  flush-Holds start ctx given pos h fits done =
      elim (Bool-cases (length ctx.buffer == p.erase_size)) [
        | inl e ↦
            let wrote_it : (write_block f p ctx ctx.buffer).0 ≡ ok = ground arith in
            let full : length ctx.buffer ≡ p.erase_size = ground arith in
            rw (e, wrote_it)
              (
                record {
                  blocks = h.blocks ++ ctx.buffer ∷ [];
                  trace = held (wrote h.trace ctx.buffer wrote_it) [];
                  stream = append-nil _ ∙ flatten-append_one h.blocks ctx.buffer ∙ h.stream;
                  whole = All-append_one _ h.blocks ctx.buffer h.whole full;
                },
                pos,
              )
        | inr e ↦ rw e (h, ground arith)
      ]

  flush_full-empty :
      (ctx : WriteContext f)
      → 0 < p.erase_size
      → length ctx.buffer ≡ 0
      → (flush_full f p ctx).1.buffer ≡ ctx.buffer
  unfolding flush_full
  flush_full-empty ctx pos empty = ground arith

  write_whole-Holds :
      (fuel : ℕ) (start ctx : WriteContext f) (given bytes : List ℕ)
      → 0 < p.erase_size
      → Holds start given ctx
      → length ctx.buffer < p.erase_size
      → (write_whole f p fuel ctx bytes).0 ≡ ok
      → (fed : List ℕ) × (fed ++ (write_whole f p fuel ctx bytes).2 ≡ bytes)
        × Holds start (given ++ fed) (write_whole f p fuel ctx bytes).1
        × (length (write_whole f p fuel ctx bytes).1.buffer < p.erase_size)
        × (length ctx.buffer ≡ 0 → p.erase_size ≤ length bytes → 0 < length fed)
  unfolding write_whole
  write_whole-Holds zero start ctx given bytes pos h small done = cc
  write_whole-Holds (suc fuel) start ctx given bytes pos h small done =
      elim (Bool-cases ((length ctx.buffer == 0) && leb p.erase_size (length bytes))) [
        | inr e ↦ rw e ([], refl, rw (append-nil given) h, small, λ a b. absurd (ground arith))
        | inl e ↦
            let block = take p.erase_size bytes in
            let next = write_block f p ctx block in
            let wrote_it : next.0 ≡ ok = ground arith in
            let kept = write_block-keeps ctx block wrote_it in
            let empty : ctx.buffer ≡ [] = ground arith in
            let full : length block ≡ p.erase_size =
              ground (arith, length-take p.erase_size bytes) in
            let h' : Holds start (given ++ block) next.1 = record {
              blocks = h.blocks ++ block ∷ [];
              trace = wrote h.trace block wrote_it;
              stream =
                  ap (λ l. flatten (h.blocks ++ block ∷ []) ++ l) (kept ∙ empty)
                  ∙ append-nil _
                  ∙ flatten-append_one h.blocks block
                  ∙ ap (λ l. l ++ block)
                      (sym (append-nil _) ∙ ap (λ l. flatten h.blocks ++ l) (sym empty) ∙ h.stream);
              whole = All-append_one _ h.blocks block h.whole full;
            } in
            let (fed, whole, held', small', _) =
              write_whole-Holds fuel start next.1 (given ++ block) (drop p.erase_size bytes) pos h'
                (rw kept small) (ground arith) in
            rw (e, wrote_it)
              (
                block ++ fed,
                append_assoc block fed _
                    ∙ ap (λ l. block ++ l) whole
                    ∙ take-append-drop p.erase_size bytes,
                rw (append_assoc given block fed) at held',
                small',
                λ a b. omega (arith, length-append block fed),
              )
      ]

  -- A successful round leaves less than a block in the buffer, and has taken a byte at least.
  pub write_round-Holds :
      (start ctx : WriteContext f) (given bytes : List ℕ)
      → 0 < p.erase_size
      → 0 < length bytes
      → Holds start given ctx
      → length ctx.buffer < p.erase_size
      → (write_round f p ctx bytes).0 ≡ ok
      → (fed : List ℕ) × (fed ++ (write_round f p ctx bytes).2 ≡ bytes)
        × Holds start (given ++ fed) (write_round f p ctx bytes).1
        × (length (write_round f p ctx bytes).1.buffer < p.erase_size)
        × (0 < length fed)
  unfolding write_round
  write_round-Holds start ctx given bytes pos some_left h small done =
      let c = coalesce f p ctx bytes in
      let (fed₁, whole₁, h₁, fits, moved) =
        coalesce-Holds start ctx given bytes h small some_left in
      let g = flush_full f p c.0 in
      let flushed : g.0 ≡ ok = ground arith in
      let (h₂, small₂) = flush-Holds start c.0 (given ++ fed₁) pos h₁ fits flushed in
      let (fed₂, whole₂, h₃, small₃, took) =
        write_whole-Holds (length c.1 + 1) start g.1 (given ++ fed₁) c.1 pos h₂ small₂
          (ground arith) in
      let progress : 0 < length (fed₁ ++ fed₂) = elim moved [
        | inl some_fed ↦ omega (arith, length-append fed₁ fed₂)
        | inr (same, empty, big) ↦
            let unmoved : c.0 ≡ ctx = ap (λ r. r.0) same in
            let same_bytes : c.1 ≡ bytes = ap (λ r. r.1) same in
            let no_flush : g.1.buffer ≡ ctx.buffer = rw unmoved (flush_full-empty ctx pos empty) in
            let still : length g.1.buffer ≡ 0 = rw no_flush empty in
            let more = took still (rw same_bytes big) in omega (arith, length-append fed₁ fed₂)
      ] in
      rw (flushed, write_round)
        (
          fed₁ ++ fed₂,
          append_assoc fed₁ fed₂ _ ∙ ap (λ l. fed₁ ++ l) whole₂ ∙ whole₁,
          rw (append_assoc given fed₁ fed₂) at h₃,
          small₃,
          progress,
        )
