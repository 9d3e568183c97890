-- ===== src/Mtdutils/Read/Stream.antt =====
-- mtd_read_data of mtdutils/mtdutils.c against the view of a partition as a stream of bytes: the blocks
-- read, and the buffer.
use mathlib.Core.List.{flatten}
use sc7731_sc8830_bootable_r.Base.{
  ℕ, zero, suc, ◌+◌, ◌-◌, ◌≤◌, ◌<◌, List, [], ◌∷◌, ◌++◌, Option, some, ◌≡◌, refl, sym, ap, ◌∙◌,
  arith, ltb, leb, ◌==◌, ◌&&◌, min, length, take, drop, Bool-cases, Option-cases, inl, inr,
  append-nil, append_assoc, take-append-drop, drop-drop, length-take, length-append,
}
use sc7731_sc8830_bootable_r.Mtdutils.Flash.{Flash, Partition}
use sc7731_sc8830_bootable_r.Mtdutils.Write.{ok}
use sc7731_sc8830_bootable_r.Mtdutils.Read.{
  ReadContext, bad_at, next_pos, read_there, seek_pos, read_loop, read_block, take_pending,
  read_whole, refill,
}

flatten-append : (ks bs : List (List ℕ)) → flatten (ks ++ bs) ≡ flatten ks ++ flatten bs
unfolding flatten
flatten-append [] bs = refl
flatten-append (a ∷ ks) bs =
    ap (λ l. a ++ l) (flatten-append ks bs) ∙ sym (append_assoc a (flatten ks) (flatten bs))

drop_all : (n : ℕ) (xs : List ℕ) → length xs ≤ n → drop n xs ≡ []
drop_all zero [] h = refl
drop_all zero (x ∷ xs) h = absurd (omega arith)
drop_all (suc n) [] h = refl
drop_all (suc n) (x ∷ xs) h = drop_all n xs (omega arith)

-- A complete read gives as many bytes as were asked for.
abbrev pub IsComplete : Flash → Type 0
IsComplete f = (d : f.Dev) (n : ℕ) (v : List ℕ) → (f.read d n).0 ≡ some v → length v ≡ n

-- The bytes in the buffer that were not handed out yet.
abbrev pub pending : {f : Flash} → ReadContext f → List ℕ
pending ctx = drop ctx.consumed ctx.buffer

module _ (f : Flash) (p : Partition) where
  -- The blocks that successful calls of read_block give, one after the other.
  pub data Reads : f.Dev → List (List ℕ) → f.Dev → Type 0 where
    here : (d : f.Dev) → Reads d [] d
    more :
        (d e : f.Dev) (bs : List (List ℕ))
        → (read_block f p d).0 ≡ ok
        → Reads (read_block f p d).2 bs e
        → Reads d ((read_block f p d).1 ∷ bs) e

  -- A block in the buffer is whole.
  pub record Ready (ctx : ReadContext f) : Type 0 where
    pub consumed_le : ctx.consumed ≤ p.erase_size
    pub buffer_le : length ctx.buffer ≤ p.erase_size
    pub whole : ctx.consumed < p.erase_size → length ctx.buffer ≡ p.erase_size

  pub record Delivers (start : ReadContext f) (bytes : List ℕ) (now : ReadContext f) : Type 0 where
    pub blocks : List (List ℕ)
    pub trace : Reads start.dev blocks now.dev
    pub stream : bytes ++ pending now ≡ pending start ++ flatten blocks
    pub ready : Ready now

  Reads-append :
      {d e g : f.Dev} {ks bs : List (List ℕ)} → Reads d ks e → Reads e bs g → Reads d (ks ++ bs) g
  Reads-append (here d) r = r
  Reads-append (more d e ks done q) r = more d _ _ done (Reads-append q r)

  pub Delivers-append :
      (a b c : ReadContext f) (xs ys : List ℕ)
      → Delivers a xs b
      → Delivers b ys c
      → Delivers a (xs ++ ys) c
  Delivers-append a b c xs ys h k = record {
    blocks = h.blocks ++ k.blocks;
    trace = Reads-append h.trace k.trace;
    stream =
        append_assoc xs ys (pending c)
        ∙ ap (λ l. xs ++ l) k.stream
        ∙ sym (append_assoc xs (pending b) (flatten k.blocks))
        ∙ ap (λ l. l ++ flatten k.blocks) h.stream
        ∙ append_assoc (pending a) (flatten h.blocks) (flatten k.blocks)
        ∙ ap (λ l. pending a ++ l) (sym (flatten-append h.blocks k.blocks));
    ready = k.ready;
  }

  pub Delivers-refl : (a : ReadContext f) → Ready a → Delivers a [] a
  unfolding flatten
  Delivers-refl a r = record {
    blocks = [];
    trace = here a.dev;
    stream = sym (append-nil (pending a));
    ready = r;
  }

  pub take_pending-Delivers :
      (ctx : ReadContext f) (want : ℕ)
      → Ready ctx
      → Delivers ctx (take_pending f p ctx want).0 (take_pending f p ctx want).1
        × (length (take_pending f p ctx want).0 ≤ want)
  unfolding take_pending flatten
  take_pending-Delivers ctx want r =
      let copy = min want (p.erase_size - ctx.consumed) in
      elim (Bool-cases (ltb ctx.consumed p.erase_size)) [
        | inl e ↦
            let some_left : ctx.consumed < p.erase_size = ground arith in
            let full = r.whole some_left in
            rw (e, take_pending)
              (
                record {
                  blocks = [];
                  trace = here ctx.dev;
                  stream =
                      ap (λ l. take copy (drop ctx.consumed ctx.buffer) ++ l)
                        (sym (drop-drop ctx.consumed copy ctx.buffer))
                      ∙ take-append-drop copy (drop ctx.consumed ctx.buffer)
                      ∙ sym (append-nil _);
                  ready = record {
                    consumed_le = omega (arith, r.consumed_le);
                    buffer_le = r.buffer_le;
                    whole = λ k. full;
                  };
                },
                omega (arith, length-take copy (drop ctx.consumed ctx.buffer)),
              )
        | inr e ↦ rw (e, take_pending) (Delivers-refl ctx r, omega arith)
      ]

  module _ (complete : IsComplete f) where
    read_there-length :
        (d : f.Dev) (pos : Option ℕ) (v : List ℕ)
        → (read_there f d pos p.erase_size).0 ≡ some v
        → length v ≡ p.erase_size
    unfolding read_there
    read_there-length d pos v h = elim (Bool-cases (seek_pos f d pos).0) [
      | inl e ↦ complete (seek_pos f d pos).1 p.erase_size v (rw (e, read_there) at h)
      | inr e ↦ absurd (ground arith)
    ]

    read_loop-length :
        (fuel : ℕ) (d : f.Dev) (before : ℕ) (pos : Option ℕ)
        → (read_loop f p fuel d before pos).0 ≡ ok
        → length (read_loop f p fuel d before pos).1 ≡ p.erase_size
    unfolding read_loop
    read_loop-length zero d before pos h = cc
    read_loop-length (suc fuel) d before pos h =
        let r = read_there f d pos p.erase_size in
        let m = bad_at f r.1 pos in
        elim (Option-cases r.0) [
          | inl e ↦ ground (arith, read_loop-length fuel r.1 before (next_pos f p pos))
          | inr (v, e) ↦ elim (Option-cases (f.ecc_failed r.1)) [
            | inl none_left ↦ absurd (ground arith)
            | inr (after, counted) ↦
                let full = read_there-length d pos v e in
                ground (
                  arith,
                  read_loop-length fuel r.1 after (next_pos f p pos),
                  read_loop-length fuel m.1 before (next_pos f p pos),
                )
          ]
        ]

    read_block-length :
        (d : f.Dev) → (read_block f p d).0 ≡ ok → length (read_block f p d).1 ≡ p.erase_size
    unfolding read_block
    read_block-length d h = elim (Option-cases (f.ecc_failed d)) [
      | inl e ↦ absurd (ground arith)
      | inr (before, e) ↦
          rw (e, read_block)
            (read_loop-length (p.size + 2) d before (f.tell d) (rw (e, read_block) at h))
    ]

    pub refill-Delivers :
        (ctx : ReadContext f) (want : ℕ)
        → Ready ctx
        → (refill f p ctx want).0 ≡ ok
        → Delivers ctx [] (refill f p ctx want).1
    unfolding refill flatten
    refill-Delivers ctx want r h =
        let b = read_block f p ctx.dev in
        elim (Bool-cases ((ctx.consumed == p.erase_size) && ltb 0 want)) [
          | inl e ↦
              let got_it : b.0 ≡ ok = ground arith in
              let full = read_block-length ctx.dev got_it in
              let used_up : drop ctx.consumed ctx.buffer ≡ [] =
                drop_all ctx.consumed ctx.buffer (ground (arith, r.buffer_le)) in
              rw (e, got_it, refill)
                (record {
                  blocks = b.1 ∷ [];
                  trace = more ctx.dev _ [] got_it (here _);
                  stream = sym (append-nil b.1) ∙ ap (λ l. l ++ (b.1 ++ [])) (sym used_up);
                  ready = record {
                    consumed_le = omega arith;
                    buffer_le = omega (arith, full);
                    whole = λ k. full;
                  };
                })
          | inr e ↦ rw (e, refill) (Delivers-refl ctx r)
        ]

    pub read_whole-Delivers :
        (fuel : ℕ) (ctx : ReadContext f) (want : ℕ)
        → Ready ctx
        → (read_whole f p fuel ctx want).0 ≡ ok
        → Delivers ctx (read_whole f p fuel ctx want).1 (read_whole f p fuel ctx want).2
          × (length (read_whole f p fuel ctx want).1 ≤ want)
    unfolding read_whole flatten
    read_whole-Delivers zero ctx want r h = cc
    read_whole-Delivers (suc fuel) ctx want r h =
        let b = read_block f p ctx.dev in
        elim (Bool-cases ((ctx.consumed == p.erase_size) && leb p.erase_size want)) [
          | inr e ↦ rw (e, read_whole) (Delivers-refl ctx r, omega arith)
          | inl e ↦
              let got_it : b.0 ≡ ok = ground arith in
              let full = read_block-length ctx.dev got_it in
              let used_up : drop ctx.consumed ctx.buffer ≡ [] =
                drop_all ctx.consumed ctx.buffer (ground (arith, r.buffer_le)) in
              let ctx₁ : ReadContext f = record ctx { dev = b.2 } in
              let one : Delivers ctx b.1 ctx₁ = record {
                blocks = b.1 ∷ [];
                trace = more ctx.dev _ [] got_it (here _);
                stream = ap (λ l. b.1 ++ l) used_up ∙ ap (λ l. l ++ (b.1 ++ [])) (sym used_up);
                ready = record {
                  consumed_le = r.consumed_le;
                  buffer_le = r.buffer_le;
                  whole = r.whole;
                };
              } in
              let (rest, bound) =
                read_whole-Delivers fuel ctx₁ (want - p.erase_size) one.ready (ground arith) in
              rw (e, got_it, read_whole)
                (
                  Delivers-append ctx ctx₁ _ b.1 _ one rest,
                  ground (
                    arith,
                    full,
                    length-append b.1 (read_whole f p fuel ctx₁ (want - p.erase_size)).1,
                  ),
                )
        ]
