-- ===== src/Mtdutils/Read/Data.antt =====
-- mtd_read_data of mtdutils/mtdutils.c as a whole.
use sc7731_sc8830_bootable_r.Base.{
  ℕ, zero, suc, ◌+◌, ◌-◌, ◌≤◌, ◌<◌, ◌≡◌, ◌≢◌, refl, arith, length, ◌⊎◌, inl, inr, length-append,
}
use sc7731_sc8830_bootable_r.Mtdutils.Flash.{Flash, Partition}
use sc7731_sc8830_bootable_r.Mtdutils.Write.{Status-cases, ok, running}
use sc7731_sc8830_bootable_r.Mtdutils.Read.{ReadContext, read_round, read_rounds, mtd_read_data}
use sc7731_sc8830_bootable_r.Mtdutils.Read.Round.{read_round_ends, read_round-Delivers}
use sc7731_sc8830_bootable_r.Mtdutils.Read.Stream.{
  IsComplete, Ready, Delivers, Delivers-append, Delivers-refl,
}

module _ (f : Flash) (p : Partition) (complete : IsComplete f) where
  read_rounds-Delivers :
      (fuel : ℕ) (ctx : ReadContext f) (want : ℕ)
      → 0 < p.erase_size
      → Ready f p ctx
      → (read_rounds f p fuel ctx want).0 ≡ ok
      → Delivers f p ctx (read_rounds f p fuel ctx want).1 (read_rounds f p fuel ctx want).2
        × (length (read_rounds f p fuel ctx want).1 ≡ want)
  unfolding read_rounds
  read_rounds-Delivers zero ctx zero e r h = (Delivers-refl f p ctx r, refl)
  read_rounds-Delivers (suc fuel) ctx zero e r h = (Delivers-refl f p ctx r, refl)
  read_rounds-Delivers zero ctx (suc want) e r h = cc
  read_rounds-Delivers (suc fuel) ctx (suc want) e r h =
      let g = read_round f p ctx (suc want) in
      let went : g.0 ≡ ok = ground arith in
      let (first, bound, _, _) = read_round-Delivers f p complete ctx (suc want) e r went in
      let (rest, exact) =
        read_rounds-Delivers fuel g.2 (suc want - length g.1) e first.ready
          (rw (went, read_rounds) at h) in
      let more = read_rounds f p fuel g.2 (suc want - length g.1) in
      rw (went, read_rounds)
        (
          Delivers-append f p ctx g.2 more.2 g.1 more.1 first rest,
          omega (arith, length-append g.1 more.1, exact, bound),
        )

  -- Where the erase size is not 0 and a block in the buffer is whole, a mtd_read_data that succeeds, on a
  -- device whose complete reads give as many bytes as they are asked for, delivers exactly `len` bytes,
  -- and these are the stream: what was pending in the buffer and then the blocks that successful calls
  -- of read_block gave, in order, are the bytes delivered and what is pending afterwards.
  pub mtd_read_data-Delivers :
      (ctx : ReadContext f) (len : ℕ)
      → 0 < p.erase_size
      → Ready f p ctx
      → (mtd_read_data f p ctx len).0 ≡ ok
      → Delivers f p ctx (mtd_read_data f p ctx len).1 (mtd_read_data f p ctx len).2
        × (length (mtd_read_data f p ctx len).1 ≡ len)
  unfolding mtd_read_data
  mtd_read_data-Delivers ctx len e r h = read_rounds-Delivers (len + 1) ctx len e r h

  read_rounds-nothing : (fuel : ℕ) (ctx : ReadContext f) → (read_rounds f p fuel ctx 0).0 ≢ running
  unfolding read_rounds
  read_rounds-nothing zero ctx = λ z. cc
  read_rounds-nothing (suc fuel) ctx = λ z. cc

  read_rounds_ends :
      (fuel : ℕ) (ctx : ReadContext f) (want : ℕ)
      → 0 < p.erase_size
      → Ready f p ctx
      → ((ctx.consumed < p.erase_size) × (want ≤ fuel)) ⊎ (want < fuel)
      → (read_rounds f p fuel ctx want).0 ≢ running
  unfolding read_rounds
  read_rounds_ends zero ctx zero e r enough = λ z. cc
  read_rounds_ends (suc fuel) ctx zero e r enough = λ z. cc
  read_rounds_ends zero ctx (suc want) e r enough =
      absurd (elim enough [ inl k ↦ omega (arith, k.1) | inr k ↦ omega arith ])
  read_rounds_ends (suc fuel) ctx (suc want) e r enough =
      let g = read_round f p ctx (suc want) in
      let ended = read_round_ends f p ctx (suc want) e in
      elim (Status-cases g.0) [
        | inr stopped ↦ ground arith
        | inl went ↦
            let (first, bound, progress, filled) =
              read_round-Delivers f p complete ctx (suc want) e r went in
            elim filled [
              | inl all ↦
                  let none_left : suc want - length g.1 ≡ 0 = omega arith in
                  rw (went, none_left, read_rounds) (read_rounds-nothing fuel g.2)
              | inr c ↦
                  let fits : suc want - length g.1 ≤ fuel = elim enough [
                    | inl k ↦ let some_out = progress k.0 (omega arith) in omega (arith, k.1)
                    | inr k ↦ omega arith
                  ] in
                  rw (went, read_rounds)
                    (read_rounds_ends fuel g.2 (suc want - length g.1) e first.ready
                      (inl (c, fits)))
            ]
      ]

  -- mtd_read_data comes to an end where the erase size is not 0, a block in the buffer is whole, and complete
  -- reads of the device give as many bytes as they are asked for: the rounds given to its loops are enough.
  pub mtd_read_data_ends :
      (ctx : ReadContext f) (len : ℕ)
      → 0 < p.erase_size
      → Ready f p ctx
      → (mtd_read_data f p ctx len).0 ≢ running
  unfolding mtd_read_data
  mtd_read_data_ends ctx len e r = read_rounds_ends (len + 1) ctx len e r (inr (omega arith))
