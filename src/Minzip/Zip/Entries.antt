-- ===== src/Minzip/Zip/Entries.antt =====
-- The central directory that parseZipArchive of minzip/Zip.c reads, entry by entry.
use mathlib.Core.Path.{subst}
use sc7731_sc8830_bootable_r.Base.Int.{ℤ, pos}
use sc7731_sc8830_bootable_r.Base.{
  ℕ, ◌+◌, ◌-◌, ◌^◌, ◌%◌, ◌≤◌, ◌<◌, List, Option, some, Bool, true, ◌≡◌, refl, sym, ◌∙◌, ap, arith,
  length, take, drop, length-take, length-drop, leb, leb→le, ==_iff, Option-cases, inl, inr,
}
use sc7731_sc8830_bootable_r.Minzip.Bits.{get4_le}
use sc7731_sc8830_bootable_r.Minzip.Zip.{MemMapping, to_long}
use sc7731_sc8830_bootable_r.Minzip.Zip.Ends.{
  Ends, value, stopped, Ends-check, Ends-word2, Ends-word4,
}
use sc7731_sc8830_bootable_r.Minzip.Zip.Parse.{
  Header, parse_header, parse_fields, data_end, parse_local,
}
use sc7731_sc8830_bootable_r.Minzip.Zip.Format.{IsMapped, IsHeader, HasFields, IsData}

take_read :
    {A : Type 0} (n : ℕ) (xs : List A)
    → n ≤ length xs
    → (length (take n xs) ≡ n) × (take n xs ≡ take (length (take n xs)) xs)
take_read n xs h =
    let e : length (take n xs) ≡ n = length-take n xs ∙ omega (arith, h) in
    (e, ap (λ k. take k xs) (sym e))

to_long_pos : (w n : ℕ) → to_long w ≡ pos n → n < 2 ^ 31
unfolding to_long
to_long_pos w n e = ground arith

to_long_small : (n : ℕ) → n < 2 ^ 31 → to_long (n % 2 ^ 32) ≡ pos n
unfolding to_long
to_long_small n h = ground arith

module _ (safe_add_uintptr : ℕ → ℕ → Option ℕ) (map : MemMapping)
    (m : IsMapped safe_add_uintptr map) where
  pub parse_header-Ends :
      (ptr : ℕ)
      → Ends (λ h. IsHeader map ptr h × (ptr + 46 ≤ length map.bytes)) (parse_header map ptr)
  unfolding parse_header
  parse_header-Ends ptr = Ends-check λ room.
      let inside : ptr + 46 ≤ length map.bytes = leb→le _ _ room in
      Ends-word4 map _ _ (omega (arith, inside)) λ sig at. Ends-check λ signed.
        Ends-word4 map _ _ (omega (arith, inside)) λ offset at_offset.
          Ends-word2 map _ _ m.are_bytes (omega (arith, inside)) λ n at_name n_below.
            Ends-word2 map _ _ m.are_bytes (omega (arith, inside)) λ x at_extra x_below.
              Ends-word2 map _ _ m.are_bytes (omega (arith, inside)) λ c at_comment c_below.
                Ends-check λ name_room. Ends-check λ valid.
                  let name_inside : ptr + 46 + n ≤ length map.bytes = leb→le _ _ name_room in
                  let long = length-drop (ptr + 46) map.bytes in
                  let (len, read) =
                    take_read n (drop (ptr + 46) map.bytes) (omega (arith, name_inside, long)) in
                  let h : Header = record {
                    file_name = take n (drop (ptr + 46) map.bytes);
                    local_hdr_offset = offset;
                    size = 46 + n + x + c;
                  } in
                  let described : IsHeader map ptr h = record {
                    signed = at ∙ ap some ((==_iff sig 33639248).0 signed);
                    inside = omega (arith, name_inside, len);
                    name_len = at_name ∙ ap some (sym len);
                    name = read;
                    valid = valid;
                    local_hdr = at_offset;
                    extra_len = x;
                    extra = at_extra;
                    comment_len = c;
                    comment = at_comment;
                    sized = omega (arith, len);
                  } in
                  value h (described, inside)

  pub parse_fields-Ends :
      (ptr : ℕ) (name : List ℕ)
      → ptr + 46 ≤ length map.bytes
      → Ends (λ e. (e.file_name ≡ name) × HasFields map ptr e) (parse_fields map ptr name)
  unfolding parse_fields
  parse_fields-Ends ptr name inside = Ends-word4 map _ _ (omega (arith, inside)) λ comp_len at_comp.
      Ends-word4 map _ _ (omega (arith, inside)) λ uncomp_len at_uncomp.
        Ends-word2 map _ _ m.are_bytes (omega (arith, inside)) λ how at_how how_below.
          Ends-word4 map _ _ (omega (arith, inside)) λ tim at_tim.
            Ends-word4 map _ _ (omega (arith, inside)) λ crc at_crc.
              Ends-word2 map _ _ m.are_bytes (omega (arith, inside)) λ vem at_vem vem_below.
                Ends-check λ made. Ends-word4 map _ _ (omega (arith, inside)) λ atx at_atx.
                  value _ (
                    refl,
                    record {
                      comp_len = (comp_len, at_comp, refl);
                      uncomp_len = (uncomp_len, at_uncomp, refl);
                      compression = at_how;
                      mod_time = (tim, at_tim, refl);
                      crc32 = (crc, at_crc, refl);
                      version_made_by = at_vem;
                      made = made;
                      attributes = (atx, at_atx, refl);
                    },
                  )

  -- A start and a length that pass the checks at the end of a round
  inside_lem :
      (start n w : ℕ)
      → start < 2 ^ 31
      → to_long w ≡ pos n
      → leb (data_end (pos start) (to_long w)) (length map.bytes) ≡ true
      → start + n ≤ length map.bytes
  unfolding data_end
  inside_lem start n w below e fits =
      let n_below : n < 2 ^ 31 = to_long_pos w n e in
      let fits' : (start + 2 ^ 32 + n + 2 ^ 32) % 2 ^ 32 ≤ length map.bytes =
        leb→le _ _ (subst (λ z. leb (data_end (pos start) z) (length map.bytes) ≡ true) e fits) in
      omega (arith, fits', n_below, below)

  pub parse_local-Ends :
      (safe_add_long : ℤ → ℤ → Bool) (p local_hdr_offset w : ℕ)
      → get4_le (drop p map.bytes) ≡ some local_hdr_offset
      → Ends
          (λ o. IsData map local_hdr_offset o (to_long w))
          (parse_local safe_add_uintptr safe_add_long map local_hdr_offset (to_long w))
  unfolding parse_local
  parse_local-Ends safe_add_long p lho w read =
      elim (Option-cases (safe_add_uintptr map.addr lho)) [
        | inl e ↦ rw (e, parse_local) stopped
        | inr z ↦
            let (c, e) = z in
            let (sum, fits) = m.safe map.addr lho c e in
            let room = m.apart p lho read (omega (arith, sum, fits)) in
            let back : map.addr + lho - map.addr ≡ lho = omega arith in
            let here : map.addr + lho + 30 < 2 ^ 32 = room in
            rw (e, sum, back, parse_local)
              (Ends-check λ inside.
                let inside' : lho + 30 ≤ length map.bytes =
                  let le = leb→le _ _ inside in omega (arith, le, here, m.in_memory) in
                Ends-word4 map _ _ (omega (arith, inside')) λ sig at. Ends-check λ signed.
                  Ends-word2 map _ _ m.are_bytes (omega (arith, inside')) λ n at_name n_below.
                    Ends-word2 map _ _ m.are_bytes (omega (arith, inside')) λ x at_extra x_below.
                      Ends-check λ added. Ends-check λ ends.
                        let start = lho + 30 + n + x in
                        let below : start < 2 ^ 31 =
                          omega (arith, inside', n_below, x_below, m.small) in
                        let offset : to_long (start % 2 ^ 32) ≡ pos start =
                          to_long_small start below in
                        value _ (record {
                          signed = at ∙ ap some ((==_iff sig 67324752).0 signed);
                          name_len = n;
                          name = at_name;
                          extra_len = x;
                          extra = at_extra;
                          placed = offset;
                          inside = λ k eq. inside_lem start k w below eq (
                              subst (λ o. leb (data_end o (to_long w)) (length map.bytes) ≡ true)
                                offset ends);
                        }))
      ]
