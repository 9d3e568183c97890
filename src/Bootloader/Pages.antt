-- ===== src/Bootloader/Pages.antt =====
-- The place of the message in the pages of the misc partition (bootloader.c).
use sc7731_sc8830_bootable_r.Base.{
  ℕ, ◌+◌, ◌*◌, ◌≤◌, List, ◌++◌, ◌≡◌, refl, sym, ap, ◌∙◌, arith, length, take, drop, leb, true,
  Bool-cases, inl, inr, length-append, length-take, length-drop, drop-append_of_eq,
  take-append_of_eq,
}
use sc7731_sc8830_bootable_r.Bootloader.{
  done, message_in, with_message, message_size, misc_command_page,
}

pub with_message-message_in :
    (write_size : ℕ) (message bytes new : List ℕ)
    → length message ≡ message_size
    → with_message write_size message bytes ≡ done new
    → (message_in write_size new ≡ done message)
      × (new
          ≡ take (write_size * misc_command_page) bytes
            ++ (message ++ drop (write_size * misc_command_page + message_size) bytes))
unfolding with_message message_in
with_message-message_in w message bytes new size h =
    let at = w * misc_command_page in
    elim (Bool-cases (leb (at + message_size) (length bytes))) [
      | inr e ↦ absurd (ground arith)
      | inl e ↦
          let tail = drop (at + message_size) bytes in
          let eq : take at bytes ++ (message ++ tail) ≡ new = ground arith in
          let room : at + message_size ≤ length bytes = ground arith in
          let head : length (take at bytes) ≡ at = omega (arith, length-take at bytes) in
          let long : length (take at bytes ++ (message ++ tail)) ≡ length bytes = omega (
            arith,
            length-append (take at bytes) (message ++ tail),
            length-append message tail,
            length-drop (at + message_size) bytes,
            head,
            size,
          ) in
          let fits : leb (at + message_size) (length new) ≡ true = rw (sym eq, long) e in
          let found : take message_size (drop at new) ≡ message =
            ap (λ l. take message_size (drop at l)) (sym eq)
            ∙ ap (take message_size) (drop-append_of_eq at (take at bytes) (message ++ tail) head)
            ∙ take-append_of_eq message_size message tail size in
          (rw (fits, found, message_in) refl, sym eq)
    ]
