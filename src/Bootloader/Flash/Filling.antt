-- ===== src/Bootloader/Flash/Filling.antt =====
-- Filling the buffer of a target that answers as documented puts the data at its front.
use aiocflib.Prelude.{
  ℕ, ◌+◌, ◌-◌, ◌*◌, ◌/◌, ◌%◌, ◌^◌, ◌≤◌, ◌≡◌, refl, sym, ap, ◌∙◌, false, List, [], ◌∷◌, ◌++◌, ok,
  Bytes, length, slice, splice, drop, length-take, length-drop, take_all, arith, ltb,
}
use native.Mathlib.Nat.{div-lt_iff_lt-mul, mod-lt, div-add-mod', zero-add}
use aiocflib.Prelude.Splice.{splice-nil, length-splice, splice-slices}
use aiocflib.Utils.Chunks.{chunkify-Tiles, Tiles}
use aiocflib.Crtp.Command.{raw}
use aiocflib.Bootloader.{BootloaderTarget, target_id, buffer_size}
use aiocflib.Bootloader.Link.{Link, send_bootloader_packet}
use aiocflib.Bootloader.Flash.{silent, report, load_loop, load_buffer_command, fill_buffer_with}
use aiocflib.Bootloader.Flash.Device.{FlashDevice, IsAddressable, at_address_fits, place}

module _ {S : Type 0} (link : Link S) (t : BootloaderTarget) (a : IsAddressable t)
    (d : FlashDevice S link t) where
  open d use {
    flash, buffer, load_answer, load_buffer, load_keeps, write_answer, write_pages, write_keeps,
  }

  -- The packet that loads bytes at an address of the buffer.
  loaded : ℕ → Bytes → S → S
  loaded at bs s =
      (send_bootloader_packet link
        (raw
          (place (target_id t.id) load_buffer_command (at / t.page_size) (at % t.page_size) ++ bs))
        s).1

  -- The chunks from `start` to `end` of the data are in the buffer.
  load_loop_lem :
      (cs : List (ℕ × ℕ)) (start end : ℕ) (bs : Bytes) (s : S)
      → Tiles 25 start end cs
      → end ≤ length bs
      → end ≤ length (buffer s)
      → end ≤ 2 ^ 16 * t.page_size
      → ((load_loop link t silent bs cs s).0 ≡ ok tt)
        × (buffer (load_loop link t silent bs cs s).1
            ≡ splice start (slice start (end - start) bs) (buffer s))
        × (flash (load_loop link t silent bs cs s).1 ≡ flash s)
  unfolding load_loop report loaded
  load_loop_lem [] start end bs s t₁ h k m =
      let nothing : end - start ≡ 0 = omega (arith, t₁) in
      (refl, rw nothing (sym (splice-nil start (buffer s))), refl)
  load_loop_lem ((at, size) ∷ rest) start end bs s (same, pos, small, inside, t₁) h k m =
      let piece = slice start size bs in
      let long : length piece ≡ size =
        omega (arith, inside, h, length-take size (drop start bs), length-drop start bs) in
      let page = start / t.page_size in
      let offset = start % t.page_size in
      let here : page * t.page_size + offset ≡ start = div-add-mod' start t.page_size in
      let short : length piece ≤ 25 = omega (arith, long, small) in
      let low =
        (div-lt_iff_lt-mul {x = start} {y = 2 ^ 16} a.positive).1 (omega (arith, pos, inside, m)) in
      let room : page * t.page_size + offset + length piece ≤ length (buffer s) =
        rw here (omega (arith, long, inside, k)) in
      let s' = loaded start piece s in
      let there : buffer s' ≡ splice start piece (buffer s) =
        rw here at (load_buffer s page offset piece low (mod-lt start a.positive) short room) in
      let still : length (buffer s') ≡ length (buffer s) =
        ap length there ∙ length-splice start piece (buffer s) (omega (arith, long, inside, k)) in
      let (done, after, kept) =
        load_loop_lem rest (start + size) end bs s' t₁ h (omega (arith, k, still)) m in
      let command =
        at_address_fits t a load_buffer_command start (omega arith)
          (omega (arith, pos, inside, m)) in
      rw (same, command, load_answer s page offset piece low (mod-lt start a.positive) short room)
        (
          done,
          after
              ∙ ap (splice (start + size) (slice (start + size) (end - (start + size)) bs)) there
              ∙ splice-slices start start size end bs (buffer s) inside h
                  (omega (arith, inside, k)),
          kept ∙ load_keeps s page offset piece,
        )

  -- The data is at the front of the buffer.
  pub fill_buffer_with_lem :
      (bs : Bytes) (s : S)
      → length bs ≤ buffer_size t
      → buffer_size t ≤ length (buffer s)
      → length bs ≤ 2 ^ 16 * t.page_size
      → ((fill_buffer_with link t bs false silent s).0 ≡ ok tt)
        × (buffer (fill_buffer_with link t bs false silent s).1 ≡ splice 0 bs (buffer s))
        × (flash (fill_buffer_with link t bs false silent s).1 ≡ flash s)
  unfolding fill_buffer_with
  fill_buffer_with_lem bs s h k m =
      let fits : ltb (buffer_size t) (length bs) ≡ false = ground (arith, h) in
      let (cs, e, t₁) = chunkify-Tiles 0 (length bs) 25 (omega arith) in
      let t₂ : Tiles 25 0 (length bs) cs = rw zero-add at t₁ in
      let (done, there, kept) =
        load_loop_lem cs 0 (length bs) bs s t₂ (omega arith) (omega (arith, h, k)) m in
      let all : slice 0 (length bs - 0) bs ≡ bs = take_all (length bs - 0) bs (omega arith) in
      rw (fits, e) (rw done (refl, rw all at there, kept))
