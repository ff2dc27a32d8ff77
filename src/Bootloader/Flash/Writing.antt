-- ===== src/Bootloader/Flash/Writing.antt =====
-- Writing the flash memory of a target that answers as documented puts the data at its place.
use aiocflib.Prelude.{
  ℕ, ◌+◌, ◌-◌, ◌*◌, ◌%◌, ◌^◌, ◌≤◌, ◌<◌, ◌≡◌, ◌==◌, refl, sym, false, List, [], ◌∷◌, ◌++◌, ok, Bytes,
  length, slice, splice, take_all, arith, min, dec_lt,
}
use aiocflib.Prelude.Splice.{splice-nil}
use aiocflib.Utils.Chunks.{chunkify-Full, Tiles, Full}
use aiocflib.Bootloader.{BootloaderTarget, buffer_size}
use aiocflib.Bootloader.Link.{Link}
use aiocflib.Bootloader.Flash.{
  silent, flush_buffer_to_flash, write_flash_loop, write_flash, pages_for, divmod, reset,
}
use aiocflib.Bootloader.Flash.Device.{FlashDevice, IsAddressable}
use aiocflib.Bootloader.Flash.Pages.{pages_for_covers, buffer_size_positive, pages_for_nothing}
use aiocflib.Bootloader.Flash.Flushing.{filled, write_sized_lem}
use aiocflib.Bootloader.Flash.Joining.{
  FitsAll, AllWritten, piece, length-piece, chunk-Fits, rest_fits, joined_more, joined_last,
}

module _ {S : Type 0} (link : Link S) (t : BootloaderTarget) (a : IsAddressable t)
    (d : FlashDevice S link t) where
  open d use {
    flash, buffer, load_answer, load_buffer, load_keeps, write_answer, write_pages, write_keeps,
  }

  write_flash_loop_lem :
      (cs : List (ℕ × ℕ)) (start end address : ℕ) (bs : Bytes) (s : S)
      → Tiles (buffer_size t) start end cs
      → Full (buffer_size t) end cs
      → FitsAll link t a d start end address bs s
      → ((write_flash_loop link t silent bs address cs s).0 ≡ ok tt)
        × AllWritten link t a d start end address bs s
            (write_flash_loop link t silent bs address cs s).1
  unfolding write_flash_loop filled piece
  write_flash_loop_lem [] start end address bs s tiles full f =
      let nothing : end - start ≡ 0 = omega (arith, tiles) in
      (
        refl,
        record {
          rest = [];
          rest_length = rw (nothing, pages_for_nothing t a) (omega arith);
          there = rw nothing (sym (splice-nil address (flash s)));
        },
      )
  write_flash_loop_lem ((at, size) ∷ rest) start end address bs s
        (same, some_byte, short, inside, tiles) (most, full) f =
      let most' : size ≡ min (buffer_size t) (end - start) = omega (arith, most, same) in
      let fits = chunk-Fits link t a d start size end address bs s s most' some_byte inside f in
      let long = length-piece link t a d start size end address bs s s most' some_byte inside f in
      let (filling, flushing, w) =
        write_sized_lem link t a d (slice start size bs) size address s long fits in
      let u =
        (flush_buffer_to_flash link t address size (filled link t a d (slice start size bs) s)).1 in
      let (done, after) =
        write_flash_loop_lem rest (start + size) end (address + size) bs u tiles full
          (rest_fits link t a d start size end address bs s u most' some_byte inside f w) in
      rw (same, filling)
        (rw flushing (
          done,
          elim (dec_lt (start + size) end) [
            | yes h ↦
                joined_more link t a d start size end address bs s u most' some_byte inside f _ h w
                  after
            | no h ↦
                joined_last link t a d start size end address bs s u most' some_byte inside f _
                  (omega (arith, h, inside)) w after
          ],
        ))

  -- Writing data to the start of a page of a target that answers as documented, with room for the pages of the
  -- data in its flash memory: the data is then at its place, behind it at most the rest of its last page
  -- is overwritten too, and nothing else of the flash memory is changed.
  pub write_flash-contents :
      (address : ℕ) (bs : Bytes) (s : S)
      → address % t.page_size ≡ 0
      → buffer_size t ≤ length (buffer s)
      → address + pages_for t (length bs) * t.page_size ≤ length (flash s)
      → length (flash s) ≤ 2 ^ 16 * t.page_size
      → ((write_flash link t address bs silent s).0 ≡ ok tt)
        × ((rest : Bytes) × (length rest < t.page_size)
            × (flash (write_flash link t address bs silent s).1
                ≡ splice address (bs ++ rest) (flash s)))
  unfolding write_flash reset divmod
  write_flash-contents address bs s aligned buffered inside small =
      let nonzero : (t.page_size == 0) ≡ false = ground (arith, a.positive) in
      let (cs, e, tiles, full) =
        chunkify-Full 0 (length bs) (buffer_size t) (buffer_size_positive t a) in
      let end : 0 + length bs ≡ length bs = omega arith in
      let all : slice 0 (length bs - 0) bs ≡ bs = take_all (length bs - 0) bs (omega arith) in
      let size : length bs - 0 ≡ length bs = omega arith in
      let (done, after) =
        write_flash_loop_lem cs 0 (length bs) address bs s (rw end at tiles) (rw end at full)
          (record {
            aligned = λ h. aligned;
            bounded = omega arith;
            buffered = buffered;
            inside = rw size inside;
            small = small;
          }) in
      let covers = (pages_for_covers t a (length bs)).1 in
      let rest_length = rw size at after.rest_length in
      let short : length after.rest < t.page_size =
        omega (arith, rest_length, covers, a.positive) in
      rw (nonzero, aligned, e) (done, (after.rest, short, rw all at after.there))
