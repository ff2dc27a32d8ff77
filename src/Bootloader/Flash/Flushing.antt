-- ===== src/Bootloader/Flash/Flushing.antt =====
-- Filling the buffer of a target that answers as documented and writing its pages puts a piece of data at its
-- place in the flash memory.
use aiocflib.Prelude.{
  ℕ, ◌+◌, ◌-◌, ◌*◌, ◌/◌, ◌%◌, ◌^◌, ◌≤◌, ◌<◌, ◌≡◌, ◌==◌, refl, ap, ◌∙◌, false, ◌++◌, ok, Bytes,
  length, splice, take, drop, length-take, length-drop, arith, ap₂, subst,
}
use native.Mathlib.Nat.{div-lt_iff_lt-mul, div-add-mod', zero-add}
use aiocflib.Prelude.Splice.{length-splice}
use aiocflib.Bootloader.{BootloaderTarget, buffer_size}
use aiocflib.Bootloader.Link.{Link}
use aiocflib.Bootloader.Flash.{
  silent, fill_buffer_with, flush_buffer_to_flash, pages_for, divmod, flash_status, write_command,
  write_params,
}
use aiocflib.Bootloader.Flash.Device.{
  FlashDevice, IsAddressable, write_params_fits, write_command_fits,
}
use aiocflib.Bootloader.Flash.Pages.{
  take_pad, pages_for_most, pages_for_fit, pages_for_covers, buffer_size-lt,
}
use aiocflib.Bootloader.Flash.Filling.{fill_buffer_with_lem}

module _ {S : Type 0} (link : Link S) (t : BootloaderTarget) (a : IsAddressable t)
    (d : FlashDevice S link t) where
  open d use {
    flash, buffer, load_answer, load_buffer, load_keeps, write_answer, write_pages, write_keeps,
  }

  flush_buffer_to_flash_lem :
      (address size : ℕ) (s : S)
      → address % t.page_size ≡ 0
      → address < 2 ^ 16 * t.page_size
      → pages_for t size < 2 ^ 16
      → pages_for t size * t.page_size ≤ length (buffer s)
      → address + pages_for t size * t.page_size ≤ length (flash s)
      → ((flush_buffer_to_flash link t address size s).0 ≡ ok tt)
        × (flash (flush_buffer_to_flash link t address size s).1
            ≡ splice address (take (pages_for t size * t.page_size) (buffer s)) (flash s))
        × (buffer (flush_buffer_to_flash link t address size s).1 ≡ buffer s)
  unfolding flush_buffer_to_flash divmod flash_status write_command write_params
  flush_buffer_to_flash_lem address size s aligned h k l m =
      let start = address / t.page_size in
      let here : start * t.page_size ≡ address =
        omega (arith, div-add-mod' address t.page_size, aligned) in
      let nonzero : (t.page_size == 0) ≡ false = ground (arith, a.positive) in
      let low = (div-lt_iff_lt-mul a.positive).1 h in
      let count = pages_for t size in
      let inside : (start + count) * t.page_size ≤ length (flash s) = omega (arith, here, m) in
      let params = write_params_fits start count low k in
      rw (nonzero, aligned, write_command_fits t, params, write_answer s start count low k l inside)
        (refl, rw here at (write_pages s start count low k l inside), write_keeps s start count)

  -- What has been written for one chunk `piece` of the data, with what fills its last page.
  pub record Written (piece : Bytes) (address : ℕ) (s u : S) : Type 0 where
    pub rest : Bytes
    pub rest_length : length rest ≡ pages_for t (length piece) * t.page_size - length piece
    pub there : flash u ≡ splice address (piece ++ rest) (flash s)
    pub same_buffer : length (buffer u) ≡ length (buffer s)

  unfoldable pub filled : Bytes → S → S
  filled piece s = (fill_buffer_with link t piece false silent s).1

  flushed : Bytes → ℕ → S → S
  unfolding filled
  flushed piece address s = (flush_buffer_to_flash link t address (length piece) (filled piece s)).1

  -- The piece is as long as the buffer at most, and its pages are within the flash memory.
  pub record Fits (piece : Bytes) (address : ℕ) (s : S) : Type 0 where
    pub aligned : address % t.page_size ≡ 0
    pub short : length piece ≤ buffer_size t
    pub buffered : buffer_size t ≤ length (buffer s)
    pub inside : address + pages_for t (length piece) * t.page_size ≤ length (flash s)
    pub small : length (flash s) ≤ 2 ^ 16 * t.page_size
    pub some_byte : 0 < length piece

  write_piece_lem :
      (piece : Bytes) (address : ℕ) (s : S)
      → Fits piece address s
      → ((fill_buffer_with link t piece false silent s).0 ≡ ok tt)
        × ((flush_buffer_to_flash link t address (length piece) (filled piece s)).0 ≡ ok tt)
        × Written piece address s (flushed piece address s)
  unfolding filled flushed
  write_piece_lem piece address s f =
      let count = pages_for t (length piece) in
      let most = pages_for_most t a (length piece) f.short in
      let least = pages_for_covers t a (length piece) in
      let room : buffer_size t < 2 ^ 16 * t.page_size = buffer_size-lt t a in
      let (done, loaded, kept) =
        fill_buffer_with_lem link t a d piece s f.short f.buffered (omega (arith, f.short, room)) in
      let same =
        ap length loaded ∙ length-splice 0 piece (buffer s) (omega (arith, f.short, f.buffered)) in
      let front : buffer (filled piece s) ≡ piece ++ drop (length piece) (buffer s) =
        rw zero-add at loaded in
      let pages_fit : count * t.page_size ≤ length (buffer s) =
        omega (arith, pages_for_fit t a (length piece) f.short, f.buffered) in
      let kept_length = ap length kept in
      let (ended, wrote, still) =
        flush_buffer_to_flash_lem address (length piece) (filled piece s) f.aligned
          (omega (arith, f.inside, least.0, f.some_byte, f.small)) (omega (arith, most, a.few))
          (omega (arith, pages_fit, same)) (omega (arith, f.inside, kept_length)) in
      (
        done,
        ended,
        record {
          rest = take (count * t.page_size - length piece) (drop (length piece) (buffer s));
          rest_length = omega (
            arith,
            length-take (count * t.page_size - length piece) (drop (length piece) (buffer s)),
            length-drop (length piece) (buffer s),
            pages_fit,
          );
          there =
              wrote
              ∙ ap₂ (λ u v. splice address (take (count * t.page_size) u) v) front kept
              ∙ ap (λ u. splice address u (flash s))
                  (take_pad (count * t.page_size) piece (drop (length piece) (buffer s)) least.0);
          same_buffer = ap length still ∙ same;
        },
      )

  pub write_sized_lem :
      (piece : Bytes) (size address : ℕ) (s : S)
      → length piece ≡ size
      → Fits piece address s
      → ((fill_buffer_with link t piece false silent s).0 ≡ ok tt)
        × ((flush_buffer_to_flash link t address size (filled piece s)).0 ≡ ok tt)
        × Written piece address s (flush_buffer_to_flash link t address size (filled piece s)).1
  unfolding flushed
  write_sized_lem piece size address s long f =
      subst
        (λ n.
          ((fill_buffer_with link t piece false silent s).0 ≡ ok tt)
          × ((flush_buffer_to_flash link t address n (filled piece s)).0 ≡ ok tt)
          × Written piece address s (flush_buffer_to_flash link t address n (filled piece s)).1)
        long (write_piece_lem piece address s f)
