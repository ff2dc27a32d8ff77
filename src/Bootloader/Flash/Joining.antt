-- ===== src/Bootloader/Flash/Joining.antt =====
-- One chunk of the data of `write_flash`, and the chunks behind it.
use aiocflib.Prelude.{
  ℕ, ◌+◌, ◌-◌, ◌*◌, ◌%◌, ◌^◌, ◌≤◌, ◌<◌, ◌≡◌, refl, sym, ap, ◌∙◌, [], ◌∷◌, ◌++◌, Bytes, length,
  slice, splice, drop, length-take, length-drop, slice-append, arith, append-nil, min,
  length-append, dec_lt, append_assoc,
}
use aiocflib.Prelude.Splice.{splice-nil, length-splice, splice_next}
use aiocflib.Bootloader.{BootloaderTarget, buffer_size}
use aiocflib.Bootloader.Link.{Link}
use aiocflib.Bootloader.Flash.{pages_for}
use aiocflib.Bootloader.Flash.Device.{FlashDevice, IsAddressable}
use aiocflib.Bootloader.Flash.Pages.{
  pages_for_covers, aligned_next, pages_for_split, pages_for_full, pages_for_nothing,
}
use aiocflib.Bootloader.Flash.Flushing.{Written, Fits}

length_nil : (xs : Bytes) → length xs ≡ 0 → xs ≡ []
length_nil [] h = refl
length_nil (x ∷ xs) h = absurd (omega (arith, h))

module _ {S : Type 0} (link : Link S) (t : BootloaderTarget) (a : IsAddressable t)
    (d : FlashDevice S link t) where
  open d use {
    flash, buffer, load_answer, load_buffer, load_keeps, write_answer, write_pages, write_keeps,
  }

  pub record FitsAll (start end address : ℕ) (bs : Bytes) (s : S) : Type 0 where
    pub aligned : start < end → address % t.page_size ≡ 0
    pub bounded : end ≤ length bs
    pub buffered : buffer_size t ≤ length (buffer s)
    pub inside : address + pages_for t (end - start) * t.page_size ≤ length (flash s)
    pub small : length (flash s) ≤ 2 ^ 16 * t.page_size

  -- The chunks from `start` to `end` of the data are at their places, and behind the data is the rest of its
  -- last page.
  pub record AllWritten (start end address : ℕ) (bs : Bytes) (s u : S) : Type 0 where
    pub rest : Bytes
    pub rest_length : length rest ≡ pages_for t (end - start) * t.page_size - (end - start)
    pub there : flash u ≡ splice address (slice start (end - start) bs ++ rest) (flash s)

  -- One chunk of several.
  module _ (start size end address : ℕ) (bs : Bytes) (s u : S)
      (most : size ≡ min (buffer_size t) (end - start)) (some_byte : 1 ≤ size)
      (inside : start + size ≤ end) (f : FitsAll start end address bs s) where
    unfoldable pub piece : Bytes
    piece = slice start size bs

    pub length-piece : length piece ≡ size
    unfolding piece
    length-piece =
        omega (arith, inside, f.bounded, length-take size (drop start bs), length-drop start bs)

    split :
        pages_for t (end - start) * t.page_size
        ≡ pages_for t size * t.page_size + pages_for t (end - (start + size)) * t.page_size
    split =
        let e : end - start - size ≡ end - (start + size) = omega arith in
        rw e at (pages_for_split t a size (end - start) most)

    pub chunk-Fits : Fits link t a d piece address s
    chunk-Fits = record {
      aligned = f.aligned (omega (arith, some_byte, inside));
      short = omega (arith, most, length-piece);
      buffered = f.buffered;
      inside = rw length-piece (omega (arith, split, f.inside));
      small = f.small;
      some_byte = omega (arith, some_byte, length-piece);
    }

    more_full :
        start + size < end → (size ≡ buffer_size t) × (pages_for t size * t.page_size ≡ size)
    more_full h =
        let e : size ≡ buffer_size t = omega (arith, h, most) in (e, rw e (pages_for_full t a))

    room : address + pages_for t size * t.page_size ≤ length (flash s)
    room = omega (arith, split, f.inside)

    length-rest :
        (w : Written link t a d piece address s u)
        → length w.rest ≡ pages_for t size * t.page_size - size
    length-rest w = rw length-piece at w.rest_length

    same_flash : Written link t a d piece address s u → length (flash u) ≡ length (flash s)
    same_flash w =
        ap length w.there
        ∙ length-splice address (piece ++ w.rest) (flash s) (
            omega (
              arith,
              length-append piece w.rest,
              length-rest w,
              length-piece,
              room,
              (pages_for_covers t a size).0,
            ))

    pub rest_fits :
        Written link t a d piece address s u → FitsAll (start + size) end (address + size) bs u
    rest_fits w = record {
      aligned = λ h.
          let (e, g) = more_full h in
          rw e (aligned_next t a address (f.aligned (omega (arith, h))));
      bounded = f.bounded;
      buffered = omega (arith, w.same_buffer, f.buffered);
      inside = elim (dec_lt (start + size) end) [
        | yes h ↦ let (e, g) = more_full h in omega (arith, g, split, f.inside, same_flash w)
        | no h ↦
            let nothing : end - (start + size) ≡ 0 = omega (arith, h) in
            rw (nothing, pages_for_nothing t a)
              (omega (arith, same_flash w, room, (pages_for_covers t a size).0))
      ];
      small = omega (arith, same_flash w, f.small);
    }

    -- The chunk that is not the last one fills its pages, and behind the last one nothing is written.
    pub joined_more :
        (v : S)
        → start + size < end
        → Written link t a d piece address s u
        → AllWritten (start + size) end (address + size) bs u v
        → AllWritten start end address bs s v
    unfolding piece
    joined_more v h w after =
        let (e, g) = more_full h in
        let nothing : w.rest ≡ [] = length_nil w.rest (omega (arith, length-rest w, g)) in
        let next = slice (start + size) (end - (start + size)) bs in
        let next_length : length next ≡ end - (start + size) = omega (
          arith,
          inside,
          f.bounded,
          length-take (end - (start + size)) (drop (start + size) bs),
          length-drop (start + size) bs,
        ) in
        let before : flash u ≡ splice address piece (flash s) =
          w.there
          ∙ ap (λ r. splice address r (flash s))
              (ap (λ r. piece ++ r) nothing ∙ append-nil piece) in
        let whole : end - start ≡ size + (end - (start + size)) = omega (arith, inside) in
        let whole_slice : piece ++ next ≡ slice start (end - start) bs =
          rw whole (sym (slice-append start size (end - (start + size)) bs)) in
        record {
          rest = after.rest;
          rest_length = omega (arith, after.rest_length, split, g, inside);
          there =
              after.there
              ∙ ap (splice (address + size) (next ++ after.rest)) before
              ∙ splice_next address size piece (next ++ after.rest) (flash s) length-piece (
                  omega (
                    arith,
                    length-piece,
                    length-append next after.rest,
                    next_length,
                    after.rest_length,
                    split,
                    g,
                    f.inside,
                    (pages_for_covers t a (end - (start + size))).0,
                  ))
              ∙ ap (λ r. splice address r (flash s))
                  (sym (append_assoc piece next after.rest)
                    ∙ ap (λ r. r ++ after.rest) whole_slice);
        }

    pub joined_last :
        (v : S)
        → start + size ≡ end
        → Written link t a d piece address s u
        → AllWritten (start + size) end (address + size) bs u v
        → AllWritten start end address bs s v
    unfolding piece
    joined_last v h w after =
        let none_left : end - (start + size) ≡ 0 = omega (arith, h) in
        let whole : end - start ≡ size = omega (arith, h) in
        let no_length : length after.rest ≡ 0 * t.page_size - 0 =
          rw (none_left, pages_for_nothing t a) at after.rest_length in
        let nothing : after.rest ≡ [] = length_nil after.rest (omega (arith, no_length)) in
        let unchanged : flash v ≡ flash u =
          rw (none_left, nothing) at after.there ∙ splice-nil (address + size) (flash u) in
        record {
          rest = w.rest;
          rest_length = rw whole (length-rest w);
          there = rw whole (unchanged ∙ w.there);
        }
