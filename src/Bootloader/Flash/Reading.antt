-- ===== src/Bootloader/Flash/Reading.antt =====
-- The loop of `read_flash` ends, whatever the bootloader answers; and from a bootloader that answers as
-- documented it gives the bytes of the flash memory.
use aiocflib.Prelude.{
  ℕ, zero, suc, ◌+◌, ◌-◌, ◌*◌, ◌/◌, ◌%◌, ◌≤◌, ◌<◌, ◌≡◌, ◌≢◌, refl, sym, ap, ◌∙◌, true, false, ◌++◌,
  Option, none, some, ok, Bytes, length, slice, drop, length-take, length-drop, take_all,
  slice-append, ◌^◌, Bool-cases, inl, inr, ltb, ◌==◌, arith,
}
use mathlib.Core.Option
use aiocflib.Prelude.Integers.{ℤ, pos, negsuc, to_nat, minus}
use native.Mathlib.Nat.{div-lt_iff_lt-mul, mod-lt, div-add-mod'}
use aiocflib.Prelude.Exec.{continue-ok}
use aiocflib.Bootloader.{BootloaderTarget, minus, flash_size}
use aiocflib.Bootloader.Link.{Link}
use aiocflib.Bootloader.Flash.Device.{FlashDevice, IsAddressable, at_address_fits}
use aiocflib.Bootloader.Flash.{
  ProgressHandler, silent, reset, report, read_piece, read_flash_loop, read_flash, amount,
  read_flash_command,
}

ok_none_or_some : {A : Type 0} {a : A} → ok (some a) ≡ ok none → ⊥
ok_none_or_some h = ground (arith, h)

map-none : (f : Bytes → Bytes) (o : Option Bytes) → ok (Option.map f o) ≡ ok none → o ≡ none
map-none f none h = refl
map-none f (some bs) h = absurd (ground (arith, h))

module _ {S : Type 0} (link : Link S) (t : BootloaderTarget) where
  read_flash_loop-enough :
      (fuel : ℕ) (p : ProgressHandler S) (address to_read : ℕ) (s : S)
      → to_read ≤ fuel
      → (read_flash_loop link t fuel p address to_read s).0 ≢ ok none
  unfolding read_flash_loop
  read_flash_loop-enough zero p address to_read s h k =
      let done : (to_read == 0) ≡ true = ground (arith, h) in ok_none_or_some (rw done at k)
  read_flash_loop-enough (suc fuel) p address to_read s h k = elim (Bool-cases (to_read == 0)) [
    | inl e ↦ ok_none_or_some (rw (e, read_flash_loop) at k)
    | inr e ↦
        let (bs, read, rest) =
          continue-ok (read_piece link t p address s).0 _ _ (rw (e, read_flash_loop) at k) in
        elim (Bool-cases (ltb (length bs) 25)) [
          | inl f ↦ ok_none_or_some (rw f at rest)
          | inr f ↦
              let (more, again, last) =
                continue-ok
                  (read_flash_loop link t fuel p (address + length bs) (to_read - length bs)
                    (read_piece link t p address s).1).0
                  _ _ (rw f at rest) in
              let long : 25 ≤ length bs = ground (arith, f) in
              read_flash_loop-enough fuel p (address + length bs) (to_read - length bs) _
                (omega (arith, long, h)) (again ∙ ap ok (map-none (λ cs. bs ++ cs) more last))
        ]
  ]

  -- Reading the flash memory ends: within as many rounds as bytes are to be read, whatever the bootloader
  -- answers, whatever the progress handler does and also when one of them raises.
  pub read_flash-ends :
      (address len : ℤ) (p : ProgressHandler S) (s : S)
      → (read_flash link t address len p s).0 ≢ ok none
  unfolding read_flash
  read_flash-ends (negsuc n) len p s h = ground (arith, h)
  read_flash-ends (pos address) len p s h =
      let (a, ready, rest) = continue-ok (reset p (amount t len address) s).0 _ _ h in
      read_flash_loop-enough (to_nat (amount t len address)) p address _ _ (omega arith) rest

-- The least multiple of 25 from `n` on.
abbrev pub whole_chunks : ℕ → ℕ
whole_chunks n = 25 * ((n + 24) / 25)

slice_end :
    (start m n : ℕ) (bs : Bytes)
    → length (slice start m bs) < m
    → m ≤ n
    → slice start n bs ≡ slice start m bs
slice_end start m n bs h k =
    let short : length (drop start bs) < m = omega (arith, h, length-take m (drop start bs)) in
    take_all n (drop start bs) (omega (arith, short, k))
    ∙ sym (take_all m (drop start bs) (omega (arith, short)))

module _ {S : Type 0} (link : Link S) (t : BootloaderTarget) (a : IsAddressable t)
    (d : FlashDevice S link t) where
  open d use {flash, read_answer, read_keeps}

  read_piece_lem :
      (address : ℕ) (s : S)
      → address < 2 ^ 16 * t.page_size
      → ((read_piece link t silent address s).0 ≡ ok (slice address 25 (flash s)))
        × (flash (read_piece link t silent address s).1 ≡ flash s)
  unfolding read_piece report
  read_piece_lem address s h =
      let place_of : address / t.page_size * t.page_size + address % t.page_size ≡ address =
        div-add-mod' address t.page_size in
      let page = (div-lt_iff_lt-mul a.positive).1 h in
      let answer =
        read_answer s (address / t.page_size) (address % t.page_size) page
          (mod-lt address a.positive) in
      rw (at_address_fits t a read_flash_command address (omega arith) h, answer)
        (rw place_of refl, read_keeps s (address / t.page_size) (address % t.page_size))

  read_flash_loop-slice :
      (fuel address to_read : ℕ) (s : S)
      → to_read ≤ fuel
      → address ≤ length (flash s)
      → length (flash s) < 2 ^ 16 * t.page_size
      → ((read_flash_loop link t fuel silent address to_read s).0
          ≡ ok (some (slice address (whole_chunks to_read) (flash s))))
        × (flash (read_flash_loop link t fuel silent address to_read s).1 ≡ flash s)
  unfolding read_flash_loop
  read_flash_loop-slice zero address to_read s h k l =
      let nothing : to_read ≡ 0 = omega arith in rw nothing (refl, refl)
  read_flash_loop-slice (suc fuel) address to_read s h k l = elim (Bool-cases (to_read == 0)) [
    | inl e ↦ let nothing : to_read ≡ 0 = ground (arith, e) in rw nothing (refl, refl)
    | inr e ↦
        let positive : 0 < to_read = ground (arith, e) in
        let piece = read_piece_lem address s (omega (arith, k, l)) in
        elim (Bool-cases (ltb (length (slice address 25 (flash s))) 25)) [
          | inl f ↦
              let short : length (slice address 25 (flash s)) < 25 = ground (arith, f) in
              let more : 25 ≤ whole_chunks to_read = omega (arith, positive) in
              rw (e, piece.0)
                (rw f (
                  ap (λ x. ok (some x))
                      (sym (slice_end address 25 (whole_chunks to_read) (flash s) short more)),
                  piece.1,
                ))
          | inr f ↦
              let all : 25 ≤ length (slice address 25 (flash s)) = ground (arith, f) in
              let long : length (slice address 25 (flash s)) ≡ 25 =
                omega (arith, all, length-take 25 (drop address (flash s))) in
              let room : address + 25 ≤ length (flash s) = omega (
                arith,
                all,
                length-take 25 (drop address (flash s)),
                length-drop address (flash s),
              ) in
              let same = ap length piece.1 in
              let next : whole_chunks to_read ≡ 25 + whole_chunks (to_read - 25) =
                omega (arith, positive) in
              let ih =
                read_flash_loop-slice fuel (address + 25) (to_read - 25)
                  (read_piece link t silent address s).1 (omega (arith, h))
                  (omega (arith, room, same)) (omega (arith, l, same)) in
              rw (e, piece.0)
                (rw f (
                  rw long (
                    rw ih.0 (
                      rw (piece.1, next)
                          (ap (λ x. ok (some x))
                            (sym
                              (slice-append address 25 (whole_chunks (to_read - 25)) (flash s)))),
                      ih.1 ∙ piece.1,
                    ))))
        ]
  ]

  -- Reading from a target that answers as documented, from an address within its flash memory: for a length
  -- the result is the bytes there, up to the next multiple of 25 from the length on or to the end of the memory
  -- (so it may be longer than the length); for a negative length it is the rest of the memory. The memory
  -- is not changed.
  pub read_flash-contents :
      (address : ℕ) (s : S)
      → address ≤ length (flash s)
      → length (flash s) < 2 ^ 16 * t.page_size
      → ((n : ℕ)
          → ((read_flash link t (pos address) (pos n) silent s).0
              ≡ ok (some (slice address (whole_chunks n) (flash s))))
            × (flash (read_flash link t (pos address) (pos n) silent s).1 ≡ flash s))
        × ((k : ℕ)
            → length (flash s) ≡ flash_size t
            → ((read_flash link t (pos address) (negsuc k) silent s).0
                ≡ ok (some (drop address (flash s))))
              × (flash (read_flash link t (pos address) (negsuc k) silent s).1 ≡ flash s))
  unfolding read_flash amount reset to_nat minus
  read_flash-contents address s h k = (
    λ n. read_flash_loop-slice n address n s (omega arith) h k,
    λ m e.
        let inside : ltb (flash_size t) address ≡ false = ground (arith, h, e) in
        let rest = flash_size t - address in
        let (got, kept) = read_flash_loop-slice rest address rest s (omega arith) h k in
        let all : slice address (whole_chunks rest) (flash s) ≡ drop address (flash s) =
          take_all (whole_chunks rest) (drop address (flash s))
            (omega (arith, length-drop address (flash s), e)) in
        rw inside (rw all at got, kept),
  )
