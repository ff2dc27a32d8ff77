-- ===== src/Bootloader/Flash/Pages.antt =====
-- How many pages `_flush_buffer_to_flash` writes, and what stands behind the data in the last of them.
use aiocflib.Prelude.{
  ℕ, suc, ◌+◌, ◌-◌, ◌*◌, ◌%◌, ◌^◌, ◌≤◌, ◌<◌, ◌≡◌, ap, ap₂, ◌∙◌, ◌++◌, Bytes, length, take, take_add,
  take-append, drop-append, arith, min, dec_le,
}
use native.Mathlib.Nat.{
  div-lt_iff_lt-mul, mod-lt, div-add-mod', add-mul-div_right, add-mul-mod_self_right, one-le-mul,
  div-eq_of_lt, mul-le-mul_right, mul-lt-mul_of_pos_right,
}
use aiocflib.Bootloader.{BootloaderTarget, buffer_size}
use aiocflib.Bootloader.Flash.{pages_for}
use aiocflib.Bootloader.Flash.Device.{IsAddressable}

pub take_pad :
    (n : ℕ) (xs ys : Bytes) → length xs ≤ n → take n (xs ++ ys) ≡ xs ++ take (n - length xs) ys
take_pad n xs ys h =
    let e : n ≡ length xs + (n - length xs) = omega (arith, h) in
    ap (λ k. take k (xs ++ ys)) e
    ∙ take_add (length xs) (n - length xs) (xs ++ ys)
    ∙ ap₂ (λ u v. u ++ take (n - length xs) v) (take-append xs ys) (drop-append xs ys)

module _ (t : BootloaderTarget) (a : IsAddressable t) where
  -- The pages of what fits into the buffer are pages of the buffer.
  pub pages_for_most : (size : ℕ) → size ≤ buffer_size t → pages_for t size ≤ t.buffer_pages
  unfolding pages_for buffer_size
  pages_for_most size h =
      let e =
        (div-lt_iff_lt-mul {x = size + t.page_size - 1} {y = suc t.buffer_pages} a.positive).1
          (omega (arith, h, a.positive)) in
      omega (arith, e)

  pub pages_for_covers :
      (size : ℕ)
      → (size ≤ pages_for t size * t.page_size)
        × (pages_for t size * t.page_size < size + t.page_size)
  unfolding pages_for
  pages_for_covers size =
      let n = size + t.page_size - 1 in
      let whole = div-add-mod' n t.page_size in
      let rest = mod-lt n a.positive in
      (omega (arith, whole, rest, a.positive), omega (arith, whole, rest, a.positive))

  -- A full buffer takes all pages of the buffer.
  pub pages_for_more :
      (m : ℕ)
      → pages_for t (buffer_size t + m) * t.page_size ≡ buffer_size t + pages_for t m * t.page_size
  unfolding pages_for buffer_size
  pages_for_more m =
      let e : t.buffer_pages * t.page_size + m + t.page_size - 1
          ≡ m + t.page_size - 1 + t.buffer_pages * t.page_size =
        omega (arith, a.positive) in
      rw (e, add-mul-div_right (m + t.page_size - 1) t.buffer_pages a.positive) (omega arith)

  pub pages_for_fit :
      (size : ℕ) → size ≤ buffer_size t → pages_for t size * t.page_size ≤ buffer_size t
  unfolding buffer_size
  pages_for_fit size h = mul-le-mul_right t.page_size (pages_for_most size h)

  pub buffer_size-lt : buffer_size t < 2 ^ 16 * t.page_size
  unfolding buffer_size
  buffer_size-lt = mul-lt-mul_of_pos_right a.few a.positive

  pub buffer_size_positive : 0 < buffer_size t
  unfolding buffer_size
  buffer_size_positive = one-le-mul a.buffered a.positive

  -- Behind a full buffer an address is still at the start of a page.
  pub aligned_next :
      (address : ℕ) → address % t.page_size ≡ 0 → (address + buffer_size t) % t.page_size ≡ 0
  unfolding buffer_size
  aligned_next address h = add-mul-mod_self_right address t.buffer_pages t.page_size ∙ h

  pub pages_for_nothing : pages_for t 0 ≡ 0
  unfolding pages_for
  pages_for_nothing = div-eq_of_lt (omega (arith, a.positive))

  pub pages_for_full : pages_for t (buffer_size t) * t.page_size ≡ buffer_size t
  pages_for_full =
      let e = pages_for_more 0 in
      let f = ap (λ n. n * t.page_size) pages_for_nothing in
      let g : buffer_size t + 0 ≡ buffer_size t = omega arith in omega (arith, rw g at e, f)

  -- The pages of a chunk and of what follows it are the pages of both.
  pub pages_for_split :
      (size n : ℕ)
      → size ≡ min (buffer_size t) n
      → pages_for t n * t.page_size
        ≡ pages_for t size * t.page_size + pages_for t (n - size) * t.page_size
  pages_for_split size n h = elim (dec_le n (buffer_size t)) [
    | yes p ↦
        let e : size ≡ n = omega (arith, h, p) in
        let f : n - size ≡ 0 = omega (arith, e) in rw (f, pages_for_nothing, e) (omega arith)
    | no p ↦
        let e : size ≡ buffer_size t = omega (arith, h, p) in
        let f : buffer_size t + (n - buffer_size t) ≡ n = omega (arith, p) in
        rw (e, pages_for_full) (rw f at (pages_for_more (n - buffer_size t)))
  ]
