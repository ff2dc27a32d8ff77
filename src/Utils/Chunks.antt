-- ===== src/Utils/Chunks.antt =====
-- `chunkify` of aiocflib/utils/chunks.py. A generator is the list of what it yields; addresses and
-- lengths are natural numbers. `range(addr, end, step)` raises `ValueError` for the step 0.
use aiocflib.Prelude.{
  ℕ, zero, suc, ◌+◌, ◌-◌, ◌≤◌, ◌<◌, min, ◌≡◌, refl, sym, ap, ◌∙◌, List, [], ◌∷◌, ◌++◌, Result, ok,
  err, value_error, ltb, ◌==◌, if◌then◌else◌, lt→ltb, slice, slice-append, append-nil, false,
  dec_le, dec_lt, arith, Bool-cases, All, inl, inr,
}

-- The loop over `range(start, end, step)`: the fuel bounds the number of rounds.
chunk_loop : ℕ → ℕ → ℕ → ℕ → List (ℕ × ℕ)
chunk_loop zero start end step = []
chunk_loop (suc fuel) start end step =
    let rest = chunk_loop fuel (start + step) end step in
    if ltb start end then (start, min step (end - start)) ∷ rest else []

-- Each round takes a byte at least, so `length` rounds are enough.
unfoldable pub chunkify : ℕ → ℕ → ℕ → Result (List (ℕ × ℕ))
unfolding chunk_loop
chunkify addr length step =
    if step == 0 then err value_error else ok (chunk_loop length addr (addr + length) step)

-- The pieces of `xs` at the given places, one behind the other.
module _ {ℓ} {A : Type ℓ} where
  unfoldable pub pieces : List (ℕ × ℕ) → List A → List A
  pieces [] xs = []
  pieces ((start, size) ∷ rest) xs = slice start size xs ++ pieces rest xs

  -- The first chunk and the rest of the range make up the range.
  slice_step :
      (start end step : ℕ) (xs : List A)
      → slice start (min step (end - start)) xs ++ slice (start + step) (end - (start + step)) xs
        ≡ slice start (end - start) xs
  slice_step start end step xs = elim (dec_le (start + step) end) [
    | yes p ↦
        let first : min step (end - start) ≡ step = omega (arith, p) in
        let whole : end - start ≡ step + (end - (start + step)) = omega (arith, p) in
        rw (first, whole) (sym (slice-append start step (end - (start + step)) xs))
    | no p ↦
        let first : min step (end - start) ≡ end - start = omega (arith, p) in
        let none_left : end - (start + step) ≡ 0 = omega (arith, p) in
        rw (first, none_left) (append-nil _)
  ]

  chunk_loop-pieces :
      (fuel start end step : ℕ) (xs : List A)
      → 0 < step
      → end ≤ start + fuel
      → pieces (chunk_loop fuel start end step) xs ≡ slice start (end - start) xs
  unfolding chunk_loop pieces
  chunk_loop-pieces zero start end step xs h e =
      let none_left : end - start ≡ 0 = omega arith in rw none_left
  chunk_loop-pieces (suc fuel) start end step xs h e = elim (dec_lt start end) [
    | yes p ↦ rw (lt→ltb start end p) (
        ap (λ ys. slice start (min step (end - start)) xs ++ ys)
          (chunk_loop-pieces fuel (start + step) end step xs h (omega (arith, h)))
        ∙ slice_step start end step xs)
    | no p ↦
        let none_left : end - start ≡ 0 = omega (arith, p) in
        let stop : ltb start end ≡ false = ground (arith, p) in rw (stop, none_left)
  ]

-- Chunks that follow one another from `start` to `end`, none empty and none longer than `step`.
abbrev pub Tiles : ℕ → ℕ → ℕ → List (ℕ × ℕ) → Type 0
Tiles step start end [] = start ≡ end
Tiles step start end ((at, size) ∷ rest) =
    (at ≡ start)
    × (1 ≤ size)
    × (size ≤ step)
    × (start + size ≤ end)
    × Tiles step (start + size) end rest

chunk_loop_past : (fuel start end step : ℕ) → end ≤ start → chunk_loop fuel start end step ≡ []
unfolding chunk_loop
chunk_loop_past zero start end step h = refl
chunk_loop_past (suc fuel) start end step h = ground arith

chunk_loop-Tiles :
    (fuel start end step : ℕ)
    → 0 < step
    → start ≤ end
    → end ≤ start + fuel
    → Tiles step start end (chunk_loop fuel start end step)
unfolding chunk_loop
chunk_loop-Tiles zero start end step h le e = omega arith
chunk_loop-Tiles (suc fuel) start end step h le e = elim (dec_lt start end) [
  | no p ↦ let stop : ltb start end ≡ false = ground (arith, p) in rw stop (omega (arith, p))
  | yes p ↦ rw (lt→ltb start end p) (elim (dec_le (start + step) end) [
    | yes q ↦
        let size : min step (end - start) ≡ step = omega (arith, q) in
        rw size (
          refl,
          h,
          omega arith,
          q,
          chunk_loop-Tiles fuel (start + step) end step h q (omega (arith, h)),
        )
    | no q ↦
        let size : min step (end - start) ≡ end - start = omega (arith, q) in
        rw (size, chunk_loop_past fuel (start + step) end step (omega (arith, q)))
          (refl, omega (arith, p), omega (arith, q), omega (arith, p), omega (arith, p))
  ])
]

chunkify-ok :
    (addr len step : ℕ)
    → 0 < step
    → chunkify addr len step ≡ ok (chunk_loop len addr (addr + len) step)
unfolding chunkify
chunkify-ok addr len step h = ground arith

-- For a positive step `chunkify` yields chunks, and the pieces of any byte string at these places,
-- put together in their order, are the slice of `length` bytes from `addr`.
pub chunkify-pieces {ℓ} :
    {A : Type ℓ} (addr len step : ℕ) (xs : List A)
    → 0 < step
    → (cs : List (ℕ × ℕ)) × (chunkify addr len step ≡ ok cs) × (pieces cs xs ≡ slice addr len xs)
chunkify-pieces addr len step xs h =
    let size : addr + len - addr ≡ len = omega arith in
    (
      chunk_loop len addr (addr + len) step,
      chunkify-ok addr len step h,
      chunk_loop-pieces len addr (addr + len) step xs h (omega arith)
          ∙ ap (λ n. slice addr n xs) size,
    )

-- For a positive step `chunkify` yields chunks that follow one another from `addr` to `addr + length`;
-- none is empty and none is longer than `step`.
pub chunkify-Tiles :
    (addr len step : ℕ)
    → 0 < step
    → (cs : List (ℕ × ℕ)) × (chunkify addr len step ≡ ok cs) × Tiles step addr (addr + len) cs
chunkify-Tiles addr len step h = (
  chunk_loop len addr (addr + len) step,
  chunkify-ok addr len step h,
  chunk_loop-Tiles len addr (addr + len) step h (omega arith) (omega arith),
)

-- Every chunk is as long as the step and the end of the range allow.
abbrev pub Full : ℕ → ℕ → List (ℕ × ℕ) → Type 0
Full step end cs = All (λ c. c.1 ≡ min step (end - c.0)) cs

chunk_loop-Full : (fuel start end step : ℕ) → Full step end (chunk_loop fuel start end step)
unfolding chunk_loop
chunk_loop-Full zero start end step = tt
chunk_loop-Full (suc fuel) start end step = elim (Bool-cases (ltb start end)) [
  | inl e ↦ rw e (refl, chunk_loop-Full fuel (start + step) end step)
  | inr e ↦ rw e tt
]

pub chunkify-Full :
    (addr len step : ℕ)
    → 0 < step
    → (cs : List (ℕ × ℕ)) × (chunkify addr len step ≡ ok cs)
      × Tiles step addr (addr + len) cs
      × Full step (addr + len) cs
chunkify-Full addr len step h = (
  chunk_loop len addr (addr + len) step,
  chunkify-ok addr len step h,
  chunk_loop-Tiles len addr (addr + len) step h (omega arith) (omega arith),
  chunk_loop-Full len addr (addr + len) step,
)
