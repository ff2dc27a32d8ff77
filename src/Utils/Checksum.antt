-- ===== src/Utils/Checksum.antt =====
-- aiocflib/utils/checksum.py. `binascii.crc32` is a parameter.
use aiocflib.Prelude.{
  ℕ, zero, suc, ◌-◌, ◌*◌, ◌/◌, ◌%◌, ◌^◌, ◌<◌, ◌≡◌, ◌≢◌, refl, Bool, true, false, inl, inr,
  Bool-cases, not, [], ◌∷◌, ◌++◌, Result, leb, if◌then◌else◌, take, length, length-append,
  length-take, Bytes, pack_uint, not_all_zero, arith,
}

-- The four bytes 0b ad ca fe, repeated.
repeat : ℕ → Bytes → Bytes
repeat zero bs = []
repeat (suc n) bs = bs ++ repeat n bs

unfoldable pub sentinel : Bytes
unfolding repeat
sentinel = repeat 64 (0x0b ∷ 0xad ∷ 0xca ∷ 0xfe ∷ [])

-- `_uint32_struct.pack(crc32_uint32(data) & 0xFFFFFFFF)`
unfoldable pub crc32 : (Bytes → ℕ) → Bytes → Result Bytes
crc32 crc32_uint32 bs = pack_uint 4 (crc32_uint32 bs % 2 ^ 32)

-- `data and not any(x for x in data)`
abbrev is_zeros : Bytes → Bool
is_zeros [] = false
is_zeros (b ∷ bs) = not (not_all_zero (b ∷ bs))

-- As much of the repeated sentinel as is needed for `size` bytes.
filler : ℕ → Bytes
unfolding repeat
filler size =
    if leb size (length sentinel)
    then take size sentinel
    else let result = repeat (size / length sentinel) sentinel in
      result ++ take (size - length result) sentinel

unfoldable pub ensure_not_all_zero_bytes : Bytes → Bytes
unfolding filler
ensure_not_all_zero_bytes bs = if is_zeros bs then filler (length bs) else bs

length-repeat : (n : ℕ) (bs : Bytes) → length (repeat n bs) ≡ n * length bs
unfolding repeat
length-repeat zero bs = omega arith
length-repeat (suc n) bs = omega (arith, length-append bs (repeat n bs), length-repeat n bs)

length-sentinel : length sentinel ≡ 256
unfolding sentinel
length-sentinel = refl

length-filler : (size : ℕ) → length (filler size) ≡ size
unfolding filler
length-filler size = ground (
  arith,
  length-sentinel,
  length-take size sentinel,
  length-append (repeat (size / length sentinel) sentinel)
      (take (size - length (repeat (size / length sentinel) sentinel)) sentinel),
  length-repeat (size / length sentinel) sentinel,
  length-take (size - length (repeat (size / length sentinel) sentinel)) sentinel,
)

not_all_zero-repeat : (n : ℕ) (bs : Bytes) → not_all_zero (repeat (suc n) sentinel ++ bs) ≡ true
unfolding repeat sentinel not_all_zero
not_all_zero-repeat n bs = refl

not_all_zero-filler : (size : ℕ) → 0 < size → not_all_zero (filler size) ≡ true
unfolding filler
not_all_zero-filler zero h = absurd (omega arith)
not_all_zero-filler (suc size) h = elim (Bool-cases (leb (suc size) (length sentinel))) [
  | inl short ↦ rw short (unfold sentinel not_all_zero in refl)
  | inr long ↦
      let n = suc size / length sentinel in
      let more : n ≡ suc (n - 1) = rw length-sentinel (ground (arith, length-sentinel, long)) in
      rw (long, more) (not_all_zero-repeat _ _)
]

-- The result is as long as the input, whatever the input.
pub length-ensure_not_all_zero_bytes :
    (bs : Bytes) → length (ensure_not_all_zero_bytes bs) ≡ length bs
unfolding ensure_not_all_zero_bytes
length-ensure_not_all_zero_bytes bs = ground (arith, length-filler (length bs))

-- The result of a non-empty input has a byte that is not zero.
pub not_all_zero-ensure_not_all_zero_bytes :
    (bs : Bytes) → bs ≢ [] → not_all_zero (ensure_not_all_zero_bytes bs) ≡ true
unfolding ensure_not_all_zero_bytes
not_all_zero-ensure_not_all_zero_bytes [] h = absurd (h refl)
not_all_zero-ensure_not_all_zero_bytes (b ∷ bs) h =
    ground (arith, not_all_zero-filler (length (b ∷ bs)))
