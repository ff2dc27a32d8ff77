-- ===== src/Crazyflie/Values/Integers.antt =====
-- Integers that are packed are unpacked again.
use aiocflib.Prelude.{
  ℕ, zero, suc, ◌-◌, ◌*◌, ◌^◌, ◌<◌, ◌≡◌, refl, false, ok, of_ok, ltb, Bytes, length, le_bytes,
  unpack_uint, length-le_bytes, le_value-le_bytes, pack_uint-unpack_uint, pack_uint-ok, Bool-cases,
  inl, inr, ltb→lt, arith,
}
use aiocflib.Crazyflie.Values.{
  Struct, signed, unsigned, floating, size, Value, nonneg, negative, real, Floats, pack, unpack,
  from_twos_complement,
}

abbrev pub IntegerStruct : Struct → Type 0
IntegerStruct (signed n) = 0 < n
IntegerStruct (unsigned n) = 0 < n
IntegerStruct (floating n) = ⊥

pub even_power : (n : ℕ) → 0 < n → (k : ℕ) × (256 ^ n ≡ 2 * k)
even_power zero h = absurd (omega arith)
even_power (suc n) h = (128 * 256 ^ n, omega arith)

unpack_le_bytes : (n v : ℕ) → v < 256 ^ n → unpack_uint n (le_bytes n v) ≡ ok v
unfolding unpack_uint
unpack_le_bytes n v h = ground (arith, length-le_bytes n v, le_value-le_bytes n v h)

pub size_positive : (t : Struct) → IntegerStruct t → 0 < size t
unfolding size
size_positive (signed n) i = i
size_positive (unsigned n) i = i
size_positive (floating n) i = elim i [ ]

module _ {F : Type 0} (floats : Floats F) where
  -- Two's complement needs at least one byte.
  pub pack-unpack :
      (t : Struct) (v : Value F) (bs : Bytes)
      → IntegerStruct t
      → pack floats t v ≡ ok bs
      → unpack floats t bs ≡ ok v
  unfolding pack unpack from_twos_complement
  pack-unpack (signed n) (nonneg v) bs i h = elim (Bool-cases (ltb (2 * v) (256 ^ n))) [
    | inr f ↦ absurd (ground (arith, f, h))
    | inl t ↦
        let e : ok (le_bytes n v) ≡ ok bs = rw t at h in
        of_ok (λ cs. unpack floats (signed n) cs ≡ ok (nonneg v)) e
          (rw (unpack_le_bytes n v (omega (arith, ltb→lt (2 * v) (256 ^ n) t)), t) refl)
  ]
  pack-unpack (signed n) (negative v) bs i h = elim (Bool-cases (ltb (2 * v) (256 ^ n))) [
    | inr f ↦ absurd (ground (arith, f, h))
    | inl t ↦
        let small = ltb→lt (2 * v) (256 ^ n) t in
        let e : ok (le_bytes n (256 ^ n - 1 - v)) ≡ ok bs = rw t at h in
        let (k, even) = even_power n i in
        let high : ltb (2 * (256 ^ n - 1 - v)) (256 ^ n) ≡ false = ground (arith, small, even) in
        let back : 256 ^ n - 1 - (256 ^ n - 1 - v) ≡ v = omega (arith, small) in
        of_ok (λ cs. unpack floats (signed n) cs ≡ ok (negative v)) e
          (rw (unpack_le_bytes n (256 ^ n - 1 - v) (omega (arith, small)), high, back) refl)
  ]
  pack-unpack (signed n) (real x) bs i h = absurd (ground arith)
  pack-unpack (unsigned n) (nonneg v) bs i h = rw (pack_uint-unpack_uint n v h)
  pack-unpack (unsigned n) (negative v) bs i h = absurd (ground arith)
  pack-unpack (unsigned n) (real x) bs i h = absurd (ground arith)
  pack-unpack (floating n) v bs i h = elim i [ ]

  pub length-pack :
      (t : Struct) (v : Value F) (bs : Bytes)
      → IntegerStruct t
      → pack floats t v ≡ ok bs
      → length bs ≡ size t
  unfolding pack size
  length-pack (signed n) (nonneg v) bs i h = ground (arith, h, length-le_bytes n v)
  length-pack (signed n) (negative v) bs i h =
      ground (arith, h, length-le_bytes n (256 ^ n - 1 - v))
  length-pack (signed n) (real x) bs i h = absurd (ground arith)
  length-pack (unsigned n) (nonneg v) bs i h =
      let (small, e) = pack_uint-ok n v h in rw e (length-le_bytes n v)
  length-pack (unsigned n) (negative v) bs i h = absurd (ground arith)
  length-pack (unsigned n) (real x) bs i h = absurd (ground arith)
  length-pack (floating n) v bs i h = elim i [ ]
