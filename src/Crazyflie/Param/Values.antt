-- ===== src/Crazyflie/Param/Values.antt =====
-- Values of parameters on the wire.
use aiocflib.Prelude.{
  refl, sym, ◌-◌, ◌*◌, zero, suc, ◌/◌, ◌==◌, true, dec_lt, if◌then◌else◌, ◌^◌, ◌+◌, unpack_uint, ap,
  ◌∙◌, false, le_bytes-le_value, le_value-lt, le_value, ltb, ◌<◌, ◌≡◌, ok, Bytes, length, arith,
  All, IsByte, pack_uint_fits,
}
use aiocflib.Crazyflie.Param.{
  encoded_length, type_struct, ParameterSpecification, encode_value, parse_value, suc, ℕ, Bool,
}
use aiocflib.Crazyflie.Values.{
  Struct, Value, Floats, signed, unsigned, nonneg, negative, pack, unpack, from_twos_complement,
}
use aiocflib.Crazyflie.Values.Integers.{
  IntegerStruct, pack-unpack, length-pack, size_positive, even_power,
}

module _ {F : Type 0} (floats : Floats F) where
  pub length-encode_value :
      (spec : ParameterSpecification) (t : Struct) (v : Value F) (bs : Bytes)
      → type_struct spec.type ≡ ok t
      → IntegerStruct t
      → encode_value floats spec v ≡ ok bs
      → (0 < length bs) × (encoded_length spec ≡ ok (length bs))
  unfolding encode_value encoded_length
  length-encode_value spec t v bs e i h =
      let e' = length-pack floats t v bs i (rw e at h) in
      (omega (arith, e', size_positive t i), rw (e, e'))

  pub encode_value-parse_value :
      (spec : ParameterSpecification) (t : Struct) (v : Value F) (bs : Bytes)
      → type_struct spec.type ≡ ok t
      → IntegerStruct t
      → encode_value floats spec v ≡ ok bs
      → parse_value floats spec bs ≡ ok v
  unfolding encode_value parse_value
  encode_value-parse_value spec t v bs e i h = rw e (pack-unpack floats t v bs i (rw e at h))

-- The number that `n` bytes with the value `v` stand for in two's complement.
abbrev twos_complement_value : {F : Type 0} → ℕ → ℕ → Value F
twos_complement_value n v = if ltb v (256 ^ n / 2) then nonneg v else negative (256 ^ n - 1 - v)

-- The number that bytes stand for in little-endian order.
abbrev pub number_of : {F : Type 0} → Bool → Bytes → Value F
number_of true bs = twos_complement_value (length bs) (le_value bs)
number_of false bs = nonneg (le_value bs)

power_positive : (k : ℕ) → 0 < 2 ^ k
power_positive zero = omega arith
power_positive (suc k) = omega (arith, power_positive k)

-- The codes 0 to 3 are those of the signed integers and 8 to 11 those of the unsigned ones, by their size.
signed_code : (k : ℕ) → k < 4 → type_struct k ≡ ok (signed (2 ^ k))
unfolding type_struct
signed_code zero h = refl
signed_code (suc zero) h = refl
signed_code (suc (suc zero)) h = refl
signed_code (suc (suc (suc zero))) h = refl
signed_code (suc (suc (suc (suc k)))) h = absurd (omega (arith, h))

unsigned_code : (k : ℕ) → k < 4 → type_struct (8 + k) ≡ ok (unsigned (2 ^ k))
unfolding type_struct
unsigned_code zero h = refl
unsigned_code (suc zero) h = refl
unsigned_code (suc (suc zero)) h = refl
unsigned_code (suc (suc (suc zero))) h = refl
unsigned_code (suc (suc (suc (suc k)))) h = absurd (omega (arith, h))

module _ {F : Type 0} (floats : Floats F) where
  unsigned_back :
      (bs : Bytes)
      → All IsByte bs
      → (unpack floats (unsigned (length bs)) bs ≡ ok (nonneg (le_value bs)))
        × (pack floats (unsigned (length bs)) (nonneg (le_value bs)) ≡ ok bs)
  unfolding unpack pack unpack_uint
  unsigned_back bs h =
      let fits = pack_uint_fits (length bs) (le_value bs) (le_value-lt bs h) in
      (ground arith, fits ∙ ap ok (le_bytes-le_value bs h))

  signed_back :
      (bs : Bytes)
      → All IsByte bs
      → 0 < length bs
      → (unpack floats (signed (length bs)) bs
          ≡ ok (twos_complement_value (length bs) (le_value bs)))
        × (pack floats (signed (length bs)) (twos_complement_value (length bs) (le_value bs))
            ≡ ok bs)
  unfolding unpack pack unpack_uint from_twos_complement
  signed_back bs h some_bytes =
      let v = le_value bs in
      let n = length bs in
      let in_range : v < 256 ^ n = le_value-lt bs h in
      let (half, even) = even_power n some_bytes in
      let same : (n == n) ≡ true = ground arith in
      let back = ap ok (le_bytes-le_value bs h) in
      elim (dec_lt (2 * v) (256 ^ n)) [
        | yes p ↦
            let low : ltb (2 * v) (256 ^ n) ≡ true = ground (arith, p) in
            let low' : ltb v (256 ^ n / 2) ≡ true = ground (arith, p, even) in
            rw (same, low, low') (refl, rw low back)
        | no p ↦
            let high : ltb (2 * v) (256 ^ n) ≡ false = ground (arith, p) in
            let high' : ltb v (256 ^ n / 2) ≡ false = ground (arith, p, even) in
            let low : ltb (2 * (256 ^ n - 1 - v)) (256 ^ n) ≡ true =
              ground (arith, p, in_range, even) in
            let twice : 256 ^ n - 1 - (256 ^ n - 1 - v) ≡ v = omega (arith, in_range) in
            rw (same, high, high') (refl, rw (low, twice) back)
      ]

  -- Bytes of the size of a parameter's integer type are parsed to a value that is encoded as these bytes
  -- again. The value is the number that they are in little-endian order: without a sign for the codes 8 to
  -- 11, and in two's complement for the codes 0 to 3. The size is 1, 2, 4 and 8 bytes for the codes of each
  -- kind, in their order.
  pub parse_value-encode_value :
      (spec : ParameterSpecification) (is_signed : Bool) (k : ℕ) (bs : Bytes)
      → k < 4
      → spec.type ≡ (if is_signed then k else 8 + k)
      → length bs ≡ 2 ^ k
      → All IsByte bs
      → (parse_value floats spec bs ≡ ok (number_of is_signed bs))
        × (encode_value floats spec (number_of is_signed bs) ≡ ok bs)
  unfolding parse_value encode_value
  parse_value-encode_value spec true k bs h e size plain =
      rw (e, signed_code k h, sym size)
        (signed_back bs plain (omega (arith, size, power_positive k)))
  parse_value-encode_value spec false k bs h e size plain =
      rw (e, unsigned_code k h, sym size) (unsigned_back bs plain)
