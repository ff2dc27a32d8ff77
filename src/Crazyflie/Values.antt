-- ===== src/Crazyflie/Values.antt =====
-- Numbers on the wire: what `_type_properties[type][1].pack` and `.unpack` do in
-- aiocflib/crazyflie/param.py and aiocflib/crazyflie/log.py. `F` is the type of Python's floats.
pub mod Integers
use aiocflib.Prelude.{
  ℕ, zero, suc, ◌+◌, ◌-◌, ◌*◌, ◌/◌, ◌%◌, ◌^◌, Bool, true, false, ◌&&◌, List, [], ◌∷◌, ◌++◌, Option,
  none, some, Result, ok, err, bind, key_error, value_error, struct_error, unicode_error, ltb, ◌==◌,
  if◌then◌else◌, Bytes, length, get_elem?, le_bytes, le_value, pack_uint, unpack_uint, bit_and,
}

-- A format of `struct`: a signed or an unsigned integer, or a float, with its bytes.
pub data Struct : Type 0 where
  signed : ℕ → Struct
  unsigned : ℕ → Struct
  floating : ℕ → Struct

-- `struct.size`
unfoldable pub size : Struct → ℕ
size (signed n) = n
size (unsigned n) = n
size (floating n) = n

-- A number of Python: `negative n` is the integer -(n + 1).
pub data Value (F : Type 0) : Type 0 where
  nonneg : ℕ → Value F
  negative : ℕ → Value F
  real : F → Value F

-- `struct`'s float formats, with the number of bytes: they take integers too.
pub record Floats (F : Type 0) : Type 0 where
  pub pack_float : ℕ → Value F → Result Bytes
  pub unpack_float : ℕ → Bytes → F

module _ {F : Type 0} (floats : Floats F) where
  -- `struct.pack(value)`, in two's complement for signed integers
  unfoldable pub pack : Struct → Value F → Result Bytes
  pack (signed n) (nonneg v) = if ltb (2 * v) (256 ^ n) then ok (le_bytes n v) else err struct_error
  pack (signed n) (negative v) =
      if ltb (2 * v) (256 ^ n) then ok (le_bytes n (256 ^ n - 1 - v)) else err struct_error
  pack (signed n) (real x) = err struct_error
  pack (unsigned n) (nonneg v) = pack_uint n v
  pack (unsigned n) (negative v) = err struct_error
  pack (unsigned n) (real x) = err struct_error
  pack (floating n) v = floats.pack_float n v

  -- A number of `n` bytes in two's complement.
  unfoldable pub from_twos_complement : ℕ → ℕ → Value F
  from_twos_complement n v = if ltb (2 * v) (256 ^ n) then nonneg v else negative (256 ^ n - 1 - v)

  -- `struct.unpack(data)[0]`
  unfoldable pub unpack : Struct → Bytes → Result (Value F)
  unfolding from_twos_complement
  unpack (signed n) bs = bind (unpack_uint n bs) (λ v. ok (from_twos_complement n v))
  unpack (unsigned n) bs = bind (unpack_uint n bs) (λ v. ok (nonneg v))
  unpack (floating n) bs =
      if length bs == n then ok (real (floats.unpack_float n bs)) else err struct_error
