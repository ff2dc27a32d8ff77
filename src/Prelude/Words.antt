-- ===== src/Prelude/Words.antt =====
-- Bytes, and the fixed-width little-endian integers of Python's `struct` module ("<B", "<H", "<I",
-- "<Q"): packing a value that does not fit raises `struct.error`, and so does unpacking another length.
use Prim.Native.Nat.{ℕ, zero, suc, ◌+◌, ◌*◌, ◌/◌, ◌%◌, ◌^◌, ◌<◌}
use mathlib.Core.Path.{◌≡◌, refl, ap, ap₂}
use mathlib.Core.Bool.{Bool, true, false, ◌&&◌}
use mathlib.Core.List.{List, [], ◌∷◌}
use native.Mathlib.Omega.{arith}
use aiocflib.Prelude.Tests.{ltb, ◌==◌, if◌then◌else◌}
use aiocflib.Prelude.Lists.{length, All}
use aiocflib.Prelude.Results.{Result, ok, err, struct_error}

abbrev pub Bytes : Type 0
Bytes = List ℕ

abbrev pub IsByte : ℕ → Type 0
IsByte b = b < 256

unfoldable pub le_bytes : ℕ → ℕ → Bytes
le_bytes zero v = []
le_bytes (suc n) v = (v % 256) ∷ le_bytes n (v / 256)

unfoldable pub le_value : Bytes → ℕ
le_value [] = 0
le_value (b ∷ bs) = b + 256 * le_value bs

unfoldable pub pack_uint : ℕ → ℕ → Result Bytes
pack_uint n v = if ltb v (256 ^ n) then ok (le_bytes n v) else err struct_error

unfoldable pub unpack_uint : ℕ → Bytes → Result ℕ
unpack_uint n bs = if length bs == n then ok (le_value bs) else err struct_error

-- `any(x for x in data)`
unfoldable pub not_all_zero : Bytes → Bool
not_all_zero [] = false
not_all_zero (b ∷ bs) = if b == 0 then not_all_zero bs else true

unfoldable pub bytes_eq : Bytes → Bytes → Bool
bytes_eq [] [] = true
bytes_eq [] (b ∷ bs) = false
bytes_eq (a ∷ as') [] = false
bytes_eq (a ∷ as') (b ∷ bs) = a == b && bytes_eq as' bs

pub bytes_eq→eq : (xs ys : Bytes) → bytes_eq xs ys ≡ true → xs ≡ ys
unfolding bytes_eq
bytes_eq→eq [] [] h = refl
bytes_eq→eq [] (y ∷ ys) h = absurd (ground arith)
bytes_eq→eq (x ∷ xs) [] h = absurd (ground arith)
bytes_eq→eq (x ∷ xs) (y ∷ ys) h = ground (arith, bytes_eq→eq xs ys)

pub bytes_eq_refl : (xs : Bytes) → bytes_eq xs xs ≡ true
unfolding bytes_eq
bytes_eq_refl [] = refl
bytes_eq_refl (x ∷ xs) = ground (arith, bytes_eq_refl xs)

pub length-le_bytes : (n v : ℕ) → length (le_bytes n v) ≡ n
unfolding le_bytes
length-le_bytes zero v = refl
length-le_bytes (suc n) v = ap suc (length-le_bytes n (v / 256))

pub le_bytes-All : (n v : ℕ) → All IsByte (le_bytes n v)
unfolding le_bytes
le_bytes-All zero v = tt
le_bytes-All (suc n) v = (omega arith, le_bytes-All n (v / 256))

pow_256 : (n : ℕ) → 256 ^ suc n ≡ 256 * 256 ^ n
pow_256 n = omega arith

pub le_value-le_bytes : (n v : ℕ) → v < 256 ^ n → le_value (le_bytes n v) ≡ v
unfolding le_bytes le_value
le_value-le_bytes zero v h = omega arith
le_value-le_bytes (suc n) v h =
    omega (arith, le_value-le_bytes n (v / 256) (omega (arith, pow_256 n)))

pub le_value-lt : (bs : Bytes) → All IsByte bs → le_value bs < 256 ^ length bs
unfolding le_value
le_value-lt [] h = omega arith
le_value-lt (b ∷ bs) h = omega (arith, h.0, le_value-lt bs h.1, pow_256 (length bs))

pub le_bytes-le_value : (bs : Bytes) → All IsByte bs → le_bytes (length bs) (le_value bs) ≡ bs
unfolding le_bytes le_value
le_bytes-le_value [] h = refl
le_bytes-le_value (b ∷ bs) h =
    let low : (b + 256 * le_value bs) % 256 ≡ b = omega (arith, h.0) in
    let high : (b + 256 * le_value bs) / 256 ≡ le_value bs = omega (arith, h.0) in
    ap₂ (λ x xs. x ∷ xs) low (rw high (le_bytes-le_value bs h.1))

pub pack_uint_fits : (n v : ℕ) → v < 256 ^ n → pack_uint n v ≡ ok (le_bytes n v)
unfolding pack_uint
pack_uint_fits n v h = ground arith

pub pack_uint-ok :
    (n v : ℕ) {bs : Bytes} → pack_uint n v ≡ ok bs → (v < 256 ^ n) × (bs ≡ le_bytes n v)
unfolding pack_uint
pack_uint-ok n v h = ground arith

-- What one side packs the other side unpacks.
pub pack_uint-unpack_uint : (n v : ℕ) {bs : Bytes} → pack_uint n v ≡ ok bs → unpack_uint n bs ≡ ok v
unfolding unpack_uint
pack_uint-unpack_uint n v {bs} h =
    let (fits, e) = pack_uint-ok n v h in
    rw e (ground (arith, length-le_bytes n v, le_value-le_bytes n v fits))
