-- ===== src/Utils/Addressing/Addresses.antt =====
-- What `to_radio_address` makes of numbers and of their texts.
use aiocflib.Prelude.{
  ℕ, zero, suc, ◌+◌, ◌*◌, ◌/◌, ◌%◌, ◌^◌, ◌≤◌, ◌<◌, ◌≡◌, ◌==◌, refl, ap, Bool, true, false, [], ◌∷◌,
  some, ok, err, type_error, ltb, leb, arith, length,
}
use aiocflib.Prelude.Integers.{pos}
use aiocflib.Utils.Addressing.{
  numbered, text, default_address_for, address_of_number, address_bytes, number_address, filled,
  to_radio_address,
}
use aiocflib.Utils.Addressing.Numerals.{
  decimal_loop, decimal, int_text, unhexlify, be_value, be_bytes, hex_value,
}
use aiocflib.Utils.Addressing.Digits.{int_text-parse_int}

-- A number up to 255 stands behind the four bytes E7.
number_up_to_255 :
    (n : ℕ) → n ≤ 255 → default_address_for n ≡ ok (0xE7 ∷ 0xE7 ∷ 0xE7 ∷ 0xE7 ∷ n ∷ [])
unfolding default_address_for address_bytes be_value be_bytes
number_up_to_255 n h =
    let base : ℕ = 0xE7E7E7E700 in
    let a : (base + n) / 256 ^ 4 % 256 ≡ 0xE7 = omega (arith, h) in
    let b : (base + n) / 256 ^ 3 % 256 ≡ 0xE7 = omega (arith, h) in
    let c : (base + n) / 256 ^ 2 % 256 ≡ 0xE7 = omega (arith, h) in
    let d : (base + n) / 256 ^ 1 % 256 ≡ 0xE7 = omega (arith, h) in
    let e : (base + n) / 256 ^ 0 % 256 ≡ n = omega (arith, h) in
    let fits : ltb (base + n) (256 ^ 5) ≡ true = ground (arith, h) in rw (fits, a, b, c, d, e)

-- The two digits of a number from 10 to 99.
two_digits : (n : ℕ) → 10 ≤ n → n < 100 → decimal n ≡ (b'0' + n / 10) ∷ (b'0' + n % 10) ∷ []
unfolding decimal decimal_loop
two_digits zero h k = absurd (omega (arith, h))
two_digits (suc zero) h k = absurd (omega (arith, h))
two_digits (suc (suc m)) h k =
    let n = suc (suc m) in
    let first : ltb n 10 ≡ false = ground (arith, h) in
    let second : ltb (n / 10) 10 ≡ true = ground (arith, k) in rw first (rw second refl)

hex_of_digit : (k : ℕ) → k < 10 → hex_value (b'0' + k) ≡ some k
unfolding hex_value
hex_of_digit k h = ground (arith, h)

two_hex_digits :
    (j k : ℕ)
    → j < 10
    → k < 10
    → unhexlify ((b'0' + j) ∷ (b'0' + k) ∷ []) ≡ some ((16 * j + k) ∷ [])
unfolding unhexlify
two_hex_digits j k h l = rw (hex_of_digit j h, unhexlify) (rw (hex_of_digit k l) refl)

one_digit : (n : ℕ) → n < 10 → decimal n ≡ (b'0' + n) ∷ []
unfolding decimal decimal_loop
one_digit zero h = refl
one_digit (suc m) h = let small : ltb (suc m) 10 ≡ true = ground (arith, h) in rw small refl

odd_digits : (n : ℕ) → n < 10 → (length (decimal n) % 2 == 0) ≡ false
odd_digits n h = ap (λ cs. length cs % 2 == 0) (one_digit n h)

decimal_address :
    (n : ℕ) → n ≤ 255 → number_address (decimal n) ≡ ok (0xE7 ∷ 0xE7 ∷ 0xE7 ∷ 0xE7 ∷ n ∷ [])
unfolding number_address address_of_number int_text
decimal_address n h =
    let small : leb n 255 ≡ true = ground (arith, h) in
    rw (int_text-parse_int (pos n)) (rw small (number_up_to_255 n h))

-- A number up to 255 is the last byte of an address that begins with the four bytes E7. The same holds of its
-- decimal digits if it has one digit. The text of a number of two digits is taken for the hexadecimal digits
-- of one byte: without `allow_prefix` it is refused, and with it the byte is the first of the address and the
-- others are 0.
pub to_radio_address_lem :
    (n : ℕ) (allow_prefix : Bool)
    → (n ≤ 255
        → to_radio_address (numbered (pos n)) allow_prefix
          ≡ ok (0xE7 ∷ 0xE7 ∷ 0xE7 ∷ 0xE7 ∷ n ∷ []))
      × (n < 10
          → to_radio_address (text (decimal n)) allow_prefix
            ≡ ok (0xE7 ∷ 0xE7 ∷ 0xE7 ∷ 0xE7 ∷ n ∷ []))
      × (10 ≤ n → n < 100 → to_radio_address (text (decimal n)) false ≡ err type_error)
      × (10 ≤ n
          → n < 100
          → to_radio_address (text (decimal n)) true
            ≡ ok ((16 * (n / 10) + n % 10) ∷ 0 ∷ 0 ∷ 0 ∷ 0 ∷ []))
unfolding to_radio_address address_of_number number_address filled
to_radio_address_lem n allow_prefix = (
  λ h. let small : leb n 255 ≡ true = ground (arith, h) in rw small (number_up_to_255 n h),
  λ h. rw (odd_digits n h) (decimal_address n (omega (arith, h))),
  λ h k.
      rw (two_digits n h k)
        (rw (two_hex_digits (n / 10) (n % 10) (omega (arith, k)) (omega arith)) refl),
  λ h k.
      rw (two_digits n h k)
        (rw (two_hex_digits (n / 10) (n % 10) (omega (arith, k)) (omega arith)) refl),
)
