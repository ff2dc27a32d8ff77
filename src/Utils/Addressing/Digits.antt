-- ===== src/Utils/Addressing/Digits.antt =====
-- What is printed is read back: decimal numbers and hexadecimal bytes.
use aiocflib.Prelude.{
  ℕ, zero, suc, ◌+◌, ◌-◌, ◌*◌, ◌/◌, ◌%◌, ◌^◌, ◌≤◌, ◌<◌, ◌≡◌, ◌==◌, refl, sym, ap, ◌∙◌, Bool, true,
  false, [], ◌∷◌, some, ok, Bytes, All, IsByte, length, ltb, arith, Bool-cases, inl, inr, dec_lt,
  subst, ◌⊎◌,
}
use native.Mathlib.Nat.{mod-lt}
use aiocflib.Prelude.Integers.{ℤ, pos, negsuc}
use aiocflib.Crazyflie.Names.{Text}
use aiocflib.Utils.Addressing.Numerals.{
  is_digit, is_space, skip_spaces, digits_value, or_value_error, negated, unsigned_value,
  signed_value, parse_int, decimal_loop, decimal, int_text, hex_value, unhexlify, upper_hex_digit,
  upper_hexlify, be_bytes,
}

abbrev pub IsDigit : ℕ → Type 0
IsDigit c = (b'0' ≤ c) × (c ≤ b'9')

digit :
    (m c : ℕ) (must : Bool) (cs : Text)
    → IsDigit c
    → digits_value m must (c ∷ cs) ≡ digits_value (10 * m + (c - b'0')) false cs
unfolding digits_value is_digit
digit m c must cs h = ground (arith, h.0, h.1)

decimal_loop-value :
    (fuel n : ℕ) (cs : Text)
    → n ≤ fuel
    → digits_value 0 true (decimal_loop fuel n cs) ≡ digits_value n false cs
unfolding decimal_loop
decimal_loop-value zero n cs h =
    let nothing : n ≡ 0 = omega (arith, h) in
    rw nothing (digit 0 b'0' true cs (omega arith, omega arith))
decimal_loop-value (suc fuel) n cs h = elim (dec_lt n 10) [
  | yes p ↦
      let small : ltb n 10 ≡ true = ground (arith, p) in
      let d = digit 0 (b'0' + n) true cs (omega arith, omega (arith, p)) in
      let e : 10 * 0 + (b'0' + n - b'0') ≡ n = omega arith in rw small (rw e at d)
  | no p ↦
      let large : ltb n 10 ≡ false = ground (arith, p) in
      let last = b'0' + n % 10 in
      let d = digit (n / 10) last false cs (omega arith, omega arith) in
      let e : 10 * (n / 10) + (last - b'0') ≡ n = omega arith in
      rw large (decimal_loop-value fuel (n / 10) (last ∷ cs) (omega (arith, h, p)) ∙ (rw e at d))
]

-- The decimal digits are digits, and there is one at least.
pub All-decimal_loop :
    (fuel n : ℕ) (cs : Text) → n ≤ fuel → All IsDigit cs → All IsDigit (decimal_loop fuel n cs)
unfolding decimal_loop
All-decimal_loop zero n cs h d = ((omega arith, omega arith), d)
All-decimal_loop (suc fuel) n cs h d = elim (Bool-cases (ltb n 10)) [
  | inl e ↦ let p : n < 10 = ground (arith, e) in rw e ((omega arith, omega (arith, p)), d)
  | inr e ↦
      let p : 10 ≤ n = ground (arith, e) in
      rw e (All-decimal_loop fuel (n / 10) _ (omega (arith, h, p)) ((omega arith, omega arith), d))
]

first_of_loop : (fuel n : ℕ) (cs : Text) → (d : ℕ) × (ds : Text) × (decimal_loop fuel n cs ≡ d ∷ ds)
unfolding decimal_loop
first_of_loop zero n cs = (b'0' + n % 10, cs, refl)
first_of_loop (suc fuel) n cs = elim (Bool-cases (ltb n 10)) [
  | inl e ↦ (b'0' + n, cs, rw e refl)
  | inr e ↦ let (d, ds, f) = first_of_loop fuel (n / 10) ((b'0' + n % 10) ∷ cs) in (d, ds, rw e f)
]

pub All-decimal : (n : ℕ) → All IsDigit (decimal n)
unfolding decimal
All-decimal n = All-decimal_loop n n [] (omega arith) tt

pub first_of_decimal : (n : ℕ) → (d : ℕ) × (ds : Text) × (decimal n ≡ d ∷ ds) × IsDigit d
unfolding decimal
first_of_decimal n =
    let (d, ds, e) = first_of_loop n n [] in (d, ds, e, (subst (All IsDigit) e (All-decimal n)).0)

decimal-value : (n : ℕ) → digits_value 0 true (decimal n) ≡ some n
unfolding decimal digits_value
decimal-value n = decimal_loop-value n n [] (omega arith)

signed_digit :
    (d n : ℕ) (ds : Text)
    → IsDigit d
    → digits_value 0 true (d ∷ ds) ≡ some n
    → parse_int (d ∷ ds) ≡ ok (pos n)
unfolding parse_int skip_spaces is_space signed_value unsigned_value or_value_error
signed_digit d n ds h e =
    let space : is_space d ≡ false = ground (arith, h.0, h.1) in
    let minus : (d == b'-') ≡ false = ground (arith, h.0) in
    let plus : (d == b'+') ≡ false = ground (arith, h.0) in
    rw (space, skip_spaces) (rw (minus, plus, signed_value) (rw (e, unsigned_value) refl))

-- Every integer is read back from its digits.
pub int_text-parse_int : (n : ℤ) → parse_int (int_text n) ≡ ok n
unfolding parse_int int_text skip_spaces is_space signed_value unsigned_value or_value_error negated
int_text-parse_int (pos n) =
    let (d, ds, e, h) = first_of_decimal n in
    ap parse_int e ∙ signed_digit d n ds h (ap (digits_value 0 true) (sym e) ∙ decimal-value n)
int_text-parse_int (negsuc n) = rw (decimal-value (suc n), unsigned_value) refl

hex_digit : (n : ℕ) → n < 16 → hex_value (upper_hex_digit n) ≡ some n
unfolding hex_value upper_hex_digit
hex_digit n h = ground (arith, h)

unhexlify_nil : unhexlify [] ≡ some []
unfolding unhexlify
unhexlify_nil = refl

hex_pair :
    (c d high low : ℕ) (cs : Text) (bs : Bytes)
    → hex_value c ≡ some high
    → hex_value d ≡ some low
    → unhexlify cs ≡ some bs
    → unhexlify (c ∷ d ∷ cs) ≡ some ((16 * high + low) ∷ bs)
unfolding unhexlify
hex_pair c d high low cs bs h l more =
    rw (h, unhexlify) (rw (l, unhexlify) (rw (more, unhexlify) refl))

-- Bytes are read back from their hexadecimal digits.
pub upper_hexlify-unhexlify : (bs : Bytes) → All IsByte bs → unhexlify (upper_hexlify bs) ≡ some bs
unfolding upper_hexlify
upper_hexlify-unhexlify [] h = unhexlify_nil
upper_hexlify-unhexlify (b ∷ bs) h =
    let high = hex_digit (b / 16) (omega (arith, h.0)) in
    let low = hex_digit (b % 16) (omega arith) in
    let both : 16 * (b / 16) + b % 16 ≡ b = omega arith in
    hex_pair (upper_hex_digit (b / 16)) (upper_hex_digit (b % 16)) (b / 16) (b % 16)
      (upper_hexlify bs) bs high low (upper_hexlify-unhexlify bs h.1)
    ∙ ap (λ c. some (c ∷ bs)) both

pub length-upper_hexlify : (bs : Bytes) → length (upper_hexlify bs) ≡ 2 * length bs
unfolding upper_hexlify
length-upper_hexlify [] = refl
length-upper_hexlify (b ∷ bs) = omega (arith, length-upper_hexlify bs)

abbrev pub IsUpperHex : ℕ → Type 0
IsUpperHex c = IsDigit c ⊎ ((b'A' ≤ c) × (c ≤ b'F'))

upper_hex_digit-IsUpperHex : (n : ℕ) → n < 16 → IsUpperHex (upper_hex_digit n)
unfolding upper_hex_digit
upper_hex_digit-IsUpperHex n h = elim (dec_lt n 10) [
  | yes p ↦
      let e : ltb n 10 ≡ true = ground (arith, p) in rw e (inl (omega arith, omega (arith, p)))
  | no p ↦
      let e : ltb n 10 ≡ false = ground (arith, p) in rw e (inr (omega arith, omega (arith, p, h)))
]

pub All-upper_hexlify : (bs : Bytes) → All IsByte bs → All IsUpperHex (upper_hexlify bs)
unfolding upper_hexlify
All-upper_hexlify [] h = tt
All-upper_hexlify (b ∷ bs) h =
    let high = upper_hex_digit-IsUpperHex (b / 16) (omega (arith, h.0)) in
    let low = upper_hex_digit-IsUpperHex (b % 16) (omega arith) in
    (high, (low, All-upper_hexlify bs h.1))

pub length-be_bytes : (n v : ℕ) → length (be_bytes n v) ≡ n
unfolding be_bytes
length-be_bytes zero v = refl
length-be_bytes (suc n) v = ap suc (length-be_bytes n v)

pub All-be_bytes : (n v : ℕ) → All IsByte (be_bytes n v)
unfolding be_bytes
All-be_bytes zero v = tt
All-be_bytes (suc n) v = (mod-lt (v / 256 ^ n) (omega arith), All-be_bytes n v)
