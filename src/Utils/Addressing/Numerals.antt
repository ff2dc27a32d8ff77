-- ===== src/Utils/Addressing/Numerals.antt =====
-- Numbers in texts: Python's `int`, `str`, `unhexlify` and `hexlify`, and bytes in big-endian order. Of the
-- digits and spaces of Unicode, `int` knows those of ASCII here.
use aiocflib.Prelude.{
  ℕ, zero, suc, ◌+◌, ◌-◌, ◌*◌, ◌/◌, ◌%◌, ◌^◌, Bool, true, false, ◌&&◌, ◌||◌, [], ◌∷◌, Option, none,
  some, Result, ok, err, value_error, ltb, leb, ◌==◌, if◌then◌else◌, Bytes, length,
}
use aiocflib.Prelude.Integers.{ℤ, pos, negsuc}
use aiocflib.Crazyflie.Names.{Text}

unfoldable pub is_digit : ℕ → Bool
is_digit c = leb b'0' c && leb c b'9'

-- A space of ASCII: tab to carriage return, the four separators, and the blank.
unfoldable pub is_space : ℕ → Bool
is_space c = (leb 9 c && leb c 13) || (leb 28 c && leb c 32)

unfoldable pub skip_spaces : Text → Text
unfolding is_space
skip_spaces [] = []
skip_spaces (c ∷ cs) = let rest = skip_spaces cs in if is_space c then rest else c ∷ cs

unfoldable pub all_spaces : Text → Bool
unfolding is_space
all_spaces [] = true
all_spaces (c ∷ cs) = let rest = all_spaces cs in if is_space c then rest else false

-- The digits from the left, single underscores between them, and spaces behind them; `n` is the number so far,
-- and `open` says whether a digit must follow.
unfoldable pub digits_value : ℕ → Bool → Text → Option ℕ
unfolding is_digit all_spaces
digits_value n must [] = if must then none else some n
digits_value n must (c ∷ cs) =
    let more = digits_value (10 * n + (c - b'0')) false cs in
    let after = digits_value n true cs in
    if is_digit c
    then more
    else if must
    then none
    else if c == b'_'
    then after
    else if all_spaces (c ∷ cs)
    then some n
    else none

unfoldable pub or_value_error : Option ℤ → Result ℤ
or_value_error none = err value_error
or_value_error (some n) = ok n

unfoldable pub negated : ℕ → ℤ
negated zero = pos zero
negated (suc n) = negsuc n

unfoldable pub unsigned_value : (ℕ → ℤ) → Text → Option ℤ
unfolding digits_value
unsigned_value sign cs = elim (digits_value 0 true cs) [ none ↦ none | some n ↦ some (sign n) ]

-- What stands behind the spaces: a sign, if there is one, and the digits.
unfoldable pub signed_value : Text → Option ℤ
unfolding unsigned_value negated
signed_value [] = none
signed_value (c ∷ cs) =
    if c == b'-'
    then unsigned_value negated cs
    else if c == b'+'
    then unsigned_value pos cs
    else unsigned_value pos (c ∷ cs)

-- `int(text)`
unfoldable pub parse_int : Text → Result ℤ
unfolding signed_value skip_spaces or_value_error
parse_int cs = or_value_error (signed_value (skip_spaces cs))

-- The decimal digits of `n` in front of `cs`; the fuel is the number itself.
unfoldable pub decimal_loop : ℕ → ℕ → Text → Text
decimal_loop zero n cs = (b'0' + n % 10) ∷ cs
decimal_loop (suc fuel) n cs =
    let rest = decimal_loop fuel (n / 10) ((b'0' + n % 10) ∷ cs) in
    if ltb n 10 then (b'0' + n) ∷ cs else rest

unfoldable pub decimal : ℕ → Text
unfolding decimal_loop
decimal n = decimal_loop n n []

-- `str(n)`
unfoldable pub int_text : ℤ → Text
unfolding decimal
int_text (pos n) = decimal n
int_text (negsuc n) = b'-' ∷ decimal (suc n)

unfoldable pub hex_value : ℕ → Option ℕ
hex_value c =
    if leb b'0' c && leb c b'9'
    then some (c - b'0')
    else if leb b'a' c && leb c b'f'
    then some (c - b'a' + 10)
    else if leb b'A' c && leb c b'F'
    then some (c - b'A' + 10)
    else none

-- `unhexlify`
unfoldable pub unhexlify : Text → Option Bytes
unfolding hex_value
unhexlify [] = some []
unhexlify (c ∷ []) = none
unhexlify (c ∷ d ∷ cs) =
    let rest = unhexlify cs in
    elim (hex_value c) [
      | none ↦ none
      | some high ↦ elim (hex_value d) [
        | none ↦ none
        | some low ↦ elim rest [ none ↦ none | some bs ↦ some ((16 * high + low) ∷ bs) ]
      ]
    ]

-- `hexlify(bytes).decode("ascii").upper()`
unfoldable pub upper_hex_digit : ℕ → ℕ
upper_hex_digit n = if ltb n 10 then b'0' + n else b'A' + (n - 10)

unfoldable pub upper_hexlify : Bytes → Text
unfolding upper_hex_digit
upper_hexlify [] = []
upper_hexlify (b ∷ bs) = upper_hex_digit (b / 16) ∷ upper_hex_digit (b % 16) ∷ upper_hexlify bs

-- `int.from_bytes` and `int.to_bytes`, in big-endian order
unfoldable pub be_value : Bytes → ℕ
be_value [] = 0
be_value (b ∷ bs) = b * 256 ^ length bs + be_value bs

unfoldable pub be_bytes : ℕ → ℕ → Bytes
be_bytes zero v = []
be_bytes (suc n) v = (v / 256 ^ n) % 256 ∷ be_bytes n v
