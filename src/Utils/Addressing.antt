-- ===== src/Utils/Addressing.antt =====
-- aiocflib/utils/addressing.py: the data rates and the addresses of radios.
pub mod Numerals
pub mod Digits
pub mod Addresses
pub mod Spaces
pub mod Uris
use aiocflib.Prelude.{
  ℕ, zero, suc, ◌+◌, ◌-◌, ◌*◌, ◌/◌, ◌%◌, ◌^◌, Bool, true, false, ◌&&◌, not, List, [], ◌∷◌, ◌++◌,
  Option, none, some, Result, ok, err, bind, value_error, type_error, index_error, overflow_error,
  ltb, leb, ◌==◌, if◌then◌else◌, Bytes, bytes_eq, length, replicate, get_elem?,
}
use aiocflib.Prelude.Integers.{ℤ, pos, negsuc, to_nat}
use aiocflib.Crazyflie.Names.{Text}
use aiocflib.Utils.Addressing.Numerals.{
  parse_int, int_text, unhexlify, upper_hexlify, be_value, be_bytes,
}

abbrev pub default_radio_address : Bytes
default_radio_address = 0xE7 ∷ 0xE7 ∷ 0xE7 ∷ 0xE7 ∷ 0xE7 ∷ []

pub data CrazyradioDataRate : Type 0 where
  dr_250kps dr_1mps dr_2mps : CrazyradioDataRate

-- What `from_string` takes.
pub data DataRateLike : Type 0 where
  rate : CrazyradioDataRate → DataRateLike
  number : ℤ → DataRateLike
  spelled : Text → DataRateLike

-- `str.upper`, where it matters here: the long s is the only letter outside ASCII that becomes one of the
-- letters of the rates.
unfoldable pub upper : Text → Text
upper [] = []
upper (c ∷ cs) =
    (if leb b'a' c && leb c b'z' then c - 32 else if c == 383 then b'S' else c) ∷ upper cs

unfoldable pub one_of : List Text → Text → Bool
unfolding bytes_eq
one_of [] text = false
one_of (t ∷ ts) text = let rest = one_of ts text in if bytes_eq t text then true else rest

abbrev names_250kps : List Text
names_250kps =
    (b'2' ∷ b'5' ∷ b'0' ∷ b'K' ∷ [])
    ∷ (b'2' ∷ b'5' ∷ b'0' ∷ b'K' ∷ b'P' ∷ b'S' ∷ [])
    ∷ (b'2' ∷ b'5' ∷ b'0' ∷ b'K' ∷ b'B' ∷ b'P' ∷ b'S' ∷ [])
    ∷ []

-- "1M", "1MPS" and "1MBPS", and with another digit.
abbrev names_mps : ℕ → List Text
names_mps d =
    (d ∷ b'M' ∷ []) ∷ (d ∷ b'M' ∷ b'P' ∷ b'S' ∷ []) ∷ (d ∷ b'M' ∷ b'B' ∷ b'P' ∷ b'S' ∷ []) ∷ []

unfoldable pub spelled_rate : Text → Result CrazyradioDataRate
unfolding one_of
spelled_rate text =
    if one_of names_250kps text
    then ok dr_250kps
    else if one_of (names_mps b'1') text
    then ok dr_1mps
    else if one_of (names_mps b'2') text
    then ok dr_2mps
    else err value_error

unfoldable pub data_rate_from_string : DataRateLike → Result CrazyradioDataRate
unfolding spelled_rate upper
data_rate_from_string (rate r) = ok r
data_rate_from_string (number (pos n)) =
    if n == 0
    then ok dr_250kps
    else if n == 1
    then ok dr_1mps
    else if n == 2
    then ok dr_2mps
    else err value_error
data_rate_from_string (number (negsuc n)) = err value_error
data_rate_from_string (spelled text) = spelled_rate (upper text)

unfoldable pub data_rate_text : CrazyradioDataRate → Text
data_rate_text dr_250kps = b'2' ∷ b'5' ∷ b'0' ∷ b'K' ∷ []
data_rate_text dr_1mps = b'1' ∷ b'M' ∷ []
data_rate_text dr_2mps = b'2' ∷ b'M' ∷ []

-- What `to_radio_address` takes.
pub data AddressLike : Type 0 where
  numbered : ℤ → AddressLike
  raw : Bytes → AddressLike
  text : Text → AddressLike

-- `to_bytes(5, byteorder="big")` of a number that is not negative
unfoldable pub address_bytes : ℕ → Result Bytes
unfolding be_bytes
address_bytes v = if ltb v (256 ^ 5) then ok (be_bytes 5 v) else err overflow_error

-- `RadioAddressSpace.DEFAULT.get_address_for`, for a number up to 255.
unfoldable pub default_address_for : ℕ → Result Bytes
unfolding address_bytes be_value
default_address_for n = address_bytes (be_value (0xE7 ∷ 0xE7 ∷ 0xE7 ∷ 0xE7 ∷ 0 ∷ []) + n)

unfoldable pub address_of_number : ℤ → Result Bytes
unfolding default_address_for
address_of_number (pos n) = if leb n 255 then default_address_for n else err type_error
address_of_number (negsuc n) = err type_error

-- A bytes object of length 5, or one that may be filled up.
unfoldable pub filled : Bytes → Bool → Option Bytes
filled bs allow_prefix =
    if length bs == 5
    then some bs
    else if ltb (length bs) 5 && allow_prefix
    then some (bs ++ replicate (5 - length bs) 0)
    else none

abbrev pub or_type_error : Option Bytes → Result Bytes
or_type_error none = err type_error
or_type_error (some bs) = ok bs

unfoldable pub number_address : Text → Result Bytes
unfolding parse_int address_of_number
number_address cs = bind (parse_int cs) address_of_number

-- A text of even length that can be unhexlified is a bytes object from then on, so that it is never read as
-- a number.
unfoldable pub to_radio_address : AddressLike → Bool → Result Bytes
unfolding address_of_number filled number_address unhexlify
to_radio_address (numbered n) allow_prefix = address_of_number n
to_radio_address (raw bs) allow_prefix = or_type_error (filled bs allow_prefix)
to_radio_address (text cs) allow_prefix =
    if length cs % 2 == 0
    then elim (unhexlify cs) [
      | none ↦ number_address cs
      | some bs ↦ or_type_error (filled bs allow_prefix)
    ]
    else number_address cs
