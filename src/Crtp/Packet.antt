-- ===== src/Crtp/Packet.antt =====
-- `CRTPPacket` of aiocflib/crtp/crtpstack.py. The header byte holds the port in its upper four bits
-- and the channel in the lowest two; the two bits between belong to the link.
pub mod Fields
pub mod RoundTrip
use aiocflib.Prelude.{
  ℕ, zero, suc, ◌+◌, ◌-◌, ◌*◌, ◌/◌, ◌%◌, ◌≤◌, ◌<◌, bit_and, bit_or, ◌≡◌, refl, sym, ap, ◌∙◌, Bool,
  true, false, ◌&&◌, List, [], ◌∷◌, ◌++◌, Option, none, some, Result, ok, err, bind, Error,
  value_error, type_error, index_error, unicode_error, ltb, leb, ◌==◌, if◌then◌else◌, Bytes, IsByte,
  All, arith,
}
use aiocflib.Crtp.Port.{CrtpPort, to_port}

-- Objects from which the data of a packet is made; `other` is of a class that is not accepted.
pub data DataLike : Type 0 where
  null : DataLike
  bytes : Bytes → DataLike
  text : List ℕ → DataLike
  items : List ℕ → DataLike
  other : DataLike

pub record CrtpPacket : Type 0 where
  pub header : ℕ
  pub body : Bytes

-- A sequence of integers as bytes; the first that is no byte raises.
byte_items : Error → List ℕ → Result Bytes
byte_items e [] = ok []
byte_items e (x ∷ xs) =
    let rest = byte_items e xs in if ltb x 256 then bind rest (λ bs. ok (x ∷ bs)) else err e

-- `bytes(value)` of a sequence of integers.
unfoldable pub to_bytes_object : List ℕ → Result Bytes
unfolding byte_items
to_bytes_object = byte_items value_error

-- `value.encode("ISO-8859-1")`
latin_1 : List ℕ → Result Bytes
unfolding byte_items
latin_1 = byte_items unicode_error

-- The getters and setters of the two fields of the header byte. A mask of the low bits of a value of
-- any size is a remainder: `value & 0x03` is `value % 4`, and `(value << 4) & 0xF0` is
-- `value % 16 * 16`.
unfoldable pub channel_bits : ℕ → ℕ
channel_bits header = bit_and header 0x03

unfoldable pub port_bits : ℕ → ℕ
port_bits header = bit_and header 0xF0 / 16

unfoldable pub with_channel : ℕ → ℕ → ℕ
with_channel header value = bit_or (bit_and header 0xFC) (value % 4)

unfoldable pub with_port : ℕ → ℕ → ℕ
with_port header value = bit_or (bit_and header 0x0F) (value % 16 * 16)

-- `(value & 0xFF) | (0x3 << 2)`
unfoldable pub with_legacy_bits : ℕ → ℕ
with_legacy_bits value = bit_or (value % 256) 12

unfoldable pub channel : CrtpPacket → ℕ
unfolding channel_bits
channel p = channel_bits p.header

unfoldable pub set_channel : CrtpPacket → ℕ → CrtpPacket
unfolding with_channel
set_channel p value = record p { header = with_channel p.header value }

unfoldable pub port : CrtpPacket → Result CrtpPort
unfolding port_bits
port p = to_port (port_bits p.header)

unfoldable pub set_port : CrtpPacket → ℕ → CrtpPacket
unfolding with_port
set_port p value = record p { header = with_port p.header value }

unfoldable pub set_header : CrtpPacket → ℕ → CrtpPacket
unfolding with_legacy_bits
set_header p value = record p { header = with_legacy_bits value }

unfoldable pub set_data : CrtpPacket → DataLike → Result CrtpPacket
unfolding to_bytes_object latin_1
set_data p null = ok (record p { body = [] })
set_data p (bytes bs) = ok (record p { body = bs })
set_data p (text cs) = bind (latin_1 cs) (λ bs. ok (record p { body = bs }))
set_data p (items xs) = bind (to_bytes_object xs) (λ bs. ok (record p { body = bs }))
set_data p other = err type_error

-- The first byte of the data.
unfoldable pub command : CrtpPacket → Option ℕ
command p = elim p.body [ [] ↦ none | b ∷ bs ↦ some b ]

abbrev blank : CrtpPacket
blank = record { header = 0; body = [] }

-- The part of the constructor that fills in the header.
unfoldable pub header_of : Option ℕ → Option ℕ → ℕ → CrtpPacket
unfolding set_header set_channel set_port
header_of (some h) p c = set_header blank h
header_of none (some p) c = set_channel (set_port blank p) c
header_of none none c = blank

-- `CRTPPacket(header, data, port=port, channel=channel)`
unfoldable pub new : Option ℕ → Option DataLike → Option ℕ → ℕ → Result CrtpPacket
unfolding header_of set_data
new header none port channel = ok (header_of header port channel)
new header (some value) port channel = set_data (header_of header port channel) value

unfoldable pub from_bytes : DataLike → Result CrtpPacket
unfolding new
from_bytes null = err value_error
from_bytes (bytes []) = err index_error
from_bytes (bytes (b ∷ bs)) = new (some b) (some (bytes bs)) none 0
from_bytes (items []) = err index_error
from_bytes (items (x ∷ xs)) = new (some x) (some (items xs)) none 0
from_bytes (text []) = err index_error
from_bytes (text (c ∷ cs)) = err type_error
from_bytes other = err type_error

unfoldable pub null_packet : CrtpPacket
unfolding header_of
null_packet = header_of (some 0xFF) none 0

unfoldable pub safe_link : Bool → CrtpPacket
unfolding header_of
safe_link value = record (header_of (some 0xFF) none 0) {
  body = if value then 5 ∷ 1 ∷ [] else 5 ∷ 0 ∷ [];
}

is_empty : Bytes → Bool
is_empty [] = true
is_empty (b ∷ bs) = false

unfoldable pub is_null : CrtpPacket → Bool
unfolding is_empty
is_null p = bit_and p.header 0xF3 == 0xF3 && is_empty p.body

-- `bytes(((self._header & 0xF3) | safelink_bits,)) + self._data`
unfoldable pub to_bytes : CrtpPacket → ℕ → Result Bytes
to_bytes p safelink_bits =
    let first = bit_or (bit_and p.header 0xF3) safelink_bits in
    if ltb first 256 then ok (first ∷ p.body) else err value_error
