-- ===== src/Crtp/Packet/Fields.antt =====
-- The fields of a packet's header byte: the setters of `CRTPPacket` write their own bits and keep the
-- others, and every packet that the class makes has a header byte and a body of bytes.
use aiocflib.Prelude.{
  ℕ, ◌+◌, ◌*◌, ◌/◌, ◌%◌, ◌<◌, bit_and, bit_or, ◌≡◌, refl, List, [], ◌∷◌, Option, none, some, ok,
  ltb, ltb→lt, IsByte, All, Bytes, Bool-cases, inl, inr, bind-eq-ok, Error, of_ok, arith,
}
use aiocflib.Prelude.Bits.{agreeing, agreeing_rows, agree_below, agree_below_both}
use aiocflib.Crtp.Port.{CrtpPort, to_port_member}
use aiocflib.Crtp.Packet.{
  CrtpPacket, DataLike, null, bytes, text, items, other, byte_items, to_bytes_object, latin_1,
  channel_bits, port_bits, with_channel, with_port, with_legacy_bits, channel, set_channel, port,
  set_port, set_data, header_of, new,
}

-- The header byte in plain arithmetic.
pub channel_bits_lem : (h : ℕ) → h < 256 → channel_bits h ≡ h % 4
unfolding agreeing agreeing_rows channel_bits
channel_bits_lem = agree_below 256 channel_bits (λ h. h % 4) refl

pub port_bits_lem : (h : ℕ) → h < 256 → port_bits h ≡ h / 16
unfolding agreeing agreeing_rows port_bits
port_bits_lem = agree_below 256 port_bits (λ h. h / 16) refl

channel_table : (h v : ℕ) → h < 256 → v < 4 → bit_or (bit_and h 0xFC) v ≡ h / 4 * 4 + v
unfolding agreeing agreeing_rows
channel_table =
    agree_below_both 256 4 (λ h v. bit_or (bit_and h 0xFC) v) (λ h v. h / 4 * 4 + v) refl

pub with_channel_lem : (h v : ℕ) → h < 256 → with_channel h v ≡ h / 4 * 4 + v % 4
unfolding with_channel
with_channel_lem h v k = channel_table h (v % 4) k (omega arith)

port_table : (h v : ℕ) → h < 256 → v < 16 → bit_or (bit_and h 0x0F) (v * 16) ≡ v * 16 + h % 16
unfolding agreeing agreeing_rows
port_table =
    agree_below_both 256 16 (λ h v. bit_or (bit_and h 0x0F) (v * 16)) (λ h v. v * 16 + h % 16) refl

pub with_port_lem : (h v : ℕ) → h < 256 → with_port h v ≡ v % 16 * 16 + h % 16
unfolding with_port
with_port_lem h v k = port_table h (v % 16) k (omega arith)

legacy_table : (h : ℕ) → h < 256 → bit_or h 12 ≡ h / 16 * 16 + 12 + h % 4
unfolding agreeing agreeing_rows
legacy_table = agree_below 256 (λ h. bit_or h 12) (λ h. h / 16 * 16 + 12 + h % 4) refl

pub with_legacy_bits_lem : (h : ℕ) → with_legacy_bits h ≡ h % 256 / 16 * 16 + 12 + h % 4
unfolding with_legacy_bits
with_legacy_bits_lem h = omega (arith, legacy_table (h % 256) (omega arith))

pub record IsPacket (p : CrtpPacket) : Type 0 where
  pub header_byte : p.header < 256
  pub body_bytes : All IsByte p.body

-- On a header byte, `port = value` makes the port `value` and keeps the channel, the two bits of the
-- link and the data.
pub set_port_fields :
    (p : CrtpPacket) (v : ℕ)
    → IsPacket p
    → v < 16
    → (port_bits (set_port p v).header ≡ v)
      × (channel (set_port p v) ≡ channel p)
      × ((set_port p v).header / 4 % 4 ≡ p.header / 4 % 4)
      × ((set_port p v).body ≡ p.body)
unfolding set_port channel
set_port_fields p v w h =
    let e = with_port_lem p.header v w.header_byte in
    let small : with_port p.header v < 256 = omega (arith, e) in
    (
      omega (arith, e, port_bits_lem (with_port p.header v) small),
      omega (
        arith,
        e,
        channel_bits_lem (with_port p.header v) small,
        channel_bits_lem p.header w.header_byte,
      ),
      omega (arith, e),
      refl,
    )

-- On a header byte, `channel = value` makes the channel `value` and keeps the port, the two bits of
-- the link and the data.
pub set_channel_fields :
    (p : CrtpPacket) (v : ℕ)
    → IsPacket p
    → v < 4
    → (channel (set_channel p v) ≡ v)
      × (port_bits (set_channel p v).header ≡ port_bits p.header)
      × ((set_channel p v).header / 4 % 4 ≡ p.header / 4 % 4)
      × ((set_channel p v).body ≡ p.body)
unfolding set_channel channel
set_channel_fields p v w h =
    let e = with_channel_lem p.header v w.header_byte in
    let small : with_channel p.header v < 256 = omega (arith, e) in
    (
      omega (arith, e, channel_bits_lem (with_channel p.header v) small),
      omega (
        arith,
        e,
        port_bits_lem (with_channel p.header v) small,
        port_bits_lem p.header w.header_byte,
      ),
      omega (arith, e),
      refl,
    )

-- Every header byte names a port: the getter never raises.
pub port_total : (p : CrtpPacket) → IsPacket p → (r : CrtpPort) × (port p ≡ ok r)
unfolding port
port_total p w =
    to_port_member (port_bits p.header) (omega (arith, port_bits_lem p.header w.header_byte))

-- Data of which a packet can be made: what is already a bytes object holds bytes.
abbrev pub IsData : DataLike → Type 0
IsData (bytes bs) = All IsByte bs
IsData null = Unit
IsData (text cs) = Unit
IsData (items xs) = Unit
IsData other = Unit

abbrev pub IsDataOption : Option DataLike → Type 0
IsDataOption none = Unit
IsDataOption (some v) = IsData v

byte_items-IsByte : (e : Error) (xs : List ℕ) (bs : Bytes) → byte_items e xs ≡ ok bs → All IsByte bs
unfolding byte_items
byte_items-IsByte e [] bs h = of_ok (All IsByte) h tt
byte_items-IsByte e (x ∷ xs) bs h = elim (Bool-cases (ltb x 256)) [
  | inl small ↦
      let (cs, r, q) = bind-eq-ok (byte_items e xs) (λ ys. ok (x ∷ ys)) (rw small at h) in
      of_ok (All IsByte) q (ltb→lt x 256 small, byte_items-IsByte e xs cs r)
  | inr large ↦ absurd (ground arith)
]

header_of-lt : (header port : Option ℕ) (c : ℕ) → (header_of header port c).header < 256
unfolding header_of
header_of-lt (some h) port c = omega (arith, with_legacy_bits_lem h)
header_of-lt none (some p) c = omega (arith, with_port_lem 0 p, with_channel_lem (with_port 0 p) c)
header_of-lt none none c = omega arith

header_of-empty : (header port : Option ℕ) (c : ℕ) → All IsByte (header_of header port c).body
unfolding header_of
header_of-empty (some h) port c = tt
header_of-empty none (some p) c = tt
header_of-empty none none c = tt

set_data-IsPacket :
    (p : CrtpPacket) (v : DataLike) {q : CrtpPacket}
    → p.header < 256
    → IsData v
    → set_data p v ≡ ok q
    → IsPacket q
unfolding set_data
set_data-IsPacket p null h d e = of_ok IsPacket e (record { header_byte = h; body_bytes = tt })
set_data-IsPacket p (bytes bs) h d e = of_ok IsPacket e (record { header_byte = h; body_bytes = d })
set_data-IsPacket p (text cs) h d e =
    let (bs, r, q) = bind-eq-ok (latin_1 cs) (λ ys. ok (record p { body = ys })) e in
    of_ok IsPacket q
      (record { header_byte = h; body_bytes = byte_items-IsByte _ cs bs (unfold latin_1 in r) })
set_data-IsPacket p (items xs) h d e =
    let (bs, r, q) = bind-eq-ok (to_bytes_object xs) (λ ys. ok (record p { body = ys })) e in
    of_ok IsPacket q (record {
      header_byte = h;
      body_bytes = byte_items-IsByte _ xs bs (unfold to_bytes_object in r);
    })
set_data-IsPacket p other h d e = absurd (ground arith)

-- Whatever header, port, channel and data the constructor is given, the packet that it makes has a
-- header byte and a body of bytes.
pub new-IsPacket :
    (header : Option ℕ) (value : Option DataLike) (port : Option ℕ) (c : ℕ) (p : CrtpPacket)
    → IsDataOption value
    → new header value port c ≡ ok p
    → IsPacket p
unfolding new
new-IsPacket header none port c p d e = of_ok IsPacket e (record {
  header_byte = header_of-lt header port c;
  body_bytes = header_of-empty header port c;
})
new-IsPacket header (some v) port c p d e =
    set_data-IsPacket (header_of header port c) v (header_of-lt header port c) d e
