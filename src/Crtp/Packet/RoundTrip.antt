-- ===== src/Crtp/Packet/RoundTrip.antt =====
-- Packets as bytes: what `to_bytes` writes `from_bytes` reads back, up to the two bits of the link.
use aiocflib.Prelude.{
  ℕ, ◌+◌, ◌*◌, ◌/◌, ◌%◌, ◌<◌, bit_and, bit_or, ◌≡◌, ◌↔◌, refl, ap, true, [], ◌∷◌, ok, lt→ltb, Bytes,
  arith,
}
use aiocflib.Prelude.Bits.{agreeing, agreeing_rows, agree_below, agree_below_both}
use aiocflib.Crtp.Port.{to_port}
use aiocflib.Crtp.Packet.{
  CrtpPacket, bytes, channel, port, from_bytes, to_bytes, is_null, with_legacy_bits, port_bits,
  channel_bits,
}
use aiocflib.Crtp.Packet.Fields.{IsPacket, with_legacy_bits_lem, channel_bits_lem, port_bits_lem}

-- The first byte: port and channel of the header, and the two bits of the link that are passed in.
first_byte :
    (h k : ℕ) → h < 256 → k < 4 → bit_or (bit_and h 0xF3) (k * 4) ≡ h / 16 * 16 + k * 4 + h % 4
unfolding agreeing agreeing_rows
first_byte =
    agree_below_both 256 4 (λ h k. bit_or (bit_and h 0xF3) (k * 4))
      (λ h k. h / 16 * 16 + k * 4 + h % 4) refl

-- On a packet, `to_bytes` with two link bits `k` writes the data behind a byte with the port, `k` and
-- the channel.
pub to_bytes_lem :
    (p : CrtpPacket) (k : ℕ)
    → IsPacket p
    → k < 4
    → to_bytes p (k * 4) ≡ ok ((p.header / 16 * 16 + k * 4 + p.header % 4) ∷ p.body)
unfolding to_bytes
to_bytes_lem p k w h =
    let first = p.header / 16 * 16 + k * 4 + p.header % 4 in
    let small : first < 256 = omega (arith, w.header_byte) in
    rw (first_byte p.header k w.header_byte h, lt→ltb first 256 small)

reread : ℕ → Bytes → CrtpPacket
reread b bs = record { header = with_legacy_bits b; body = bs }

from_bytes_lem : (b : ℕ) (bs : Bytes) → from_bytes (bytes (b ∷ bs)) ≡ ok (reread b bs)
unfolding from_bytes reread
from_bytes_lem b bs = refl

-- Whatever link bits a packet is written with, reading the bytes gives a packet with the same port,
-- the same channel and the same data.
pub from_bytes-to_bytes :
    (p : CrtpPacket) (k : ℕ)
    → IsPacket p
    → k < 4
    → (bs : Bytes) × (q : CrtpPacket) × (to_bytes p (k * 4) ≡ ok bs)
      × (from_bytes (bytes bs) ≡ ok q)
      × (port q ≡ port p)
      × (channel q ≡ channel p)
      × (q.body ≡ p.body)
unfolding port channel reread
from_bytes-to_bytes p k w h =
    let b = p.header / 16 * 16 + k * 4 + p.header % 4 in
    let e = with_legacy_bits_lem b in
    let small : with_legacy_bits b < 256 = omega (arith, e) in
    let same_port : port_bits (with_legacy_bits b) ≡ port_bits p.header = omega (
      arith,
      e,
      port_bits_lem (with_legacy_bits b) small,
      port_bits_lem p.header w.header_byte,
      w.header_byte,
    ) in
    let same_channel : channel_bits (with_legacy_bits b) ≡ channel_bits p.header = omega (
      arith,
      e,
      channel_bits_lem (with_legacy_bits b) small,
      channel_bits_lem p.header w.header_byte,
      w.header_byte,
    ) in
    (
      b ∷ p.body,
      reread b p.body,
      to_bytes_lem p k w h,
      from_bytes_lem b p.body,
      ap to_port same_port,
      same_channel,
      refl,
    )

null_table : (h : ℕ) → h < 256 → bit_and h 0xF3 ≡ h / 16 * 16 + h % 4
unfolding agreeing agreeing_rows
null_table = agree_below 256 (λ h. bit_and h 0xF3) (λ h. h / 16 * 16 + h % 4) refl

-- A packet is null exactly if its port is 15, its channel is 3 and it has no data.
pub is_null_iff :
    (p : CrtpPacket)
    → IsPacket p
    → is_null p ≡ true ↔ (port_bits p.header ≡ 15) × (channel p ≡ 3) × (p.body ≡ [])
unfolding is_null channel
is_null_iff p w = (
  λ e. ground (arith, ports, channels, null_table p.header, w.header_byte),
  λ (e, f, g). ground (arith, ports, channels, null_table p.header, w.header_byte, e, f, g),
)
  where
    ports : port_bits p.header ≡ p.header / 16
    ports = port_bits_lem p.header w.header_byte

    channels : channel_bits p.header ≡ p.header % 4
    channels = channel_bits_lem p.header w.header_byte
