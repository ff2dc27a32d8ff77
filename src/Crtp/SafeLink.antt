-- ===== src/Crtp/SafeLink.antt =====
-- The safe link mode of aiocflib/crtp/drivers/radio.py: `_SafeLinkState`, its negotiation, and what a
-- reboot of the Crazyflie does to it. An event is a call of one of the state's methods.
pub mod Counters
use aiocflib.Prelude.{
  ℕ, zero, suc, ◌+◌, ◌-◌, bit_and, Bool, true, false, ◌&&◌, not, List, [], ◌∷◌, Option, none, some,
  Result, ok, err, ◌==◌, if◌then◌else◌, Bytes, bytes_eq,
}
use aiocflib.Crtp.Packet.{CrtpPacket, to_bytes, safe_link}

-- `Acknowledgment` of the radio: whether the packet was acknowledged, and the data that came with it.
pub record Acknowledgment : Type 0 where
  pub ack : Bool
  pub payload : Bytes

pub record SafeLinkState : Type 0 where
  pub up : ℕ
  pub down : ℕ
  pub enabled : Bool
  pub acquired : Bool

abbrev pub init : SafeLinkState
init = record { up = 8; down = 4; enabled = false; acquired = false }

unfoldable pub enable : SafeLinkState → SafeLinkState
enable s = if not s.enabled then record s { enabled = true } else s

unfoldable pub disable : SafeLinkState → SafeLinkState
disable s = if s.enabled then record s { enabled = false } else s

same : Bool → Bool → Bool
same true b = b
same false b = not b

unfoldable pub set_acquired : Bool → SafeLinkState → SafeLinkState
unfolding same
set_acquired value s =
    if same s.acquired value
    then s
    else if value
    then record s { up = 0; down = 0; acquired = true }
    else record s { up = 8; down = 4; acquired = false }

unfoldable pub notify_acquired : SafeLinkState → SafeLinkState
unfolding set_acquired
notify_acquired = set_acquired true

unfoldable pub notify_lost : SafeLinkState → SafeLinkState
unfolding set_acquired
notify_lost = set_acquired false

-- `packet.to_bytes(safelink_bits=self._up + self._down)`
unfoldable pub encode : SafeLinkState → CrtpPacket → Result Bytes
encode s packet = to_bytes packet (s.up + s.down)

-- `response.data and response.data[0] & 0x04 == self._down`
unfoldable pub confirms : Bytes → ℕ → Bool
confirms [] down = false
confirms (b ∷ bs) down = bit_and b 0x04 == down

unfoldable pub update : Acknowledgment → SafeLinkState → SafeLinkState
unfolding confirms
update response s = if not s.acquired then s else if not response.ack then s else record s {
  up = 8 - s.up;
  down = if confirms response.payload s.down then 4 - s.down else s.down;
}

-- `RadioDriver.notify_rebooted`; the pause between the calls is left out.
unfoldable pub notify_rebooted : SafeLinkState → SafeLinkState
unfolding enable disable notify_lost
notify_rebooted s = if not s.enabled then s else enable (notify_lost (disable s))

-- `CRTPPacket.safe_link().to_bytes()`
abbrev pub safe_link_packet : Bytes
safe_link_packet = 0xFF ∷ 5 ∷ 1 ∷ []

-- `response and response.data == safe_link_packet`
unfoldable pub echoes : Option Acknowledgment → Bool
unfolding bytes_eq
echoes none = false
echoes (some response) = bytes_eq response.payload safe_link_packet

-- `_try_to_acquire_safe_link_mode`: at most `n` packets, each with the response that it gets from the
-- radio; a missing entry is no response. The count is that of the packets sent.
try_to_acquire_loop : ℕ → List (Option Acknowledgment) → SafeLinkState → Bool × ℕ × SafeLinkState
try_to_acquire_loop zero responses s = (false, 0, s)
try_to_acquire_loop (suc n) [] s =
    let (done, sent, s') = try_to_acquire_loop n [] s in (done, suc sent, s')
try_to_acquire_loop (suc n) (r ∷ rest) s = elim (echoes r) [
  | true ↦ (true, 1, notify_acquired s)
  | false ↦ let (done, sent, s') = try_to_acquire_loop n rest s in (done, suc sent, s')
]

unfoldable pub try_to_acquire :
    List (Option Acknowledgment) → SafeLinkState → Bool × ℕ × SafeLinkState
unfolding try_to_acquire_loop
try_to_acquire = try_to_acquire_loop 10

pub data Event : Type 0 where
  enables disables acquires loses reboots : Event
  updates : Acknowledgment → Event

unfoldable pub step : Event → SafeLinkState → SafeLinkState
unfolding enable disable notify_acquired notify_lost notify_rebooted update
step enables s = enable s
step disables s = disable s
step acquires s = notify_acquired s
step loses s = notify_lost s
step reboots s = notify_rebooted s
step (updates response) s = update response s
