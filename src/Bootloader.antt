-- ===== src/Bootloader.antt =====
-- aiocflib/bootloader/types.py and the value class `BootloaderTarget` of aiocflib/bootloader/target.py: the
-- targets of the bootloader and what it reports of them.
pub mod Link
pub mod Flash
pub mod Targets
use aiocflib.Prelude.{
  ℕ, ◌-◌, ◌*◌, ◌/◌, ◌+◌, Bool, true, false, ◌&&◌, List, [], ◌∷◌, Option, none, some, Result, ok,
  err, bind, value_error, struct_error, ltb, leb, ◌==◌, if◌then◌else◌, Bytes, bytes_eq, length,
  take, slice, drop, le_value, get_elem?,
}
use aiocflib.Prelude.Integers.{ℤ, minus, floor_div}
use aiocflib.Crazyflie.Names.{Text}

pub data BootloaderTargetType : Type 0 where
  nrf51 stm32 : BootloaderTargetType

unfoldable pub target_id : BootloaderTargetType → ℕ
target_id nrf51 = 0xFE
target_id stm32 = 0xFF

-- `_target_descriptions`
unfoldable pub description : BootloaderTargetType → Text
description nrf51 = b'n' ∷ b'R' ∷ b'F' ∷ b'5' ∷ b'1' ∷ []
description stm32 = b'S' ∷ b'T' ∷ b'M' ∷ b'3' ∷ b'2' ∷ []

-- `str.lower`, where it matters here: no letter but an ASCII one becomes one of the descriptions' letters.
unfoldable pub lower : Text → Text
lower [] = []
lower (c ∷ cs) = (if leb b'A' c && leb c b'Z' then c + 32 else c) ∷ lower cs

-- What `from_string` takes.
pub data TargetLike : Type 0 where
  target : BootloaderTargetType → TargetLike
  name : Text → TargetLike

unfoldable pub first_described : Text → List BootloaderTargetType → Result BootloaderTargetType
unfolding lower description bytes_eq
first_described text [] = err value_error
first_described text (t ∷ ts) =
    let rest = first_described text ts in
    if bytes_eq (lower (description t)) (lower text) then ok t else rest

unfoldable pub from_string : TargetLike → Result BootloaderTargetType
unfolding first_described
from_string (target t) = ok t
from_string (name text) = first_described text (nrf51 ∷ stm32 ∷ [])

pub data BootloaderProtocolVersion : Type 0 where
  cf1_v0 cf1_v1 cf2 unknown : BootloaderProtocolVersion

unfoldable pub to_protocol_version : ℕ → Result BootloaderProtocolVersion
to_protocol_version n =
    if n == 0x00
    then ok cf1_v0
    else if n == 0x01
    then ok cf1_v1
    else if n == 0x10
    then ok cf2
    else if n == 0xFF
    then ok unknown
    else err value_error

unfoldable pub is_cf2 : BootloaderProtocolVersion → Bool
is_cf2 cf1_v0 = false
is_cf2 cf1_v1 = false
is_cf2 cf2 = true
is_cf2 unknown = false

pub record BootloaderTarget : Type 0 where
  pub id : BootloaderTargetType
  pub protocol_version : BootloaderProtocolVersion
  pub page_size : ℕ
  pub buffer_pages : ℕ
  pub flash_pages : ℕ
  pub start_page : ℕ
  pub cpu_id : Bytes

-- The byte behind the struct, if there is one.
unfoldable pub protocol_version_of : Bytes → Result BootloaderProtocolVersion
unfolding to_protocol_version
protocol_version_of [] = ok unknown
protocol_version_of (b ∷ bs) = to_protocol_version b

-- `Struct("<HHHH12s")`: four numbers of two bytes and twelve bytes.
unfoldable pub from_bytes : BootloaderTargetType → Bytes → Result BootloaderTarget
unfolding protocol_version_of
from_bytes id bs =
    if ltb (length bs) 20
    then err struct_error
    else bind (protocol_version_of (drop 20 bs)) (λ version. ok (record {
      id = id;
      protocol_version = version;
      page_size = le_value (slice 0 2 bs);
      buffer_pages = le_value (slice 2 2 bs);
      flash_pages = le_value (slice 4 2 bs);
      start_page = le_value (slice 6 2 bs);
      cpu_id = slice 8 12 bs;
    }))

module _ (t : BootloaderTarget) where
  unfoldable pub buffer_size : ℕ
  buffer_size = t.buffer_pages * t.page_size

  unfoldable pub firmware_address : ℕ
  firmware_address = t.start_page * t.page_size

  unfoldable pub flash_size : ℕ
  flash_size = t.flash_pages * t.page_size

  unfoldable pub flash_size_in_kbytes : ℕ
  unfolding flash_size
  flash_size_in_kbytes = flash_size / 1024

  unfoldable pub max_firmware_size : ℤ
  unfolding flash_size firmware_address
  max_firmware_size = minus flash_size firmware_address

  unfoldable pub max_firmware_size_in_kbytes : ℤ
  unfolding max_firmware_size
  max_firmware_size_in_kbytes = floor_div max_firmware_size 1024
