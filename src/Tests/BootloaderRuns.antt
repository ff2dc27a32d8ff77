-- ===== src/Tests/BootloaderRuns.antt =====
-- The theorems on the bootloader at concrete inputs.
use aiocflib.Prelude.{
  ℕ, ◌+◌, ◌*◌, ◌^◌, ◌<◌, ◌≡◌, ◌≢◌, refl, ap, ap₂, replicate, [], ◌∷◌, ◌++◌, Option, none, some, ok,
  err, Bytes, length, slice, splice, drop, le_value, le_bytes, le_value-le_bytes, struct_error,
  arith,
}
use aiocflib.Prelude.Integers.{pos, negsuc}
use aiocflib.Prelude.Exec.{Exec}
use aiocflib.Crtp.Packet.{CrtpPacket}
use aiocflib.Crtp.Command.{Request, CommandLike, one, raw, parts, handle_data_argument}
use aiocflib.Bootloader.{BootloaderTarget, stm32, cf2, target_id, buffer_size, flash_size}
use aiocflib.Bootloader.Link.{
  Link, run_bootloader_command, send_bootloader_packet, bootloader_request, bootloader_packet,
}
use aiocflib.Bootloader.Flash.{
  silent, function, read_flash, write_flash, read_flash_command, load_buffer_command, pages_for,
}
use aiocflib.Bootloader.Flash.Device.{FlashDevice, IsAddressable, place}
use aiocflib.Bootloader.Flash.Reading.{whole_chunks, read_flash-ends, read_flash-contents}
use aiocflib.Bootloader.Flash.Writing.{write_flash-contents}

-- A target with a buffer of two pages of 16 bytes and with five pages of flash memory.
abbrev small_target : BootloaderTarget
small_target = record {
  id = stm32;
  protocol_version = cf2;
  page_size = 16;
  buffer_pages = 2;
  flash_pages = 5;
  start_page = 1;
  cpu_id = [];
}

-- Its flash memory and its buffer.
record Memories : Type 0 where
  flash : Bytes
  buffer : Bytes

-- The bytes of a command, which is always a bytes object here.
abbrev command_bytes : Option CommandLike → Bytes
command_bytes none = []
command_bytes (some (one n)) = []
command_bytes (some (raw bs)) = bs
command_bytes (some (parts ps)) = []

-- The address in a command with a page and an offset.
addressed : Bytes → ℕ
unfolding le_value
addressed bs = le_value (slice 2 2 bs) * 16 + le_value (slice 4 2 bs)

-- A request without parameters is a read, and one with parameters writes pages.
run : Request → Exec Memories Bytes
unfolding addressed le_value
run r s = elim r.payload [
  | [] ↦ (ok (slice (addressed (command_bytes r.command)) 25 s.flash), s)
  | b ∷ bs ↦ (
    ok (1 ∷ 0 ∷ []),
    record s {
      flash =
          splice (le_value (slice 2 2 (b ∷ bs)) * 16)
            (slice 0 (le_value (slice 4 2 (b ∷ bs)) * 16) s.buffer) s.flash;
    },
  )
]

load : CrtpPacket → Exec Memories (Unit {0})
unfolding addressed
load q s = (ok tt, record s { buffer = splice (addressed q.body) (drop 6 q.body) s.buffer })

abbrev memory_link : Link Memories
memory_link = record {
  run_command = run;
  send_packet = load;
  read_file = λ path s. (err struct_error, s);
}

addressed-place :
    (command page offset : ℕ) (bs : Bytes)
    → page < 2 ^ 16
    → offset < 16
    → addressed (place (target_id stm32) command page offset ++ bs) ≡ page * 16 + offset
unfolding addressed le_bytes le_value target_id
addressed-place command page offset bs h k = omega (arith, h, k)

small_device : FlashDevice Memories memory_link small_target
unfolding run_bootloader_command send_bootloader_packet bootloader_request bootloader_packet
    handle_data_argument run load le_bytes target_id
small_device = record {
  flash = λ s. s.flash;
  buffer = λ s. s.buffer;
  read_answer = λ s page offset h k.
      ap (λ n. ok (slice n 25 s.flash)) (addressed-place read_flash_command page offset [] h k);
  read_keeps = λ s page offset. refl;
  load_answer = λ s page offset bs h k l m. refl;
  load_buffer = λ s page offset bs h k l m.
      ap (λ n. splice n bs s.buffer) (addressed-place load_buffer_command page offset bs h k);
  load_keeps = λ s page offset bs. refl;
  write_answer = λ s start pages h k l m. refl;
  write_pages = λ s start pages h k l m.
      ap₂ (λ x y. splice (x * 16) (slice 0 (y * 16) s.buffer) s.flash)
        (le_value-le_bytes 2 start (omega (arith, h)))
        (le_value-le_bytes 2 pages (omega (arith, k)));
  write_keeps = λ s start pages. refl;
}

small_target-IsAddressable : IsAddressable small_target
small_target-IsAddressable = record {
  positive = omega arith;
  small = omega arith;
  buffered = omega arith;
  few = omega arith;
}

abbrev erased : Memories
erased = record { flash = replicate 80 255; buffer = replicate 32 0 }

-- Three full buffers would not fit; this is one, and a part of a page.
abbrev firmware : Bytes
firmware = replicate 35 1

three_pages : pages_for small_target 35 ≡ 3
unfolding pages_for
three_pages = refl

buffer_bytes : buffer_size small_target ≡ 32
unfolding buffer_size
buffer_bytes = refl

flash_bytes : flash_size small_target ≡ 80
unfolding flash_size
flash_bytes = refl

write_flash-contents_example :
    ((write_flash memory_link small_target 16 firmware silent erased).0 ≡ ok tt)
    × ((rest : Bytes) × (length rest < 16)
        × ((write_flash memory_link small_target 16 firmware silent erased).1.flash
            ≡ splice 16 (firmware ++ rest) (replicate 80 255)))
unfolding small_device
write_flash-contents_example =
    write_flash-contents memory_link small_target small_target-IsAddressable small_device 16
      firmware erased refl (omega (arith, buffer_bytes)) (omega (arith, three_pages)) (omega arith)

read_flash-contents_example :
    ((n : ℕ)
      → ((read_flash memory_link small_target (pos 70) (pos n) silent erased).0
          ≡ ok (some (slice 70 (whole_chunks n) (replicate 80 255))))
        × ((read_flash memory_link small_target (pos 70) (pos n) silent erased).1.flash
            ≡ replicate 80 255))
    × ((k : ℕ)
        → 80 ≡ flash_size small_target
        → ((read_flash memory_link small_target (pos 70) (negsuc k) silent erased).0
            ≡ ok (some (drop 70 (replicate 80 255))))
          × ((read_flash memory_link small_target (pos 70) (negsuc k) silent erased).1.flash
              ≡ replicate 80 255))
unfolding small_device
read_flash-contents_example =
    read_flash-contents memory_link small_target small_target-IsAddressable small_device 70 erased
      (omega arith) (omega arith)

-- A bootloader that answers nothing but empty packets.
abbrev mute_link : Link (Unit {0})
mute_link = record {
  run_command = λ r s. (ok [], s);
  send_packet = λ q s. (ok tt, s);
  read_file = λ path s. (ok [], s);
}

read_flash-ends_example :
    (read_flash mute_link small_target (pos 0) (negsuc 0) (function (λ n s. (ok tt, s))) tt).0
    ≢ ok none
read_flash-ends_example =
    read_flash-ends mute_link small_target (pos 0) (negsuc 0) (function (λ n s. (ok tt, s))) tt
