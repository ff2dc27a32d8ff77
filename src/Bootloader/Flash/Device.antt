-- ===== src/Bootloader/Flash/Device.antt =====
-- What `read_flash` and `write_flash` rely on of a target: the documented answers of the bootloader to the
-- commands that read the flash memory, load the buffer and write pages of the buffer to the flash memory.
use aiocflib.Prelude.{
  ℕ, ◌+◌, ◌*◌, ◌/◌, ◌%◌, ◌^◌, ◌≤◌, ◌<◌, ◌≡◌, ◌==◌, false, [], ◌∷◌, ◌++◌, ok, Bytes, length, slice,
  splice, le_bytes, arith, pack_uint_fits,
}
use native.Mathlib.Nat.{div-lt_iff_lt-mul, mod-lt}
use aiocflib.Crtp.Command.{raw}
use aiocflib.Bootloader.{BootloaderTargetType, nrf51, stm32, BootloaderTarget, target_id}
use aiocflib.Bootloader.Link.{Link, run_bootloader_command, send_bootloader_packet}
use aiocflib.Bootloader.Flash.{
  place_command, read_flash_command, load_buffer_command, write_flash_command, at_address, divmod,
  write_params, write_command,
}

-- The bytes of a command with a page and an offset.
abbrev pub place : ℕ → ℕ → ℕ → ℕ → Bytes
place id command page offset =
    le_bytes 1 id ++ (le_bytes 1 command ++ (le_bytes 2 page ++ le_bytes 2 offset))

-- The bytes of the command that writes pages, and of its parameters.
abbrev pub write_bytes : ℕ → Bytes
write_bytes id = le_bytes 1 id ++ le_bytes 1 write_flash_command

abbrev pub write_parameters : ℕ → ℕ → Bytes
write_parameters start pages = le_bytes 2 0 ++ (le_bytes 2 start ++ le_bytes 2 pages)

pub record FlashDevice (S : Type 0) (link : Link S) (t : BootloaderTarget) : Type 0 where
  pub flash : S → Bytes
  pub buffer : S → Bytes
  -- a read is answered by up to 25 bytes, fewer at the end of the flash memory, and changes no memory
  pub read_answer :
      (s : S) (page offset : ℕ)
      → page < 2 ^ 16
      → offset < t.page_size
      → (run_bootloader_command link
          (raw (place (target_id t.id) read_flash_command page offset))
          []
          s).0
        ≡ ok (slice (page * t.page_size + offset) 25 (flash s))
  pub read_keeps :
      (s : S) (page offset : ℕ)
      → flash
          (run_bootloader_command link
            (raw (place (target_id t.id) read_flash_command page offset))
            []
            s).1
        ≡ flash s
  -- up to 25 bytes that are loaded are then in the buffer
  pub load_answer :
      (s : S) (page offset : ℕ) (bs : Bytes)
      → page < 2 ^ 16
      → offset < t.page_size
      → length bs ≤ 25
      → page * t.page_size + offset + length bs ≤ length (buffer s)
      → (send_bootloader_packet link
          (raw (place (target_id t.id) load_buffer_command page offset ++ bs))
          s).0
        ≡ ok tt
  pub load_buffer :
      (s : S) (page offset : ℕ) (bs : Bytes)
      → page < 2 ^ 16
      → offset < t.page_size
      → length bs ≤ 25
      → page * t.page_size + offset + length bs ≤ length (buffer s)
      → buffer
          (send_bootloader_packet link
            (raw (place (target_id t.id) load_buffer_command page offset ++ bs))
            s).1
        ≡ splice (page * t.page_size + offset) bs (buffer s)
  pub load_keeps :
      (s : S) (page offset : ℕ) (bs : Bytes)
      → flash
          (send_bootloader_packet link
            (raw (place (target_id t.id) load_buffer_command page offset ++ bs))
            s).1
        ≡ flash s
  -- pages at the front of the buffer that are written are then in the flash memory, and still in the buffer
  pub write_answer :
      (s : S) (start pages : ℕ)
      → start < 2 ^ 16
      → pages < 2 ^ 16
      → pages * t.page_size ≤ length (buffer s)
      → (start + pages) * t.page_size ≤ length (flash s)
      → (run_bootloader_command link
          (raw (write_bytes (target_id t.id)))
          (write_parameters start pages)
          s).0
        ≡ ok (1 ∷ 0 ∷ [])
  pub write_pages :
      (s : S) (start pages : ℕ)
      → start < 2 ^ 16
      → pages < 2 ^ 16
      → pages * t.page_size ≤ length (buffer s)
      → (start + pages) * t.page_size ≤ length (flash s)
      → flash
          (run_bootloader_command link
            (raw (write_bytes (target_id t.id)))
            (write_parameters start pages)
            s).1
        ≡ splice (start * t.page_size) (slice 0 (pages * t.page_size) (buffer s)) (flash s)
  pub write_keeps :
      (s : S) (start pages : ℕ)
      → buffer
          (run_bootloader_command link
            (raw (write_bytes (target_id t.id)))
            (write_parameters start pages)
            s).1
        ≡ buffer s

pub place_fits :
    (id command page offset : ℕ)
    → id < 256
    → command < 256
    → page < 2 ^ 16
    → offset < 2 ^ 16
    → place_command id command page offset ≡ ok (place id command page offset)
unfolding place_command
place_fits id command page offset h k l m = rw (
  pack_uint_fits 1 id (omega arith),
  pack_uint_fits 1 command (omega arith),
  pack_uint_fits 2 page (omega arith),
  pack_uint_fits 2 offset (omega arith),
)

target_id-lt : (type : BootloaderTargetType) → target_id type < 256
unfolding target_id
target_id-lt nrf51 = omega arith
target_id-lt stm32 = omega arith

-- The numbers of a target that the commands can address.
pub record IsAddressable (t : BootloaderTarget) : Type 0 where
  pub positive : 0 < t.page_size
  pub small : t.page_size ≤ 2 ^ 16
  pub buffered : 0 < t.buffer_pages
  pub few : t.buffer_pages < 2 ^ 16

module _ (t : BootloaderTarget) (a : IsAddressable t) where
  pub at_address_fits :
      (command address : ℕ)
      → command < 256
      → address < 2 ^ 16 * t.page_size
      → at_address t command address
        ≡ ok (place (target_id t.id) command (address / t.page_size) (address % t.page_size))
  unfolding at_address divmod
  at_address_fits command address h k =
      let nonzero : (t.page_size == 0) ≡ false = ground (arith, a.positive) in
      let page = (div-lt_iff_lt-mul a.positive).1 k in
      let offset = mod-lt address a.positive in
      rw nonzero (
        place_fits (target_id t.id) command (address / t.page_size) (address % t.page_size)
          (target_id-lt t.id) h page (omega (arith, offset, a.small)))

pub write_command_fits :
    (t : BootloaderTarget) → write_command t ≡ ok (write_bytes (target_id t.id))
unfolding write_command
write_command_fits t = rw (
  pack_uint_fits 1 (target_id t.id) (target_id-lt t.id),
  pack_uint_fits 1 write_flash_command (omega arith),
)

pub write_params_fits :
    (start pages : ℕ)
    → start < 2 ^ 16
    → pages < 2 ^ 16
    → write_params start pages ≡ ok (write_parameters start pages)
unfolding write_params
write_params_fits start pages h k = rw (
  pack_uint_fits 2 0 (omega arith),
  pack_uint_fits 2 start (omega arith),
  pack_uint_fits 2 pages (omega arith),
)
