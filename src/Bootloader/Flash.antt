-- ===== src/Bootloader/Flash.antt =====
-- Reading and writing the flash memory of a target: the methods of `BootloaderTarget` of
-- aiocflib/bootloader/target.py. Printing is left out. An `IOError` without a number has the number 0.
pub mod Reading
pub mod Device
pub mod Pages
pub mod Filling
pub mod Flushing
pub mod Joining
pub mod Writing
pub mod RoundTrip
use aiocflib.Prelude.{
  ℕ, zero, suc, ◌+◌, ◌-◌, ◌*◌, ◌/◌, ◌%◌, Bool, true, false, not, List, [], ◌∷◌, ◌++◌, Option, none,
  some, Result, ok, err, bind, io_error, value_error, assertion_error, zero_division_error, ltb,
  leb, ◌==◌, if◌then◌else◌, Bytes, bytes_eq, length, take, slice, pack_uint, ◌||◌,
}
use mathlib.Core.Option
use aiocflib.Prelude.Integers.{ℤ, pos, negsuc, minus, to_nat}
use aiocflib.Prelude.Exec.{Exec, pure, raise, lift, ◌>>=◌, ◌>>◌}
use aiocflib.Utils.Chunks.{chunkify}
use aiocflib.Crtp.Command.{raw}
use aiocflib.Crazyflie.Names.{Text}
use aiocflib.Bootloader.{
  BootloaderTargetType, target_id, BootloaderTarget, buffer_size, firmware_address, flash_size,
}
use aiocflib.Bootloader.Link.{Link, run_bootloader_command, send_bootloader_packet}

abbrev pub load_buffer_command : ℕ
load_buffer_command = 0x14

abbrev pub read_buffer_command : ℕ
read_buffer_command = 0x15

abbrev pub write_flash_command : ℕ
write_flash_command = 0x18

abbrev pub read_flash_command : ℕ
read_flash_command = 0x1C

abbrev pub load_buffer_chunk_size : ℕ
load_buffer_chunk_size = 25

abbrev pub read_flash_chunk_size : ℕ
read_flash_chunk_size = 25

-- `divmod`
unfoldable pub divmod : ℕ → ℕ → Result (ℕ × ℕ)
divmod a b = if b == 0 then err zero_division_error else ok (a / b, a % b)

-- `Struct("<BBHH").pack`
unfoldable pub place_command : ℕ → ℕ → ℕ → ℕ → Result Bytes
place_command id command page offset = bind (pack_uint 1 id) (λ a. bind (pack_uint 1 command) (λ b.
    bind (pack_uint 2 page) (λ c. bind (pack_uint 2 offset) (λ d. ok (a ++ (b ++ (c ++ d)))))))

-- A function to call with the number of bytes, or a progress bar, which is first told the total.
pub data ProgressHandler (S : Type 0) : Type 0 where
  silent : ProgressHandler S
  function : (ℕ → Exec S (Unit {0})) → ProgressHandler S
  bar : (ℤ → Exec S (Unit {0})) → (ℕ → Exec S (Unit {0})) → ProgressHandler S

-- What `write_firmware` takes.
pub data Firmware : Type 0 where
  file : Text → Firmware
  contents : Bytes → Firmware

module _ {S : Type 0} where
  unfoldable pub reset : ProgressHandler S → ℤ → Exec S (Unit {0})
  reset silent total = pure tt
  reset (function f) total = pure tt
  reset (bar r u) total = r total

  unfoldable pub report : ProgressHandler S → ℕ → Exec S (Unit {0})
  report silent n = pure tt
  report (function f) n = f n
  report (bar r u) n = u n

-- What the answer to a flash request says.
unfoldable pub flash_status : Bytes → Result (Unit {0})
flash_status [] = err (io_error 0)
flash_status (done ∷ []) = err (io_error 0)
flash_status (done ∷ status ∷ bs) =
    if ltb 0 status || not (ltb 0 done) then err (io_error 0) else ok tt

-- `Struct("<HHH").pack`
unfoldable pub write_params : ℕ → ℕ → Result Bytes
write_params start num_pages =
    bind (pack_uint 2 0)
      (λ a. bind (pack_uint 2 start) (λ b. bind (pack_uint 2 num_pages) (λ c. ok (a ++ (b ++ c)))))

module _ (t : BootloaderTarget) where
  -- A command with a page and an offset, for an address.
  unfoldable pub at_address : ℕ → ℕ → Result Bytes
  unfolding divmod place_command target_id
  at_address command address =
      bind (divmod address t.page_size)
        (λ (page, offset). place_command (target_id t.id) command page offset)

  -- A negative length stands for the rest of the flash memory.
  unfoldable pub amount : ℤ → ℕ → ℤ
  unfolding minus flash_size
  amount (pos n) address = pos n
  amount (negsuc n) address = minus (flash_size t) address

  -- `ceil(size / page_size)`
  unfoldable pub pages_for : ℕ → ℕ
  pages_for size = (size + t.page_size - 1) / t.page_size

  -- `Struct("<BB").pack`
  unfoldable pub write_command : Result Bytes
  unfolding target_id
  write_command =
      bind (pack_uint 1 (target_id t.id))
        (λ a. bind (pack_uint 1 write_flash_command) (λ b. ok (a ++ b)))

module _ {S : Type 0} (link : Link S) (t : BootloaderTarget) where
  -- The body of the loop of `read_flash`.
  unfoldable pub read_piece : ProgressHandler S → ℕ → Exec S Bytes
  unfolding at_address run_bootloader_command report
  read_piece on_progress address = do
    command ← lift (at_address t read_flash_command address)
    bs ← run_bootloader_command link (raw command) []
    report on_progress (length bs)
    pure bs

  -- The loop, on fuel: the result is `none` if it runs out of fuel.
  unfoldable pub read_flash_loop : ℕ → ProgressHandler S → ℕ → ℕ → Exec S (Option Bytes)
  unfolding read_piece
  read_flash_loop zero on_progress address to_read = pure (if to_read == 0 then some [] else none)
  read_flash_loop (suc fuel) on_progress address to_read =
      if to_read == 0 then pure (some []) else (do
        bs ← read_piece on_progress address
        if ltb (length bs) read_flash_chunk_size then pure (some bs) else (do
          more ← read_flash_loop fuel on_progress (address + length bs) (to_read - length bs)
          pure (Option.map (λ cs. bs ++ cs) more)))

  -- A round that goes on reads 25 bytes at least, so as many rounds as bytes are enough.
  unfoldable pub read_flash : ℤ → ℤ → ProgressHandler S → Exec S (Option Bytes)
  unfolding read_flash_loop reset to_nat amount
  read_flash (negsuc n) len on_progress = raise value_error
  read_flash (pos address) len on_progress =
      let to_read : ℤ = amount t len address in
      reset on_progress to_read
      >> read_flash_loop (to_nat to_read) on_progress address (to_nat to_read)

  unfoldable pub read_firmware : ℤ → ProgressHandler S → Exec S (Option Bytes)
  unfolding read_flash firmware_address
  read_firmware len on_progress = read_flash (pos (firmware_address t)) len on_progress

  -- The first loop of `_fill_buffer_with`.
  unfoldable pub load_loop : ProgressHandler S → Bytes → List (ℕ × ℕ) → Exec S (Unit {0})
  unfolding at_address send_bootloader_packet report
  load_loop on_progress bs [] = pure tt
  load_loop on_progress bs ((start, size) ∷ rest) = do
    command ← lift (at_address t load_buffer_command start)
    send_bootloader_packet link (raw (command ++ slice start size bs))
    report on_progress size
    load_loop on_progress bs rest

  -- Its second loop: how many chunks are not in the buffer as they should be.
  unfoldable pub validate_loop : Bytes → List (ℕ × ℕ) → Exec S ℕ
  unfolding at_address run_bootloader_command bytes_eq
  validate_loop bs [] = pure 0
  validate_loop bs ((start, size) ∷ rest) = do
    command ← lift (at_address t read_buffer_command start)
    observed ← run_bootloader_command link (raw command) []
    errors ← validate_loop bs rest
    pure (if bytes_eq (take size observed) (slice start size bs) then errors else suc errors)

  unfoldable pub fill_buffer_with : Bytes → Bool → ProgressHandler S → Exec S (Unit {0})
  unfolding load_loop validate_loop buffer_size
  fill_buffer_with bs validate on_progress =
      if ltb (buffer_size t) (length bs) then raise assertion_error else (do
        chunks ← lift (chunkify 0 (length bs) load_buffer_chunk_size)
        load_loop on_progress bs chunks
        if validate
            then (do
              errors ← validate_loop bs chunks
              if errors == 0 then pure tt else raise (io_error 0))
            else pure tt)

  unfoldable pub flush_buffer_to_flash : ℕ → ℕ → Exec S (Unit {0})
  unfolding divmod pages_for write_command write_params run_bootloader_command flash_status
  flush_buffer_to_flash address size = do
    (start, remainder) ← lift (divmod address t.page_size)
    lift (if remainder == 0 then ok tt else err assertion_error)
    command ← lift (write_command t)
    params ← lift (write_params start (pages_for t size))
    result ← run_bootloader_command link (raw command) params
    lift (flash_status result)

  unfoldable pub write_flash_loop : ProgressHandler S → Bytes → ℕ → List (ℕ × ℕ) → Exec S (Unit {0})
  unfolding fill_buffer_with flush_buffer_to_flash
  write_flash_loop on_progress bs address [] = pure tt
  write_flash_loop on_progress bs address ((start, size) ∷ rest) = do
    fill_buffer_with (slice start size bs) false on_progress
    flush_buffer_to_flash address size
    write_flash_loop on_progress bs (address + size) rest

  unfoldable pub write_flash : ℕ → Bytes → ProgressHandler S → Exec S (Unit {0})
  unfolding reset write_flash_loop buffer_size divmod
  write_flash address bs on_progress = do
    (page, offset) ← lift (divmod address t.page_size)
    if offset == 0
        then (do
          reset on_progress (pos (length bs))
          chunks ← lift (chunkify 0 (length bs) (buffer_size t))
          write_flash_loop on_progress bs address chunks)
        else raise value_error

  unfoldable pub write_firmware : Firmware → ProgressHandler S → Exec S (Unit {0})
  unfolding write_flash firmware_address
  write_firmware (file path) on_progress = do
    bs ← link.read_file path
    write_flash (firmware_address t) bs on_progress
  write_firmware (contents bs) on_progress = write_flash (firmware_address t) bs on_progress
