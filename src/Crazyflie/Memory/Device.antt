-- ===== src/Crazyflie/Memory/Device.antt =====
-- What `read` and `write` rely on of the device: the documented answers of the memory service to a read
-- and to a write of one packet, within the memory.
use aiocflib.Prelude.{
  ℕ, ◌+◌, ◌^◌, ◌≤◌, ◌<◌, ◌≡◌, ◌≢◌, [], ◌∷◌, ◌++◌, ok, Bytes, length, slice, splice, le_bytes,
  pack_uint_fits, arith,
}
use aiocflib.Prelude.Exec.{Exec}
use aiocflib.Crtp.Command.{Request}
use aiocflib.Crazyflie.Memory.{addressing, read_request, write_request}

-- The five bytes that address a place of a memory.
abbrev pub place : ℕ → ℕ → Bytes
place index addr = le_bytes 1 index ++ le_bytes 4 addr

pub record MemoryDevice (S : Type 0) : Type 0 where
  pub run_command : Request → Exec S Bytes
  -- the bytes of the memory with the given index
  pub contents : S → ℕ → Bytes
  -- a read of up to 20 bytes is answered by the status 0 and these bytes
  pub read_answer :
      (s : S) (index addr size : ℕ)
      → index < 256
      → addr < 2 ^ 32
      → size ≤ 20
      → addr + size ≤ length (contents s index)
      → (run_command (read_request (place index addr) size) s).0
        ≡ ok (0 ∷ slice addr size (contents s index))
  pub read_keeps :
      (s : S) (index addr size : ℕ) (j : ℕ)
      → contents (run_command (read_request (place index addr) size) s).1 j ≡ contents s j
  -- a write of up to 25 bytes is answered by the status 0, and the bytes are then there
  pub write_answer :
      (s : S) (index addr : ℕ) (bs : Bytes)
      → index < 256
      → addr < 2 ^ 32
      → length bs ≤ 25
      → addr + length bs ≤ length (contents s index)
      → (run_command (write_request (place index addr) bs) s).0 ≡ ok (0 ∷ [])
  pub write_contents :
      (s : S) (index addr : ℕ) (bs : Bytes)
      → index < 256
      → addr < 2 ^ 32
      → length bs ≤ 25
      → addr + length bs ≤ length (contents s index)
      → contents (run_command (write_request (place index addr) bs) s).1 index
        ≡ splice addr bs (contents s index)
  pub write_keeps :
      (s : S) (index addr : ℕ) (bs : Bytes) (j : ℕ)
      → index < 256
      → j ≢ index
      → contents (run_command (write_request (place index addr) bs) s).1 j ≡ contents s j

pub addressing_fits :
    (index addr : ℕ) → index < 256 → addr < 2 ^ 32 → addressing index addr ≡ ok (place index addr)
unfolding addressing
addressing_fits index addr h k =
    rw (pack_uint_fits 1 index (omega arith), pack_uint_fits 4 addr (omega arith))
